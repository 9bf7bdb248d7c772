-- ===== src/Prelude/Faults.antt =====
-- How a call ends: with a value, or with the process stopped or its memory corrupted.
use mathlib.Core.Path.{◌≡◌, refl, subst}
use mathlib.Core.Logic.{◌⊎◌, inr}
use mathlib.Core.Bool.{Bool, true, false}

pub data Fault : Type 0 where
  -- a failed `assert`
  assertion : Fault
  -- a read or write outside the allocated block
  out_of_bounds : Fault
  -- a use of a null or dangling pointer, or of one that nothing has initialised
  bad_pointer : Fault
  -- `exit(1)`
  exited : Fault
  -- a loop that has used up its fuel; the theorems on each loop show how much is enough
  out_of_fuel : Fault

pub data Result {ℓ} (A : Type ℓ) : Type ℓ where
  fault : Fault → Result A
  ok : A → Result A

-- `check b e` goes on if the test holds, and ends in the fault otherwise.
abbrev pub check : (holds : Bool) → Fault → Result (Unit {0})
check false stop = fault stop
check true stop = ok tt

module _ {ℓ κ} {A : Type ℓ} {B : Type κ} where
  infixl 5 ◌>>=◌
  abbrev pub ◌>>=◌ : Result A → (A → Result B) → Result B
  fault stop >>= next = fault stop
  ok value >>= next = next value

  -- The value between two calls, of which the second returns one.
  pub >>=-eq-ok :
      (first : Result A) (next : A → Result B) (value : B)
      → (first >>= next) ≡ ok value
      → (mid : A) × (next mid ≡ ok value) × (first ≡ ok mid)
  >>=-eq-ok (fault stop) next value e = cc
  >>=-eq-ok (ok mid) next value e = (mid, e, refl)

infixl 5 ◌>>◌
abbrev pub ◌>>◌ {κ} : {B : Type κ} → Result (Unit {0}) → Result B → Result B
fault stop >> next = fault stop
ok u >> next = next

-- The call returns a value, which satisfies `P`.
abbrev pub Returns {ℓ} : {A : Type ℓ} → Result A → (A → Type 0) → Type 0
Returns (ok a) P = P a
Returns (fault e) P = ⊥

-- The call returns a value that satisfies `P`, or exits because memory has run out.
abbrev pub Ends {ℓ} : {A : Type ℓ} → Result A → (A → Type 0) → Type 0
Ends (ok a) P = P a
Ends (fault assertion) P = ⊥
Ends (fault out_of_bounds) P = ⊥
Ends (fault bad_pointer) P = ⊥
Ends (fault exited) P = Unit
Ends (fault out_of_fuel) P = ⊥

module _ {ℓ} {A : Type ℓ} where
  pub Returns-eq : (m : Result A) (P : A → Type 0) → Returns m P → (a : A) × (m ≡ ok a) × P a
  Returns-eq (ok a) P h = (a, refl, h)
  Returns-eq (fault e) P h = absurd h

  pub Returns->>= {κ} :
      {B : Type κ} (m : Result A) (f : A → Result B) (P : A → Type 0) (Q : B → Type 0)
      → Returns m P
      → ((a : A) → P a → Returns (f a) Q)
      → Returns (m >>= f) Q
  Returns->>= (ok a) f P Q h k = k a h
  Returns->>= (fault e) f P Q h k = absurd h

  pub Ends->>= {κ} :
      {B : Type κ} (m : Result A) (f : A → Result B) (P : A → Type 0) (Q : B → Type 0)
      → Ends m P
      → ((a : A) → P a → Ends (f a) Q)
      → Ends (m >>= f) Q
  Ends->>= (ok a) f P Q h k = k a h
  Ends->>= (fault exited) f P Q h k = tt
  Ends->>= (fault assertion) f P Q h k = absurd h
  Ends->>= (fault out_of_bounds) f P Q h k = absurd h
  Ends->>= (fault bad_pointer) f P Q h k = absurd h
  Ends->>= (fault out_of_fuel) f P Q h k = absurd h

  pub Ends_of_Returns : (m : Result A) (P : A → Type 0) → Returns m P → Ends m P
  Ends_of_Returns (ok a) P h = h
  Ends_of_Returns (fault e) P h = absurd h

  pub Returns-map :
      (m : Result A) (P Q : A → Type 0) → ((a : A) → P a → Q a) → Returns m P → Returns m Q
  Returns-map (ok a) P Q k h = k a h
  Returns-map (fault e) P Q k h = absurd h

  pub Ends-map : (m : Result A) (P Q : A → Type 0) → ((a : A) → P a → Q a) → Ends m P → Ends m Q
  Ends-map (ok a) P Q k h = k a h
  Ends-map (fault exited) P Q k h = tt
  Ends-map (fault assertion) P Q k h = absurd h
  Ends-map (fault out_of_bounds) P Q k h = absurd h
  Ends-map (fault bad_pointer) P Q k h = absurd h
  Ends-map (fault out_of_fuel) P Q k h = absurd h

-- Whatever value the call returns satisfies `P`.
abbrev pub IfReturns {ℓ} : {A : Type ℓ} → Result A → (A → Type 0) → Type 0
IfReturns (ok a) P = P a
IfReturns (fault e) P = Unit

module _ {ℓ} {A : Type ℓ} where
  pub IfReturns->>= {κ} :
      {B : Type κ} (m : Result A) (f : A → Result B) (P : A → Type 0) (Q : B → Type 0)
      → IfReturns m P
      → ((a : A) → P a → IfReturns (f a) Q)
      → IfReturns (m >>= f) Q
  IfReturns->>= (ok a) f P Q h k = k a h
  IfReturns->>= (fault e) f P Q h k = tt

  pub IfReturns-map :
      (m : Result A) (P Q : A → Type 0) → ((a : A) → P a → Q a) → IfReturns m P → IfReturns m Q
  IfReturns-map (ok a) P Q k h = k a h
  IfReturns-map (fault e) P Q k h = tt

  pub IfReturns-check :
      (holds : Bool) (stop : Fault) (m : Result A) (P : A → Type 0)
      → (holds ≡ true → IfReturns m P)
      → IfReturns (check holds stop >> m) P
  IfReturns-check true stop m P k = k refl
  IfReturns-check false stop m P k = tt

  pub IfReturns_any : (m : Result A) → IfReturns m (λ a. Unit {0})
  IfReturns_any (ok a) = tt
  IfReturns_any (fault e) = tt

  pub IfReturns-eq : (m : Result A) (P : A → Type 0) (a : A) → m ≡ ok a → IfReturns m P → P a
  IfReturns-eq m P a e h = subst (λ r. IfReturns r P) e h

pub Ends-both {ℓ} :
    {A : Type ℓ} (m : Result A) (P Q : A → Type 0) → Ends m P → Ends m Q → Ends m (λ a. P a × Q a)
Ends-both (ok a) P Q h k = (h, k)
Ends-both (fault exited) P Q h k = tt
Ends-both (fault assertion) P Q h k = absurd h
Ends-both (fault out_of_bounds) P Q h k = absurd h
Ends-both (fault bad_pointer) P Q h k = absurd h
Ends-both (fault out_of_fuel) P Q h k = absurd h

-- The call never returns: it ends in the given fault, or exits before because memory has run out.
abbrev pub FailsWith {ℓ} : {A : Type ℓ} → Fault → Result A → Type 0
FailsWith f (ok a) = ⊥
FailsWith f (fault e) = (e ≡ f) ⊎ (e ≡ exited)

module _ {ℓ κ} {A : Type ℓ} {B : Type κ} where
  pub FailsWith-first :
      (e : Fault) (m : Result A) (f : A → Result B) → FailsWith e m → FailsWith e (m >>= f)
  FailsWith-first e (ok a) f h = absurd h
  FailsWith-first e (fault d) f h = h

  pub FailsWith->>= :
      (e : Fault) (m : Result A) (f : A → Result B) (P : A → Type 0)
      → Ends m P
      → ((a : A) → P a → FailsWith e (f a))
      → FailsWith e (m >>= f)
  FailsWith->>= e (ok a) f P h k = k a h
  FailsWith->>= e (fault assertion) f P h k = absurd h
  FailsWith->>= e (fault out_of_bounds) f P h k = absurd h
  FailsWith->>= e (fault bad_pointer) f P h k = absurd h
  FailsWith->>= e (fault exited) f P h k = inr refl
  FailsWith->>= e (fault out_of_fuel) f P h k = absurd h

pub >>=-assoc {ℓ κ μ} :
    {A : Type ℓ} {B : Type κ} {C : Type μ} (m : Result A) (f : A → Result B) (g : B → Result C)
    → (m >>= λ a. f a >>= g) ≡ (m >>= f >>= g)
>>=-assoc (ok a) f g = refl
>>=-assoc (fault e) f g = refl
