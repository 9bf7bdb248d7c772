-- ===== src/Prelude/Maps.antt =====
-- The program's `unordered_map` and `unordered_set` over integer keys: association lists and lists,
-- whose order is the iteration order of the table.
use Prim.Native.Nat.{ℕ}
use mathlib.Core.Path.{◌≡◌, refl}
use mathlib.Core.Bool.{Bool, false, ◌||◌}
use mathlib.Core.List.{List, [], ◌∷◌}
use mathlib.Core.Option.{Option, none, some}
use native.Mathlib.Omega.{arith}
use rins.Prelude.Tests.{◌==◌, if◌then◌else◌}

module _ {ℓ} {V : Type ℓ} where
  unfoldable pub find : ℕ → List (ℕ × V) → Option V
  find k [] = none
  find k ((j, v) ∷ m) = if j == k then some v else find k m

  -- `m[k] = v`
  unfoldable pub put : ℕ → V → List (ℕ × V) → List (ℕ × V)
  put k v [] = (k, v) ∷ []
  put k v ((j, w) ∷ m) = if j == k then (j, v) ∷ m else (j, w) ∷ put k v m

  -- `m.erase(k)`
  unfoldable pub remove : ℕ → List (ℕ × V) → List (ℕ × V)
  remove k [] = []
  remove k ((j, w) ∷ m) = if j == k then remove k m else (j, w) ∷ remove k m

  pub find-put :
      (j k : ℕ) (v : V) (m : List (ℕ × V))
      → find j (put k v m) ≡ (if k == j then some v else find j m)
  unfolding find put
  find-put j k v [] = refl
  find-put j k v ((i, w) ∷ m) = ground (arith, find-put j k v m)

  pub find-remove :
      (j k : ℕ) (m : List (ℕ × V)) → find j (remove k m) ≡ (if k == j then none else find j m)
  unfolding find remove
  find-remove j k [] = ground arith
  find-remove j k ((i, w) ∷ m) = ground (arith, find-remove j k m)

unfoldable pub contains : ℕ → List ℕ → Bool
contains k [] = false
contains k (j ∷ s) = (j == k) || contains k s

-- `s.insert(k)`
unfoldable pub insert : ℕ → List ℕ → List ℕ
insert k [] = k ∷ []
insert k (j ∷ s) = if j == k then j ∷ s else j ∷ insert k s

-- `s.erase(k)`
unfoldable pub erase : ℕ → List ℕ → List ℕ
erase k [] = []
erase k (j ∷ s) = if j == k then erase k s else j ∷ erase k s

pub contains-insert : (j k : ℕ) (s : List ℕ) → contains j (insert k s) ≡ (k == j) || contains j s
unfolding contains insert
contains-insert j k [] = refl
contains-insert j k (i ∷ s) = ground (arith, contains-insert j k s)

pub contains-erase :
    (j k : ℕ) (s : List ℕ) → contains j (erase k s) ≡ (if k == j then false else contains j s)
unfolding contains erase
contains-erase j k [] = ground arith
contains-erase j k (i ∷ s) = ground (arith, contains-erase j k s)
