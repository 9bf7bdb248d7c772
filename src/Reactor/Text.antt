-- ===== src/Reactor/Text.antt =====
-- The texts of reactor/src/config_file.cc, as their bytes, with the functions of the class that only
-- work on texts, and maps with texts as keys, of which the order is not used.
pub mod Trim
use rins.Prelude.{
  ℕ, ◌+◌, ◌-◌, ◌==◌, leb, if◌then◌else◌, Bool, true, false, ◌&&◌, ◌||◌, List, [], ◌∷◌, reverse,
  length, take, drop, Option, none, some,
}

abbrev pub Text : Type 0
Text = List ℕ

-- `==` of two strings
unfoldable pub text_eq : Text → Text → Bool
text_eq [] [] = true
text_eq (c ∷ s) (d ∷ t) = c == d && text_eq s t
text_eq _ _ = false

module _ {ℓ} {V : Type ℓ} where
  -- `m.find(key)`
  unfoldable pub find : Text → List (Text × V) → Option V
  find key [] = none
  find key ((k, v) ∷ m) = if text_eq k key then some v else find key m

  -- `m[key] = v`
  unfoldable pub put : Text → V → List (Text × V) → List (Text × V)
  put key v [] = (key, v) ∷ []
  put key v ((k, w) ∷ m) = if text_eq k key then (k, v) ∷ m else (k, w) ∷ put key v m

-- `isspace` of the C locale
unfoldable pub is_space : ℕ → Bool
is_space c = c == b' ' || (leb 9 c && leb c 13)

-- The loop of `trim_left`.
unfoldable pub first_not_empty : Text → ℕ → ℕ
first_not_empty [] n = n
first_not_empty (c ∷ s) n = if is_space c then first_not_empty s (n + 1) else n

-- `config_file::trim_left`
unfoldable pub trim_left : Text → Text
trim_left s = drop (first_not_empty s 0) s

-- The loop of `trim_right`, over the bytes from the last one on.
unfoldable pub last_not_empty : Text → ℕ → ℕ
last_not_empty [] n = n
last_not_empty (c ∷ s) n = if is_space c then last_not_empty s (n - 1) else n

-- `config_file::trim_right`
unfoldable pub trim_right : Text → Text
trim_right s = take (last_not_empty (reverse s) (length s)) s

-- `config_file::trim`
unfoldable pub trim : Text → Text
trim s = trim_left (trim_right s)

-- `s.find(c)`
unfoldable pub index_of : ℕ → Text → Option ℕ
index_of c [] = none
index_of c (d ∷ s) =
    if d == c then some 0 else elim (index_of c s) [ none ↦ none | some i ↦ some (i + 1) ]
