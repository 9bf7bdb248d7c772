-- ===== src/Reactor/Text/Trim.antt =====
-- What trimming takes off.
use rins.Prelude.{
  ℕ, ◌+◌, ◌-◌, ◌≤◌, ◌≡◌, refl, sym, ap, ◌∙◌, ◌↔◌, if◌then◌else◌, true, List, [], ◌∷◌, ◌++◌, reverse,
  length, take, drop, take-append-drop, take-length-append, length-take, length-append,
  length-reverse, reverse-append, reverse-reverse, some, suc, All, arith,
}
use rins.Reactor.Text.{
  Text, text_eq, find, put, is_space, first_not_empty, trim_left, last_not_empty, trim_right, trim,
}

pub text_eq_iff : (s t : Text) → (text_eq s t ≡ true) ↔ (s ≡ t)
unfolding text_eq
text_eq_iff (c ∷ s) (d ∷ t) = ground (arith, text_eq_iff s t)
text_eq_iff _ _ = ground arith

module _ {ℓ} {V : Type ℓ} where
  pub find-put :
      (key k : Text) (v : V) (m : List (Text × V))
      → find k (put key v m) ≡ (if text_eq key k then some v else find k m)
  unfolding find put
  find-put key k v [] = refl
  find-put key k v ((j, w) ∷ m) =
      ground (arith, text_eq_iff key k, text_eq_iff j key, text_eq_iff j k, find-put key k v m)

-- The number of spaces in front.
unfoldable pub leading : Text → ℕ
leading [] = 0
leading (c ∷ s) = if is_space c then suc (leading s) else 0

first_not_empty_lem : (s : Text) (n : ℕ) → first_not_empty s n ≡ n + leading s
unfolding first_not_empty leading
first_not_empty_lem [] n = omega arith
first_not_empty_lem (c ∷ s) n = ground (arith, first_not_empty_lem s (n + 1))

last_not_empty_lem : (s : Text) (n : ℕ) → last_not_empty s n ≡ n - leading s
unfolding last_not_empty leading
last_not_empty_lem [] n = omega arith
last_not_empty_lem (c ∷ s) n = ground (arith, last_not_empty_lem s (n - 1))

leading-le : (s : Text) → leading s ≤ length s
unfolding leading
leading-le [] = omega arith
leading-le (c ∷ s) = ground (arith, leading-le s)

abbrev pub AreSpaces : Text → Type 0
AreSpaces = All (λ c. is_space c ≡ true)

taken-AreSpaces : (s : Text) → AreSpaces (take (leading s) s)
unfolding leading
taken-AreSpaces [] = tt
taken-AreSpaces (c ∷ s) = ground (arith, taken-AreSpaces s)

leading-dropped : (s : Text) → leading (drop (leading s) s) ≡ 0
unfolding leading
leading-dropped [] = refl
leading-dropped (c ∷ s) = ground (arith, leading-dropped s)

leading_front : (s t : Text) → leading (s ++ t) ≡ 0 → leading s ≡ 0
unfolding leading
leading_front [] t e = refl
leading_front (c ∷ s) t e = ground arith

pub trim_left_lem : (s : Text) → trim_left s ≡ drop (leading s) s
unfolding trim_left
trim_left_lem s =
    let all : first_not_empty s 0 ≡ leading s = omega (arith, first_not_empty_lem s 0) in
    ap (λ n. drop n s) all

pub trim_right_lem : (s : Text) → trim_right s ≡ reverse (drop (leading (reverse s)) (reverse s))
unfolding trim_right
trim_right_lem s =
    let r = reverse s in
    let k = leading r in
    let front = reverse (drop k r) in
    let parts : front ++ reverse (take k r) ≡ s =
      sym (reverse-append (take k r) (drop k r))
      ∙ ap reverse (take-append-drop k r)
      ∙ reverse-reverse s in
    let size : length s - k ≡ length front = omega (
      arith,
      ap length (take-append-drop k r),
      length-append (take k r) (drop k r),
      length-take k r (leading-le r),
      length-reverse s,
      length-reverse (drop k r),
    ) in
    ap (λ n. take n s) (last_not_empty_lem r (length s) ∙ size)
    ∙ ap (take (length front)) (sym parts)
    ∙ take-length-append front (reverse (take k r))

-- No space stands in front or at the end.
abbrev pub IsTight : Text → Type 0
IsTight s = (leading s ≡ 0) × (leading (reverse s) ≡ 0)

pub trim-IsTight : (s : Text) → IsTight s → trim s ≡ s
unfolding trim
trim-IsTight s h =
    let right : trim_right s ≡ s =
      trim_right_lem s ∙ ap (λ n. reverse (drop n (reverse s))) h.1 ∙ reverse-reverse s in
    ap trim_left right ∙ trim_left_lem s ∙ ap (λ n. drop n s) h.0
