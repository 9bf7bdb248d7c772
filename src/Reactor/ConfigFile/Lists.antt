-- ===== src/Reactor/ConfigFile/Lists.antt =====
-- Values that hold a list, split at commas and tabs.
use rins.Prelude.{
  drop-drop, ℕ, zero, suc, ◌+◌, ◌≤◌, ◌<◌, ◌≡◌, refl, sym, ap, ◌∙◌, if◌then◌else◌, Bool, true, false,
  List, [], ◌∷◌, length, take, drop, none, some, Result, ok, fault, out_of_fuel, ◌>>=◌, Bool-cases,
  Option-cases, inl, inr, arith,
}
use rins.Reactor.Text.{Text}
use rins.Reactor.ConfigFile.{
  StrMap, is_sep, find_first, list_loop, get_string, get_string_list, add_first,
}

-- The pieces between runs of separators, read byte by byte; `behind` says that a separator stands
-- before the text.
unfoldable pub pieces : (behind : Bool) → Text → List Text
pieces true [] = []
pieces false [] = [] ∷ []
pieces behind (c ∷ s) =
    let rest = pieces (is_sep c) s in
    if is_sep c then (if behind then rest else [] ∷ rest) else add_first c rest

-- The loop over what is left of the text.
pieces_loop : ℕ → Text → Result (List Text)
pieces_loop zero s = fault out_of_fuel
pieces_loop (suc fuel) s = elim (find_first true s 0) [
  | none ↦ ok (s ∷ [])
  | some index ↦ elim (find_first false (drop index s) 0) [
    | none ↦ ok (take index s ∷ [])
    | some next ↦ do substrs ← pieces_loop fuel (drop (index + next) s); ok (take index s ∷ substrs)
  ]
]

find_first_shift :
    (wanted : Bool) (s : Text) (start : ℕ)
    → find_first wanted s start
      ≡ elim (find_first wanted s 0) [ none ↦ none | some i ↦ some (start + i) ]
unfolding find_first
find_first_shift true [] start = refl
find_first_shift false [] start = refl
find_first_shift true (c ∷ s) start =
    ground (arith, find_first_shift true s (start + 1), find_first_shift true s 1)
find_first_shift false (c ∷ s) start =
    ground (arith, find_first_shift false s (start + 1), find_first_shift false s 1)

list_loop-pieces_loop :
    (fuel : ℕ) (str : Text) (start : ℕ)
    → list_loop fuel str start ≡ pieces_loop fuel (drop start str)
unfolding list_loop pieces_loop
list_loop-pieces_loop zero str start = refl
list_loop-pieces_loop (suc fuel) str start =
    elim (Option-cases (find_first true (drop start str) 0)) [
      | inl e ↦ ground (arith, e, find_first_shift true (drop start str) start)
      | inr (i, e) ↦
          let s = drop i (drop start str) in
          elim (Option-cases (find_first false s 0)) [
            | inl f ↦ ground (
              arith,
              e,
              f,
              find_first_shift true (drop start str) start,
              find_first_shift false s (start + i),
              drop-drop i start str,
            )
            | inr (j, f) ↦ ground (
              arith,
              e,
              f,
              find_first_shift true (drop start str) start,
              find_first_shift false s (start + i),
              drop-drop i start str,
              list_loop-pieces_loop fuel str (start + i + j),
              drop-drop (i + j) start str,
            )
          ]
    ]

abbrev StopsAt : ℕ → Text → Type 0
StopsAt i s =
    (c : ℕ) × (t : Text) × (drop i s ≡ c ∷ t)
    × (is_sep c ≡ true)
    × (pieces false s ≡ take i s ∷ pieces true t)

StopsAt-cons : (c : ℕ) (s : Text) (i : ℕ) → is_sep c ≡ false → StopsAt i s → StopsAt (1 + i) (c ∷ s)
unfolding pieces add_first
StopsAt-cons c s i h (d, t, e, k, p) =
    let one : 1 + i ≡ suc i = omega arith in
    (d, t, ap (λ n. drop n (c ∷ s)) one ∙ e, k, rw one (ground (arith, h, p)))

find_first-StopsAt : (s : Text) (i : ℕ) → find_first true s 0 ≡ some i → StopsAt i s
unfolding find_first pieces
find_first-StopsAt [] i e = absurd (cc)
find_first-StopsAt (c ∷ s) i e = elim (Bool-cases (is_sep c)) [
  | inl h ↦ let here : i ≡ 0 = ground arith in rw here (c, s, refl, h, ground arith)
  | inr h ↦ elim (Option-cases (find_first true s 0)) [
    | inl f ↦ absurd (ground (arith, find_first_shift true s 1))
    | inr (j, f) ↦
        let next : i ≡ 1 + j = ground (arith, find_first_shift true s 1) in
        rw next (StopsAt-cons c s j h (find_first-StopsAt s j f))
  ]
]

pieces-none : (s : Text) → find_first true s 0 ≡ none → pieces false s ≡ s ∷ []
unfolding find_first pieces add_first
pieces-none [] e = refl
pieces-none (c ∷ s) e = ground (arith, find_first_shift true s 1, pieces-none s)

skipped-none : (s : Text) → find_first false s 0 ≡ none → pieces true s ≡ []
unfolding find_first pieces
skipped-none [] e = refl
skipped-none (c ∷ s) e = ground (arith, find_first_shift false s 1, skipped-none s)

skipped-some :
    (s : Text) (j : ℕ) → find_first false s 0 ≡ some j → pieces true s ≡ pieces false (drop j s)
unfolding find_first pieces
skipped-some [] j e = absurd (cc)
skipped-some (c ∷ s) j e = elim (Bool-cases (is_sep c)) [
  | inr h ↦ let here : j ≡ 0 = ground arith in rw here (ground arith)
  | inl h ↦ elim (Option-cases (find_first false s 0)) [
    | inl f ↦ absurd (ground (arith, find_first_shift false s 1))
    | inr (k, f) ↦
        let next : j ≡ suc k = ground (arith, find_first_shift false s 1) in
        rw next (ground (arith, skipped-some s k f))
  ]
]

length-drop-le : (n : ℕ) (s : Text) → length (drop n s) ≤ length s
length-drop-le zero s = omega arith
length-drop-le (suc n) [] = omega arith
length-drop-le (suc n) (c ∷ s) = omega (arith, length-drop-le n s)

left_after : (i j c : ℕ) (s t : Text) → drop i s ≡ c ∷ t → drop (i + (1 + j)) s ≡ drop j t
left_after i j c s t e =
    let one : 1 + j ≡ suc j = omega arith in
    sym (drop-drop (1 + j) i s) ∙ ap (drop (1 + j)) e ∙ ap (λ n. drop n (c ∷ t)) one

pieces_loop_lem : (fuel : ℕ) (s : Text) → length s < fuel → pieces_loop fuel s ≡ ok (pieces false s)
unfolding pieces_loop find_first
pieces_loop_lem zero s h = absurd (omega arith)
pieces_loop_lem (suc fuel) s h = elim (Option-cases (find_first true s 0)) [
  | inl e ↦ ground (arith, e, pieces-none s e)
  | inr (i, e) ↦
      let (c, t, tail, sep, p) = find_first-StopsAt s i e in
      let shift = find_first_shift false t 1 in
      elim (Option-cases (find_first false t 0)) [
        | inl f ↦ ground (arith, e, tail, sep, p, f, shift, skipped-none t f)
        | inr (j, f) ↦
            let left : drop (i + (1 + j)) s ≡ drop j t = left_after i j c s t tail in
            let size : length t < length s = omega (arith, ap length tail, length-drop-le i s) in
            let ih = pieces_loop_lem fuel (drop j t) (omega (arith, length-drop-le j t)) in
            ground (arith, e, tail, sep, p, f, shift, left, ih, skipped-some t j f)
      ]
]

-- get_string_list ends, for every value, and gives the pieces between the runs of separators,
-- without an empty piece for separators at the end but with one for separators at the start, as a
-- reading byte by byte does.
pub get_string_list-pieces :
    (section key : Text) (m : StrMap)
    → get_string_list section key m ≡ ok (pieces false (get_string section key [] m))
unfolding get_string_list
get_string_list-pieces section key m =
    let str = get_string section key [] m in
    list_loop-pieces_loop (suc (length str)) str 0
    ∙ pieces_loop_lem (suc (length str)) str (omega arith)
