-- ===== src/Reactor/ConfigFile/Numbers.antt =====
-- Decimal numbers in a configuration.
use rins.Prelude.{
  ℕ, ◌+◌, ◌*◌, ◌^◌, ◌≤◌, ◌<◌, ◌≡◌, refl, sym, ap, ◌∙◌, List, [], ◌∷◌, length, All, leb, ◌&&◌, ◌-◌,
  true, arith,
}
use native.Mathlib.Nat.{mul_assoc, mul_comm, add-mul, pow-suc}
use rins.Reactor.Text.{Text, first_not_empty, is_space}
use rins.Reactor.ConfigFile.{read_digits, read_signed, parse_number}

-- The number that digits stand for: each counts by its place.
unfoldable pub number : List ℕ → ℕ
number [] = 0
number (d ∷ ds) = d * 10 ^ length ds + number ds

abbrev pub AreDigits : List ℕ → Type 0
AreDigits = All (λ d. d ≤ 9)

-- The digits as they stand in a file.
unfoldable pub print_digits : List ℕ → Text
print_digits [] = []
print_digits (d ∷ ds) = (b'0' + d) ∷ print_digits ds

place_value : (n d p m : ℕ) → (n * 10 + d) * p + m ≡ n * (p * 10) + (d * p + m)
place_value n d p m = omega (arith, add-mul (n * 10) d p, mul_assoc n 10 p, mul_comm 10 p)

read_digits-print :
    (ds : List ℕ) (n : ℕ)
    → AreDigits ds
    → read_digits (print_digits ds) n ≡ n * 10 ^ length ds + number ds
unfolding read_digits print_digits number
read_digits-print [] n h = omega arith
read_digits-print (d ∷ ds) n h =
    let digit : (48 + d) - 48 ≡ d = omega arith in
    let goes_on : (leb 48 (48 + d) && leb (48 + d) 57) ≡ true = ground (arith, h.0) in
    rw (goes_on, digit)
      (read_digits-print ds (n * 10 + d) h.1
        ∙ place_value n d (10 ^ length ds) (number ds)
        ∙ ap (λ p. n * p + (d * 10 ^ length ds + number ds)) (sym (pow-suc 10 (length ds))))

-- The digits of a number below 2^32 are read as that number.
pub parse_number-print_digits :
    (ds : List ℕ) → AreDigits ds → number ds < 2 ^ 32 → parse_number (print_digits ds) ≡ number ds
unfolding parse_number read_signed first_not_empty is_space print_digits number
parse_number-print_digits [] h lt = refl
parse_number-print_digits (d ∷ ds) h lt =
    let same : read_digits (print_digits (d ∷ ds)) 0 ≡ number (d ∷ ds) =
      omega (arith, read_digits-print (d ∷ ds) 0 h) in
    ground (arith, same, h.0)
