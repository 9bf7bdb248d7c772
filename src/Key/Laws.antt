-- ===== src/Key/Laws.antt =====
-- What a key determines, and what is read back from it.
use rins.Prelude.{ℕ, ◌+◌, ◌-◌, ◌%◌, ◌^◌, ◌≤◌, ◌<◌, ◌≡◌, arith}
use rins.Key.{key_of, key_high, key_low}

-- Two pairs of 32-bit numbers have the same key only if they are equal, also where they stand for
-- negative ones.
pub key_of-injective :
    (a b c d : ℕ)
    → a < 2 ^ 32
    → b < 2 ^ 32
    → c < 2 ^ 32
    → d < 2 ^ 32
    → key_of a b ≡ key_of c d
    → (a ≡ c) × (b ≡ d)
unfolding key_of
key_of-injective a b c d ha hb hc hd e = ground arith

-- The low half of the key of two 32-bit numbers is the second one; the high half is the first one
-- if the second does not stand for a negative one, and one less than it, modulo 2^32, otherwise.
pub key_parts :
    (a b : ℕ)
    → a < 2 ^ 32
    → b < 2 ^ 32
    → (key_low (key_of a b) ≡ b)
      × (b < 2 ^ 31 → key_high (key_of a b) ≡ a)
      × (2 ^ 31 ≤ b → key_high (key_of a b) ≡ (a + 2 ^ 32 - 1) % 2 ^ 32)
unfolding key_of key_high key_low
key_parts a b ha hb = (ground arith, λ h. ground arith, λ h. ground arith)
