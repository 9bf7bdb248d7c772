-- ===== src/Reactor/Memory.antt =====
-- The bytes of a heap block, as a function of the index. The size of the block stands with its
-- owner, which checks every access against it.
use rins.Prelude.{
  ℕ, zero, suc, ◌+◌, ◌-◌, ◌≤◌, ◌<◌, ◌≡◌, refl, ap, ◌∙◌, List, [], ◌∷◌, ◌++◌, length, take, drop,
  ◌==◌, if◌then◌else◌, arith,
}

abbrev pub Memory : Type 0
Memory = ℕ → ℕ

-- What a fresh block holds is never read before it is written.
abbrev pub blank : Memory
blank i = 0

-- The `n` bytes from index `h` on.
unfoldable pub window : Memory → ℕ → ℕ → List ℕ
window m h zero = []
window m h (suc n) = m h ∷ window m (suc h) n

-- `memcpy(m + p, xs, length xs)`
unfoldable pub blit : Memory → ℕ → List ℕ → Memory
blit m p [] i = m i
blit m p (x ∷ xs) i = if p == i then x else blit m (suc p) xs i

pub window_at : (m : Memory) (h k n l : ℕ) → h ≡ k → n ≡ l → window m h n ≡ window m k l
window_at m h k n l e f = rw (e, f)

pub length-window : (m : Memory) (h n : ℕ) → length (window m h n) ≡ n
unfolding window
length-window m h zero = refl
length-window m h (suc n) = ap suc (length-window m (suc h) n)

-- Two blocks that agree on a range have the same window there.
pub window-congr :
    (m k : Memory) (h n : ℕ)
    → ((i : ℕ) → h ≤ i → i < h + n → m i ≡ k i)
    → window m h n ≡ window k h n
unfolding window
window-congr m k h zero e = refl
window-congr m k h (suc n) e =
    ap (λ x. x ∷ window m (suc h) n) (e h (omega arith) (omega arith))
    ∙ ap (◌∷◌ (k h)) (window-congr m k (suc h) n (λ i a b. e i (omega arith) (omega arith)))

pub blit_below : (m : Memory) (p : ℕ) (xs : List ℕ) (i : ℕ) → i < p → blit m p xs i ≡ m i
unfolding blit
blit_below m p [] i h = refl
blit_below m p (x ∷ xs) i h = ground (arith, blit_below m (suc p) xs i)

-- A window that lies before the written range keeps its bytes.
pub window-blit_before :
    (m : Memory) (h n p : ℕ) (xs : List ℕ) → h + n ≤ p → window (blit m p xs) h n ≡ window m h n
window-blit_before m h n p xs le =
    window-congr (blit m p xs) m h n (λ i a b. blit_below m p xs i (omega arith))

-- The written range holds what was written.
pub window-blit_self : (m : Memory) (p : ℕ) (xs : List ℕ) → window (blit m p xs) p (length xs) ≡ xs
unfolding window blit
window-blit_self m p [] = refl
window-blit_self m p (x ∷ xs) =
    ap (λ y. y ∷ window (blit m p (x ∷ xs)) (suc p) (length xs)) (ground arith)
    ∙ ap (◌∷◌ x) (
        window-congr (blit m p (x ∷ xs)) (blit m (suc p) xs) (suc p) (length xs)
          (λ i a b. ground arith)
        ∙ window-blit_self m (suc p) xs)

pub window-add : (m : Memory) (h n k : ℕ) → window m h (n + k) ≡ window m h n ++ window m (h + n) k
unfolding window
window-add m h zero k = ground (arith)
window-add m h (suc n) k =
    window_at m h h (suc n + k) (suc (n + k)) refl (omega arith)
    ∙ ap (◌∷◌ (m h)) (window-add m (suc h) n k ∙ ap (◌++◌ (window m (suc h) n)) shift)
  where
    shift : window m (suc h + n) k ≡ window m (h + suc n) k
    shift = window_at m (suc h + n) (h + suc n) k k (omega arith) refl

pub take-window : (m : Memory) (h n k : ℕ) → k ≤ n → take k (window m h n) ≡ window m h k
unfolding window
take-window m h n zero le = refl
take-window m h zero (suc k) le = absurd (omega arith)
take-window m h (suc n) (suc k) le = ap (◌∷◌ (m h)) (take-window m (suc h) n k (omega arith))

pub drop-window :
    (m : Memory) (h n k : ℕ) → k ≤ n → drop k (window m h n) ≡ window m (h + k) (n - k)
unfolding window
drop-window m h n zero le = ground arith
drop-window m h zero (suc k) le = absurd (omega arith)
drop-window m h (suc n) (suc k) le =
    drop-window m (suc h) n k (omega arith)
    ∙ window_at m (suc h + k) (h + suc k) (n - k) (suc n - suc k) (omega arith) (omega arith)
