-- ===== src/Reactor/ThreadPool/Turns.antt =====
-- The threads in turn.
use rins.Prelude.{
  ℕ, zero, suc, ◌+◌, ◌<◌, ◌≤◌, ◌≡◌, subst, sym, ap, ◌∙◌, ◌⊎◌, inl, inr, ◌==◌, if◌then◌else◌, List,
  [], ◌∷◌, false, arith,
}
use rins.Reactor.ThreadPool.{ThreadPool, get_thread}

-- The indices of `n` calls of `get_thread`, and the pool after them.
unfoldable pub turns : ℕ → ThreadPool → List ℕ × ThreadPool
turns zero p = ([], p)
turns (suc n) p = let (i, q) = get_thread p in let (is, end) = turns n q in (i ∷ is, end)

-- `i`, `i + 1` and so on, `n` numbers.
abbrev pub numbers_from : ℕ → ℕ → List ℕ
numbers_from i zero = []
numbers_from i (suc n) = i ∷ numbers_from (i + 1) n

abbrev at_index : ℕ → ThreadPool → ThreadPool
at_index i p = record p { index = i }

turns_from :
    (n i : ℕ) (p : ThreadPool)
    → i + n ≤ p.thread_cnt
    → turns n (at_index i p) ≡ (numbers_from i n, at_index (i + n) p)
unfolding turns get_thread
turns_from zero i p le = let same : i ≡ i + 0 = omega arith in ap (λ k. ([], at_index k p)) same
turns_from (suc n) i p le =
    let inside : (i == p.thread_cnt) ≡ false = ground arith in
    rw inside (
      rw (turns_from n (i + 1) p (omega arith))
        (ap (λ k. (numbers_from i (suc n), at_index k p)) (omega arith)))

-- The index at the end stands for the one at the start.
turns_wrap :
    (n : ℕ) (p : ThreadPool) → 0 < n → turns n (at_index p.thread_cnt p) ≡ turns n (at_index 0 p)
unfolding turns get_thread
turns_wrap zero p pos = absurd (omega arith)
turns_wrap (suc n) p pos =
    let at_end : (if p.thread_cnt == p.thread_cnt then 0 else p.thread_cnt) ≡ 0 = ground arith in
    let at_start : (if 0 == p.thread_cnt then 0 else 0) ≡ 0 = ground arith in
    ap (λ k. let r = turns n (at_index (k + 1) p) in (k ∷ r.0, r.1)) (at_end ∙ sym at_start)

round_from_start :
    (p : ThreadPool)
    → turns p.thread_cnt (at_index 0 p) ≡ (numbers_from 0 p.thread_cnt, at_index p.thread_cnt p)
round_from_start p =
    let all : 0 + p.thread_cnt ≡ p.thread_cnt = omega arith in
    turns_from p.thread_cnt 0 p (omega arith)
    ∙ ap (λ k. (numbers_from 0 p.thread_cnt, at_index k p)) all

-- As many calls of get_thread as there are threads, at least one, give each thread one turn, in
-- order, if the index is 0 or the number of threads at the start; the index is that number at the
-- end, so that the next round is the same.
pub turns-round :
    (p : ThreadPool)
    → 0 < p.thread_cnt
    → (p.index ≡ 0) ⊎ (p.index ≡ p.thread_cnt)
    → turns p.thread_cnt p ≡ (numbers_from 0 p.thread_cnt, at_index p.thread_cnt p)
turns-round p pos (inl e) =
    subst
      (λ k.
        turns p.thread_cnt (at_index k p) ≡ (numbers_from 0 p.thread_cnt, at_index p.thread_cnt p))
      (sym e) (round_from_start p)
turns-round p pos (inr e) =
    subst
      (λ k.
        turns p.thread_cnt (at_index k p) ≡ (numbers_from 0 p.thread_cnt, at_index p.thread_cnt p))
      (sym e) (turns_wrap p.thread_cnt p pos ∙ round_from_start p)
