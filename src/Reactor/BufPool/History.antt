-- ===== src/Reactor/BufPool/History.antt =====
-- The pool after any sequence of calls, from `buf_pool::buf_pool` on.
use rins.Prelude.{
  ℕ, zero, suc, ◌-◌, ◌≡◌, refl, List, [], ◌∷◌, some, All, arith, Ends, Result, ok, ◌>>=◌, Ends->>=,
  Ends_of_Returns, ◌==◌, if◌then◌else◌, ◌*◌, ◌/◌, inl, inr,
}
use rins.Prelude.Words.{add64}
use rins.Prelude.Maps.{find, find-put}
use rins.Reactor.IoBuf.{IoBuf, new_buf}
use rins.Reactor.BufPool.{
  BufPool, fresh_list, init_memmory, init, alloc_buf, revert, class_of, m4_k, m16_k, m64_k, m256_k,
  m1_m, m4_m, m8_m,
}
use rins.Reactor.BufPool.Laws.{
  IsValid, IsFree, alloc_buf-Granted, revert-IsValid, put-free, class_of_values,
}

fresh_list-free : (cap n : ℕ) → All (IsFree cap) (fresh_list cap n)
unfolding fresh_list new_buf
fresh_list-free cap zero = tt
fresh_list-free cap (suc n) =
    (record { size = refl; front = refl; unused = refl }, fresh_list-free cap n)

find-init_memmory :
    (j cap num : ℕ) (p : BufPool)
    → find j (init_memmory cap num p).pool
      ≡ (if cap == j then some (new_buf cap ∷ fresh_list cap (num - 1)) else find j p.pool)
unfolding init_memmory
find-init_memmory j cap num p = find-put j cap _ p.pool

total_mem-init_memmory :
    (cap num : ℕ) (p : BufPool)
    → (init_memmory cap num p).total_mem ≡ add64 p.total_mem (cap / 1024 * num)
unfolding init_memmory
total_mem-init_memmory cap num p = refl

none_free : (cap : ℕ) (bufs : List IoBuf) → find cap [] ≡ some bufs → All (IsFree cap) bufs
unfolding find
none_free cap bufs e = cc

abbrev AllFree : BufPool → Type 0
AllFree p = (cap : ℕ) (bufs : List IoBuf) → find cap p.pool ≡ some bufs → All (IsFree cap) bufs

init_memmory-free : (cap num : ℕ) (p : BufPool) → AllFree p → AllFree (init_memmory cap num p)
unfolding init_memmory
init_memmory-free cap num p h =
    put-free p cap (new_buf cap ∷ fresh_list cap (num - 1)) h (fresh_list-free cap (suc (num - 1)))

init_lists :
    (n cap : ℕ) → class_of n ≡ some cap → (bufs : List IoBuf) × (find cap init.pool ≡ some bufs)
unfolding init
init_lists n cap e = elim (class_of_values n cap e) [
  | inl h ↦ rw h (new_buf m4_k ∷ fresh_list m4_k 4999, simp find-init_memmory)
  | inr (inl h) ↦ rw h (new_buf m16_k ∷ fresh_list m16_k 999, simp find-init_memmory)
  | inr (inr (inl h)) ↦ rw h (new_buf m64_k ∷ fresh_list m64_k 499, simp find-init_memmory)
  | inr (inr (inr (inl h))) ↦ rw h (new_buf m256_k ∷ fresh_list m256_k 199, simp find-init_memmory)
  | inr (inr (inr (inr (inl h)))) ↦ rw h (new_buf m1_m ∷ fresh_list m1_m 49, simp find-init_memmory)
  | inr (inr (inr (inr (inr (inl h))))) ↦
      rw h (new_buf m4_m ∷ fresh_list m4_m 19, simp find-init_memmory)
  | inr (inr (inr (inr (inr (inr h))))) ↦
      rw h (new_buf m8_m ∷ fresh_list m8_m 9, simp find-init_memmory)
]

-- The pool that the constructor builds is in order.
pub init-IsValid : IsValid init
unfolding init
init-IsValid = record {
  lists = init_lists;
  free = init_memmory-free m8_m 10 _ (
      init_memmory-free m4_m 20 _ (
        init_memmory-free m1_m 50 _ (
          init_memmory-free m256_k 200 _ (
            init_memmory-free m64_k 500 _
              (init_memmory-free m16_k 1000 _ (init_memmory-free m4_k 5000 _ none_free))))));
  limit = simp total_mem-init_memmory (omega arith);
}

-- A call of a user of the pool; a block that goes back has the capacity of a class.
pub data Call : Type 0 where
  allocates : ℕ → Call
  reverts : (n : ℕ) (b : IoBuf) → class_of n ≡ some b.capacity → Call

pub step : Call → BufPool → Result BufPool
step (allocates n) p = do r ← alloc_buf n p; ok r.1
step (reverts n b e) p = revert b p

pub run : List Call → BufPool → Result BufPool
run [] p = ok p
run (c ∷ cs) p = do q ← step c p; run cs q

step-IsValid : (c : Call) (p : BufPool) → IsValid p → Ends (step c p) IsValid
unfolding step
step-IsValid (allocates n) p v =
    Ends->>= (alloc_buf n p) _ _ IsValid (alloc_buf-Granted n p v) (λ r h. h.1)
step-IsValid (reverts n b e) p v = Ends_of_Returns (revert b p) IsValid (revert-IsValid n b p e v)

run-IsValid : (cs : List Call) (p : BufPool) → IsValid p → Ends (run cs p) IsValid
unfolding run
run-IsValid [] p v = v
run-IsValid (c ∷ cs) p v =
    Ends->>= (step c p) _ IsValid IsValid (step-IsValid c p v) (λ q w. run-IsValid cs q w)

-- After any sequence of calls of alloc_buf and revert, where each block that goes back has the
-- capacity of a class, every class has its list, every free block stands empty in the list of its
-- class, and the memory that was ever allocated is below the limit, unless the process has exited
-- for want of memory. No call fails.
pub run-init-IsValid : (cs : List Call) → Ends (run cs init) IsValid
run-init-IsValid cs = run-IsValid cs init init-IsValid
