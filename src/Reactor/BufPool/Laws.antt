-- ===== src/Reactor/BufPool/Laws.antt =====
-- What the pool hands out, and its invariant.
use rins.Prelude.{
  ℕ, ◌≤◌, ◌<◌, ◌≡◌, refl, List, [], ◌∷◌, Option, none, some, All, arith, Returns, Ends, ◌⊎◌,
  Option-cases, inl, inr, Bool-cases, ◌==◌,
}
use mathlib.Core.Path.{subst₂}
use rins.Prelude.Maps.{find, put, find-put}
use rins.Reactor.IoBuf.{IoBuf, new_buf, clear}
use rins.Reactor.BufPool.{
  BufPool, m4_k, m8_m, m16_k, m64_k, m256_k, m1_m, m4_m, extra_mem_limit, class_of, free_list,
  extra_buf, take_buf, alloc_buf, revert,
}

-- A block that nobody holds bytes in.
pub record IsFree (cap : ℕ) (b : IoBuf) : Type 0 where
  pub size : b.capacity ≡ cap
  pub front : b.head ≡ 0
  pub unused : b.len ≡ 0

abbrev pub IsClass : ℕ → Type 0
IsClass cap = (n : ℕ) × (class_of n ≡ some cap)

-- Every class has its list, every free block stands in the list of its class, and the memory that
-- was ever allocated is below the limit.
pub record IsValid (p : BufPool) : Type 0 where
  pub lists :
      (n cap : ℕ) → class_of n ≡ some cap → (bufs : List IoBuf) × (find cap p.pool ≡ some bufs)
  pub free : (cap : ℕ) (bufs : List IoBuf) → find cap p.pool ≡ some bufs → All (IsFree cap) bufs
  pub limit : p.total_mem < extra_mem_limit

-- The class is large enough for the request, and there is one up to 8 MB.
pub class_of_lem :
    (n : ℕ)
    → ((c : ℕ) × (class_of n ≡ some c) × (n ≤ c) × (c ≤ m8_m)) ⊎ ((class_of n ≡ none) × (m8_m < n))
unfolding class_of
class_of_lem n = ground arith

pub class_of_values :
    (n c : ℕ)
    → class_of n ≡ some c
    → (c ≡ m4_k) ⊎ (c ≡ m16_k) ⊎ (c ≡ m64_k) ⊎ (c ≡ m256_k) ⊎ (c ≡ m1_m) ⊎ (c ≡ m4_m) ⊎ (c ≡ m8_m)
unfolding class_of
class_of_values n c e = ground arith

-- What a call hands out: a free block of the class of `n`, and none above 8 MB only.
abbrev pub Granted : ℕ → Option IoBuf → Type 0
Granted n none = m8_m < n
Granted n (some b) = (n ≤ b.capacity) × (class_of n ≡ some b.capacity) × IsFree b.capacity b

pub put-free :
    (p : BufPool) (cap : ℕ) (bufs : List IoBuf)
    → ((c : ℕ) (bs : List IoBuf) → find c p.pool ≡ some bs → All (IsFree c) bs)
    → All (IsFree cap) bufs
    → (c : ℕ) (bs : List IoBuf) → find c (put cap bufs p.pool) ≡ some bs
    → All (IsFree c) bs
put-free p cap bufs v h c bs e = elim (Bool-cases (cap == c)) [
  | inl same ↦
      subst₂ (λ k l. All (IsFree k) l) (ground arith) (ground (arith, find-put c cap bufs p.pool)) h
  | inr other ↦ v c bs (ground (arith, find-put c cap bufs p.pool))
]

-- Replacing the list of a class keeps the tables in order.
put-IsValid :
    (p : BufPool) (cap : ℕ) (bufs : List IoBuf)
    → IsValid p
    → All (IsFree cap) bufs
    → IsValid (record p { pool = put cap bufs p.pool })
put-IsValid p cap bufs v h = record {
  lists = λ n c e. ground (arith, find-put c cap bufs p.pool, v.lists n c e);
  free = put-free p cap bufs v.free h;
  limit = v.limit;
}

extra_buf-Granted :
    (n cap : ℕ) (p : BufPool)
    → class_of n ≡ some cap
    → n ≤ cap
    → cap ≤ m8_m
    → IsValid p
    → Ends (extra_buf p cap) (λ r. Granted n r.0 × IsValid r.1)
unfolding extra_buf new_buf
extra_buf-Granted n cap p c le top v = ground arith

take_buf-Granted :
    (n cap : ℕ) (p : BufPool) (bufs : List IoBuf)
    → class_of n ≡ some cap
    → n ≤ cap
    → cap ≤ m8_m
    → IsValid p
    → All (IsFree cap) bufs
    → Ends (take_buf p cap bufs) (λ r. Granted n r.0 × IsValid r.1)
unfolding take_buf
take_buf-Granted n cap p [] c le top v h = extra_buf-Granted n cap p c le top v
take_buf-Granted n cap p (b ∷ bufs) c le top v h =
    ((ground arith, ground arith, ground arith), put-IsValid p cap bufs v h.1)

-- The list that a class has is one of free blocks.
free_list-free : (p : BufPool) (cap : ℕ) → IsValid p → All (IsFree cap) (free_list p cap)
unfolding free_list
free_list-free p cap v = elim (Option-cases (find cap p.pool)) [
  | inl e ↦ rw (e, free_list) tt
  | inr (bufs, e) ↦ rw (e, free_list) (v.free cap bufs e)
]

-- With a pool in order, a request is answered by an empty block of the class of its size, which is
-- large enough, or by null only if the size is above 8 MB, or by the end of the process; the pool
-- stays in order, and its memory below the limit.
pub alloc_buf-Granted :
    (n : ℕ) (p : BufPool) → IsValid p → Ends (alloc_buf n p) (λ r. Granted n r.0 × IsValid r.1)
unfolding alloc_buf
alloc_buf-Granted n p v = elim (class_of_lem n) [
  | inl (c, e, le, top) ↦
      rw (e, alloc_buf) (take_buf-Granted n c p (free_list p c) e le top v (free_list-free p c v))
  | inr (e, above) ↦ rw (e, alloc_buf) (above, v)
]

-- A block of a class goes back into its list, and the pool stays in order.
pub revert-IsValid :
    (n : ℕ) (b : IoBuf) (p : BufPool)
    → class_of n ≡ some b.capacity
    → IsValid p
    → Returns (revert b p) IsValid
unfolding revert
revert-IsValid n b p c v = go (v.lists n b.capacity c)
  where
    go : ((bufs : List IoBuf) × (find b.capacity p.pool ≡ some bufs)) → Returns (revert b p) IsValid
    go (bufs, e) =
        rw (e, revert)
          (put-IsValid p b.capacity _ v
            (record { size = refl; front = refl; unused = refl }, v.free b.capacity bufs e))

free_list-put :
    (p : BufPool) (cap : ℕ) (bufs : List IoBuf)
    → free_list (record p { pool = put cap bufs p.pool }) cap ≡ bufs
unfolding free_list
free_list-put p cap bufs = ground (arith, find-put cap cap bufs p.pool)

-- A block that goes back to a pool in order is the next one to be handed out for a request of its
-- class, empty, and no memory is allocated for that.
pub alloc_buf-revert :
    (n : ℕ) (b : IoBuf) (p : BufPool)
    → class_of n ≡ some b.capacity
    → IsValid p
    → Returns
        (revert b p)
        (λ q. Returns (alloc_buf n q) (λ r. (r.0 ≡ some (clear b)) × (r.1.total_mem ≡ p.total_mem)))
unfolding revert alloc_buf clear
alloc_buf-revert n b p c v = go (v.lists n b.capacity c)
  where
    go :
        ((bufs : List IoBuf) × (find b.capacity p.pool ≡ some bufs))
        → Returns (revert b p) (λ q.
          Returns (alloc_buf n q) (λ r. (r.0 ≡ some (clear b)) × (r.1.total_mem ≡ p.total_mem)))
    go (bufs, e) =
        rw (e, revert)
          ((rw (c, alloc_buf)
            (rw (free_list-put p b.capacity (clear b ∷ bufs), take_buf) (refl, refl))))
