-- ===== src/Reactor/ReactorBuf/Room.antt =====
-- The states in which a buffer of a connection can be, and how it comes to have room.
use rins.Prelude.{
  true, ℕ, ◌+◌, ◌-◌, ◌≤◌, ◌<◌, ◌≡◌, List, [], length, Option, none, some, arith, Returns, Ends,
  Ends->>=, Ends_of_Returns, Returns->>=, ◌==◌, Bool-cases, inl, inr, ltb,
}
use rins.Reactor.Memory.{window, window_at}
use rins.Reactor.IoBuf
use rins.Reactor.IoBuf.{IoBuf, contents, write_at}
use rins.Reactor.IoBuf.Laws.{Holds, copy_lem}
use rins.Reactor.BufPool.{BufPool, m8_m, class_of, alloc_buf, revert}
use rins.Reactor.BufPool.Laws.{Granted, alloc_buf-Granted, revert-IsValid}
use rins.Reactor.BufPool.Laws
use rins.Reactor.ReactorBuf.{State, replace_by, room_for_read}

-- The block belongs to a class of the pool.
abbrev pub HasClass : IoBuf → Type 0
HasClass b = (n : ℕ) × (class_of n ≡ some b.capacity)

-- A null buffer holds no bytes; a block holds the bytes from its start on.
abbrev pub HoldsAt : Option IoBuf → List ℕ → Type 0
HoldsAt none xs = xs ≡ []
HoldsAt (some b) xs = Holds b.capacity xs b × HasClass b

-- Between two calls: the unprocessed bytes are `xs`, at the start of the block.
pub record IsReady (xs : List ℕ) (s : State) : Type 0 where
  pub held : HoldsAt s.0 xs
  pub pool : Laws.IsValid s.1

-- A block of `_buf` that holds `xs` and has room for `n` more bytes, or none for want of memory.
abbrev pub HasRoom : ℕ → List ℕ → Option IoBuf × State → Type 0
HasRoom n xs (none, s) = IsReady xs s × (m8_m < length xs + n)
HasRoom n xs (some b, s) =
    Holds b.capacity xs b × HasClass b × (length xs + n ≤ b.capacity) × Laws.IsValid s.1

pub Holds-self : (cap : ℕ) (xs : List ℕ) (b : IoBuf) → Holds cap xs b → Holds b.capacity xs b
Holds-self cap xs b h = ground arith

pub alloc-HasRoom :
    (n : ℕ) (xs : List ℕ)
    → xs ≡ []
    → (a : Option IoBuf × BufPool) → Granted n a.0 × Laws.IsValid a.1
    → HasRoom n xs (a.0, a)
unfolding window
alloc-HasRoom n xs e (none, p) (above, v) = (record { held = e; pool = v }, ground arith)
alloc-HasRoom n xs e (some b, p) ((le, c, free), v) =
    (ground (arith, window_at b.block b.head 0 b.len 0), (n, c), ground arith, v)

replace_by-HasRoom :
    (n k : ℕ) (b : IoBuf) (xs : List ℕ) (r : Option IoBuf × BufPool)
    → Holds b.capacity xs b
    → HasClass b
    → k ≡ length xs + n
    → Granted k r.0 × Laws.IsValid r.1
    → Returns (replace_by b r) (HasRoom n xs)
unfolding replace_by
replace_by-HasRoom n k b xs (none, p) h c e g =
    (record { held = (h, c); pool = g.1 }, omega (arith, g.0))
replace_by-HasRoom n k b xs (some d, p) h (j, c) e ((le, dc, free), v) =
    Returns->>= (IoBuf.copy d b) _ (Holds d.capacity xs) (HasRoom n xs)
      (copy_lem d b b.capacity xs h (omega arith))
      λ d' h'.
        Returns->>= (revert b p) _ Laws.IsValid (HasRoom n xs) (revert-IsValid j b p c v)
          λ q w. (Holds-self d.capacity xs d' h', (k, ground arith), ground arith, w)

-- `read_data` finds room for `n` more bytes behind those that it holds, or none above 8 MB.
pub room_for_read-HasRoom :
    (n : ℕ) (xs : List ℕ) (s : State) → IsReady xs s → Ends (room_for_read n s) (HasRoom n xs)
unfolding room_for_read
room_for_read-HasRoom n xs (none, p) r =
    Ends->>= (alloc_buf n p) _ (λ a. Granted n a.0 × Laws.IsValid a.1) (HasRoom n xs)
      (alloc_buf-Granted n p r.pool) (alloc-HasRoom n xs r.held)
room_for_read-HasRoom n xs (some b, p) r =
    let front : (b.head == 0) ≡ true = ground (arith, r.held.0.front) in
    elim (Bool-cases (ltb (b.capacity - b.len) n)) [
      | inl full ↦
          rw (front, full)
            (Ends->>= (alloc_buf (n + b.len) p) _ (λ a. Granted (n + b.len) a.0 × Laws.IsValid a.1)
              (HasRoom n xs) (alloc_buf-Granted (n + b.len) p r.pool)
              λ a g. Ends_of_Returns (replace_by b a) (HasRoom n xs) (
                replace_by-HasRoom n (n + b.len) b xs a r.held.0 r.held.1
                  (omega (arith, r.held.0.count)) g))
      | inr fits ↦
          rw (front, fits)
            (r.held.0, r.held.1, ground (arith, r.held.0.count, r.held.0.room), r.pool)
    ]
