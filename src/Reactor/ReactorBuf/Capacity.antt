-- ===== src/Reactor/ReactorBuf/Capacity.antt =====
-- The size of the block that `send_data` leaves.
use rins.Prelude.{
  ℕ, ◌+◌, ◌-◌, ◌≤◌, ◌≡◌, refl, List, length, Option, none, some, true, false, ltb, leb, ◌==◌, ok,
  Ends, Ends->>=, >>=-assoc, subst, arith,
}
use rins.Reactor.IoBuf.{IoBuf, write_at}
use rins.Reactor.BufPool.{BufPool, class_of, alloc_buf, m8_m}
use rins.Reactor.BufPool.Laws
use rins.Reactor.BufPool.Laws.{Granted, alloc_buf-Granted}
use rins.Reactor.ReactorBuf.{State, room_for_send, append_to, send_data}

abbrev pub SizeIs : ℕ → Option IoBuf → Type 0
SizeIs c none = ⊥
SizeIs c (some b) = b.capacity ≡ c

append_to-SizeIs :
    (c : ℕ) (ys : List ℕ) (b : IoBuf) (s : State)
    → b.capacity ≡ c
    → b.len + length ys ≤ c
    → Ends (append_to ys (some b, s)) (λ r. SizeIs c r.1.0)
unfolding append_to write_at
append_to-SizeIs c ys b s e le =
    let fits : leb (b.len + length ys) b.capacity ≡ true = ground arith in rw fits e

-- Data that fit leave the block in place.
pub send_data_kept :
    (ys : List ℕ) (b : IoBuf) (p : BufPool)
    → b.head ≡ 0
    → b.len + length ys ≤ b.capacity
    → Ends (send_data ys (some b, p)) (λ r. SizeIs b.capacity r.1.0)
unfolding send_data room_for_send
send_data_kept ys b p e le =
    let front : (b.head == 0) ≡ true = ground arith in
    let room : ltb (b.capacity - b.len) (length ys) ≡ false = ground arith in
    rw (front, room) (append_to-SizeIs b.capacity ys b (some b, p) refl le)

Granted-SizeIs :
    (c : ℕ) (ys : List ℕ) (a : Option IoBuf × BufPool)
    → class_of (length ys) ≡ some c
    → length ys ≤ m8_m
    → Granted (length ys) a.0 × Laws.IsValid a.1
    → Ends (append_to ys (a.0, a)) (λ r. SizeIs c r.1.0)
Granted-SizeIs c ys (none, p) e le g = absurd (omega (arith, g.0))
Granted-SizeIs c ys (some b, p) e le ((fits, cls, free), v) =
    append_to-SizeIs c ys b (some b, p) (ground arith) (ground (arith, free))

-- The first data go into a block of their own class.
pub send_data_fresh :
    (c : ℕ) (ys : List ℕ) (p : BufPool)
    → class_of (length ys) ≡ some c
    → length ys ≤ m8_m
    → Laws.IsValid p
    → Ends (send_data ys (none, p)) (λ r. SizeIs c r.1.0)
unfolding send_data room_for_send
send_data_fresh c ys p e le v =
    subst (λ m. Ends m (λ r. SizeIs c r.1.0))
      (>>=-assoc (alloc_buf (length ys) p) (λ r. ok (r.0, r)) (append_to ys))
      (Ends->>= (alloc_buf (length ys) p) (λ a. append_to ys (a.0, a))
        (λ a. Granted (length ys) a.0 × Laws.IsValid a.1) (λ r. SizeIs c r.1.0)
        (alloc_buf-Granted (length ys) p v) (λ a g. Granted-SizeIs c ys a e le g))
