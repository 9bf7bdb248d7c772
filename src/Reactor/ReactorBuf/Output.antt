-- ===== src/Reactor/ReactorBuf/Output.antt =====
-- `output_buf`: when `send_data` appends, when it runs over the end of a block, and what a write
-- takes off.
use rins.Prelude.{
  ℕ, suc, ◌+◌, ◌-◌, ◌≤◌, ◌<◌, ◌≡◌, refl, sym, ap, ◌∙◌, subst, List, ◌++◌, length, drop, Option,
  none, some, true, false, Bool-cases, inl, inr, ◌>>=◌, Returns, Returns->>=, Ends, Ends->>=,
  Ends_of_Returns, FailsWith, FailsWith->>=, out_of_bounds, FailsWith-first, leb, >>=-assoc, ltb,
  ◌==◌, arith,
}
use rins.Reactor.IoBuf
use rins.Reactor.IoBuf.{IoBuf, contents, write_at}
use rins.Reactor.IoBuf.Laws.{
  Holds, copy_lem, write_at-Holds, adjust_lem, contents-pop, pop-IsValid, capacity-pop,
}
use rins.Reactor.BufPool.{BufPool, class_of, alloc_buf, revert, m8_m}
use rins.Reactor.BufPool.Laws
use rins.Reactor.BufPool.Laws.{Granted, alloc_buf-Granted, revert-IsValid}
use rins.Reactor.ReactorBuf.{
  State, Attempts, WriteRet, wrote, retry, replace_by, room_for_send, append_to, send_data,
  write_back, write2fd,
}
use rins.Reactor.ReactorBuf.Room.{HasClass, IsReady, HasRoom, Holds-self, alloc-HasRoom}

-- The data fit into the class of a fresh block, or into the block that the buffer has.
abbrev pub Fits : Option IoBuf → List ℕ → List ℕ → Type 0
Fits none xs ys = length ys ≤ m8_m
Fits (some b) xs ys = length xs + length ys ≤ b.capacity

append_to-IsReady :
    (xs ys : List ℕ) (b : IoBuf) (s : State)
    → HasRoom (length ys) xs (some b, s)
    → Returns (append_to ys (some b, s)) (λ r. (r.0 ≡ true) × IsReady (xs ++ ys) r.1)
unfolding append_to
append_to-IsReady xs ys b s (h, (j, c), le, v) =
    Returns->>= (write_at b b.len ys) _ _ (λ r. (r.0 ≡ true) × IsReady (xs ++ ys) r.1)
      (write_at-Holds b b.capacity xs ys h le)
      λ r h'. (
        refl,
        record { held = (Holds-self b.capacity _ _ h', (j, c ∙ ap some (sym h'.size))); pool = v },
      )

append_granted :
    (xs ys : List ℕ) (room : Option IoBuf × State)
    → length xs + length ys ≤ m8_m
    → HasRoom (length ys) xs room
    → Returns (append_to ys room) (λ r. (r.0 ≡ true) × IsReady (xs ++ ys) r.1)
append_granted xs ys (none, s) le h = absurd (omega (arith, h.1))
append_granted xs ys (some b, s) le h = append_to-IsReady xs ys b s h

-- Data that fit into the block behind the waiting bytes, or into the largest class where there is
-- no block, are appended behind the waiting bytes. The process may exit for want of memory instead.
pub send_data-IsReady :
    (xs ys : List ℕ) (s : State)
    → IsReady xs s
    → Fits s.0 xs ys
    → Ends (send_data ys s) (λ r. (r.0 ≡ true) × IsReady (xs ++ ys) r.1)
unfolding send_data room_for_send
send_data-IsReady xs ys (none, p) h fits =
    Ends->>= (room_for_send (length ys) (none, p)) _ (HasRoom (length ys) xs) _
      (Ends->>= (alloc_buf (length ys) p) _ (λ a. Granted (length ys) a.0 × Laws.IsValid a.1) _
        (alloc_buf-Granted (length ys) p h.pool) (alloc-HasRoom (length ys) xs h.held))
      λ room g.
        Ends_of_Returns (append_to ys room) _ (append_granted xs ys room (ground (arith, h.held)) g)
send_data-IsReady xs ys (some b, p) h fits =
    let front : (b.head == 0) ≡ true = ground (arith, h.held.0.front) in
    let room : ltb (b.capacity - b.len) (length ys) ≡ false = ground (arith, h.held.0.count) in
    rw (front, room)
      (Ends_of_Returns (append_to ys (some b, (some b, p))) _
        (append_to-IsReady xs ys b (some b, p) (h.held.0, h.held.1, fits, h.pool)))

-- A block of `c` bytes that holds `xs`.
abbrev HoldsIn : ℕ → List ℕ → Option IoBuf × State → Type 0
HoldsIn c xs (none, s) = ⊥
HoldsIn c xs (some d, s) = Holds c xs d

append_to-Overruns :
    (c : ℕ) (xs ys : List ℕ) (room : Option IoBuf × State)
    → c < length xs + length ys
    → HoldsIn c xs room
    → FailsWith out_of_bounds (append_to ys room)
unfolding append_to write_at
append_to-Overruns c xs ys (none, s) small h = absurd h
append_to-Overruns c xs ys (some d, s) small h =
    let over : leb (d.len + length ys) d.capacity ≡ false = ground (arith, h) in rw over (inl refl)

replace_by-HoldsIn :
    (xs : List ℕ) (b d : IoBuf) (p : BufPool)
    → Holds b.capacity xs b
    → HasClass b
    → Laws.IsValid p
    → length xs ≤ d.capacity
    → Returns (replace_by b (some d, p)) (HoldsIn d.capacity xs)
unfolding replace_by
replace_by-HoldsIn xs b d p h (j, c) v le =
    Returns->>= (IoBuf.copy d b) _ (Holds d.capacity xs) (HoldsIn d.capacity xs)
      (copy_lem d b b.capacity xs h le)
      λ d' h'.
        Returns->>= (revert b p) _ Laws.IsValid (HoldsIn d.capacity xs) (revert-IsValid j b p c v)
          λ q w. h'

replace_by-Overruns :
    (xs : List ℕ) (b d : IoBuf) (p : BufPool)
    → Holds b.capacity xs b
    → d.capacity < length xs
    → FailsWith out_of_bounds (replace_by b (some d, p))
unfolding replace_by IoBuf.copy
replace_by-Overruns xs b d p h lt =
    let over : leb b.len d.capacity ≡ false = ground (arith, h) in rw over (inl refl)

class_of-le : (n c : ℕ) → class_of n ≡ some c → n ≤ m8_m
unfolding class_of
class_of-le n c e = ground arith

replaced-Overruns :
    (xs ys : List ℕ) (b : IoBuf) (p : BufPool) (c : ℕ)
    → IsReady xs (some b, p)
    → class_of (length ys) ≡ some c
    → c < length xs + length ys
    → (a : Option IoBuf × BufPool) → Granted (length ys) a.0 × Laws.IsValid a.1
    → FailsWith out_of_bounds (replace_by b a >>= append_to ys)
replaced-Overruns xs ys b p c h cls small (none, q) g =
    absurd (omega (arith, class_of-le (length ys) c cls, g.0))
replaced-Overruns xs ys b p c h cls small (some d, q) ((le, dc, free), v) =
    let size : d.capacity ≡ c = ground arith in
    elim (Bool-cases (leb (length xs) d.capacity)) [
      | inl fits ↦
          FailsWith->>= out_of_bounds (replace_by b (some d, q)) (append_to ys)
            (HoldsIn d.capacity xs)
            (Ends_of_Returns (replace_by b (some d, q)) (HoldsIn d.capacity xs)
              (replace_by-HoldsIn xs b d q h.held.0 h.held.1 v (ground arith)))
            λ room k. append_to-Overruns d.capacity xs ys room (omega arith) k
      | inr large ↦
          FailsWith-first out_of_bounds (replace_by b (some d, q)) (append_to ys)
            (replace_by-Overruns xs b d q h.held.0 (ground arith))
    ]

-- Data that do not fit into the block behind the waiting bytes are written past the end of a block,
-- if the class of their own length has no room for both. The process may exit for want of memory
-- instead.
pub send_data-Overruns :
    (xs ys : List ℕ) (b : IoBuf) (p : BufPool) (c : ℕ)
    → IsReady xs (some b, p)
    → b.capacity < length xs + length ys
    → class_of (length ys) ≡ some c
    → c < length xs + length ys
    → FailsWith out_of_bounds (send_data ys (some b, p))
unfolding send_data room_for_send
send_data-Overruns xs ys b p c h full cls small =
    let front : (b.head == 0) ≡ true = ground (arith, h.held.0.front) in
    let no_room : ltb (b.capacity - b.len) (length ys) ≡ true =
      ground (arith, h.held.0.count, h.held.0.room) in
    rw (front, no_room)
      (subst (FailsWith out_of_bounds)
        (>>=-assoc (alloc_buf (length ys) p) (replace_by b) (append_to ys))
        (FailsWith->>= out_of_bounds (alloc_buf (length ys) p)
          (λ a. replace_by b a >>= append_to ys) (λ a. Granted (length ys) a.0 × Laws.IsValid a.1)
          (alloc_buf-Granted (length ys) p h.pool) (replaced-Overruns xs ys b p c h cls small)))

-- A write that takes some of the waiting bytes, at least one, takes the first ones off, and the
-- others stay in order at the start of the block.
pub write2fd-IsReady :
    (n : ℕ) (xs : List ℕ) (w : Attempts WriteRet) (b : IoBuf) (p : BufPool)
    → retry w ≡ wrote (suc n)
    → suc n ≤ length xs
    → IsReady xs (some b, p)
    → Returns (write2fd w (some b, p)) (λ r. (r.0 ≡ some (suc n)) × IsReady (drop (suc n) xs) r.1)
unfolding write2fd write_back
write2fd-IsReady n xs w b p e le h =
    let front : (b.head == 0) ≡ true = ground (arith, h.held.0.front) in
    let c = IoBuf.pop b (suc n) in
    let valid : IoBuf.Laws.IsValid b = record { fits = omega (arith, h.held.0) } in
    let left : contents c ≡ drop (suc n) xs =
      contents-pop b (suc n) (omega (arith, h.held.0)) ∙ ap (drop (suc n)) h.held.0.bytes in
    rw (front, e, write_back)
      (Returns->>= (IoBuf.adjust c) _ (Holds c.capacity (contents c)) _
        (adjust_lem c (pop-IsValid b (suc n) valid))
        λ d k. (
          refl,
          record {
            held = (
              Holds-self c.capacity _ d (subst (λ l. Holds c.capacity l d) left k),
              (h.held.1.0, h.held.1.1 ∙ ap some (sym (k.size ∙ capacity-pop b (suc n)))),
            );
            pool = h.pool;
          },
        ))
