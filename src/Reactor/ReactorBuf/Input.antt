-- ===== src/Reactor/ReactorBuf/Input.antt =====
-- `input_buf`: what a read, a pop and an adjust do to the unprocessed bytes.
use rins.Prelude.{
  check, ◌||◌, append-nil, suc, ◌∙◌, ap, subst, fault, assertion, ℕ, ◌+◌, ◌≤◌, ◌<◌, ◌≡◌, refl, sym,
  List, [], ◌∷◌, ◌++◌, length, Option, none, some, ok, arith, Returns, Ends, Ends->>=,
  Ends_of_Returns, Returns->>=, ◌==◌, Bool-cases, inl, inr, drop, ltb, true, false,
}
use rins.Reactor.Memory.{window, length-window, window_at}
use rins.Reactor.IoBuf
use rins.Reactor.IoBuf.{IoBuf, contents, write_at}
use rins.Reactor.IoBuf.Laws.{
  Holds, contents-pop, copy_lem, write_at-Holds, adjust_lem, pop-IsValid, capacity-pop, len-pop,
}
use rins.Reactor.BufPool.{BufPool, m8_m, class_of, revert}
use rins.Reactor.BufPool.Laws.{Granted, alloc_buf-Granted, revert-IsValid}
use rins.Reactor.BufPool.Laws
use rins.Reactor.ReactorBuf.{
  room_for_read, State, IntRet, Attempts, ReadRet, got, retry, bytes, len, store_read, read_into,
  read_data, pop, adjust,
}
use rins.Reactor.ReactorBuf.Room.{HasRoom, HasClass, IsReady, room_for_read-HasRoom, Holds-self}

-- After `read_data`: all bytes have come in behind those that were held, or nothing has changed
-- because they need more than 8 MB together.
abbrev pub HasRead : List ℕ → List ℕ → IntRet × State → Type 0
HasRead xs ys (none, s) = IsReady xs s × (m8_m < length xs + length ys)
HasRead xs ys (some n, s) = IsReady (xs ++ ys) s × (n ≡ length ys)

store_read-HasRead :
    (xs ys : List ℕ) (b : IoBuf) (p : Option IoBuf × BufPool)
    → HasRoom (length ys) xs (some b, p)
    → Returns (store_read (length ys) b p.1 (got ys)) (HasRead xs ys)
unfolding store_read
store_read-HasRead xs [] b p (h, c, le, v) =
    (record { held = (rw append-nil h, c); pool = v }, refl)
store_read-HasRead xs (y ∷ ys) b p (h, (j, c), le, v) =
    let fits : check (suc (length ys) == 0 || suc (length ys) == suc (length ys)) assertion
        ≡ ok tt =
      ground arith in
    rw fits (
      Returns->>= (write_at b b.len (y ∷ ys)) _ _ (HasRead xs (y ∷ ys))
        (write_at-Holds b b.capacity xs (y ∷ ys) h le)
        λ r h'. (
          record {
            held = (Holds-self b.capacity _ _ h', (j, c ∙ ap some (sym h'.size)));
            pool = v;
          },
          refl,
        ))

read_into-HasRead :
    (xs ys : List ℕ) (room : Option IoBuf × State)
    → HasRoom (length ys) xs room
    → Returns (read_into (length ys) (got ys) room) (HasRead xs ys)
unfolding read_into
read_into-HasRead xs ys (none, s) h = h
read_into-HasRead xs ys (some b, s) h = store_read-HasRead xs ys b s h

-- A read that brings as many bytes as FIONREAD told appends them to what the buffer holds from
-- index 0 on, whatever the number of interrupted attempts, and no write leaves the block; it is
-- refused, and the buffer stays, only if both together are above 8 MB. The process may exit for
-- want of memory instead.
pub read_data-HasRead :
    (xs ys : List ℕ) (r : Attempts ReadRet) (s : State)
    → retry r ≡ got ys
    → IsReady xs s
    → Ends (read_data (some (length ys)) r s) (HasRead xs ys)
unfolding read_data
read_data-HasRead xs ys r s e h =
    rw (e, read_data)
      (Ends->>= (room_for_read (length ys) s) _ (HasRoom (length ys) xs) (HasRead xs ys)
        (room_for_read-HasRoom (length ys) xs s h)
        λ room g.
          Ends_of_Returns (read_into (length ys) (got ys) room) (HasRead xs ys)
            (read_into-HasRead xs ys room g))

-- While messages are taken off, the unprocessed bytes may stand anywhere in the block.
abbrev pub HeldAt : Option IoBuf → List ℕ → Type 0
HeldAt none xs = xs ≡ []
HeldAt (some b) xs = (contents b ≡ xs) × IoBuf.Laws.IsValid b × HasClass b

pub record IsHeld (xs : List ℕ) (s : State) : Type 0 where
  pub held : HeldAt s.0 xs
  pub pool : Laws.IsValid s.1

pub IsReady-IsHeld : (xs : List ℕ) (s : State) → IsReady xs s → IsHeld xs s
IsReady-IsHeld xs (none, p) r = record { held = r.held; pool = r.pool }
IsReady-IsHeld xs (some b, p) r = record {
  held = (r.held.0.bytes, ground (arith, r.held.0), r.held.1);
  pool = r.pool;
}

-- `_ibuf.length()` is the number of unprocessed bytes.
pub len-IsHeld : (xs : List ℕ) (s : State) → IsHeld xs s → len s.0 ≡ length xs
len-IsHeld xs (none, p) h = ground (arith, h.held)
len-IsHeld xs (some b, p) h = ground (arith, h.held.0, length-window b.block b.head b.len)

pub bytes-IsHeld : (xs : List ℕ) (s : State) → IsHeld xs s → bytes s.0 ≡ xs
bytes-IsHeld xs (none, p) h = sym h.held
bytes-IsHeld xs (some b, p) h = h.held.0

contents-empty : (b : IoBuf) → b.len ≡ 0 → contents b ≡ []
unfolding window
contents-empty b e = window_at b.block b.head b.head b.len 0 refl e

-- `pop` takes the first bytes off, and gives an empty block back to the pool.
pub pop-IsHeld :
    (n : ℕ) (xs : List ℕ) (s : State)
    → 0 < length xs
    → n ≤ length xs
    → IsHeld xs s
    → Returns (pop n s) (IsHeld (drop n xs))
unfolding pop
pop-IsHeld n xs (none, p) pos le h = absurd (ground (arith, h.held))
pop-IsHeld n xs (some b, p) pos le h =
    let count = len-IsHeld xs (some b, p) h in
    let some_left : ltb b.len n ≡ false = ground arith in
    let class : class_of h.held.2.0 ≡ some (IoBuf.pop b n).capacity =
      h.held.2.1 ∙ ap some (sym (capacity-pop b n)) in
    let rest : contents (IoBuf.pop b n) ≡ drop n xs =
      contents-pop b n (omega arith) ∙ ap (drop n) h.held.0 in
    elim (Bool-cases ((IoBuf.pop b n).len == 0)) [
      | inl empty ↦
          rw (some_left, empty)
            (Returns->>= (revert (IoBuf.pop b n) p) _ Laws.IsValid (IsHeld (drop n xs))
              (revert-IsValid h.held.2.0 (IoBuf.pop b n) p class h.pool)
              λ q v. record {
                held = sym rest ∙ contents-empty (IoBuf.pop b n) (ground arith);
                pool = v;
              })
      | inr more ↦
          rw (some_left, more)
            (record { held = (rest, pop-IsValid b n h.held.1, (h.held.2.0, class)); pool = h.pool })
    ]

-- `pop` of all bytes leaves a null buffer.
pub pop_all :
    (xs : List ℕ) (s : State)
    → 0 < length xs
    → IsHeld xs s
    → Returns (pop (length xs) s) (λ t. t.0 ≡ none)
unfolding pop
pop_all xs (none, p) pos h = absurd (ground (arith, h.held))
pop_all xs (some b, p) pos h =
    let count = len-IsHeld xs (some b, p) h in
    let some_left : ltb b.len (length xs) ≡ false = ground arith in
    let class : class_of h.held.2.0 ≡ some (IoBuf.pop b (length xs)).capacity =
      h.held.2.1 ∙ ap some (sym (capacity-pop b (length xs))) in
    let empty : ((IoBuf.pop b (length xs)).len == 0) ≡ true =
      ground (arith, len-pop b (length xs)) in
    rw (some_left, empty)
      (Returns->>= (revert (IoBuf.pop b (length xs)) p) _ Laws.IsValid (λ t. t.0 ≡ none)
        (revert-IsValid h.held.2.0 (IoBuf.pop b (length xs)) p class h.pool) λ q v. refl)

-- A pop on a null buffer is a failed assertion, also of no bytes.
pub pop-null : (n : ℕ) (s : State) → s.0 ≡ none → pop n s ≡ fault assertion
unfolding pop
pop-null n (none, p) e = refl
pop-null n (some b, p) e = cc

pub adjust-IsReady : (xs : List ℕ) (s : State) → IsHeld xs s → Returns (adjust s) (IsReady xs)
unfolding adjust
adjust-IsReady xs (none, p) h = record { held = h.held; pool = h.pool }
adjust-IsReady xs (some b, p) h =
    Returns->>= (IoBuf.adjust b) _ (Holds b.capacity (contents b)) (IsReady xs)
      (adjust_lem b h.held.1)
      λ c g. record {
        held = (
          Holds-self b.capacity xs c (subst (λ l. Holds b.capacity l c) h.held.0 g),
          (h.held.2.0, h.held.2.1 ∙ ap some (sym g.size)),
        );
        pool = h.pool;
      }
