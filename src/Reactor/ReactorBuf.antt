-- ===== src/Reactor/ReactorBuf.antt =====
-- reactor/include/reactor_buf.h and reactor/src/reactor_buf.cc: a buffer of a connection, which
-- is null or a block of the pool. The system calls are arguments: what `ioctl`, `read` and `write`
-- answered, with the attempts that a signal interrupted.
pub mod Room
pub mod Input
pub mod Output
pub mod Capacity
use rins.Prelude.{
  zero, suc, ℕ, ◌-◌, ◌+◌, ◌==◌, leb, ltb, Bool, true, false, ◌||◌, if◌then◌else◌, List, [], ◌∷◌,
  length, Option, none, some, Result, ok, fault, ◌>>=◌, ◌>>◌, check, assertion,
}
use rins.Reactor.IoBuf
use rins.Reactor.IoBuf.{IoBuf, contents, write_at}
use rins.Reactor.BufPool.{BufPool, m4_k, alloc_buf, revert}

-- A system call that is repeated while it fails with EINTR.
pub data Attempts {ℓ} (A : Type ℓ) : Type ℓ where
  interrupted : Attempts A → Attempts A
  returned : A → Attempts A

-- The `do … while (ret == -1 && errno == EINTR)` loops.
unfoldable pub retry {ℓ} : {A : Type ℓ} → Attempts A → A
retry (interrupted rest) = retry rest
retry (returned a) = a

-- `read`: -1 with another error, or the bytes that it put into the buffer (none: the peer has closed).
pub data ReadRet : Type 0 where
  read_failed : ReadRet
  got : List ℕ → ReadRet

-- `write`: -1 with EAGAIN, -1 with another error, or the number of bytes that it took.
pub data WriteRet : Type 0 where
  again : WriteRet
  write_failed : WriteRet
  wrote : ℕ → WriteRet

-- `_buf` and the pool that it comes from.
abbrev pub State : Type 0
State = Option IoBuf × BufPool

-- The unprocessed bytes.
abbrev pub bytes : Option IoBuf → List ℕ
bytes none = []
bytes (some b) = contents b

-- `reactor_buf::length`
abbrev pub len : Option IoBuf → ℕ
len none = 0
len (some b) = b.len

-- `reactor_buf::pop`
unfoldable pub pop : ℕ → State → Result State
pop n (none, p) = fault assertion
pop n (some b, p) =
    if ltb b.len n
    then fault assertion
    else if (IoBuf.pop b n).len == 0
    then (do q ← revert (IoBuf.pop b n) p; ok (none, q))
    else ok (some (IoBuf.pop b n), p)

-- `reactor_buf::clear`
unfoldable pub clear : State → Result State
clear (none, p) = ok (none, p)
clear (some b, p) = do q ← revert b p; ok (none, q)

-- A larger block takes the bytes over, and the old one goes back; no block leaves all as it was.
unfoldable pub replace_by : IoBuf → Option IoBuf × BufPool → Result (Option IoBuf × State)
replace_by b (none, p) = ok (none, (some b, p))
replace_by b (some c, p) = do d ← IoBuf.copy c b; q ← revert b p; ok (some d, (some d, q))

-- The block that `read_data` reads into; `none` is the return with -1.
unfoldable pub room_for_read : ℕ → State → Result (Option IoBuf × State)
room_for_read need (none, p) = do r ← alloc_buf need p; ok (r.0, r)
room_for_read need (some b, p) =
    if b.head == 0
    then (if ltb (b.capacity - b.len) need
        then (do r ← alloc_buf (need + b.len) p; replace_by b r)
        else ok (some b, (some b, p)))
    else fault assertion

-- `already_read` of `read_data`, -1 as `none`.
abbrev pub IntRet : Type 0
IntRet = Option ℕ

unfoldable pub store_read : ℕ → IoBuf → BufPool → ReadRet → Result (IntRet × State)
store_read need b p read_failed = ok (none, (some b, p))
store_read need b p (got []) = ok (some 0, (some b, p))
store_read need b p (got xs) = do
  check (need == 0 || length xs == need) assertion
  c ← write_at b b.len xs
  ok (some (length xs), (some (record c { len = c.len + length xs }), p))

unfoldable pub read_into : ℕ → ReadRet → Option IoBuf × State → Result (IntRet × State)
unfolding store_read
read_into need r (none, s) = ok (none, s)
read_into need r (some b, s) = store_read need b s.1 r

-- `input_buf::read_data`: `need` is the answer of FIONREAD.
unfoldable pub read_data : Option ℕ → Attempts ReadRet → State → Result (IntRet × State)
read_data none r s = ok (none, s)
read_data (some need) r s = do room ← room_for_read need s; read_into need (retry r) room

-- `input_buf::adjust`
unfoldable pub adjust : State → Result State
adjust (none, p) = ok (none, p)
adjust (some b, p) = do c ← IoBuf.adjust b; ok (some c, p)

-- The block that `send_data` appends to; `none` is the return with -1.
unfoldable pub room_for_send : ℕ → State → Result (Option IoBuf × State)
room_for_send datalen (none, p) = do r ← alloc_buf datalen p; ok (r.0, r)
room_for_send datalen (some b, p) =
    if b.head == 0
    then (if ltb (b.capacity - b.len) datalen
        then (do r ← alloc_buf datalen p; replace_by b r)
        else ok (some b, (some b, p)))
    else fault assertion

unfoldable pub append_to : List ℕ → Option IoBuf × State → Result (Bool × State)
append_to xs (none, s) = ok (false, s)
append_to xs (some b, s) = do
  c ← write_at b b.len xs
  ok (true, (some (record c { len = c.len + length xs }), s.1))

-- `output_buf::send_data`: true is the return with 0, false that with -1.
unfoldable pub send_data : List ℕ → State → Result (Bool × State)
send_data xs s = do room ← room_for_send (length xs) s; append_to xs room

unfoldable pub write_back : WriteRet → IoBuf → BufPool → Result (IntRet × State)
write_back again b p = ok (some 0, (some b, p))
write_back write_failed b p = ok (none, (some b, p))
write_back (wrote zero) b p = ok (some 0, (some b, p))
write_back (wrote (suc n)) b p = do
  c ← IoBuf.adjust (IoBuf.pop b (suc n))
  ok (some (suc n), (some c, p))

-- `output_buf::write2fd`
unfoldable pub write2fd : Attempts WriteRet → State → Result (IntRet × State)
write2fd w (none, p) = fault assertion
write2fd w (some b, p) = if b.head == 0 then write_back (retry w) b p else fault assertion
