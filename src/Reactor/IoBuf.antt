-- ===== src/Reactor/IoBuf.antt =====
-- reactor/include/io_buf.h and reactor/src/io_buf.cc: one buffer block. The `next` pointer is the
-- list that a buffer of the pool stands in (BufPool).
pub mod Laws
use rins.Prelude.{
  ℕ, ◌+◌, ◌-◌, ◌==◌, ◌&&◌, ltb, leb, if◌then◌else◌, List, length, Result, ok, ◌>>=◌, ◌>>◌, check,
  out_of_bounds,
}
use rins.Reactor.Memory.{Memory, blank, window, blit}

pub record IoBuf : Type 0 where
  pub capacity : ℕ
  pub len : ℕ
  pub head : ℕ
  pub block : Memory

-- `io_buf::io_buf`
unfoldable pub new_buf : ℕ → IoBuf
new_buf size = record { capacity = size; len = 0; head = 0; block = blank }

-- The unprocessed bytes.
abbrev pub contents : IoBuf → List ℕ
contents b = window b.block b.head b.len

-- `memcpy` of the bytes into the block at `at`, checked against its capacity.
unfoldable pub write_at : IoBuf → ℕ → List ℕ → Result IoBuf
write_at b at xs = do
  check (leb (at + length xs) b.capacity) out_of_bounds
  ok (record b { block = blit b.block at xs })

-- `io_buf::adjust`: processed bytes are dropped, and the rest moves to the front.
unfoldable pub adjust : IoBuf → Result IoBuf
adjust b = if b.head == 0 then ok b else if b.len == 0 then ok (record b { head = 0 }) else do
  check (leb (b.head + b.len) b.capacity) out_of_bounds
  ok (record b { block = blit b.block 0 (window b.block b.head b.len); head = 0 })

-- `io_buf::clear`
unfoldable pub clear : IoBuf → IoBuf
clear b = record b { len = 0; head = 0 }

-- `io_buf::copy` copies from the start of the other block, not from its head.
unfoldable pub copy : IoBuf → IoBuf → Result IoBuf
copy b other = do
  check (leb other.len b.capacity && leb other.len other.capacity) out_of_bounds
  ok (record b {
    block = blit b.block 0 (window other.block 0 other.len);
    len = other.len;
    head = 0;
  })

-- `io_buf::pop` prints an error and does nothing if there are fewer bytes.
unfoldable pub pop : IoBuf → ℕ → IoBuf
pop b n = if ltb b.len n then b else record b { len = b.len - n; head = b.head + n }
