-- ===== src/Reactor/TcpClient/Kept.antt =====
-- The unprocessed bytes of a client's input buffer, and how a read adds to them.
use rins.Prelude.{
  ℕ, ◌+◌, ◌-◌, ◌^◌, ◌≤◌, ◌<◌, ◌≡◌, refl, sym, ap, ◌∙◌, subst, List, [], ◌∷◌, ◌++◌, length,
  length-append, take, drop, take-length-append, drop-length-append, some, true, ◌==◌, leb, Result,
  ok, ◌>>=◌, Returns, Returns-map, arith,
}
use rins.Reactor.Memory.{window, take-window}
use rins.Reactor.IoBuf
use rins.Reactor.IoBuf.{IoBuf, contents, pop}
use rins.Reactor.IoBuf.Laws.{Holds, contents-pop, len-pop, capacity-pop, adjust_lem}
use rins.Reactor.ReactorBuf.{Attempts, retry, ReadRet, got}
use rins.Reactor.TcpClient.{TcpClient, append}
use rins.Reactor.TcpClient.Link.{Dial, pop_int, read_loop, after_read, do_read}

-- The unprocessed bytes of a block of `cap` bytes are `xs`.
pub record Keeps (cap : ℕ) (xs : List ℕ) (b : IoBuf) : Type 0 where
  pub bytes : contents b ≡ xs
  pub count : b.len ≡ length xs
  pub fits : b.head + b.len ≤ cap
  pub size : b.capacity ≡ cap

pub Holds-Keeps : (cap : ℕ) (xs : List ℕ) (b : IoBuf) → Holds cap xs b → Keeps cap xs b
Holds-Keeps cap xs b h = record {
  bytes = h.bytes;
  count = h.count;
  fits = omega (arith, h.front, h.count, h.room);
  size = h.size;
}

pub pop-Keeps :
    (cap : ℕ) (xs ys : List ℕ) (b : IoBuf)
    → Keeps cap (xs ++ ys) b
    → Keeps cap ys (pop b (length xs))
unfolding pop
pop-Keeps cap xs ys b h =
    let size = length-append xs ys in
    let le : length xs ≤ b.len = omega (arith, h.count, size) in
    record {
      bytes =
          contents-pop b (length xs) le ∙ ap (drop (length xs)) h.bytes ∙ drop-length-append xs ys;
      count = omega (arith, len-pop b (length xs) le, h.count, size);
      fits = ground (arith, h.fits, h.count, size);
      size = capacity-pop b (length xs) ∙ h.size;
    }

-- The handler's view of the block begins with the unprocessed bytes.
pub take-view :
    (cap : ℕ) (xs ys : List ℕ) (b : IoBuf)
    → Keeps cap (xs ++ ys) b
    → take (length xs) (window b.block b.head (b.capacity - b.head)) ≡ xs
take-view cap xs ys b h =
    let size = length-append xs ys in
    take-window b.block b.head (b.capacity - b.head) (length xs)
      (omega (arith, h.fits, h.count, h.size, size))
    ∙ sym (take-window b.block b.head b.len (length xs) (omega (arith, h.count, size)))
    ∙ ap (take (length xs)) h.bytes
    ∙ take-length-append xs ys

pub pop_int-Keeps :
    (cap : ℕ) (xs ys : List ℕ) (b : IoBuf)
    → length xs < 2 ^ 31
    → Keeps cap (xs ++ ys) b
    → Returns (pop_int (length xs) b) (Keeps cap ys)
unfolding pop_int
pop_int-Keeps cap xs ys b lt h = ground (arith, pop-Keeps cap xs ys b h)

pub adjust-Keeps :
    (cap : ℕ) (xs : List ℕ) (b : IoBuf) → Keeps cap xs b → Returns (IoBuf.adjust b) (Holds cap xs)
adjust-Keeps cap xs b h =
    Returns-map (IoBuf.adjust b) (Holds b.capacity (contents b)) (Holds cap xs)
      (λ d k. subst (λ n. Holds n xs d) h.size (subst (λ l. Holds b.capacity l d) h.bytes k))
      (adjust_lem b (record { fits = omega (arith, h.fits, h.size) }))

module _ {U : Type 0} (conn_start_cb conn_close_cb : TcpClient × U → Result (TcpClient × U))
    (serve : ℕ → ℕ → List ℕ → TcpClient × U → Result (TcpClient × U)) where
  -- A successful read appends the bytes, runs the loop and moves what is left to the front.
  pub do_read-append :
      (cap fuel : ℕ) (old new : List ℕ) (r : Attempts ReadRet) (dial : Dial) (c : TcpClient) (u : U)
      → c.connected ≡ true
      → retry r ≡ got new
      → 0 < length new
      → length old + length new ≤ cap
      → Holds cap old c.in_buf
      → do_read conn_start_cb conn_close_cb serve fuel (some (length new)) r dial (c, u) ≡ (do
        b ← append new c.in_buf
        t ← read_loop serve fuel (record c { in_buf = b }, u)
        d ← IoBuf.adjust t.0.in_buf
        ok (true, (record t.0 { in_buf = d }, t.1)))
  unfolding do_read after_read
  do_read-append cap fuel old [] r dial c u on e pos room h = absurd (omega arith)
  do_read-append cap fuel old (x ∷ xs) r dial c u on e pos room h =
      let new = x ∷ xs in
      let fits : leb (length new) (c.in_buf.capacity - c.in_buf.len) ≡ true =
        ground (arith, h.size, h.count) in
      let same : (length new == length new) ≡ true = ground arith in simp (on, fits, e, same) refl
