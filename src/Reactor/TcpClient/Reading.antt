-- ===== src/Reactor/TcpClient/Reading.antt =====
-- What a client hands to its handlers.
use rins.Prelude.{
  ℕ, zero, suc, ◌+◌, ◌-◌, ◌^◌, ◌≤◌, ◌<◌, ◌≡◌, refl, sym, ap, ◌∙◌, subst, List, [], ◌∷◌, ◌++◌,
  append_assoc, append-nil, length, take, All, none, some, true, ◌==◌, leb, Result, Returns,
  Returns->>=, Returns-map, arith,
}
use rins.Reactor.Memory.{window}
use rins.Reactor.IoBuf
use rins.Reactor.IoBuf.{IoBuf, contents, pop}
use rins.Reactor.IoBuf.Laws.{Holds}
use rins.Reactor.ReactorBuf.{Attempts, retry, ReadRet, got}
use rins.Reactor.Message.{head_bytes, read_head}
use rins.Reactor.Message.Wire.{read_head-head_bytes, length-head_bytes}
use rins.Reactor.TcpConn.Framing.{length-stream, Msg, head_of, stream, read_head_short}
use rins.Reactor.TcpClient.{TcpClient, append}
use rins.Reactor.TcpClient.Send.{append-Holds}
use rins.Reactor.TcpClient.Kept.{
  Keeps, Holds-Keeps, pop-Keeps, take-view, pop_int-Keeps, adjust-Keeps,
}
use rins.Reactor.TcpClient.Link.{Dial, pop_int, take_message, read_loop, after_read, do_read}

-- A message whose length is an `int` that is not negative; its body may be empty.
abbrev pub IsWhole : Msg → Type 0
IsWhole (id, body) = (id < 2 ^ 32) × (length body < 2 ^ 31)

module _ {U : Type 0} (conn_start_cb conn_close_cb : TcpClient × U → Result (TcpClient × U))
    (serve : ℕ → ℕ → List ℕ → TcpClient × U → Result (TcpClient × U)) (seen : U → List Msg)
    (serve_lem : (id length : ℕ) (view : List ℕ) (s : TcpClient × U)
      → Returns (serve id length view s) (λ t.
        (t.0.in_buf ≡ s.0.in_buf) × (seen t.1 ≡ seen s.1 ++ ((id, take length view) ∷ [])))) where
  record Told (cap : ℕ) (s : TcpClient × U) (ms : List Msg) (rest : List ℕ) (t : TcpClient × U)
      : Type 0 where
    left : Keeps cap rest t.0.in_buf
    told : seen t.1 ≡ seen s.1 ++ ms

  take_message-Told :
      (cap : ℕ) (m : Msg) (rest : List ℕ) (s : TcpClient × U)
      → IsWhole m
      → Keeps cap (head_bytes (head_of m) ++ (m.1 ++ rest)) s.0.in_buf
      → Returns (take_message serve m.0 (length m.1) s) (Told cap s (m ∷ []) rest)
  unfolding take_message
  take_message-Told cap m rest (c, u) v h =
      let hb = head_bytes (head_of m) in
      let b = pop c.in_buf 8 in
      let k : Keeps cap (m.1 ++ rest) b =
        subst (λ n. Keeps cap (m.1 ++ rest) (pop c.in_buf n)) (length-head_bytes (head_of m))
          (pop-Keeps cap hb (m.1 ++ rest) c.in_buf h) in
      let view = window b.block b.head (b.capacity - b.head) in
      Returns->>= (serve m.0 (length m.1) view (record c { in_buf = b }, u)) _ _
        (Told cap (c, u) (m ∷ []) rest)
        (serve_lem m.0 (length m.1) view (record c { in_buf = b }, u))
        λ t g.
          Returns->>= (pop_int (length m.1) t.0.in_buf) _ (Keeps cap rest)
            (Told cap (c, u) (m ∷ []) rest)
            (pop_int-Keeps cap m.1 rest t.0.in_buf v.1
              (subst (Keeps cap (m.1 ++ rest)) (sym g.0) k))
            λ d left. record {
              left = left;
              told = g.1 ∙ ap (λ l. seen u ++ ((m.0, l) ∷ [])) (take-view cap m.1 rest b k);
            }

  read_loop-Told :
      (cap : ℕ) (ms : List Msg) (rest : List ℕ) (fuel : ℕ) (s : TcpClient × U)
      → length (stream ms rest) < fuel
      → All IsWhole ms
      → length rest < 8
      → Keeps cap (stream ms rest) s.0.in_buf
      → Returns (read_loop serve fuel s) (Told cap s ms rest)
  unfolding read_loop
  read_loop-Told cap ms rest zero s lt vs short h = absurd (omega arith)
  read_loop-Told cap [] rest (suc fuel) s lt vs short h =
      let none_here : read_head (contents s.0.in_buf) ≡ none =
        ap read_head h.bytes ∙ read_head_short rest short in
      rw (none_here, read_loop) (record { left = h; told = sym (append-nil (seen s.1)) })
  read_loop-Told cap (m ∷ ms) rest (suc fuel) s lt vs short h =
      let all = stream (m ∷ ms) rest in
      let size : length all ≡ 8 + (length m.1 + length (stream ms rest)) =
        length-stream m ms rest in
      let here : read_head (contents s.0.in_buf) ≡ some (head_of m) =
        ap read_head h.bytes
        ∙ read_head-head_bytes (head_of m) (m.1 ++ stream ms rest) vs.0.0 (omega (arith, vs.0.1)) in
      rw (here, read_loop)
        (Returns->>= (take_message serve m.0 (length m.1) s) (read_loop serve fuel)
          (Told cap s (m ∷ []) (stream ms rest)) (Told cap s (m ∷ ms) rest)
          (take_message-Told cap m (stream ms rest) s vs.0 h)
          λ t k.
            Returns-map (read_loop serve fuel t) (Told cap t ms rest) (Told cap s (m ∷ ms) rest)
              (λ v g. record {
                left = g.left;
                told = g.told ∙ ap (λ l. l ++ ms) k.told ∙ append_assoc (seen s.1) (m ∷ []) ms;
              })
              (read_loop-Told cap ms rest fuel t (omega arith) vs.1 short k.left))

  after_read-Told :
      (cap fuel : ℕ) (ms : List Msg) (old new rest : List ℕ) (dial : Dial) (c : TcpClient) (u : U)
      → 0 < length new
      → length old + length new ≤ cap
      → length (old ++ new) < fuel
      → old ++ new ≡ stream ms rest
      → All IsWhole ms
      → length rest < 8
      → Holds cap old c.in_buf
      → Returns
          (after_read conn_start_cb conn_close_cb serve fuel (length new) (got new) dial (c, u))
          (λ x. (x.0 ≡ true) × Holds cap rest x.1.0.in_buf × (seen x.1.1 ≡ seen u ++ ms))
  unfolding after_read
  after_read-Told cap fuel ms old [] rest dial c u pos room enough cut vs short h =
      absurd (omega arith)
  after_read-Told cap fuel ms old (x ∷ xs) rest dial c u pos room enough cut vs short h =
      let new = x ∷ xs in
      let same : (length new == length new) ≡ true = ground arith in
      rw (same, after_read)
        (Returns->>= (append new c.in_buf) _ (Holds cap (stream ms rest)) _
          (subst (λ l. Returns (append new c.in_buf) (Holds cap l)) cut
            (append-Holds c.in_buf cap old new h room))
          λ b k.
            Returns->>= (read_loop serve fuel (record c { in_buf = b }, u)) _
              (Told cap (record c { in_buf = b }, u) ms rest) _
              (read_loop-Told cap ms rest fuel (record c { in_buf = b }, u)
                (omega (arith, ap length cut)) vs short (Holds-Keeps cap (stream ms rest) b k))
              λ t g.
                Returns->>= (IoBuf.adjust t.0.in_buf) _ (Holds cap rest) _
                  (adjust-Keeps cap rest t.0.in_buf g.left) λ d l. (refl, l, g.told))

  -- For a connected client, the input buffer of which holds the bytes left over from index 0 on,
  -- and handlers that return, leave that buffer alone and record what they get: a read of all
  -- waiting bytes, which are not none and fit into the buffer behind those left over, hands each
  -- message to its handler, once and in order, with the right body, if the bytes are whole messages
  -- with identifiers below 2^32 and bodies shorter than 2^31 bytes, and at most seven bytes of the
  -- next head, which stay. One more round than there are bytes is enough.
  pub do_read-Told :
      (cap fuel : ℕ) (ms : List Msg) (old new rest : List ℕ) (r : Attempts ReadRet) (dial : Dial)
      (c : TcpClient) (u : U)
      → c.connected ≡ true
      → retry r ≡ got new
      → 0 < length new
      → length old + length new ≤ cap
      → length (old ++ new) < fuel
      → old ++ new ≡ stream ms rest
      → All IsWhole ms
      → length rest < 8
      → Holds cap old c.in_buf
      → Returns
          (do_read conn_start_cb conn_close_cb serve fuel (some (length new)) r dial (c, u))
          (λ x. (x.0 ≡ true) × Holds cap rest x.1.0.in_buf × (seen x.1.1 ≡ seen u ++ ms))
  unfolding do_read
  do_read-Told cap fuel ms old new rest r dial c u on e pos room enough cut vs short h =
      let fits : leb (length new) (c.in_buf.capacity - c.in_buf.len) ≡ true =
        ground (arith, h.size, h.count) in
      simp (on, fits, e)
        (after_read-Told cap fuel ms old new rest dial c u pos room enough cut vs short h)
