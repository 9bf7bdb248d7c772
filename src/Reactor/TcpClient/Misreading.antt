-- ===== src/Reactor/TcpClient/Misreading.antt =====
-- What a client makes of messages that have not come in whole, and of negative lengths.
use rins.Prelude.{
  ℕ, zero, suc, ◌+◌, ◌-◌, ◌^◌, ◌≤◌, ◌<◌, ◌≡◌, refl, sym, ap, ◌∙◌, subst, List, [], ◌∷◌, ◌++◌,
  append-nil, length, length-append, take, none, some, true, Result, ok, fault, out_of_fuel,
  Returns, Returns->>=, Returns-eq, arith,
}
use rins.Reactor.Memory.{window, window_at}
use rins.Reactor.IoBuf
use rins.Reactor.IoBuf.{IoBuf, contents, pop}
use rins.Reactor.IoBuf.Laws.{Holds}
use rins.Reactor.ReactorBuf.{Attempts, retry, ReadRet, got}
use rins.Reactor.Message.{MsgHead, head_bytes, read_head}
use rins.Reactor.Message.Wire.{read_head-head_bytes, length-head_bytes}
use rins.Reactor.TcpConn.Framing.{Msg, read_head_short}
use rins.Reactor.TcpClient.{TcpClient, append}
use rins.Reactor.TcpClient.Send.{append-Holds}
use rins.Reactor.TcpClient.Link.{Dial, pop_int, take_message, read_loop, do_read}
use rins.Reactor.TcpClient.Kept.{
  Keeps, Holds-Keeps, pop-Keeps, take-view, adjust-Keeps, do_read-append,
}

take-take : (k n : ℕ) (xs : List ℕ) → k ≤ n → take k (take n xs) ≡ take k xs
take-take zero n xs h = refl
take-take (suc k) zero xs h = absurd (omega arith)
take-take (suc k) (suc n) [] h = refl
take-take (suc k) (suc n) (x ∷ xs) h = ap (◌∷◌ x) (take-take k n xs (omega arith))

-- A `pop` of more bytes than there are does nothing.
pop_int-short : (n : ℕ) (b : IoBuf) → n < 2 ^ 31 → b.len < n → pop_int n b ≡ ok b
unfolding pop_int pop
pop_int-short n b lt h = ground arith

-- The length of a head that takes the client back to that head.
abbrev back_to_head : ℕ
back_to_head = 2 ^ 32 - 8

pop_int-back :
    (cap : ℕ) (xs ys : List ℕ) (b : IoBuf)
    → length xs ≡ 8
    → Keeps cap (xs ++ ys) b
    → Returns (pop_int back_to_head (pop b 8)) (Keeps cap (xs ++ ys))
unfolding pop_int pop
pop_int-back cap xs ys b e h = ground (
  arith,
  length-append xs ys,
  e,
  h.count,
  h.bytes,
  h.fits,
  h.size,
  window_at b.block (b.head + 8 - 8) b.head (b.len - 8 + 8) b.len,
)

module _ {U : Type 0} (conn_start_cb conn_close_cb : TcpClient × U → Result (TcpClient × U))
    (serve : ℕ → ℕ → List ℕ → TcpClient × U → Result (TcpClient × U)) (seen : U → List Msg)
    (serve_lem : (id length : ℕ) (view : List ℕ) (s : TcpClient × U)
      → Returns (serve id length view s) (λ t.
        (t.0.in_buf ≡ s.0.in_buf) × (seen t.1 ≡ seen s.1 ++ ((id, take length view) ∷ [])))) where
  -- The handler has run with a body that begins with `part`, which is still there.
  ToldEarly : ℕ → List ℕ → U → ℕ → TcpClient × U → Type 0
  ToldEarly cap part u id t =
      Keeps cap part t.0.in_buf
      × (body : List ℕ) × (seen t.1 ≡ seen u ++ ((id, body) ∷ []))
      × (take (length part) body ≡ part)

  take_message-early :
      (cap : ℕ) (h : MsgHead) (part : List ℕ) (s : TcpClient × U)
      → h.length < 2 ^ 31
      → length part < h.length
      → Keeps cap (head_bytes h ++ part) s.0.in_buf
      → Returns (take_message serve h.id h.length s) (ToldEarly cap part s.1 h.id)
  unfolding take_message ToldEarly
  take_message-early cap h part (c, u) lt short k =
      let b = pop c.in_buf 8 in
      let kb : Keeps cap part b =
        subst (λ n. Keeps cap part (pop c.in_buf n)) (length-head_bytes h)
          (pop-Keeps cap (head_bytes h) part c.in_buf k) in
      let view = window b.block b.head (b.capacity - b.head) in
      let front : take (length part) view ≡ part =
        take-view cap part [] b (subst (λ l. Keeps cap l b) (sym (append-nil part)) kb) in
      Returns->>= (serve h.id h.length view (record c { in_buf = b }, u)) _ _
        (ToldEarly cap part u h.id) (serve_lem h.id h.length view (record c { in_buf = b }, u))
        λ t g.
          let kt : Keeps cap part t.0.in_buf = subst (Keeps cap part) (sym g.0) kb in
          rw (pop_int-short h.length t.0.in_buf lt (omega (arith, kt.count))) (
            kt,
            take h.length view,
            g.1,
            take-take (length part) h.length view (omega arith) ∙ front,
          )

  read_loop-early :
      (cap fuel : ℕ) (h : MsgHead) (part : List ℕ) (s : TcpClient × U)
      → h.id < 2 ^ 32
      → h.length < 2 ^ 31
      → length part < h.length
      → length part < 8
      → Keeps cap (head_bytes h ++ part) s.0.in_buf
      → Returns (read_loop serve (suc (suc fuel)) s) (ToldEarly cap part s.1 h.id)
  unfolding read_loop ToldEarly
  read_loop-early cap fuel h part s id lt short few k =
      let here : read_head (contents s.0.in_buf) ≡ some h =
        ap read_head k.bytes ∙ read_head-head_bytes h part id (omega arith) in
      rw (here, read_loop)
        (Returns->>= (take_message serve h.id h.length s) (read_loop serve (suc fuel))
          (ToldEarly cap part s.1 h.id) (ToldEarly cap part s.1 h.id)
          (take_message-early cap h part s lt short k)
          λ t g.
            let none_here : read_head (contents t.0.in_buf) ≡ none =
              ap read_head g.0.bytes ∙ read_head_short part few in
            rw (none_here, read_loop) g)

  take_message-back :
      (cap id : ℕ) (more : List ℕ) (s : TcpClient × U)
      → Keeps cap (head_bytes (record { id = id; length = back_to_head }) ++ more) s.0.in_buf
      → Returns (take_message serve id back_to_head s) (λ t.
        Keeps cap (head_bytes (record { id = id; length = back_to_head }) ++ more) t.0.in_buf)
  unfolding take_message
  take_message-back cap id more (c, u) k =
      let hb = head_bytes (record { id = id; length = back_to_head }) in
      let b = pop c.in_buf 8 in
      let view = window b.block b.head (b.capacity - b.head) in
      let again : Returns (pop_int back_to_head b) (Keeps cap (hb ++ more)) =
        pop_int-back cap hb more c.in_buf
          (length-head_bytes (record { id = id; length = back_to_head })) k in
      Returns->>= (serve id back_to_head view (record c { in_buf = b }, u)) _ _ _
        (serve_lem id back_to_head view (record c { in_buf = b }, u))
        λ t g.
          Returns->>= (pop_int back_to_head t.0.in_buf) _ (Keeps cap (hb ++ more)) _
            (subst (λ d. Returns (pop_int back_to_head d) (Keeps cap (hb ++ more))) (sym g.0) again)
            λ d l. l

  read_loop-endless :
      (cap fuel id : ℕ) (more : List ℕ) (s : TcpClient × U)
      → id < 2 ^ 32
      → Keeps cap (head_bytes (record { id = id; length = back_to_head }) ++ more) s.0.in_buf
      → read_loop serve fuel s ≡ fault out_of_fuel
  unfolding read_loop
  read_loop-endless cap zero id more s lt k = refl
  read_loop-endless cap (suc fuel) id more s lt k =
      let h : MsgHead = record { id = id; length = back_to_head } in
      let here : read_head (contents s.0.in_buf) ≡ some h =
        ap read_head k.bytes ∙ read_head-head_bytes h more lt (omega arith) in
      let (t, e, kt) =
        Returns-eq (take_message serve id back_to_head s) _ (take_message-back cap id more s k) in
      rw (here, e, read_loop) (read_loop-endless cap fuel id more t lt kt)

  -- If a read of a connected client with an empty input buffer, which has room for them, brings the
  -- head of a message and fewer than eight bytes of its longer body, which is shorter than 2^31
  -- bytes, do_read runs the handler at once, on a body that begins with the bytes that are there,
  -- and these stay in the buffer. The handlers return, leave the input buffer alone and record what
  -- they get.
  pub do_read-early :
      (cap fuel : ℕ) (h : MsgHead) (part : List ℕ) (r : Attempts ReadRet) (dial : Dial)
      (c : TcpClient) (u : U)
      → c.connected ≡ true
      → retry r ≡ got (head_bytes h ++ part)
      → h.id < 2 ^ 32
      → h.length < 2 ^ 31
      → length part < h.length
      → length part < 8
      → 8 + length part ≤ cap
      → Holds cap [] c.in_buf
      → Returns
          (do_read conn_start_cb conn_close_cb serve
            (suc (suc fuel))
            (some (length (head_bytes h ++ part)))
            r
            dial
            (c, u))
          (λ x.
            Holds cap part x.1.0.in_buf
            × (body : List ℕ) × (seen x.1.1 ≡ seen u ++ ((h.id, body) ∷ []))
            × (take (length part) body ≡ part))
  unfolding ToldEarly
  do_read-early cap fuel h part r dial c u on e id lt short few room k =
      let new = head_bytes h ++ part in
      let size : length new ≡ 8 + length part =
        omega (arith, length-append (head_bytes h) part, length-head_bytes h) in
      rw
        (do_read-append conn_start_cb conn_close_cb serve cap (suc (suc fuel)) [] new r dial c u on
          e (omega arith) (omega arith) k)
        (Returns->>= (append new c.in_buf) _ (Holds cap new) _
          (append-Holds c.in_buf cap [] new k (omega arith))
          λ b kb.
            Returns->>= (read_loop serve (suc (suc fuel)) (record c { in_buf = b }, u)) _
              (ToldEarly cap part u h.id) _
              (read_loop-early cap fuel h part (record c { in_buf = b }, u) id lt short few
                (Holds-Keeps cap new b kb))
              λ t g.
                Returns->>= (IoBuf.adjust t.0.in_buf) _ (Holds cap part) _
                  (adjust-Keeps cap part t.0.in_buf g.0) λ d l. (l, g.1, g.2, g.3))

  -- On a connected client, a message that comes in first on an empty input buffer with the length
  -- -8, 2^32 - 8 as a bit pattern, keeps do_read from ending, whatever follows: no number of rounds
  -- is enough, since each one takes the head back to the message. The handlers return, leave the
  -- input buffer alone and record what they get, and the bytes fit into the buffer.
  pub do_read-endless :
      (cap fuel id : ℕ) (more : List ℕ) (r : Attempts ReadRet) (dial : Dial) (c : TcpClient) (u : U)
      → c.connected ≡ true
      → retry r ≡ got (head_bytes (record { id = id; length = 2 ^ 32 - 8 }) ++ more)
      → id < 2 ^ 32
      → 8 + length more ≤ cap
      → Holds cap [] c.in_buf
      → do_read conn_start_cb conn_close_cb serve fuel
          (some (length (head_bytes (record { id = id; length = 2 ^ 32 - 8 }) ++ more)))
          r
          dial
          (c, u)
        ≡ fault out_of_fuel
  do_read-endless cap fuel id more r dial c u on e lt room k =
      let h : MsgHead = record { id = id; length = 2 ^ 32 - 8 } in
      let new = head_bytes h ++ more in
      let size : length new ≡ 8 + length more =
        omega (arith, length-append (head_bytes h) more, length-head_bytes h) in
      let (b, eb, kb) =
        Returns-eq (append new c.in_buf) _ (append-Holds c.in_buf cap [] new k (omega arith)) in
      do_read-append conn_start_cb conn_close_cb serve cap fuel [] new r dial c u on e (omega arith)
        (omega arith) k
      ∙ simp
          (
            eb,
            read_loop-endless cap fuel id more (record c { in_buf = b }, u) lt
                (Holds-Keeps cap new b kb),
          )
          refl
