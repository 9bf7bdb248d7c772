-- ===== src/Reactor/TcpConn/Recording.antt =====
-- Handlers that record what they get: every message, once and in order.
use rins.Prelude.{
  ℕ, ◌+◌, ◌≤◌, ◌<◌, ◌≡◌, refl, sym, ap, ◌∙◌, List, [], ◌∷◌, ◌++◌, append_assoc, append-nil, length,
  All, some, Result, Ends, Ends-map,
}
use rins.Reactor.BufPool.Laws
use rins.Reactor.BufPool.{m8_m}
use rins.Reactor.ReactorBuf.{Attempts, ReadRet, got, retry}
use rins.Reactor.ReactorBuf.Room.{IsReady}
use rins.Reactor.TcpConn.{World, input, do_read}
use rins.Reactor.TcpConn.Framing.{Msg, IsMessage, stream, IsPartial}
use rins.Reactor.TcpConn.Serving.{do_read-Serves}
use rins.Reactor.TcpConn.Stream.{concat, IsChunk, read_all, read_all-Serves}

module _ {U : Type 0} (conn_close_cb : World U → Result (World U))
    (serve : ℕ → List ℕ → World U → Result (World U)) (seen : U → List Msg)
    (serve_lem : (id : ℕ) (body : List ℕ) (w : World U)
      → Laws.IsValid w.pool
      → Ends (serve id body w) (λ v.
        (v.conn.in_buf ≡ w.conn.in_buf)
        × Laws.IsValid v.pool
        × (seen v.user ≡ seen w.user ++ ((id, body) ∷ [])))) where
  -- What has been seen and what is still to come are all the messages.
  abbrev Completes : List Msg → List Msg → World U → Type 0
  Completes all ms w = seen w.user ++ ms ≡ all

  serve-Completes :
      (all : List Msg) (m : Msg) (ms : List Msg) (w : World U)
      → Laws.IsValid w.pool
      → Completes all (m ∷ ms) w
      → Ends
          (serve m.0 m.1 w)
          (λ v. (v.conn.in_buf ≡ w.conn.in_buf) × Laws.IsValid v.pool × Completes all ms v)
  serve-Completes all m ms w ok_pool known =
      Ends-map (serve m.0 m.1 w) _ _
        (λ v k. (k.0, k.1, ap (λ l. l ++ ms) k.2 ∙ append_assoc (seen w.user) (m ∷ []) ms ∙ known))
        (serve_lem m.0 m.1 w ok_pool)

  -- For handlers that leave the input buffer alone, keep the pool in order and record what they
  -- get: a read of all waiting bytes, which are not none and with those left over from earlier
  -- reads at most 8 MB, hands each whole message of the stream to its handler, once and in order,
  -- and keeps the beginning of the next one for the next read, unless the process exits for want of
  -- memory. The messages have a body of 1 to MESSAGE_LENGTH_LIMIT bytes, and the stream may be cut
  -- anywhere.
  pub do_read-Took :
      (ms : List Msg) (old new rest : List ℕ) (r : Attempts ReadRet) (w : World U)
      → retry r ≡ got new
      → 0 < length new
      → length old + length new ≤ m8_m
      → old ++ new ≡ stream ms rest
      → All IsMessage ms
      → IsPartial rest
      → IsReady old (input w)
      → Ends
          (do_read conn_close_cb serve (some (length new)) r w)
          (λ v. IsReady rest (input v) × (seen v.user ≡ seen w.user ++ ms))
  do_read-Took ms old new rest r w e pos fits cut vs p h =
      let all = seen w.user ++ ms in
      Ends-map (do_read conn_close_cb serve (some (length new)) r w) _ _
        (λ v g. (g.0, sym (append-nil (seen v.user)) ∙ g.1))
        (do_read-Serves conn_close_cb serve (Completes all) (λ ns s v ok_pool k. k)
          (serve-Completes all) ms [] old new rest r w e pos fits cut vs p
          (ap (λ l. seen w.user ++ l) (append-nil ms)) h)

  -- For handlers that leave the input buffer alone, keep the pool in order and record what they
  -- get: however the bytes of whole messages are cut into reads, of 1 to 8323072 bytes each, the
  -- reads on a connection with an empty input buffer and a pool in order hand every message to its
  -- handler, once and in order, and leave the buffer empty, unless the process exits for want of
  -- memory. The messages have a body of 1 to MESSAGE_LENGTH_LIMIT bytes.
  pub read_all-stream :
      (ms : List Msg) (cs : List (List ℕ)) (w : World U)
      → concat cs ≡ stream ms []
      → All IsMessage ms
      → All IsChunk cs
      → IsReady [] (input w)
      → Ends
          (read_all conn_close_cb serve cs w)
          (λ v. IsReady [] (input v) × (seen v.user ≡ seen w.user ++ ms))
  read_all-stream ms cs w e vs hs ready =
      let all = seen w.user ++ ms in
      Ends-map (read_all conn_close_cb serve cs w) _ _
        (λ v g. (g.0, sym (append-nil (seen v.user)) ∙ g.1))
        (read_all-Serves conn_close_cb serve (Completes all) (λ ns s v ok_pool k. k)
          (serve-Completes all) ms cs w e vs hs refl ready)
