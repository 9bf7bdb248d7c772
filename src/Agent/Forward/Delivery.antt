-- ===== src/Agent/Forward/Delivery.antt =====
-- From the queue of the agent to the handlers of the server.
use rins.Prelude.{
  ℕ, ◌+◌, ◌≤◌, ◌<◌, ◌≡◌, refl, sym, ap, ◌∙◌, subst, List, [], ◌∷◌, ◌++◌, map, append_assoc,
  append-nil, length, length-append, All, true, false, some, ◌&&◌, leb, Result, ok, Returns,
  Returns->>=, Returns-map, Ends, inl, arith,
}
use rins.Protocol.{id_get_route_request, id_report_status_request, ReportStatusRequest}
use rins.Reactor.BufPool.Laws
use rins.Reactor.IoBuf.{contents}
use rins.Reactor.IoBuf.Laws.{Holds}
use rins.Reactor.ReactorBuf.{returned, got, retry}
use rins.Reactor.ReactorBuf.Room.{IsReady}
use rins.Reactor.Message.{head_bytes}
use rins.Reactor.ThreadQueue.{ThreadQueue, recv}
use rins.Reactor.TcpConn.{World, input, do_read}
use rins.Reactor.TcpConn.Framing.{
  length-encode, length-stream, Msg, IsMessage, encode, head_of, stream,
}
use rins.Reactor.TcpConn.Recording.{do_read-Took}
use rins.Reactor.TcpClient.{TcpClient, send_message}
use rins.Reactor.TcpClient.Send.{Sent, Queued, send_message-Sent}
use rins.Agent.LoadBalance.{GetRouteRequest}
use rins.Agent.Forward.{send_all, new_dns_request, new_report_request}

-- The bytes of a message and those that follow
stream-encode : (m : Msg) (ms : List Msg) → stream (m ∷ ms) [] ≡ encode m ++ stream ms []
stream-encode m ms = sym (append_assoc (head_bytes (head_of m)) m.1 (stream ms []))

queues :
    (cap : ℕ) (xs body : List ℕ) (msgid : ℕ) (c : TcpClient)
    → c.connected ≡ true
    → Holds cap xs c.out_buf
    → length xs + (8 + length body) ≤ cap
    → Returns (send_message body msgid c) (Queued cap (xs ++ encode (msgid, body)) c)
queues cap xs body msgid c on h le =
    let fits : (c.connected && leb (length xs + (8 + length body)) cap) ≡ true =
      ground (arith, on, le) in
    subst (λ b. Returns (send_message body msgid c) (Sent b cap (xs ++ encode (msgid, body)) c))
      fits (send_message-Sent cap xs body msgid c h)

module _ {M : Type 0} (serialize : M → List ℕ) where
  abbrev pub messages : ℕ → List M → List Msg
  messages msgid msgs = map (λ msg. (msgid, serialize msg)) msgs

  -- All messages wait behind what waited before.
  SentAll : ℕ → List ℕ → TcpClient → TcpClient → Type 0
  SentAll cap all c d = Holds cap all d.out_buf × (d.in_buf ≡ c.in_buf) × (d.connected ≡ true)

  send_all-SentAll :
      (cap msgid : ℕ) (xs : List ℕ) (msgs : List M) (c : TcpClient)
      → c.connected ≡ true
      → Holds cap xs c.out_buf
      → length (xs ++ stream (messages msgid msgs) []) ≤ cap
      → Returns
          (send_all serialize msgid msgs c)
          (SentAll cap (xs ++ stream (messages msgid msgs) []) c)
  unfolding send_all SentAll
  send_all-SentAll cap msgid xs [] c on h le =
      (subst (λ l. Holds cap l c.out_buf) (sym (append-nil xs)) h, refl, on)
  send_all-SentAll cap msgid xs (msg ∷ msgs) c on h le =
      let m : Msg = (msgid, serialize msg) in
      let later = stream (messages msgid msgs) [] in
      let all : xs ++ stream (m ∷ messages msgid msgs) [] ≡ (xs ++ encode m) ++ later =
        ap (◌++◌ xs) (stream-encode m (messages msgid msgs))
        ∙ sym (append_assoc xs (encode m) later) in
      let size : length (xs ++ encode m) ≡ length xs + (8 + length m.1) =
        omega (arith, length-append xs (encode m), length-encode m) in
      let whole : length (xs ++ encode m) + length later ≤ cap =
        omega (arith, ap length all, length-append (xs ++ encode m) later) in
      Returns->>= (send_message m.1 msgid c) _ (Queued cap (xs ++ encode m) c) _
        (queues cap xs m.1 msgid c on h (omega arith))
        λ r q.
          Returns-map (send_all serialize msgid msgs r.1) _ _
            (λ d g. (subst (λ l. Holds cap l d.out_buf) (sym all) g.0, g.1 ∙ q.input_kept, g.2))
            (send_all-SentAll cap msgid (xs ++ encode m) msgs r.1 (q.stays_connected ∙ on) q.queued
              (omega (arith, length-append (xs ++ encode m) later)))

stream_pos :
    {M : Type 0} (serialize : M → List ℕ) (msgid : ℕ) (msgs : List M)
    → 0 < length msgs
    → 0 < length (stream (messages serialize msgid msgs) [])
stream_pos serialize msgid [] h = absurd (omega arith)
stream_pos serialize msgid (msg ∷ msgs) h =
    let m : Msg = (msgid, serialize msg) in
    omega (arith, length-stream m (messages serialize msgid msgs) [])

-- The requests reach the handlers of a server, if the bytes of the client come in with one read.
module _ {U : Type 0} (conn_close_cb : World U → Result (World U))
    (serve : ℕ → List ℕ → World U → Result (World U)) (seen : U → List Msg)
    (serve_lem : (id : ℕ) (body : List ℕ) (w : World U)
      → Laws.IsValid w.pool
      → Ends (serve id body w) (λ v.
        (v.conn.in_buf ≡ w.conn.in_buf)
        × Laws.IsValid v.pool
        × (seen v.user ≡ seen w.user ++ ((id, body) ∷ [])))) where
  received :
      (ms : List Msg) (w : World U) (d : TcpClient)
      → 0 < length (stream ms [])
      → All IsMessage ms
      → IsReady [] (input w)
      → Holds 4194304 (stream ms []) d.out_buf
      → Ends
          (do_read conn_close_cb serve (some d.out_buf.len) (returned (got (contents d.out_buf))) w)
          (λ v. IsReady [] (input v) × (seen v.user ≡ seen w.user ++ ms))
  unfolding retry
  received ms w d pos vs ready h =
      rw (h.bytes, h.count)
        (do_read-Took conn_close_cb serve seen serve_lem ms [] (stream ms []) []
          (returned (got (stream ms []))) w refl pos (omega (arith, h.room)) refl vs
          (inl (omega arith)) ready)

  -- The agent's callback of dns_queue, with a client that is connected and has nothing waiting,
  -- empties the queue, which has a request at least, and the bytes that the client then holds, if a
  -- server's connection with an empty input buffer reads them at once, run the server's handlers on
  -- the serialised requests, once and in the order of the queue. The requests have 1 to
  -- MESSAGE_LENGTH_LIMIT bytes and with their heads fit into 4 MB together; the server's pool is in
  -- order, and its handlers leave the input buffer alone, keep the pool in order and record what
  -- they get. The server may exit for want of memory instead.
  pub new_dns_request-do_read :
      (serialize : GetRouteRequest → List ℕ) (q : ThreadQueue GetRouteRequest) (c : TcpClient)
      (w : World U)
      → c.connected ≡ true
      → Holds 4194304 [] c.out_buf
      → 0 < length q.queue
      → All IsMessage (messages serialize id_get_route_request q.queue)
      → length (stream (messages serialize id_get_route_request q.queue) []) ≤ 4194304
      → IsReady [] (input w)
      → Returns (new_dns_request serialize q c) (λ t.
        (t.0.queue ≡ [])
        × Ends
            (do_read conn_close_cb serve
              (some t.1.out_buf.len)
              (returned (got (contents t.1.out_buf)))
              w)
            (λ v.
              IsReady [] (input v)
              × (seen v.user ≡ seen w.user ++ messages serialize id_get_route_request q.queue)))
  unfolding new_dns_request recv SentAll
  new_dns_request-do_read serialize q c w on h some_wait vs room ready =
      let ms = messages serialize id_get_route_request q.queue in
      Returns->>= (send_all serialize id_get_route_request q.queue c) _ _ _
        (send_all-SentAll serialize 4194304 id_get_route_request [] q.queue c on h room)
        λ d g. (
          refl,
          received ms w d (stream_pos serialize id_get_route_request q.queue some_wait) vs ready
              g.0,
        )

send_all-lost :
    {M : Type 0} (serialize : M → List ℕ) (msgid : ℕ) (msgs : List M) (c : TcpClient)
    → c.connected ≡ false
    → send_all serialize msgid msgs c ≡ ok c
unfolding send_all send_message
send_all-lost serialize msgid [] c off = refl
send_all-lost serialize msgid (msg ∷ msgs) c off =
    simp off (send_all-lost serialize msgid msgs c off)

-- While the client of the report service is not connected, the callback of report_queue takes all
-- reports out of the queue and leaves the client as it is: they are lost.
pub new_report_request-lost :
    (serialize : ReportStatusRequest → List ℕ) (q : ThreadQueue ReportStatusRequest) (c : TcpClient)
    → c.connected ≡ false
    → Returns (new_report_request serialize q c) (λ t. (t.0.queue ≡ []) × (t.1 ≡ c))
unfolding new_report_request recv
new_report_request-lost serialize q c off =
    rw (send_all-lost serialize id_report_status_request q.queue c off) (refl, refl)
