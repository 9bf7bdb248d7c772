-- ===== src/Dns/Service/Replying.antt =====
-- What a connection of the DNS service has still to answer, and how each message changes it.
use rins.Prelude.{
  ℕ, ◌+◌, ◌≤◌, ◌≡◌, refl, sym, ap, ◌∙◌, subst, ◌==◌, if◌then◌else◌, List, [], ◌∷◌, ◌++◌,
  append_assoc, append-nil, length, length-append, Option, none, some, Bool-cases, inl, inr, true,
  Ends, Ends->>=, Ends_of_Returns, arith,
}
use rins.Prelude.Maps.{find, find-put}
use rins.Reactor.BufPool.Laws
use rins.Reactor.ReactorBuf.{State}
use rins.Reactor.ReactorBuf.Room.{IsReady}
use rins.Reactor.ReactorBuf.Capacity.{SizeIs}
use rins.Reactor.IoBuf.{IoBuf}
use rins.Reactor.Message.{MsgRouter, route}
use rins.Reactor.TcpConn.{World, output, set_input, send_message}
use rins.Reactor.TcpConn.Framing.{Msg, encode, length-encode}
use rins.Reactor.TcpConn.Send.{capacity_of, Queued, send_message-Queued}
use rins.Protocol.{id_get_route_request, id_get_route_response}
use rins.Agent.LoadBalance.{GetRouteRequest, GetRouteResponse}
use rins.Dns.Route.{Route}
use rins.Dns.Start.{Handler, get_route}
use rins.Dns.Service
use rins.Dns.Service.{Service}
use rins.Dns.Service.Wire.{
  answer, handle, serve, responses, responses_cons, responses_skip, Answered, get_route-Answered,
}
use rins.Prelude.{◌%◌, ◌^◌, ◌<◌, set as set_at, ltb, ok}
use rins.Reactor.EventLoop.{add_io_event, epollin}
use rins.Reactor.Callback.{conn_rd_callback}
use rins.Reactor.ConnTable.{conn, increase_conn}
use rins.Reactor.TcpConn.{connect}
use rins.Dns.Service.Wire.{on_conn}
use rins.Dns.Start.{create_subscribe}

-- The connection that a client gets, with its empty set.
abbrev pub connected : ℕ → ℕ → World Service → World Service
connected connfd name w = record w {
  conn = record { connfd = connfd; in_buf = none; out_buf = none };
  loop = add_io_event true connfd conn_rd_callback epollin w.loop;
  user = Service.create_subscribe connfd w.user;
  table = record w.table {
    conns = set_at w.table.conns connfd (conn name);
    cur_conns = (w.table.cur_conns + 1) % 2 ^ 32;
  };
}

module _ (parse_request : List ℕ → GetRouteRequest) (serialize : GetRouteResponse → List ℕ) where
  module _ (r : Route) (fd : ℕ) (all : List ℕ) where
    -- What waits and what is still to come are all the responses, and the block has room for them.
    pub record Left (ms : List Msg) (w : World Service) : Type 0 where
      pub out : List ℕ
      pub waits : IsReady out (output w)
      pub room :
          length out + length (responses parse_request serialize r ms) ≤ capacity_of w.conn.out_buf
      pub total : out ++ responses parse_request serialize r ms ≡ all
      pub own : w.conn.connfd ≡ fd
      pub route_kept : w.user.route ≡ r
      pub set : List ℕ
      pub subscribed : find fd w.user.params ≡ some set

    pub input-Left :
        (ms : List Msg) (s : State) (w : World Service)
        → Laws.IsValid s.1
        → Left ms w
        → Left ms (set_input s w)
    input-Left ms s w ok_pool l = record {
      out = l.out;
      waits = record { held = l.waits.held; pool = ok_pool };
      room = l.room;
      total = l.total;
      own = l.own;
      route_kept = l.route_kept;
      set = l.set;
      subscribed = l.subscribed;
    }

    capacity-SizeIs : (c : ℕ) (o : Option IoBuf) → SizeIs c o → capacity_of o ≡ c
    capacity-SizeIs c none e = absurd e
    capacity-SizeIs c (some b) e = e

    handle-Left :
        (m : Msg) (ms : List Msg) (w : World Service)
        → Left (m ∷ ms) w
        → (m.0 == id_get_route_request) ≡ true
        → Ends
            (handle parse_request serialize get_route m.1 w)
            (λ v. (v.conn.in_buf ≡ w.conn.in_buf) × Laws.IsValid v.pool × Left ms v)
    unfolding handle Answered
    handle-Left m ms w l e =
        let next = responses_cons parse_request serialize r m ms e in
        let reply = answer parse_request serialize r m.1 in
        let size : length (responses parse_request serialize r (m ∷ ms))
            ≡ 8 + (length reply + length (responses parse_request serialize r ms)) =
          omega (
            arith,
            ap length next,
            length-append (encode (id_get_route_response, reply))
                (responses parse_request serialize r ms),
            length-encode (id_get_route_response, reply),
          ) in
        Ends->>= (Service.get_route (parse_request m.1) w.conn.connfd w.user) _
          (Answered parse_request serialize r w.conn.connfd m.1) _
          (Ends_of_Returns (Service.get_route (parse_request m.1) w.conn.connfd w.user) _ (
            get_route-Answered parse_request serialize r w.conn.connfd m.1 l.set w.user l.route_kept
              (subst (λ j. find j w.user.params ≡ some l.set) (sym l.own) l.subscribed)))
          λ a k.
            let x : World Service = record w { user = a.1 } in
            let out = l.out ++ encode (id_get_route_response, serialize a.0) in
            Ends->>= (send_message (serialize a.0) id_get_route_response x) _ (Queued x out) _
              (send_message-Queued l.out (serialize a.0) id_get_route_response x l.waits
                (omega (arith, l.room, size, ap length k.0)))
              λ q g. (
                g.input_kept,
                g.queued.pool,
                record {
                  out = out;
                  waits = g.queued;
                  room = rw (capacity-SizeIs (capacity_of w.conn.out_buf) q.1.conn.out_buf g.room) (
                      omega (
                        arith,
                        l.room,
                        size,
                        ap length k.0,
                        length-append l.out (encode (id_get_route_response, serialize a.0)),
                        length-encode (id_get_route_response, serialize a.0),
                      ));
                  total = rw k.0 (
                      append_assoc l.out (encode (id_get_route_response, reply))
                        (responses parse_request serialize r ms)
                      ∙ ap (λ ys. l.out ++ ys) (sym next)
                      ∙ l.total);
                  own = g.fd_kept ∙ l.own;
                  route_kept = ap (λ s. s.route) g.user_kept ∙ k.1;
                  set = k.2;
                  subscribed =
                      ap (λ s. find fd s.params) g.user_kept
                      ∙ subst (λ j. find j a.1.params ≡ some k.2) l.own k.3;
                },
              )

    module _ (router : MsgRouter Handler (Option (Unit {0})))
        (routes : (msgid : ℕ)
          → route msgid router
            ≡ (if msgid == id_get_route_request then some (get_route, some none) else none)) where
      pub serve-Left :
          (m : Msg) (ms : List Msg) (w : World Service)
          → Laws.IsValid w.pool
          → Left (m ∷ ms) w
          → Ends
              (serve parse_request serialize router m.0 m.1 w)
              (λ v. (v.conn.in_buf ≡ w.conn.in_buf) × Laws.IsValid v.pool × Left ms v)
      unfolding serve
      serve-Left m ms w ok_pool l = elim (Bool-cases (m.0 == id_get_route_request)) [
        | inl e ↦
            let found : route m.0 router ≡ some (get_route, some none) =
              routes m.0 ∙ ap (λ b. if b then some (get_route, some none) else none) e in
            rw (found, serve) (handle-Left m ms w l e)
        | inr e ↦
            let found : route m.0 router ≡ none =
              routes m.0 ∙ ap (λ b. if b then some (get_route, some none) else none) e in
            let same = responses_skip parse_request serialize r m ms e in
            rw (found, serve)
              (
                refl,
                ok_pool,
                record {
                  out = l.out;
                  waits = l.waits;
                  room =
                      subst (λ ys. length l.out + length ys ≤ capacity_of w.conn.out_buf) same
                        l.room;
                  total = ap (λ ys. l.out ++ ys) (sym same) ∙ l.total;
                  own = l.own;
                  route_kept = l.route_kept;
                  set = l.set;
                  subscribed = l.subscribed;
                },
              )
      ]

      pub finished : (v : World Service) → Left [] v → IsReady all (output v)
      unfolding responses
      finished v l = subst (λ ys. IsReady ys (output v)) (sym (append-nil l.out) ∙ l.total) l.waits

  pub begun :
      (connfd name : ℕ) (ms : List Msg) (w : World Service)
      → Laws.IsValid w.pool
      → length (responses parse_request serialize w.user.route ms) ≤ capacity_of none
      → Left w.user.route connfd
          (responses parse_request serialize w.user.route ms)
          ms
          (connected connfd name w)
  unfolding Service.create_subscribe
  begun connfd name ms w ok_pool room = record {
    out = [];
    waits = record { held = refl; pool = ok_pool };
    room = omega (arith, room);
    total = refl;
    own = refl;
    route_kept = refl;
    set = [];
    subscribed = ground (arith, find-put connfd connfd [] w.user.params);
  }

pub connect-connected :
    (connfd name : ℕ) (w : World Service)
    → connfd < length w.table.conns
    → connect (on_conn (some create_subscribe)) connfd name w ≡ ok (connected connfd name w)
unfolding connect on_conn increase_conn
connect-connected connfd name w inside =
    let fits : ltb connfd (length w.table.conns) ≡ true = ground (arith, inside) in
    rw (fits, increase_conn) refl
