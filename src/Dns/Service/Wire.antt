-- ===== src/Dns/Service/Wire.antt =====
-- Requests from the bytes of a connection to the responses in its output buffer: the router calls
-- get_route for the messages that reactor/src/tcp_conn.cc takes off the stream.
use rins.Prelude.{
  ℕ, ◌≡◌, refl, ap, ◌==◌, if◌then◌else◌, List, [], ◌∷◌, ◌++◌, false, Option, none, some, Bool-cases,
  inl, inr, true, Result, ok, ◌>>=◌, Returns, arith,
}
use rins.Prelude.Maps.{find, find-put, contains, insert}
use rins.Reactor.Message.{MsgRouter, route}
use rins.Reactor.TcpConn.{World, send_message}
use rins.Reactor.TcpConn.Framing.{Msg, encode}
use rins.Key.{key_of}
use rins.Protocol.{id_get_route_request, id_get_route_response}
use rins.Agent.LoadBalance.{GetRouteRequest, GetRouteResponse}
use rins.Dns.Route.{Route, get_hosts}
use rins.Dns.Subscribe.{addresses}
use rins.Dns.Start.{Handler, get_route, ConnCallback, create_subscribe, clear_subscribe}
use rins.Dns.Service
use rins.Dns.Service.{Service}

-- What a callback of a connection does, with none for null.
unfoldable pub on_conn : Option ConnCallback → World Service → Result (World Service)
on_conn none w = ok w
on_conn (some create_subscribe) w =
    ok (record w { user = Service.create_subscribe w.conn.connfd w.user })
on_conn (some clear_subscribe) w = do
  s ← Service.clear_subscribe w.conn.connfd w.user
  ok (record w { user = s })

module _ (parse_request : List ℕ → GetRouteRequest) (serialize : GetRouteResponse → List ℕ) where
  -- The body of the response to a request
  unfoldable pub answer : Route → List ℕ → List ℕ
  answer r body =
      let req = parse_request body in
      serialize (record {
        modid = req.modid;
        cmdid = req.cmdid;
        hosts = addresses (get_hosts req.modid req.cmdid r);
      })

  -- What a handler does: the response is sent on the connection that the request came from.
  unfoldable pub handle : Handler → List ℕ → World Service → Result (World Service)
  handle get_route body w = do
    a ← Service.get_route (parse_request body) w.conn.connfd w.user
    r ← send_message (serialize a.0) id_get_route_response (record w { user = a.1 })
    ok r.1

  -- `msg_router::call`: a message that has no handler is dropped.
  unfoldable pub serve :
      MsgRouter Handler (Option (Unit {0})) → ℕ → List ℕ → World Service → Result (World Service)
  serve router msgid body w = elim (route msgid router) [
    | none ↦ ok w
    | some callback ↦ handle callback.0 body w
  ]

  -- The responses to the requests among the messages, each with its head.
  unfoldable pub responses : Route → List Msg → List ℕ
  responses r [] = []
  responses r (m ∷ ms) =
      let rest = responses r ms in
      if m.0 == id_get_route_request
      then encode (id_get_route_response, answer r m.1) ++ rest
      else rest

  pub responses_cons :
      (r : Route) (m : Msg) (ms : List Msg)
      → (m.0 == id_get_route_request) ≡ true
      → responses r (m ∷ ms) ≡ encode (id_get_route_response, answer r m.1) ++ responses r ms
  unfolding responses
  responses_cons r m ms e = rw e refl

  pub responses_skip :
      (r : Route) (m : Msg) (ms : List Msg)
      → (m.0 == id_get_route_request) ≡ false
      → responses r (m ∷ ms) ≡ responses r ms
  unfolding responses
  responses_skip r m ms e = rw e refl

  -- What `get_route` answers on a connection that has its set.
  unfoldable pub Answered : Route → ℕ → List ℕ → GetRouteResponse × Service → Type 0
  Answered r fd body a =
      (serialize a.0 ≡ answer r body)
      × (a.1.route ≡ r)
      × (set : List ℕ) × (find fd a.1.params ≡ some set)

  pub get_route-Answered :
      (r : Route) (fd : ℕ) (body set : List ℕ) (s : Service)
      → s.route ≡ r
      → find fd s.params ≡ some set
      → Returns (Service.get_route (parse_request body) fd s) (Answered r fd body)
  unfolding Service.get_route Answered answer
  get_route-Answered r fd body set s same e =
      let req = parse_request body in
      let body_of : serialize (record {
        modid = req.modid;
        cmdid = req.cmdid;
        hosts = addresses (get_hosts req.modid req.cmdid s.route);
      })
          ≡ answer r body =
        ap (λ q. answer q body) same in
      let key = key_of req.modid req.cmdid in
      elim (Bool-cases (contains key set)) [
        | inl old ↦ rw (e, Service.get_route) (rw old (body_of, same, set, e))
        | inr new ↦
            rw (e, Service.get_route)
              (rw new (
                body_of,
                same,
                insert key set,
                ground (arith, find-put fd fd (insert key set) s.params),
              ))
      ]
