-- ===== src/Agent/Server/Replies.antt =====
-- What a client gets from the agent's servers.
use rins.Prelude.{
  ℕ, ◌≡◌, ◌==◌, if◌then◌else◌, List, Option, none, some, Result, ok, fault, bad_pointer, ◌>>=◌,
  >>=-eq-ok, sym, ap, arith,
}
use rins.Prelude.Maps.{find, put}
use rins.Reactor.Message.{route, register_msg_router, no_routes}
use rins.Protocol.{id_get_host_request, id_get_host_response}
use rins.Agent.LoadBalance.{Status, RetCode, ret_succ, GetHostResponse}
use rins.Agent.RouteLb.{RouteLb, get_host}
use rins.Agent.Server.{
  GetHostRequest, Handler, deal_recv_route, Reply, handle_get_host, agent_routes, dns_client_routes,
}

-- `route` as the router calls it: the callback with its argument.
abbrev pub call_agent :
    (List ℕ → GetHostRequest)
    → (GetHostResponse → List ℕ)
    → ℕ
    → List ℕ
    → ℕ
    → Status
    → Option (Handler × Option (Option RouteLb))
    → Result (Option (Reply × RouteLb))
call_agent parse serialize msgid bytes cnt st none = ok none
call_agent parse serialize msgid bytes cnt st (some (h, none)) = fault bad_pointer
call_agent parse serialize msgid bytes cnt st (some (h, some arg)) =
    handle_get_host parse serialize bytes msgid arg cnt st >>= (λ a. ok (some a))

abbrev reply_id : ℕ → Result (Reply × RouteLb) → ℕ
reply_id d (ok a) = a.0.1
reply_id d (fault e) = d

module _ (parse_host_request : List ℕ → GetHostRequest)
    (serialize_host_response : GetHostResponse → List ℕ) where
  -- With the routes of the agent's UDP server, a GetHostRequest makes the handler follow a null
  -- pointer, whatever its bytes are; messages with another identifier are dropped.
  pub agent_routes_null :
      (msgid : ℕ) (bytes : List ℕ) (cnt : ℕ) (st : Status)
      → call_agent parse_host_request serialize_host_response msgid bytes cnt st
          (route msgid agent_routes)
        ≡ (if msgid == id_get_host_request then fault bad_pointer else ok none)
  unfolding agent_routes route register_msg_router no_routes find put handle_get_host
  agent_routes_null msgid bytes cnt st = ground arith

  -- A reply goes out under the identifier of its request.
  pub handle_get_host-msgid :
      (bytes : List ℕ) (msgid : ℕ) (r : RouteLb) (cnt : ℕ) (st : Status) (a : Reply × RouteLb)
      → handle_get_host parse_host_request serialize_host_response bytes msgid (some r) cnt st
        ≡ ok a
      → a.0.1 ≡ msgid
  unfolding handle_get_host
  handle_get_host-msgid bytes msgid r cnt st a e =
      let req = parse_host_request bytes in
      let resp : GetHostResponse = record {
        seq = req.seq;
        modid = req.modid;
        cmdid = req.cmdid;
        retcode = ret_succ;
        host = none;
      } in
      let reply : (RetCode × GetHostResponse × RouteLb) → Result (Reply × RouteLb) =
        λ x. ok ((serialize_host_response x.1, msgid), x.2) in
      let (x, q, p) = >>=-eq-ok (get_host req.modid req.cmdid resp cnt st r) reply a e in
      sym (ap (reply_id msgid) q)

-- The agent's connection to the DNS service has one handler, and that under the identifier of
-- GetHostResponse: the answers that the service sends, under that of GetRouteResponse, have none.
pub dns_client_routes_lem :
    (msgid : ℕ)
    → route msgid dns_client_routes
      ≡ (if msgid == id_get_host_response then some (deal_recv_route, some none) else none)
unfolding dns_client_routes route register_msg_router no_routes find put
dns_client_routes_lem msgid = ground arith
