-- ===== src/Agent/Server.antt =====
-- load_balance_agent/src/agent_udp_server.cc and load_balance_agent/src/dns_client.cc: the message
-- handlers of the agent and their registration. Parsing and serialising are protobuf's.
pub mod Replies
use rins.Prelude.{
  ℕ, ◌+◌, ◌%◌, ◌^◌, ◌-◌, leb, not, List, [], ◌∷◌, take, Option, none, some, Bool, Result, ok, fault,
  ◌>>=◌, bad_pointer, out_of_bounds, if◌then◌else◌, ltb, ◌==◌,
}
use rins.Prelude.Words.{is_negative, add32}
use rins.Reactor.Message.{MsgRouter, no_routes, register_msg_router}
use rins.Reactor.EventLoop.{EventLoop, init}
use rins.Reactor.Callback.{Callback, Task}
use rins.Reactor.Udp.{udp_server}
use rins.Protocol.{id_get_host_request, id_get_host_response}
use rins.Agent.LoadBalance.{Status, ret_succ, GetHostResponse, GetRouteResponse}
use rins.Agent.RouteLb.{RouteLb, get_host, update_host}

-- The message `GetHostRequest`.
pub record GetHostRequest : Type 0 where
  pub seq : ℕ
  pub modid : ℕ
  pub cmdid : ℕ

-- The callbacks that the agent registers.
pub data Handler : Type 0 where
  get_host_cb deal_recv_route : Handler

-- A reply: the bytes and the identifier that go to `send_message`.
abbrev pub Reply : Type 0
Reply = List ℕ × ℕ

module _ (parse_host_request : List ℕ → GetHostRequest)
    (serialize_host_response : GetHostResponse → List ℕ) where
  -- `get_host_cb`: `userdata` is the balancer table, or null. The reply goes out under the
  -- identifier of the request.
  unfoldable pub handle_get_host :
      List ℕ → ℕ → Option RouteLb → ℕ → Status → Result (Reply × RouteLb)
  handle_get_host bytes msgid none junk_cnt junk_status = fault bad_pointer
  handle_get_host bytes msgid (some r) junk_cnt junk_status =
      let req = parse_host_request bytes in
      do
        a ←
            get_host req.modid req.cmdid
              (record {
                seq = req.seq;
                modid = req.modid;
                cmdid = req.cmdid;
                retcode = ret_succ;
                host = none;
              })
              junk_cnt junk_status r
        ok ((serialize_host_response a.1, msgid), a.2)

-- The routes of `agent_server_main`: no `user_data` is given, so that the argument is null.
unfoldable pub agent_routes : MsgRouter Handler (Option RouteLb)
agent_routes = (register_msg_router id_get_host_request get_host_cb none no_routes).1

-- The routes of `dns_client_thread`.
unfoldable pub dns_client_routes : MsgRouter Handler (Option RouteLb)
dns_client_routes = (register_msg_router id_get_host_response deal_recv_route none no_routes).1

-- `(modid + cmdid) % 3` of two `int`, as the index of `r_lb`: none for a negative remainder.
unfoldable pub shard : ℕ → ℕ → Option ℕ
shard modid cmdid =
    let sum = add32 modid cmdid in
    if is_negative sum then (if ((2 ^ 32 - sum) % 3) == 0 then some 0 else none) else some (sum % 3)

module _ (parse_route_response : List ℕ → GetRouteResponse) where
  -- `deal_recv_route` parses as many bytes as the identifier says, and hands the answer to the
  -- table of the modid and cmdid that it finds there.
  unfoldable pub deal_recv_route_target : List ℕ → ℕ → ℕ → Option ℕ × GetRouteResponse
  deal_recv_route_target bytes len msgid =
      let resp = parse_route_response (take msgid bytes) in (shard resp.modid resp.cmdid, resp)

  unfoldable pub handle_route_response : List ℕ → ℕ → ℕ → (ℕ → RouteLb) → Result (ℕ → RouteLb)
  unfolding deal_recv_route_target
  handle_route_response bytes len msgid tables =
      let (index, resp) = deal_recv_route_target bytes len msgid in
      elim index [
        | none ↦ fault out_of_bounds
        | some i ↦ do
          r ← update_host resp.modid resp.cmdid resp (tables i)
          ok (λ j. if j == i then r else tables j)
      ]

-- The start of `agent_server_main`: the port of the server with the given index, a `short`, as a
-- bit pattern, and its socket in a new loop.
unfoldable pub agent_server_main :
    ℕ → (Bool × Bool) → Option ℕ → Bool → Result (ℕ × (ℕ × EventLoop Callback Task))
agent_server_main index signals socket binds = do
  s ← udp_server signals socket binds init
  ok ((index + 8888) % 2 ^ 16, s)
