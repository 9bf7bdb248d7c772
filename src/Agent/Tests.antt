-- ===== src/Agent/Tests.antt =====
-- The agent's theorems at concrete inputs.
use rins.Prelude.{ℕ, ◌≡◌, List, [], ◌∷◌, Returns, All}
use rins.Agent.LoadBalance.{new, GetHostResponse}
use rins.Agent.RouteLb.{new_route_lb}
use rins.Agent.RouteLb.Starvation.{Event, asks, answers, run, SaysNone, run-new_route_lb}
use rins.Agent.Server.{GetHostRequest, agent_routes}
use rins.Agent.Server.Replies.{call_agent, agent_routes_null}
use rins.Reactor.Message.{route}
use rins.Prelude.{fault, bad_pointer}

-- A client asks, the DNS service answers with a host, and the client asks again.
abbrev asked_twice : List Event
asked_twice =
    asks 1 2 0 new 1
    ∷ answers 1 2 (record { modid = 1; cmdid = 2; hosts = (7, 80) ∷ [] })
    ∷ asks 1 2 0 new 2
    ∷ []

run-new_route_lb_example : Returns (run asked_twice new_route_lb) (λ a. All SaysNone a.0)
run-new_route_lb_example = run-new_route_lb asked_twice

abbrev parse_request : List ℕ → GetHostRequest
parse_request bytes = record { seq = 1; modid = 1; cmdid = 2 }

abbrev serialize_response : GetHostResponse → List ℕ
serialize_response resp = resp.seq ∷ resp.modid ∷ resp.cmdid ∷ []

agent_routes_null_example :
    call_agent parse_request serialize_response 4 [] 0 new (route 4 agent_routes)
    ≡ fault bad_pointer
agent_routes_null_example = agent_routes_null parse_request serialize_response 4 [] 0 new
