-- ===== src/Agent/Start.antt =====
-- The start of the agent: load_balance_agent/src/main_server.cc and the threads of
-- load_balance_agent/src/dns_client.cc, load_balance_agent/src/report_client.cc and
-- load_balance_agent/src/agent_udp_server.cc, each up to its loop.
use rins.Prelude.{
  ℕ, zero, suc, ◌+◌, ◌%◌, ◌^◌, List, [], ◌∷◌, Option, none, some, Bool, Result, ok, fault,
  bad_pointer, exited, ◌>>=◌, ◌>>◌, check,
}
use rins.Reactor.Text.{Text}
use rins.Reactor.ConfigFile.{StrMap, set_path, config_instance, get_string, get_number}
use rins.Reactor.EventLoop.{init}
use rins.Reactor.Callback.{
  Callback, new_dns_request as dns_callback, new_report_request as report_callback,
}
use rins.Reactor.ThreadQueue.{ThreadQueue, Making, new_thread_queue, set_callback}
use rins.Reactor.TcpClient.{TcpClient}
use rins.Reactor.TcpClient.Link.{Dial, tcp_client}
use rins.Reactor.TcpServer.Boot.{ip_key, port_key}
use rins.Reactor.Message.{MsgRouter, no_routes}
use rins.Protocol.{ReportStatusRequest}
use rins.Agent.LoadBalance.{GetRouteRequest}
use rins.Agent.RouteLb.{RouteLb, new_route_lb}
use rins.Agent.Server.{Handler, dns_client_routes}

-- The loop of `create_route_lb`, with the number of tables that are left
unfoldable pub create_from : ℕ → List RouteLb
create_from zero = []
create_from (suc left) = new_route_lb ∷ create_from left

-- `create_route_lb`: the array `r_lb`
unfoldable pub create_route_lb : List RouteLb
unfolding create_from
create_route_lb = create_from 3

-- `init_lb_agent`: the static of config_file, and the tables
unfoldable pub init_lb_agent : Option Text → Result (Option StrMap × List RouteLb)
init_lb_agent file = do r ← set_path file none; ok (r.1, create_route_lb)

-- The loop of `start_UDP_servers` from the index `i` on: the indexes that the threads are made for.
-- `creates` tells whether `pthread_create` answers something else than -1.
unfoldable pub servers_from : ℕ → ℕ → (ℕ → Bool) → Result (List ℕ)
servers_from zero i creates = ok []
servers_from (suc left) i creates = do
  check (creates i) exited
  rest ← servers_from left (i + 1) creates
  ok (i ∷ rest)

-- `start_UDP_servers`
unfoldable pub start_udp_servers : (ℕ → Bool) → Result (List ℕ)
start_udp_servers creates = servers_from 3 0 creates

-- `start_report_client`: `creates` tells whether `pthread_create` answers something else than -1.
unfoldable pub start_report_client : Bool → Result (Unit {0})
start_report_client creates = check creates exited

-- `start_dns_client`
unfoldable pub start_dns_client : Bool → Result (Unit {0})
start_dns_client creates = check creates exited

-- The globals of the agent, and the indexes of its servers.
pub record Agent : Type 0 where
  pub config : Option StrMap
  pub r_lb : List RouteLb
  pub servers : List ℕ
  pub report_queue : ThreadQueue ReportStatusRequest
  pub dns_queue : ThreadQueue GetRouteRequest

-- `main` up to its last loop, with the answers for the threads of the servers, and for the queues
-- and the threads of the two clients.
unfoldable pub main : Option Text → (ℕ → Bool) → Making → Result Agent
main file creates clients = do
  r ← init_lb_agent file
  servers ← start_udp_servers creates
  report_queue ← new_thread_queue (clients.eventfd 0)
  start_report_client (clients.creates 0)
  dns_queue ← new_thread_queue (clients.eventfd 1)
  start_dns_client (clients.creates 1)
  ok (record {
    config = r.0;
    r_lb = r.1;
    servers = servers;
    report_queue = report_queue;
    dns_queue = dns_queue;
  })

-- A thread that is a client of a server, before its loop
pub record ClientThread : Type 0 where
  pub ip : Text
  pub port : ℕ
  pub client : TcpClient
  pub routes : MsgRouter Handler (Option RouteLb)

-- A callback of the connection that has never been set: the pointer, which the code tests and
-- follows, is not initialised.
abbrev pub no_callback : TcpClient × Unit {0} → Result (TcpClient × Unit {0})
no_callback s = fault bad_pointer

-- The queue with the descriptor `evfd` gets the loop of the client.
unfoldable pub attach : ℕ → Callback → TcpClient → TcpClient
attach evfd cb c = elim (set_callback evfd cb (some c.loop)) [
  | none ↦ c
  | some loop ↦ record c { loop = loop }
]

-- What the two threads have in common: the client of the server that the section tells, in a new
-- loop, which the queue with the descriptor `evfd` wakes.
unfoldable pub client_thread :
    Text
    → Callback
    → MsgRouter Handler (Option RouteLb)
    → Option StrMap
    → Dial
    → ℕ
    → Result ClientThread
client_thread section cb routes config dial evfd = do
  m ← config_instance config
  s ← tcp_client no_callback init dial tt
  ok (record {
    ip = get_string section ip_key [] m;
    port = get_number section port_key 0 m % 2 ^ 16;
    client = attach evfd cb s.0;
    routes = routes;
  })

abbrev pub reporter : Text
reporter = b'r' ∷ b'e' ∷ b'p' ∷ b'o' ∷ b'r' ∷ b't' ∷ b'e' ∷ b'r' ∷ []

abbrev pub dnsserver : Text
dnsserver = b'd' ∷ b'n' ∷ b's' ∷ b's' ∷ b'e' ∷ b'r' ∷ b'v' ∷ b'e' ∷ b'r' ∷ []

-- `report_client_thread`
unfoldable pub report_client_thread : Option StrMap → Dial → ℕ → Result ClientThread
report_client_thread config dial evfd =
    client_thread reporter report_callback no_routes config dial evfd

-- `dns_client_thread`
unfoldable pub dns_client_thread : Option StrMap → Dial → ℕ → Result ClientThread
dns_client_thread config dial evfd =
    client_thread dnsserver dns_callback dns_client_routes config dial evfd
