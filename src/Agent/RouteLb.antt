-- ===== src/Agent/RouteLb.antt =====
-- load_balance_agent/include/route_lb.h and load_balance_agent/src/route_lb.cc: the balancers of one
-- agent thread. Each call holds `_mutex`, so it is one step.
pub mod Starvation
use rins.Prelude.{
  ℕ, ◌==◌, if◌then◌else◌, List, [], ◌∷◌, ◌++◌, Option, none, some, Bool, true, false, Result, ok,
  fault, ◌>>=◌, ◌>>◌, check, assertion,
}
use rins.Prelude.Maps.{find, put, remove}
use rins.Key.{key_of}
use rins.Agent.HostInfo.{Heap}
use rins.Agent.LoadBalance.{
  Status, pulling, new, LoadBalance, RetCode, ret_succ, ret_noexist, GetHostResponse,
  GetRouteRequest, GetRouteResponse, new_load_balance, empty, choice_one_host, pull, update,
}

-- The balancers by key, the heap of the hosts, and the requests that wait in `dns_queue`.
pub record RouteLb : Type 0 where
  pub route_map : List (ℕ × LoadBalance)
  pub heap : Heap
  pub dns_queue : List GetRouteRequest

-- `route_lb::route_lb`
unfoldable pub new_route_lb : RouteLb
new_route_lb = record { route_map = []; heap = record { cells = []; next = 0 }; dns_queue = [] }

abbrev pub is_pulling : Status → Bool
is_pulling pulling = true
is_pulling new = false

-- A balancer without hosts: it waits for the answer of the DNS service, and 0 is returned, while
-- the response says that there is no host.
waiting : ℕ → LoadBalance → GetHostResponse → RouteLb → Result (RetCode × GetHostResponse × RouteLb)
waiting key lb resp r = do
  check (is_pulling lb.status) assertion
  ok (ret_succ, record resp { retcode = ret_noexist }, r)

choosing :
    ℕ → LoadBalance → GetHostResponse → RouteLb → Result (RetCode × GetHostResponse × RouteLb)
choosing key lb resp r = do
  a ← choice_one_host lb resp r.heap
  ok (a.0, record a.1 { retcode = a.0 }, record r { route_map = put key a.2 r.route_map })

-- A new balancer, which asks the DNS service for its hosts.
opening : ℕ → ℕ → ℕ → ℕ → Status → GetHostResponse → RouteLb → RetCode × GetHostResponse × RouteLb
opening key modid cmdid junk_cnt junk_status resp r =
    let (req, lb) = pull (new_load_balance modid cmdid junk_cnt junk_status) in
    (
      ret_noexist,
      record resp { retcode = ret_noexist },
      record r { route_map = put key lb r.route_map; dns_queue = r.dns_queue ++ (req ∷ []) },
    )

-- `route_lb::get_host`; the two last numbers are what a new balancer does not initialise.
unfoldable pub get_host :
    ℕ → ℕ → GetHostResponse → ℕ → Status → RouteLb → Result (RetCode × GetHostResponse × RouteLb)
unfolding waiting choosing opening
get_host modid cmdid resp junk_cnt junk_status r = elim (find (key_of modid cmdid) r.route_map) [
  | some lb ↦
      if empty lb
      then waiting (key_of modid cmdid) lb resp r
      else choosing (key_of modid cmdid) lb resp r
  | none ↦ ok (opening (key_of modid cmdid) modid cmdid junk_cnt junk_status resp r)
]

-- An answer without hosts removes the balancer, any other one updates it.
update_lb : ℕ → LoadBalance → GetRouteResponse → RouteLb → Result RouteLb
update_lb key lb rsp r = elim rsp.hosts [
  | [] ↦ ok (record r { route_map = remove key r.route_map })
  | h ∷ hs ↦ do
    a ← update rsp lb r.heap
    ok (record r { route_map = put key a.0 r.route_map; heap = a.1 })
]

-- `route_lb::update_host`
unfoldable pub update_host : ℕ → ℕ → GetRouteResponse → RouteLb → Result RouteLb
unfolding update_lb
update_host modid cmdid rsp r = elim (find (key_of modid cmdid) r.route_map) [
  | some lb ↦ update_lb (key_of modid cmdid) lb rsp r
  | none ↦ ok r
]
