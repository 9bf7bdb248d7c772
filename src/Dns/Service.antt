-- ===== src/Dns/Service.antt =====
-- dns/src/dns_service.cc: the handler of route requests, what happens when a connection starts and
-- ends, and a round of the thread that looks for changes.
pub mod Subscriptions
pub mod Round
pub mod Watch
pub mod Wire
pub mod Answering
pub mod Replying
use rins.Prelude.{
  ℕ, ◌+◌, ◌≤◌, leb, ◌==◌, ◌≡◌, if◌then◌else◌, List, [], ◌∷◌, ◌++◌, Option, none, some, Bool, true,
  false, Result, ok, fault, bad_pointer, ◌>>=◌,
}
use rins.Prelude.Maps.{find, put, remove, contains, insert}
use rins.Reactor.Callback.{Task, push_change_task as push_task}
use rins.Key.{key_of}
use rins.Agent.LoadBalance.{GetRouteRequest, GetRouteResponse}
use rins.Dns.Route.{
  Row, Answer, Route, Statement, get_hosts, load_version, load_changes, remove_changes, reload,
}
use rins.Dns.Subscribe.{
  SubscribeList, new_subscribe_list, subscribe, unsubscribe, note_changes, addresses,
}

-- `params` has the set that `param` of a connection points to, by descriptor; it has no entry where
-- the pointer is null. `told` has the tasks that `publish` has given to the threads, in order.
pub record Service : Type 0 where
  pub params : List (ℕ × List ℕ)
  pub subs : SubscribeList
  pub route : Route
  pub told : List Task

subscribe_new : ℕ → ℕ → List ℕ → Service → Service
subscribe_new key fd sub_list s =
    if contains key sub_list
    then s
    else record s { params = put fd (insert key sub_list) s.params; subs = subscribe key fd s.subs }

-- `get_route`: the response goes to the connection of `fd`.
unfoldable pub get_route : GetRouteRequest → ℕ → Service → Result (GetRouteResponse × Service)
unfolding subscribe_new
get_route req fd s = elim (find fd s.params) [
  | none ↦ fault bad_pointer
  | some sub_list ↦ ok (
    record {
      modid = req.modid;
      cmdid = req.cmdid;
      hosts = addresses (get_hosts req.modid req.cmdid s.route);
    },
    subscribe_new (key_of req.modid req.cmdid) fd sub_list s,
  )
]

-- `create_subscribe`
unfoldable pub create_subscribe : ℕ → Service → Service
create_subscribe fd s = record s { params = put fd [] s.params }

-- The loop of `clear_subscribe`.
unfoldable pub unsubscribe_all : List ℕ → ℕ → SubscribeList → SubscribeList
unsubscribe_all [] fd l = l
unsubscribe_all (key ∷ keys) fd l = unsubscribe_all keys fd (unsubscribe key fd l)

-- `clear_subscribe`
unfoldable pub clear_subscribe : ℕ → Service → Result Service
clear_subscribe fd s = elim (find fd s.params) [
  | none ↦ fault bad_pointer
  | some sub_list ↦
      ok (record s { params = remove fd s.params; subs = unsubscribe_all sub_list fd s.subs })
]

-- What the queries of a round answer.
pub record Answers : Type 0 where
  pub versions : Answer ℕ
  pub route_data : Answer Row
  pub changes : Answer (ℕ × ℕ)

-- The thread's last time of loading, with the service.
abbrev pub Checker : Type 0
Checker = ℕ × Service

changed : ℕ → Answers → Checker → Statement × Checker
changed now a (last, s) =
    let (done, r) = reload a.route_data s.route in
    let subs = note_changes (load_changes a.changes []) s.subs in
    let told = s.told ++ (push_task ∷ []) in
    (
      remove_changes false r,
      ((if done then now else last), record s { route = r; subs = subs; told = told }),
    )

overdue : ℕ → Answers → Checker → Checker
overdue now a (last, s) =
    let (done, r) = reload a.route_data s.route in
    ((if done then now else last), record s { route = r })

unless_changed : Option Bool → ℕ → Answers → Checker → Option Statement × Checker
unfolding changed overdue
unless_changed (some true) now a c = (some (changed now a c).0, (changed now a c).1)
unless_changed _ now a c = (none, (if leb (c.0 + 10) now then overdue now a c else c))

-- A round of `check_route_changes` at the time `now`, after its sleep, with the statement that it
-- sends.
unfoldable pub check_route_changes : ℕ → Answers → Checker → Option Statement × Checker
unfolding unless_changed
check_route_changes now a (last, s) =
    let (ret, r) = load_version a.versions s.route in
    unless_changed ret now a (last, record s { route = r })

sent : Option Statement → List Statement → List Statement
sent none log = log
sent (some st) log = st ∷ log

-- The rounds of the loop of `check_route_changes`, each with its time, and the statements in order.
unfoldable pub watch_rounds : List (ℕ × Answers) → Checker → List Statement × Checker
unfolding sent
watch_rounds [] c = ([], c)
watch_rounds ((now, a) ∷ rounds) c =
    let (st, d) = check_route_changes now a c in
    let (log, e) = watch_rounds rounds d in (sent st log, e)

-- `check_route_changes` from its start at the given time: all changes are deleted first.
unfoldable pub watch : ℕ → List (ℕ × Answers) → Service → List Statement × Checker
watch start rounds s =
    let (log, c) = watch_rounds rounds (start, s) in (remove_changes true s.route ∷ log, c)
