-- ===== src/Dns/Tests.antt =====
-- The theorems on the DNS service at concrete inputs.
use rins.Prelude.{◌≡◌, refl, [], ◌∷◌, true, fault, bad_pointer, arith}
use rins.Prelude.Maps.{find, put, contains, insert}
use rins.Key.{key_of}
use rins.Agent.LoadBalance.{GetRouteRequest, GetRouteResponse}
use rins.Dns.Route.{
  add_rows, delete_all, delete_up_to, Row, rows, query_failed, Route, hosts_at, get_hosts,
}
use rins.Dns.Route.Reload.{has_row}
use rins.Dns.Subscribe.{
  SubscribeList, new_subscribe_list, subscribe, publish, note_changes, push_all, push_to,
  push_change_task,
}
use rins.Dns.Subscribe.Push.{push_change_task-publish}
use rins.Dns.Service.{Service, Answers, get_route, create_subscribe, check_route_changes, watch}
use rins.Dns.Service.Subscriptions.{Reaches, starts, opens, asks, has, Reaches-Booked}
use rins.Reactor.Callback.{push_change_task as push_task}
use rins.Reactor.ThreadQueue.{empty_queue, send}
use rins.Reactor.ThreadPool.{ThreadPool, new_task, send_task, send_from, send_to}
use rins.Dns.Service.Watch.{view_rounds, view_round, version_in, take_rows, watch-view_rounds}
use rins.Dns.Service.Round.{TookUp, check_route_changes-TookUp}

abbrev row : Row
row = record { modid = 1; cmdid = 2; ip = 7; port = 80 }

abbrev no_routes : Route
no_routes = record { data_map = []; temp_map = []; version = 0 }

-- Descriptor 5 has asked for the key 3.
abbrev one_subscriber : SubscribeList
one_subscriber = record { book_list = (3, 5 ∷ []) ∷ []; push_list = [] }

abbrev one_thread : ThreadPool
one_thread = record { queues = empty_queue ∷ []; thread_cnt = 1; index = 0 }

-- The key 3 has been published.
abbrev published : SubscribeList × ThreadPool
published = (
  record one_subscriber { push_list = (5, 3 ∷ []) ∷ [] },
  record one_thread { queues = send (new_task push_task) empty_queue ∷ [] },
)

push_change_task-publish_example :
    push_change_task (5 ∷ []) no_routes published.0 ≡ fault bad_pointer
unfolding contains publish send_task send_from send_to note_changes push_all push_to put insert
    hosts_at find
push_change_task-publish_example =
    push_change_task-publish (3 ∷ []) (5 ∷ []) 5 3 no_routes one_subscriber one_thread published
      refl refl refl refl

abbrev started : Service
started = record { params = []; subs = new_subscribe_list; route = no_routes; told = [] }

abbrev request : GetRouteRequest
request = record { modid = 1; cmdid = 2 }

abbrev after_request : GetRouteResponse × Service
after_request = (
  record { modid = 1; cmdid = 2; hosts = [] },
  record {
    params = (5, key_of 1 2 ∷ []) ∷ [];
    subs = record { book_list = (key_of 1 2, 5 ∷ []) ∷ []; push_list = [] };
    route = no_routes;
    told = [];
  },
)

asked : Reaches ((5, key_of 1 2) ∷ []) after_request.1
unfolding create_subscribe get_route put find contains insert get_hosts hosts_at new_subscribe_list
    subscribe
asked =
    asks [] request 5 (create_subscribe 5 started) after_request
      (opens [] 5 started (starts no_routes) refl) refl

Reaches-Booked_example :
    (contains 5 (hosts_at (key_of 1 2) after_request.1.subs.book_list) ≡ true)
    × (contains (key_of 1 2) (hosts_at 5 after_request.1.params) ≡ true)
unfolding has key_of
Reaches-Booked_example = Reaches-Booked ((5, key_of 1 2) ∷ []) after_request.1 5 (key_of 1 2) asked

abbrev subscribed : Service
subscribed = record started { subs = one_subscriber }

check_route_changes-TookUp_example : TookUp 100 4 (row ∷ []) ((1, 2) ∷ []) subscribed (
    check_route_changes 100
      (record {
        versions = rows (4 ∷ []);
        route_data = rows (row ∷ []);
        changes = rows ((1, 2) ∷ []);
      })
      (50, subscribed))
check_route_changes-TookUp_example =
    check_route_changes-TookUp 100 50 4 [] row [] ((1, 2) ∷ []) subscribed (omega arith)

abbrev failing : Answers
failing = record { versions = rows (4 ∷ []); route_data = query_failed; changes = rows [] }

-- The same version ten seconds later, with a row
abbrev later : Answers
later = record { versions = rows (4 ∷ []); route_data = rows (row ∷ []); changes = rows [] }

watch-view_rounds_example :
    ((watch 0 ((5, failing) ∷ (20, later) ∷ []) started).0 ≡ delete_all ∷ delete_up_to 4 ∷ [])
    × ((watch 0 ((5, failing) ∷ (20, later) ∷ []) started).1.1.route.version ≡ 4)
    × (contains
          (key_of 7 80)
          (get_hosts 1 2 (watch 0 ((5, failing) ∷ (20, later) ∷ []) started).1.1.route)
        ≡ true)
unfolding view_rounds view_round version_in take_rows has_row key_of add_rows
watch-view_rounds_example =
    watch-view_rounds 0 ((5, failing) ∷ (20, later) ∷ []) [] started 1 2 (key_of 7 80) refl
