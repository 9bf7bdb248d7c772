-- ===== src/Dns/Subscribe.antt =====
-- dns/include/subscribe.h and dns/src/subscribe.cc: who asks for which routes, and which changes wait
-- to be pushed. The two locks make each call one step.

pub mod Push
use rins.Prelude.{
  ℕ, ◌==◌, if◌then◌else◌, List, [], ◌∷◌, ◌++◌, Option, none, some, Bool, true, false, Result, ok,
  fault, bad_pointer, ◌>>=◌,
}
use rins.Prelude.Maps.{find, put, remove, contains, insert, erase}
use rins.Reactor.Callback.{push_change_task as push_task}
use rins.Reactor.ThreadPool.{ThreadPool, send_task}
use rins.Key.{key_high, key_low}
use rins.Agent.LoadBalance.{HostAddr, GetRouteResponse}
use rins.Dns.Route.{HostMap, Route, hosts_at, get_hosts}

-- From a key to the descriptors that have asked for it, and from a descriptor to the keys that wait
-- to be pushed to it.
pub record SubscribeList : Type 0 where
  pub book_list : List (ℕ × List ℕ)
  pub push_list : List (ℕ × List ℕ)

-- `subscribe_list::subscribe_list`
unfoldable pub new_subscribe_list : SubscribeList
new_subscribe_list = record { book_list = []; push_list = [] }

-- `subscribe_list::subscribe`
unfoldable pub subscribe : ℕ → ℕ → SubscribeList → SubscribeList
subscribe key fd l = record l {
  book_list = put key (insert fd (hosts_at key l.book_list)) l.book_list;
}

unfoldable pub without : ℕ → ℕ → List ℕ → List (ℕ × List ℕ) → List (ℕ × List ℕ)
without key fd [] book = remove key book
without key fd (f ∷ fds) book = put key (f ∷ fds) book

-- `subscribe_list::unsubscribe`: a key that no descriptor is left for is erased.
unfoldable pub unsubscribe : ℕ → ℕ → SubscribeList → SubscribeList
unfolding without
unsubscribe key fd l = elim (find key l.book_list) [
  | none ↦ l
  | some fds ↦ record l { book_list = without key fd (erase fd fds) l.book_list }
]

-- The loop over the descriptors of a key.
unfoldable pub push_to : ℕ → List ℕ → List (ℕ × List ℕ) → List (ℕ × List ℕ)
push_to key [] push = push
push_to key (fd ∷ fds) push = push_to key fds (put fd (insert key (hosts_at fd push)) push)

-- The loop over the changes.
unfoldable pub push_all : List ℕ → List (ℕ × List ℕ) → List (ℕ × List ℕ) → List (ℕ × List ℕ)
push_all [] book push = push
push_all (key ∷ changes) book push = push_all changes book (push_to key (hosts_at key book) push)

-- What `subscribe_list::publish` does to the lists
unfoldable pub note_changes : List ℕ → SubscribeList → SubscribeList
note_changes changes l = record l { push_list = push_all changes l.book_list l.push_list }

-- `subscribe_list::publish`, with the threads of the server
unfoldable pub publish : List ℕ → SubscribeList × ThreadPool → Result (SubscribeList × ThreadPool)
publish changes (l, p) = do q ← send_task push_task p; ok (note_changes changes l, q)

-- An iterator of the list: the entry that it stands on is there, or has been erased.
pub data Iterator : Type 0 where
  valid erased : Iterator

-- `it++`
unfoldable pub advance : Iterator → Result (Unit {0})
advance valid = ok tt
advance erased = fault bad_pointer

-- The body of the loop of `make_publish_map` at the entry of `fd`: the iterator, `need_publish` and
-- the list after it.
unfoldable pub visit :
    List ℕ
    → ℕ
    → List (ℕ × List ℕ)
    → List (ℕ × List ℕ)
    → Iterator × (List (ℕ × List ℕ) × List (ℕ × List ℕ))
visit online fd need push =
    if contains fd online
    then (erased, (put fd (hosts_at fd push) need, remove fd push))
    else (valid, (need, push))

-- The loop of `make_publish_map` over the entries that are left.
unfoldable pub walk :
    List ℕ
    → List (ℕ × List ℕ)
    → List (ℕ × List ℕ)
    → List (ℕ × List ℕ)
    → Result (List (ℕ × List ℕ) × List (ℕ × List ℕ))
walk online [] need push = ok (need, push)
walk online ((fd, keys) ∷ left) need push = do
  let after = visit online fd need push
  u ← advance after.0
  walk online left after.1.0 after.1.1

-- `subscribe_list::make_publish_map`: what is to be pushed, and the list that is left.
unfoldable pub make_publish_map :
    List ℕ → SubscribeList → Result (List (ℕ × List ℕ) × SubscribeList)
make_publish_map online l = do
  r ← walk online l.push_list [] l.push_list
  ok (r.0, record l { push_list = r.1 })

abbrev pub addresses : List ℕ → List HostAddr
addresses [] = []
addresses (value ∷ values) = (key_high value, key_low value) ∷ addresses values

-- The response of `push_change_task` for a key.
unfoldable pub route_response : ℕ → Route → GetRouteResponse
route_response key r = record {
  modid = key_high key;
  cmdid = key_low key;
  hosts = addresses (get_hosts (key_high key) (key_low key) r);
}

abbrev responses : ℕ → List ℕ → Route → List (ℕ × GetRouteResponse)
responses fd [] r = []
responses fd (key ∷ keys) r = (fd, route_response key r) ∷ responses fd keys r

abbrev all_responses : List (ℕ × List ℕ) → Route → List (ℕ × GetRouteResponse)
all_responses [] r = []
all_responses ((fd, keys) ∷ need) r = responses fd keys r ++ all_responses need r

-- `push_change_task`, with the descriptors of its loop: the responses in order, each with the
-- descriptor whose connection, if there is one, sends it.
unfoldable pub push_change_task :
    List ℕ → Route → SubscribeList → Result (List (ℕ × GetRouteResponse) × SubscribeList)
push_change_task online r l = do a ← make_publish_map online l; ok (all_responses a.0 r, a.1)
