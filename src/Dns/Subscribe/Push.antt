-- ===== src/Dns/Subscribe/Push.antt =====
-- What `publish` notes down and what `make_publish_map` delivers.
use rins.Prelude.{
  ℕ, ◌≡◌, refl, ◌==◌, if◌then◌else◌, List, [], ◌∷◌, Bool, false, ◌&&◌, ◌||◌, arith, ok, fault,
  bad_pointer, true, Bool-cases, inl, inr, >>=-eq-ok,
}
use rins.Prelude.Maps.{find, put, insert, contains, contains-insert}
use rins.Reactor.Callback.{push_change_task as push_task}
use rins.Reactor.ThreadPool.{ThreadPool, send_task}
use rins.Dns.Route.{Route, hosts_at}
use rins.Dns.Route.Reload.{hosts_at-put}
use rins.Dns.Subscribe.{
  SubscribeList, push_to, push_all, note_changes, publish, visit, advance, walk, make_publish_map,
  push_change_task,
}

contains-noted :
    (fd key f k : ℕ) (push : List (ℕ × List ℕ))
    → contains key (hosts_at fd (put f (insert k (hosts_at f push)) push))
      ≡ ((f == fd && k == key) || contains key (hosts_at fd push))
contains-noted fd key f k push = ground (
  arith,
  hosts_at-put fd f (insert k (hosts_at f push)) push,
  contains-insert key k (hosts_at f push),
)

contains-push_to :
    (fd key k : ℕ) (fds : List ℕ) (push : List (ℕ × List ℕ))
    → contains key (hosts_at fd (push_to k fds push))
      ≡ ((k == key && contains fd fds) || contains key (hosts_at fd push))
unfolding push_to contains
contains-push_to fd key k [] push = ground arith
contains-push_to fd key k (f ∷ fds) push = ground (
  arith,
  contains-push_to fd key k fds (put f (insert k (hosts_at f push)) push),
  contains-noted fd key f k push,
)

contains-push_all :
    (fd key : ℕ) (changes : List ℕ) (book push : List (ℕ × List ℕ))
    → contains key (hosts_at fd (push_all changes book push)) ≡ (
        (contains key changes && contains fd (hosts_at key book))
        || contains key (hosts_at fd push))
unfolding push_all contains
contains-push_all fd key [] book push = refl
contains-push_all fd key (k ∷ changes) book push = ground (
  arith,
  contains-push_all fd key changes book (push_to k (hosts_at k book) push),
  contains-push_to fd key k (hosts_at k book) push,
)

-- After the changes of `publish` are noted, a key waits to be pushed to a descriptor just if it did before, or if it is one of
-- the changes and the descriptor has asked for it; the subscriptions stay.
pub contains-note_changes :
    (fd key : ℕ) (changes : List ℕ) (l : SubscribeList)
    → (contains key (hosts_at fd (note_changes changes l).push_list) ≡ (
        (contains key changes && contains fd (hosts_at key l.book_list))
        || contains key (hosts_at fd l.push_list)))
      × ((note_changes changes l).book_list ≡ l.book_list)
unfolding note_changes
contains-note_changes fd key changes l =
    (contains-push_all fd key changes l.book_list l.push_list, refl)

-- One of the descriptors that wait is online.
abbrev pub any_online : List ℕ → List (ℕ × List ℕ) → Bool
any_online online [] = false
any_online online ((fd, keys) ∷ push) = contains fd online || any_online online push

walk_lem :
    (online : List ℕ) (left need push : List (ℕ × List ℕ))
    → walk online left need push
      ≡ (if any_online online left then fault bad_pointer else ok (need, push))
unfolding walk visit advance
walk_lem online [] need push = refl
walk_lem online ((fd, keys) ∷ left) need push = elim (Bool-cases (contains fd online)) [
  | inl e ↦ rw (e, visit) refl
  | inr e ↦ rw (e, visit) (walk_lem online left need push)
]

-- `make_publish_map` advances an iterator that it has erased as soon as one of the descriptors that
-- wait is online; otherwise it finds nothing to push and leaves the list as it is.
pub make_publish_map_lem :
    (online : List ℕ) (l : SubscribeList)
    → make_publish_map online l
      ≡ (if any_online online l.push_list then fault bad_pointer else ok ([], l))
unfolding make_publish_map
make_publish_map_lem online l = rw (walk_lem online l.push_list [] l.push_list) (ground arith)

any_online-hosts_at :
    (online : List ℕ) (fd key : ℕ) (push : List (ℕ × List ℕ))
    → contains fd online ≡ true
    → contains key (hosts_at fd push) ≡ true
    → any_online online push ≡ true
unfolding hosts_at find contains
any_online-hosts_at online fd key [] on waits = absurd (cc)
any_online-hosts_at online fd key ((f, keys) ∷ push) on waits =
    ground (arith, any_online-hosts_at online fd key push on)

-- If a change is published of a key that a descriptor has asked for, and that descriptor is among
-- those of a thread's loop when the thread runs push_change_task, the task advances an iterator
-- that has been erased: no change can be pushed.
pub push_change_task-publish :
    (changes online : List ℕ) (fd key : ℕ) (r : Route) (l : SubscribeList) (p : ThreadPool)
    (after : SubscribeList × ThreadPool)
    → contains key changes ≡ true
    → contains fd (hosts_at key l.book_list) ≡ true
    → contains fd online ≡ true
    → publish changes (l, p) ≡ ok after
    → push_change_task online r after.0 ≡ fault bad_pointer
unfolding publish push_change_task
push_change_task-publish changes online fd key r l p after changed asked on e =
    let (q, told, sent) =
      >>=-eq-ok (send_task push_task p) (λ q. ok (note_changes changes l, q)) after e in
    let noted : after.0 ≡ note_changes changes l = cc in
    let waits : contains key (hosts_at fd (note_changes changes l).push_list) ≡ true =
      ground (arith, contains-note_changes fd key changes l) in
    let found : any_online online (note_changes changes l).push_list ≡ true =
      any_online-hosts_at online fd key (note_changes changes l).push_list on waits in
    rw (noted, make_publish_map_lem online (note_changes changes l)) (rw found refl)
