-- ===== src/Dns/Service/Subscriptions.antt =====
-- The sets of the connections against the list of the subscriptions.
use rins.Prelude.{
  ℕ, ◌≡◌, refl, ◌==◌, if◌then◌else◌, List, [], ◌∷◌, none, some, Option-cases, inl, inr, false, ◌&&◌,
  ◌||◌, not, arith, ok, Bool, ◌∙◌, IfReturns, IfReturns-eq,
}
use rins.Prelude.Maps.{
  find, remove, insert, erase, contains, find-remove, contains-insert, contains-erase,
}
use rins.Key.{key_of}
use rins.Agent.LoadBalance.{GetRouteRequest, GetRouteResponse}
use rins.Dns.Route.{Route, hosts_at}
use rins.Dns.Route.Reload.{hosts_at-put}
use rins.Dns.Subscribe.{SubscribeList, new_subscribe_list, subscribe, without, unsubscribe}
use rins.Dns.Service.{
  Service, subscribe_new, get_route, create_subscribe, unsubscribe_all, clear_subscribe,
}

-- The pairs of a descriptor and a key, without those of a descriptor.
unfoldable pub forget : ℕ → List (ℕ × ℕ) → List (ℕ × ℕ)
forget fd [] = []
forget fd ((f, k) ∷ asked) = let rest = forget fd asked in if f == fd then rest else (f, k) ∷ rest

unfoldable pub has : ℕ → ℕ → List (ℕ × ℕ) → Bool
has fd key [] = false
has fd key ((f, k) ∷ asked) = (f == fd && k == key) || has fd key asked

-- The services that the callbacks lead to, a descriptor being opened only while it is closed, with
-- what the clients have asked on the connections that are open.
pub data Reaches : List (ℕ × ℕ) → Service → Type 0 where
  starts :
      (r : Route)
      → Reaches [] (record { params = []; subs = new_subscribe_list; route = r; told = [] })
  opens :
      (asked : List (ℕ × ℕ)) (fd : ℕ) (s : Service)
      → Reaches asked s
      → find fd s.params ≡ none
      → Reaches asked (create_subscribe fd s)
  asks :
      (asked : List (ℕ × ℕ)) (req : GetRouteRequest) (fd : ℕ) (s : Service)
      (a : GetRouteResponse × Service)
      → Reaches asked s
      → get_route req fd s ≡ ok a
      → Reaches ((fd, key_of req.modid req.cmdid) ∷ asked) a.1
  closes :
      (asked : List (ℕ × ℕ)) (fd : ℕ) (s t : Service)
      → Reaches asked s
      → clear_subscribe fd s ≡ ok t
      → Reaches (forget fd asked) t

-- The sets of the connections are what has been asked.
abbrev pub Keeps : List (ℕ × ℕ) → Service → Type 0
Keeps asked s = (fd key : ℕ) → contains key (hosts_at fd s.params) ≡ has fd key asked

has-forget :
    (fd key f : ℕ) (asked : List (ℕ × ℕ))
    → has f key (forget fd asked) ≡ (not (fd == f) && has f key asked)
unfolding has forget
has-forget fd key f [] = ground arith
has-forget fd key f ((g, k) ∷ asked) = ground (arith, has-forget fd key f asked)

abbrev pub Agree : Service → Type 0
Agree s =
    (fd key : ℕ) → contains fd (hosts_at key s.subs.book_list) ≡ contains key (hosts_at fd s.params)

hosts_at-remove :
    (j k : ℕ) (m : List (ℕ × List ℕ))
    → hosts_at j (remove k m) ≡ (if k == j then [] else hosts_at j m)
unfolding hosts_at
hosts_at-remove j k m = ground (arith, find-remove j k m)

contains-subscribe :
    (f k key fd : ℕ) (l : SubscribeList)
    → contains f (hosts_at k (subscribe key fd l).book_list)
      ≡ ((key == k && fd == f) || contains f (hosts_at k l.book_list))
unfolding subscribe
contains-subscribe f k key fd l = ground (
  arith,
  hosts_at-put k key (insert fd (hosts_at key l.book_list)) l.book_list,
  contains-insert f fd (hosts_at key l.book_list),
)

hosts_at-without :
    (k key fd : ℕ) (fds : List ℕ) (book : List (ℕ × List ℕ))
    → hosts_at k (without key fd fds book) ≡ (if key == k then fds else hosts_at k book)
unfolding without
hosts_at-without k key fd [] book = hosts_at-remove k key book
hosts_at-without k key fd (g ∷ fds) book = hosts_at-put k key (g ∷ fds) book

hosts_at-none : (k : ℕ) (m : List (ℕ × List ℕ)) → find k m ≡ none → hosts_at k m ≡ []
unfolding hosts_at
hosts_at-none k m e = rw (e, hosts_at) refl

hosts_at-some :
    (k : ℕ) (fds : List ℕ) (m : List (ℕ × List ℕ)) → find k m ≡ some fds → hosts_at k m ≡ fds
unfolding hosts_at
hosts_at-some k fds m e = rw (e, hosts_at) refl

contains-nil : (k : ℕ) → contains k [] ≡ false
unfolding contains
contains-nil k = refl

contains-unsubscribe :
    (f k key fd : ℕ) (l : SubscribeList)
    → contains f (hosts_at k (unsubscribe key fd l).book_list)
      ≡ (not (key == k && fd == f) && contains f (hosts_at k l.book_list))
unfolding unsubscribe
contains-unsubscribe f k key fd l = elim (Option-cases (find key l.book_list)) [
  | inl e ↦ rw (e, unsubscribe) (ground (arith, hosts_at-none key l.book_list e, contains-nil f))
  | inr (fds, e) ↦
      rw (e, unsubscribe)
        (ground (
          arith,
          hosts_at-some key fds l.book_list e,
          hosts_at-without k key fd (erase fd fds) l.book_list,
          contains-erase f fd fds,
        ))
]

contains-unsubscribe_all :
    (f k : ℕ) (keys : List ℕ) (fd : ℕ) (l : SubscribeList)
    → contains f (hosts_at k (unsubscribe_all keys fd l).book_list)
      ≡ (not (fd == f && contains k keys) && contains f (hosts_at k l.book_list))
unfolding unsubscribe_all contains
contains-unsubscribe_all f k [] fd l = ground arith
contains-unsubscribe_all f k (key ∷ keys) fd l = ground (
  arith,
  contains-unsubscribe_all f k keys fd (unsubscribe key fd l),
  contains-unsubscribe f k key fd l,
)

create_subscribe-Agree :
    (fd : ℕ) (s : Service) → find fd s.params ≡ none → Agree s → Agree (create_subscribe fd s)
unfolding create_subscribe
create_subscribe-Agree fd s e a f key =
    ground (arith, a f key, hosts_at-put f fd [] s.params, hosts_at-none fd s.params e)

subscribe_new-Agree :
    (key fd : ℕ) (sub_list : List ℕ) (s : Service)
    → find fd s.params ≡ some sub_list
    → Agree s
    → Agree (subscribe_new key fd sub_list s)
unfolding subscribe_new
subscribe_new-Agree key fd sub_list s e a f k = ground (
  arith,
  a f k,
  hosts_at-some fd sub_list s.params e,
  hosts_at-put f fd (insert key sub_list) s.params,
  contains-subscribe f k key fd s.subs,
  contains-insert k key sub_list,
)

get_route-Agree :
    (req : GetRouteRequest) (fd : ℕ) (s : Service)
    → Agree s
    → IfReturns (get_route req fd s) (λ a. Agree a.1)
unfolding get_route
get_route-Agree req fd s v = elim (Option-cases (find fd s.params)) [
  | inl e ↦ rw (e, get_route) tt
  | inr (sub_list, e) ↦
      rw (e, get_route) (subscribe_new-Agree (key_of req.modid req.cmdid) fd sub_list s e v)
]

clear_subscribe-Agree : (fd : ℕ) (s : Service) → Agree s → IfReturns (clear_subscribe fd s) Agree
unfolding clear_subscribe
clear_subscribe-Agree fd s v = elim (Option-cases (find fd s.params)) [
  | inl e ↦ rw (e, clear_subscribe) tt
  | inr (sub_list, e) ↦
      rw (e, clear_subscribe)
        λ f k. ground (
          arith,
          v f k,
          hosts_at-some fd sub_list s.params e,
          hosts_at-remove f fd s.params,
          contains-nil k,
          contains-unsubscribe_all f k sub_list fd s.subs,
        )
]

subscribe_new-Keeps :
    (asked : List (ℕ × ℕ)) (key fd : ℕ) (sub_list : List ℕ) (s : Service)
    → find fd s.params ≡ some sub_list
    → Keeps asked s
    → Keeps ((fd, key) ∷ asked) (subscribe_new key fd sub_list s)
unfolding subscribe_new has
subscribe_new-Keeps asked key fd sub_list s e a f k = ground (
  arith,
  a f k,
  hosts_at-some fd sub_list s.params e,
  hosts_at-put f fd (insert key sub_list) s.params,
  contains-insert k key sub_list,
)

create_subscribe-Keeps :
    (asked : List (ℕ × ℕ)) (fd : ℕ) (s : Service)
    → find fd s.params ≡ none
    → Keeps asked s
    → Keeps asked (create_subscribe fd s)
unfolding create_subscribe
create_subscribe-Keeps asked fd s e a f key =
    ground (arith, a f key, hosts_at-put f fd [] s.params, hosts_at-none fd s.params e)

get_route-Keeps :
    (asked : List (ℕ × ℕ)) (req : GetRouteRequest) (fd : ℕ) (s : Service)
    → Keeps asked s
    → IfReturns (get_route req fd s) (λ a. Keeps ((fd, key_of req.modid req.cmdid) ∷ asked) a.1)
unfolding get_route
get_route-Keeps asked req fd s v = elim (Option-cases (find fd s.params)) [
  | inl e ↦ rw (e, get_route) tt
  | inr (sub_list, e) ↦
      rw (e, get_route) (subscribe_new-Keeps asked (key_of req.modid req.cmdid) fd sub_list s e v)
]

clear_subscribe-Keeps :
    (asked : List (ℕ × ℕ)) (fd : ℕ) (s : Service)
    → Keeps asked s
    → IfReturns (clear_subscribe fd s) (Keeps (forget fd asked))
unfolding clear_subscribe
clear_subscribe-Keeps asked fd s v = elim (Option-cases (find fd s.params)) [
  | inl e ↦ rw (e, clear_subscribe) tt
  | inr (sub_list, e) ↦
      rw (e, clear_subscribe)
        λ f k.
          ground
            (arith, v f k, has-forget fd k f asked, hosts_at-remove f fd s.params, contains-nil k)
]

Reaches-Keeps : {asked : List (ℕ × ℕ)} {s : Service} → Reaches asked s → Keeps asked s
unfolding has hosts_at find contains
Reaches-Keeps (starts r) = λ fd key. refl
Reaches-Keeps (opens asked fd s h e) = create_subscribe-Keeps asked fd s e (Reaches-Keeps h)
Reaches-Keeps (asks asked req fd s a h e) =
    IfReturns-eq (get_route req fd s) _ a e (get_route-Keeps asked req fd s (Reaches-Keeps h))
Reaches-Keeps (closes asked fd s t h e) =
    IfReturns-eq (clear_subscribe fd s) _ t e (clear_subscribe-Keeps asked fd s (Reaches-Keeps h))

Reaches-Agree : {asked : List (ℕ × ℕ)} {s : Service} → Reaches asked s → Agree s
unfolding new_subscribe_list hosts_at find contains
Reaches-Agree (starts r) = λ fd key. refl
Reaches-Agree (opens asked fd s h e) = create_subscribe-Agree fd s e (Reaches-Agree h)
Reaches-Agree (asks asked req fd s a h e) =
    IfReturns-eq (get_route req fd s) _ a e (get_route-Agree req fd s (Reaches-Agree h))
Reaches-Agree (closes asked fd s t h e) =
    IfReturns-eq (clear_subscribe fd s) _ t e (clear_subscribe-Agree fd s (Reaches-Agree h))

-- Whatever connections come, ask and go, each opened only while it is closed, a descriptor stands
-- in the list of the subscriptions for a key, and the key in the set of its connection, just if a
-- client has asked for the key on that descriptor since its connection was opened.
pub Reaches-Booked :
    (asked : List (ℕ × ℕ)) (s : Service) (fd key : ℕ)
    → Reaches asked s
    → (contains fd (hosts_at key s.subs.book_list) ≡ has fd key asked)
      × (contains key (hosts_at fd s.params) ≡ has fd key asked)
Reaches-Booked asked s fd key h =
    (Reaches-Agree h fd key ∙ Reaches-Keeps h fd key, Reaches-Keeps h fd key)
