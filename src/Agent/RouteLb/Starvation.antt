-- ===== src/Agent/RouteLb/Starvation.antt =====
-- What an agent answers, whatever the DNS service sends to it.
use rins.Prelude.{
  ℕ, ◌≡◌, refl, ap, ◌∙◌, subst, ◌==◌, List, [], ◌∷◌, none, some, Option-cases, true, false,
  Bool-cases, inl, inr, Result, ok, ◌>>=◌, Returns, Returns->>=, All, arith,
}
use rins.Prelude.Maps.{find, put, remove, find-put, find-remove}
use rins.Key.{key_of}
use rins.Agent.HostInfo.{Heap}
use rins.Agent.LoadBalance.{
  Status, pulling, LoadBalance, ret_succ, ret_noexist, HostAddr, GetHostResponse, GetRouteResponse,
  new_load_balance, empty, pull, is_there, add_host, add_hosts, remote_hosts, need_delete,
  delete_hosts, update_with, update,
}
use rins.Agent.RouteLb.{
  RouteLb, is_pulling, new_route_lb, waiting, get_host, update_lb, update_host,
}

-- A balancer that has asked for its hosts and has none.
pub record IsBarren (lb : LoadBalance) : Type 0 where
  pub no_map : lb.host_map ≡ []
  pub no_idle : lb.idle_list ≡ []
  pub no_overload : lb.overload_list ≡ []
  pub asked : lb.status ≡ pulling

-- An update takes up the hosts that the balancer knows already, so that it learns none.
add_host-IsBarren : (h : HostAddr) (s : LoadBalance × Heap) → IsBarren s.0 → add_host h s ≡ s
unfolding add_host find
add_host-IsBarren (ip, port) (lb, heap) b =
    let unknown : is_there (find (key_of ip port) lb.host_map) ≡ false =
      ap (λ m. is_there (find (key_of ip port) m)) b.no_map in
    rw unknown refl

add_hosts-IsBarren :
    (hs : List HostAddr) (s : LoadBalance × Heap) → IsBarren s.0 → add_hosts hs s ≡ s
unfolding add_hosts
add_hosts-IsBarren [] s b = refl
add_hosts-IsBarren (h ∷ hs) s b =
    ap (add_hosts hs) (add_host-IsBarren h s b) ∙ add_hosts-IsBarren hs s b

delete_none :
    (seen : List ℕ) (m : List (ℕ × ℕ)) (lb : LoadBalance) (heap : Heap)
    → m ≡ []
    → delete_hosts (need_delete seen m) lb heap ≡ ok (lb, heap)
unfolding need_delete delete_hosts
delete_none seen m lb heap e = rw e refl

update-IsBarren :
    (h : HostAddr) (hs : List HostAddr) (lb : LoadBalance) (heap : Heap)
    → IsBarren lb
    → update_with (h ∷ hs) (lb, heap) ≡ ok (lb, heap)
unfolding update_with
update-IsBarren h hs lb heap b =
    rw (add_hosts-IsBarren (h ∷ hs) (lb, heap) b)
      (delete_none (remote_hosts (h ∷ hs) []) lb.host_map lb heap b.no_map)

abbrev pub AllBarren : RouteLb → Type 0
AllBarren r = (k : ℕ) (lb : LoadBalance) → find k r.route_map ≡ some lb → IsBarren lb

put-AllBarren :
    (key : ℕ) (lb : LoadBalance) (m : List (ℕ × LoadBalance))
    → ((k : ℕ) (c : LoadBalance) → find k m ≡ some c → IsBarren c)
    → IsBarren lb
    → (k : ℕ) (c : LoadBalance) → find k (put key lb m) ≡ some c
    → IsBarren c
put-AllBarren key lb m v b k c e = elim (Bool-cases (key == k)) [
  | inl same ↦ subst IsBarren (ground (arith, find-put k key lb m)) b
  | inr other ↦ v k c (ground (arith, find-put k key lb m))
]

remove-AllBarren :
    (key : ℕ) (m : List (ℕ × LoadBalance))
    → ((k : ℕ) (c : LoadBalance) → find k m ≡ some c → IsBarren c)
    → (k : ℕ) (c : LoadBalance) → find k (remove key m) ≡ some c
    → IsBarren c
remove-AllBarren key m v k c e = v k c (ground (arith, find-remove k key m))

-- The response says that there is no host and names none.
abbrev pub IsRefusal : GetHostResponse → GetHostResponse → Type 0
IsRefusal resp a = (a.retcode ≡ ret_noexist) × (a.host ≡ resp.host)

opened-IsBarren :
    (modid cmdid junk_cnt : ℕ) (junk_status : Status)
    → IsBarren (pull (new_load_balance modid cmdid junk_cnt junk_status)).1
unfolding pull new_load_balance
opened-IsBarren modid cmdid junk_cnt junk_status = record {
  no_map = refl;
  no_idle = refl;
  no_overload = refl;
  asked = refl;
}

barren_empty : (lb : LoadBalance) → IsBarren lb → empty lb ≡ true
unfolding empty
barren_empty lb b = ground arith

waiting-refuses :
    (key : ℕ) (lb : LoadBalance) (resp : GetHostResponse) (r : RouteLb)
    → IsBarren lb
    → AllBarren r
    → Returns (waiting key lb resp r) (λ a. IsRefusal resp a.1 × AllBarren a.2)
unfolding waiting
waiting-refuses key lb resp r b v =
    let asked : is_pulling lb.status ≡ true = ap is_pulling b.asked in rw asked ((refl, refl), v)

update_lb-AllBarren :
    (key : ℕ) (lb : LoadBalance) (rsp : GetRouteResponse) (hosts : List HostAddr)
    → rsp.hosts ≡ hosts
    → (r : RouteLb) → IsBarren lb
    → AllBarren r
    → Returns (update_lb key lb rsp r) AllBarren
unfolding update_lb update
update_lb-AllBarren key lb rsp [] e r b v = rw (e, update_lb) (remove-AllBarren key r.route_map v)
update_lb-AllBarren key lb rsp (h ∷ hs) e r b v =
    let done : update rsp lb r.heap ≡ ok (lb, r.heap) =
      ap (λ l. update_with l (lb, r.heap)) e ∙ update-IsBarren h hs lb r.heap b in
    rw (e, update_lb) (rw done (put-AllBarren key lb r.route_map v b))

get_host-AllBarren :
    (modid cmdid junk_cnt : ℕ) (junk_status : Status) (resp : GetHostResponse) (r : RouteLb)
    → AllBarren r
    → Returns
        (get_host modid cmdid resp junk_cnt junk_status r)
        (λ a. IsRefusal resp a.1 × AllBarren a.2)
unfolding get_host
get_host-AllBarren modid cmdid junk_cnt junk_status resp r v =
    elim (Option-cases (find (key_of modid cmdid) r.route_map)) [
      | inl e ↦
          rw (e, get_host)
            (
              (refl, refl),
              put-AllBarren (key_of modid cmdid)
                  (pull (new_load_balance modid cmdid junk_cnt junk_status)).1 r.route_map v
                  (opened-IsBarren modid cmdid junk_cnt junk_status),
            )
      | inr (lb, e) ↦
          let b = v (key_of modid cmdid) lb e in
          rw (e, get_host)
            (rw (barren_empty lb b) (waiting-refuses (key_of modid cmdid) lb resp r b v))
    ]

update_host-AllBarren :
    (modid cmdid : ℕ) (rsp : GetRouteResponse) (r : RouteLb)
    → AllBarren r
    → Returns (update_host modid cmdid rsp r) AllBarren
unfolding update_host
update_host-AllBarren modid cmdid rsp r v =
    elim (Option-cases (find (key_of modid cmdid) r.route_map)) [
      | inl e ↦ rw (e, update_host) v
      | inr (lb, e) ↦
          rw (e, update_host)
            (update_lb-AllBarren (key_of modid cmdid) lb rsp rsp.hosts refl r
              (v (key_of modid cmdid) lb e) v)
    ]

-- A request of a client, with what a new balancer does not initialise, or an answer of the DNS
-- service.
pub data Event : Type 0 where
  asks : (modid cmdid junk_cnt : ℕ) (junk_status : Status) (seq : ℕ) → Event
  answers : (modid cmdid : ℕ) → GetRouteResponse → Event

-- The response as `get_host_cb` prepares it.
abbrev pub blank_response : ℕ → ℕ → ℕ → GetHostResponse
blank_response modid cmdid seq = record {
  seq = seq;
  modid = modid;
  cmdid = cmdid;
  retcode = ret_succ;
  host = none;
}

-- The responses of a sequence of events, in order.
unfoldable pub run : List Event → RouteLb → Result (List GetHostResponse × RouteLb)
run [] r = ok ([], r)
run (asks modid cmdid junk_cnt junk_status seq ∷ es) r = do
  a ← get_host modid cmdid (blank_response modid cmdid seq) junk_cnt junk_status r
  b ← run es a.2
  ok (a.1 ∷ b.0, b.1)
run (answers modid cmdid rsp ∷ es) r = do s ← update_host modid cmdid rsp r; run es s

abbrev pub SaysNone : GetHostResponse → Type 0
SaysNone a = (a.retcode ≡ ret_noexist) × (a.host ≡ none)

run-starves :
    (es : List Event) (r : RouteLb) → AllBarren r → Returns (run es r) (λ a. All SaysNone a.0)
unfolding run
run-starves [] r v = tt
run-starves (asks modid cmdid junk_cnt junk_status seq ∷ es) r v =
    Returns->>= (get_host modid cmdid (blank_response modid cmdid seq) junk_cnt junk_status r) _
      (λ a. IsRefusal (blank_response modid cmdid seq) a.1 × AllBarren a.2) (λ a. All SaysNone a.0)
      (get_host-AllBarren modid cmdid junk_cnt junk_status (blank_response modid cmdid seq) r v)
      λ a h.
        Returns->>= (run es a.2) _ (λ b. All SaysNone b.0) (λ b. All SaysNone b.0)
          (run-starves es a.2 h.1) (λ b k. (h.0, k))
run-starves (answers modid cmdid rsp ∷ es) r v =
    Returns->>= (update_host modid cmdid rsp r) _ AllBarren (λ a. All SaysNone a.0)
      (update_host-AllBarren modid cmdid rsp r v) (λ s w. run-starves es s w)

-- A table of balancers that starts empty answers every request with RET_NOEXIST and no host,
-- whatever is asked and whatever hosts the DNS service sends: an update takes up no host that the
-- balancer does not have already. No call fails.
pub run-new_route_lb : (es : List Event) → Returns (run es new_route_lb) (λ a. All SaysNone a.0)
unfolding new_route_lb find
run-new_route_lb es = run-starves es new_route_lb (λ k lb e. cc)
