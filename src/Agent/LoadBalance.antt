-- ===== src/Agent/LoadBalance.antt =====
-- load_balance_agent/include/load_balance.h and load_balance_agent/src/load_balance.cc: the hosts of
-- one modid and cmdid. A host is the address of a `HostInfo`.
pub mod Choice
use rins.Prelude.{
  ℕ, ◌+◌, ◌^◌, ◌%◌, leb, if◌then◌else◌, List, [], ◌∷◌, ◌++◌, Option, none, some, Bool, true, false,
  ◌&&◌, Result, ok, fault, ◌>>=◌, ◌>>◌, check, assertion, bad_pointer, not,
}
use rins.Prelude.Words.{is_negative, add32}
use rins.Prelude.Maps.{find, put, contains, insert, erase}
use rins.Key.{key_of}
use rins.Agent.HostInfo.{HostInfo, Heap, new_host_info, alloc, deref, free}

pub data Status : Type 0 where
  pulling new : Status

-- `host_map` goes from the key of an address to the host.
pub record LoadBalance : Type 0 where
  pub modid : ℕ
  pub cmdid : ℕ
  pub access_cnt : ℕ
  pub status : Status
  pub host_map : List (ℕ × ℕ)
  pub idle_list : List ℕ
  pub overload_list : List ℕ

-- `load_balance::load_balance` initialises neither `_access_cnt` nor `status`: they are what the
-- memory held.
unfoldable pub new_load_balance : ℕ → ℕ → ℕ → Status → LoadBalance
new_load_balance modid cmdid junk_cnt junk_status = record {
  modid = modid;
  cmdid = cmdid;
  access_cnt = junk_cnt;
  status = junk_status;
  host_map = [];
  idle_list = [];
  overload_list = [];
}

-- `enum RinsRetCode` of base/proto/rins.proto.
pub data RetCode : Type 0 where
  ret_succ ret_overload ret_system_error ret_noexist : RetCode

-- An address and a port, the message `HostInfo`.
abbrev pub HostAddr : Type 0
HostAddr = ℕ × ℕ

-- The message `GetHostResponse`.
pub record GetHostResponse : Type 0 where
  pub seq : ℕ
  pub modid : ℕ
  pub cmdid : ℕ
  pub retcode : RetCode
  pub host : Option HostAddr

-- The message `GetRouteRequest`.
pub record GetRouteRequest : Type 0 where
  pub modid : ℕ
  pub cmdid : ℕ

-- The message `GetRouteResponse`.
pub record GetRouteResponse : Type 0 where
  pub modid : ℕ
  pub cmdid : ℕ
  pub hosts : List HostAddr

-- `get_host_from_list`: the list is a copy, so that its rotation is lost when the call returns.
unfoldable pub get_host_from_list : GetHostResponse → List ℕ → Heap → Result GetHostResponse
get_host_from_list resp [] heap = fault bad_pointer
get_host_from_list resp (host ∷ l) heap = do
  h ← deref host heap
  ok (record resp { host = some (h.ip, h.port) })

abbrev pub is_nil : List ℕ → Bool
is_nil [] = true
is_nil (x ∷ xs) = false

-- `load_balance::empty`
unfoldable pub empty : LoadBalance → Bool
empty lb = is_nil lb.idle_list && is_nil lb.overload_list

-- A list is chosen from, and the counter becomes `cnt`.
answer_from :
    List ℕ
    → ℕ
    → LoadBalance
    → GetHostResponse
    → Heap
    → Result (RetCode × GetHostResponse × LoadBalance)
answer_from l cnt lb rsp heap = do
  r ← get_host_from_list rsp l heap
  ok (ret_succ, r, record lb { access_cnt = cnt })

-- `_access_cnt >= 10` of an `int`.
abbrev pub is_due : ℕ → Bool
is_due cnt = leb 10 cnt && not (is_negative cnt)

-- `load_balance::choice_one_host`
unfoldable pub choice_one_host :
    LoadBalance → GetHostResponse → Heap → Result (RetCode × GetHostResponse × LoadBalance)
unfolding answer_from
choice_one_host lb rsp heap =
    if is_nil lb.idle_list
    then (if is_due lb.access_cnt
        then answer_from lb.overload_list 0 lb rsp heap
        else ok (ret_overload, rsp, record lb { access_cnt = add32 lb.access_cnt 1 }))
    else if is_nil lb.overload_list
    then answer_from lb.idle_list lb.access_cnt lb rsp heap
    else if is_due lb.access_cnt
    then answer_from lb.overload_list 0 lb rsp heap
    else answer_from lb.idle_list (add32 lb.access_cnt 1) lb rsp heap

-- `load_balance::pull`, with the request that it puts on `dns_queue`.
unfoldable pub pull : LoadBalance → GetRouteRequest × LoadBalance
pull lb = (record { modid = lb.modid; cmdid = lb.cmdid }, record lb { status = pulling })

abbrev pub is_there {ℓ} : {A : Type ℓ} → Option A → Bool
is_there none = false
is_there (some a) = true

-- The body of the loop over the hosts of the response: a new object for a key that the map has.
unfoldable pub add_host : HostAddr → LoadBalance × Heap → LoadBalance × Heap
add_host (ip, port) (lb, heap) =
    let key = key_of ip port in
    let (hi, heap') = alloc (new_host_info ip port 0) heap in
    if is_there (find key lb.host_map)
    then (
      record lb { host_map = put key hi lb.host_map; idle_list = lb.idle_list ++ (hi ∷ []) },
      heap',
    )
    else (lb, heap)

unfoldable pub add_hosts : List HostAddr → LoadBalance × Heap → LoadBalance × Heap
add_hosts [] s = s
add_hosts (h ∷ hosts) s = add_hosts hosts (add_host h s)

-- The set `remote_hosts` of that loop.
unfoldable pub remote_hosts : List HostAddr → List ℕ → List ℕ
remote_hosts [] seen = seen
remote_hosts ((ip, port) ∷ hosts) seen = remote_hosts hosts (insert (key_of ip port) seen)

-- The keys of the map that the response does not name, with their hosts. The set that the source
-- makes of them is walked in the order of the keys; here they stay in the order of the map.
unfoldable pub need_delete : List ℕ → List (ℕ × ℕ) → List (ℕ × ℕ)
need_delete seen [] = []
need_delete seen ((key, hi) ∷ m) =
    if contains key seen then need_delete seen m else (key, hi) ∷ need_delete seen m

-- The loop over `need_delete`: the map keeps its entries, which dangle from here on.
unfoldable pub delete_hosts : List (ℕ × ℕ) → LoadBalance → Heap → Result (LoadBalance × Heap)
delete_hosts [] lb heap = ok (lb, heap)
delete_hosts ((key, hi) ∷ m) lb heap = do
  h ← deref hi heap
  heap' ← free hi heap
  delete_hosts m
      (record lb {
        idle_list = if h.overload then lb.idle_list else erase hi lb.idle_list;
        overload_list = if h.overload then erase hi lb.overload_list else lb.overload_list;
      })
      heap'

unfoldable pub update_with : List HostAddr → LoadBalance × Heap → Result (LoadBalance × Heap)
update_with [] s = fault assertion
update_with (h ∷ hs) s =
    let (lb, heap) = add_hosts (h ∷ hs) s in
    delete_hosts (need_delete (remote_hosts (h ∷ hs) []) lb.host_map) lb heap

-- `load_balance::update`
unfoldable pub update : GetRouteResponse → LoadBalance → Heap → Result (LoadBalance × Heap)
unfolding update_with
update resp lb heap = update_with resp.hosts (lb, heap)
