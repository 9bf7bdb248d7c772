-- ===== src/Dns/Route.antt =====
-- dns/include/dns_route.h and dns/src/dns_route.cc: the routes of the service. What the database
-- answers to a query is an argument, its columns as the numbers that `atoi` makes of them. The map
-- lock makes each call one step.
pub mod Reload
use rins.Prelude.{
  ℕ, ◌==◌, ltb, if◌then◌else◌, List, [], ◌∷◌, ◌++◌, Option, none, some, Bool, true, false, Result,
  ok, fault, bad_pointer, exited, ◌>>=◌,
}
use rins.Prelude.Maps.{find, put, insert}
use rins.Key.{key_of}

-- A row of RouteData.
pub record Row : Type 0 where
  pub modid : ℕ
  pub cmdid : ℕ
  pub ip : ℕ
  pub port : ℕ

-- `mysql_real_query` fails, `mysql_store_result` gives null, or there are rows.
pub data Answer (A : Type 0) : Type 0 where
  query_failed no_result : Answer A
  rows : List A → Answer A

-- From the key of a modid and a cmdid to the set of its addresses.
abbrev pub HostMap : Type 0
HostMap = List (ℕ × List ℕ)

pub record Route : Type 0 where
  pub data_map : HostMap
  pub temp_map : HostMap
  pub version : ℕ

-- `map[key]`, the empty set where the key is missing.
unfoldable pub hosts_at : ℕ → HostMap → List ℕ
hosts_at key m = elim (find key m) [ none ↦ [] | some hosts ↦ hosts ]

-- The loop over the rows.
unfoldable pub add_rows : List Row → HostMap → HostMap
add_rows [] m = m
add_rows (row ∷ rs) m =
    let key = key_of row.modid row.cmdid in
    add_rows rs (put key (insert (key_of row.ip row.port) (hosts_at key m)) m)

-- `route::build_maps`: there is no test of the result, so that a null one is followed.
unfoldable pub build_maps : Answer Row → Route → Result Route
build_maps query_failed r = fault exited
build_maps no_result r = fault bad_pointer
build_maps (rows rs) r = ok (record r { data_map = add_rows rs r.data_map })

-- `route::get_hosts`
unfoldable pub get_hosts : ℕ → ℕ → Route → List ℕ
get_hosts modid cmdid r = hosts_at (key_of modid cmdid) r.data_map

-- `route::load_version`: none is the return with -1, true that with 1 and false that with 0.
unfoldable pub load_version : Answer ℕ → Route → Option Bool × Route
load_version query_failed r = (none, r)
load_version no_result r = (none, r)
load_version (rows []) r = (none, r)
load_version (rows (new_version ∷ rs)) r =
    if new_version == r.version
    then (some false, r)
    else (some true, record r { version = new_version })

-- `route::load_route_data`: true is the return with 0, false that with -1.
unfoldable pub load_route_data : Answer Row → Route → Bool × Route
load_route_data query_failed r = (false, record r { temp_map = [] })
load_route_data no_result r = (false, record r { temp_map = [] })
load_route_data (rows []) r = (false, record r { temp_map = [] })
load_route_data (rows (row ∷ rs)) r = (true, record r { temp_map = add_rows (row ∷ rs) [] })

-- `route::swap`
unfoldable pub swap : Route → Route
swap r = record r { data_map = r.temp_map; temp_map = r.data_map }

abbrev pub keys : List (ℕ × ℕ) → List ℕ
keys [] = []
keys ((modid, cmdid) ∷ rs) = key_of modid cmdid ∷ keys rs

-- `route::load_changes`, with the rows of RouteChange.
unfoldable pub load_changes : Answer (ℕ × ℕ) → List ℕ → List ℕ
load_changes query_failed change_list = change_list
load_changes no_result change_list = change_list
load_changes (rows rs) change_list = change_list ++ keys rs

-- The statements that the service sends to change the database.
pub data Statement : Type 0 where
  delete_all : Statement
  delete_up_to : ℕ → Statement

-- `route::remove_changes`
unfoldable pub remove_changes : Bool → Route → Statement
remove_changes remove_all r = if remove_all then delete_all else delete_up_to r.version

-- What `check_route_changes` does to load the routes: they are swapped in if they could be loaded.
unfoldable pub reload : Answer Row → Route → Bool × Route
unfolding load_route_data swap
reload a r = let (done, r') = load_route_data a r in if done then (true, swap r') else (false, r')
