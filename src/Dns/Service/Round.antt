-- ===== src/Dns/Service/Round.antt =====
-- What a round of the thread that looks for changes does.
use rins.Prelude.{
  ℕ, ◌≡◌, ◌≢◌, refl, ◌∙◌, ◌+◌, leb, ◌==◌, if◌then◌else◌, List, [], ◌∷◌, ◌++◌, Option, none, some,
  Bool, true, false, ◌&&◌, ◌||◌, arith,
}
use rins.Prelude.Maps.{contains}
use rins.Reactor.Callback.{push_change_task as push_task}
use rins.Key.{key_of}
use rins.Dns.Route.{
  Row, Answer, query_failed, no_result, rows, Route, Statement, delete_up_to, hosts_at, keys,
  get_hosts, load_version, load_route_data, load_changes, remove_changes, swap, reload,
}
use rins.Dns.Route.Reload.{has_row, get_hosts-reload}
use rins.Dns.Subscribe.Push.{contains-note_changes}
use rins.Dns.Service.{
  Service, Answers, Checker, changed, overdue, unless_changed, check_route_changes,
}

-- The routes are those of the rows, the changes wait for those who have asked for them, and the
-- changes up to the version are deleted.
pub record TookUp (now v : ℕ) (new : List Row) (cs : List (ℕ × ℕ)) (s : Service)
    (r : Option Statement × Checker) : Type 0 where
  pub deletes : r.0 ≡ some (delete_up_to v)
  pub loaded_at : r.1.0 ≡ now
  pub routes :
      (modid cmdid value : ℕ)
      → contains value (get_hosts modid cmdid r.1.1.route) ≡ has_row (key_of modid cmdid) value new
  pub waiting :
      (fd key : ℕ)
      → contains key (hosts_at fd r.1.1.subs.push_list) ≡ (
          (contains key (keys cs) && contains fd (hosts_at key s.subs.book_list))
          || contains key (hosts_at fd s.subs.push_list))
  pub subscribed : r.1.1.subs.book_list ≡ s.subs.book_list
  pub told : r.1.1.told ≡ s.told ++ (push_task ∷ [])

pub check_route_changes-TookUp :
    (now last v : ℕ) (vs : List ℕ) (row : Row) (rs : List Row) (cs : List (ℕ × ℕ)) (s : Service)
    → v ≢ s.route.version
    → TookUp now v (row ∷ rs) cs s (
        check_route_changes now
          (record { versions = rows (v ∷ vs); route_data = rows (row ∷ rs); changes = rows cs })
          (last, s))
unfolding check_route_changes load_version changed reload load_route_data swap load_changes
    remove_changes
check_route_changes-TookUp now last v vs row rs cs s ne =
    let other : (v == s.route.version) ≡ false = ground arith in
    let next = record s.route { version = v } in
    rw other (record {
      deletes = refl;
      loaded_at = refl;
      routes = λ modid cmdid value. (get_hosts-reload modid cmdid value row rs next).1;
      waiting = λ fd key. (contains-note_changes fd key (keys cs) s.subs).0;
      subscribed = (contains-note_changes 0 0 (keys cs) s.subs).1;
      told = refl;
    })

-- The routes cannot be loaded.
abbrev pub is_useless : Answer Row → Bool
is_useless query_failed = true
is_useless no_result = true
is_useless (rows []) = true
is_useless (rows (row ∷ rs)) = false

reload_useless :
    (x : Answer Row) (r : Route)
    → is_useless x ≡ true
    → reload x r ≡ (false, record r { temp_map = [] })
unfolding reload load_route_data
reload_useless query_failed r u = refl
reload_useless no_result r u = refl
reload_useless (rows []) r u = refl
reload_useless (rows (row ∷ rs)) r u = cc

load_version_keeps : (x : Answer ℕ) (r : Route) → (load_version x r).1.data_map ≡ r.data_map
unfolding load_version
load_version_keeps query_failed r = refl
load_version_keeps no_result r = refl
load_version_keeps (rows []) r = refl
load_version_keeps (rows (v ∷ vs)) r = ground arith

-- The time of the last loading and the routes are as they were.
abbrev Kept : Checker → Checker → Type 0
Kept c d = (d.0 ≡ c.0) × (d.1.route.data_map ≡ c.1.route.data_map)

changed_useless :
    (now : ℕ) (a : Answers) (c : Checker)
    → is_useless a.route_data ≡ true
    → Kept c (changed now a c).1
unfolding changed
changed_useless now a (last, s) u = rw (reload_useless a.route_data s.route u, changed) (refl, refl)

overdue_useless :
    (now : ℕ) (a : Answers) (c : Checker)
    → is_useless a.route_data ≡ true
    → Kept c (overdue now a c)
unfolding overdue
overdue_useless now a (last, s) u = rw (reload_useless a.route_data s.route u, overdue) (refl, refl)

waited_useless :
    (late : Bool) (now : ℕ) (a : Answers) (c : Checker)
    → is_useless a.route_data ≡ true
    → Kept c (if late then overdue now a c else c)
waited_useless true now a c u = overdue_useless now a c u
waited_useless false now a c u = (refl, refl)

unless_changed_useless :
    (ret : Option Bool) (now : ℕ) (a : Answers) (c : Checker)
    → is_useless a.route_data ≡ true
    → Kept c (unless_changed ret now a c).1
unfolding unless_changed
unless_changed_useless (some true) now a c u = changed_useless now a c u
unless_changed_useless (some false) now a c u = waited_useless (leb (c.0 + 10) now) now a c u
unless_changed_useless none now a c u = waited_useless (leb (c.0 + 10) now) now a c u

-- When the routes cannot be loaded, or the table has none, a round keeps the routes that the service
-- answers from, whatever the other queries answer, and the time of the last loading.
pub check_route_changes_useless :
    (now last : ℕ) (a : Answers) (s : Service)
    → is_useless a.route_data ≡ true
    → let c = (check_route_changes now a (last, s)).1 in
      (c.0 ≡ last) × (c.1.route.data_map ≡ s.route.data_map)
unfolding check_route_changes
check_route_changes_useless now last a s u =
    let r = (load_version a.versions s.route).1 in
    let (kept, same) =
      unless_changed_useless (load_version a.versions s.route).0 now a
        (last, record s { route = r }) u in
    (kept, same ∙ load_version_keeps a.versions s.route)
