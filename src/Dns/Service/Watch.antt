-- ===== src/Dns/Service/Watch.antt =====
-- The thread that looks for changes, as a machine whose state is the rows that were loaded last.
use rins.Prelude.{
  ==_refl, ℕ, ◌≡◌, refl, sym, ap, subst, Bool-cases, inl, inr, ◌∙◌, ◌+◌, leb, ◌==◌, if◌then◌else◌,
  List, [], ◌∷◌, Option, none, some, Bool, true, false, arith,
}
use rins.Prelude.Maps.{contains}
use rins.Key.{key_of}
use rins.Dns.Route.{
  Row, Answer, query_failed, no_result, rows, Statement, delete_all, delete_up_to, hosts_at,
  add_rows, get_hosts, load_version, load_route_data, remove_changes, swap, reload, HostMap,
}
use rins.Dns.Route.Reload.{has_row, contains-add_rows_alone}
use rins.Dns.Service.{
  Service, Answers, Checker, changed, overdue, unless_changed, check_route_changes, watch_rounds,
  watch, sent,
}

-- The version and the time of the last loading, with the rows that count.
pub record View : Type 0 where
  pub version : ℕ
  pub last : ℕ
  pub table : List Row

-- The version that the database tells, or the known one.
unfoldable pub version_in : Answer ℕ → ℕ → ℕ
version_in (rows (v ∷ vs)) known = v
version_in _ known = known

-- Rows replace all others; an empty table or a failure changes nothing.
unfoldable pub take_rows : ℕ → Answer Row → View → View
take_rows now (rows (row ∷ rs)) v = record v { last = now; table = row ∷ rs }
take_rows now _ v = v

-- A new version, or ten seconds without a loading, bring the rows in; a new version has the changes
-- up to it deleted.
unfoldable pub view_round : ℕ → Answers → View → Option Statement × View
view_round now a v =
    let new = version_in a.versions v.version in
    let w : View = record v { version = new } in
    if new == v.version
    then (none, if leb (v.last + 10) now then take_rows now a.route_data w else w)
    else (some (delete_up_to new), take_rows now a.route_data w)

unfoldable pub view_rounds : List (ℕ × Answers) → View → List Statement × View
unfolding sent
view_rounds [] v = ([], v)
view_rounds ((now, a) ∷ rounds) v =
    let (st, w) = view_round now a v in let (log, x) = view_rounds rounds w in (sent st log, x)

-- The map answers each key with the addresses of its rows.
abbrev Holds : HostMap → List Row → Type 0
Holds m table = (key value : ℕ) → contains value (hosts_at key m) ≡ has_row key value table

pub record Shows (c : Checker) (v : View) : Type 0 where
  version : c.1.route.version ≡ v.version
  last : c.0 ≡ v.last
  table : Holds c.1.route.data_map v.table

-- What loading does to the time and the route.
loaded : ℕ → Answer Row → Checker → Checker
loaded now a (last, s) =
    let (done, r) = reload a s.route in ((if done then now else last), record s { route = r })

loaded-Shows :
    (now : ℕ) (a : Answer Row) (c : Checker) (v : View)
    → Shows c v
    → Shows (loaded now a c) (take_rows now a v)
unfolding loaded reload load_route_data swap take_rows
loaded-Shows now query_failed c v h = record { version = h.version; last = h.last; table = h.table }
loaded-Shows now no_result c v h = record { version = h.version; last = h.last; table = h.table }
loaded-Shows now (rows []) c v h = record { version = h.version; last = h.last; table = h.table }
loaded-Shows now (rows (row ∷ rs)) c v h = record {
  version = h.version;
  last = refl;
  table = λ key value. contains-add_rows_alone key value (row ∷ rs);
}

-- Loading in a round without a new version
overdue-Shows :
    (now : ℕ) (a : Answers) (c : Checker) (v : View)
    → Shows c v
    → Shows
        (if leb (c.0 + 10) now then overdue now a c else c)
        (if leb (v.last + 10) now then take_rows now a.route_data v else v)
unfolding overdue loaded
overdue-Shows now a c v h =
    subst
      (λ late.
        Shows (if late then overdue now a c else c)
          (if leb (v.last + 10) now then take_rows now a.route_data v else v))
      (sym (ap (λ l. leb (l + 10) now) h.last)) (either (leb (v.last + 10) now))
  where
    either :
        (late : Bool)
        → Shows
            (if late then overdue now a c else c)
            (if late then take_rows now a.route_data v else v)
    either true = loaded-Shows now a.route_data c v h
    either false = h

take_rows-version : (now : ℕ) (a : Answer Row) (v : View) → (take_rows now a v).version ≡ v.version
unfolding take_rows
take_rows-version now query_failed v = refl
take_rows-version now no_result v = refl
take_rows-version now (rows []) v = refl
take_rows-version now (rows (row ∷ rs)) v = refl

-- The round with a new version
changed-Shows :
    (now : ℕ) (a : Answers) (c : Checker) (w : View)
    → Shows c w
    → ((changed now a c).0 ≡ delete_up_to w.version)
      × Shows (changed now a c).1 (take_rows now a.route_data w)
unfolding changed loaded remove_changes
changed-Shows now a c w h =
    let k = loaded-Shows now a.route_data c w h in
    (
      ap delete_up_to (k.version ∙ take_rows-version now a.route_data w),
      record { version = k.version; last = k.last; table = k.table },
    )

AgreeAfter : ℕ → Answers → Checker → View → Type 0
AgreeAfter now a c v =
    ((check_route_changes now a c).0 ≡ (view_round now a v).0)
    × Shows (check_route_changes now a c).1 (view_round now a v).1

module _ (now : ℕ) (c : Checker) (v : View) (h : Shows c v) (rd : Answer Row)
    (cs : Answer (ℕ × ℕ)) where
  abbrev with : Answer ℕ → Answers
  with vs = record { versions = vs; route_data = rd; changes = cs }

  no_version :
      (vs : Answer ℕ)
      → load_version vs c.1.route ≡ (none, c.1.route)
      → version_in vs v.version ≡ v.version
      → AgreeAfter now (with vs) c v
  unfolding AgreeAfter check_route_changes unless_changed view_round
  no_version vs e f = rw (e, f) (simp (==_refl v.version) (refl, overdue-Shows now (with vs) c v h))

  known_version :
      (n : ℕ) (ns : List ℕ)
      → (n == c.1.route.version) ≡ true
      → AgreeAfter now (with (rows (n ∷ ns))) c v
  unfolding AgreeAfter check_route_changes unless_changed load_version view_round version_in
  known_version n ns e =
      let same : n ≡ v.version = ground (arith, e, h.version) in
      let test : (n == v.version) ≡ true = ground (arith, same) in
      let w : View = record v { version = n } in
      simp (e, test)
        (
          refl,
          overdue-Shows now (with (rows (n ∷ ns))) c w
              (record { version = h.version ∙ sym same; last = h.last; table = h.table }),
        )

  new_version :
      (n : ℕ) (ns : List ℕ)
      → (n == c.1.route.version) ≡ false
      → AgreeAfter now (with (rows (n ∷ ns))) c v
  unfolding AgreeAfter check_route_changes unless_changed load_version view_round version_in
  new_version n ns e =
      let test : (n == v.version) ≡ false = ground (arith, e, h.version) in
      let w : View = record v { version = n } in
      let d : Checker = (c.0, record c.1 { route = record c.1.route { version = n } }) in
      let k =
        changed-Shows now (with (rows (n ∷ ns))) d w
          (record { version = refl; last = h.last; table = h.table }) in
      simp (e, test) (ap some k.0, k.1)

  any_version : (vs : Answer ℕ) → AgreeAfter now (with vs) c v
  unfolding load_version version_in
  any_version query_failed = no_version query_failed refl refl
  any_version no_result = no_version no_result refl refl
  any_version (rows []) = no_version (rows []) refl refl
  any_version (rows (n ∷ ns)) = elim (Bool-cases (n == c.1.route.version)) [
    | inl e ↦ known_version n ns e
    | inr e ↦ new_version n ns e
  ]

watch_rounds-Shows :
    (rounds : List (ℕ × Answers)) (c : Checker) (v : View)
    → Shows c v
    → ((watch_rounds rounds c).0 ≡ (view_rounds rounds v).0)
      × Shows (watch_rounds rounds c).1 (view_rounds rounds v).1
unfolding watch_rounds view_rounds AgreeAfter
watch_rounds-Shows [] c v h = (refl, h)
watch_rounds-Shows ((now, a) ∷ rounds) c v h =
    let k = any_version now c v h a.route_data a.changes a.versions in
    let r = watch_rounds-Shows rounds (check_route_changes now a c).1 (view_round now a v).1 k.1 in
    (λ i. sent (k.0 i) (r.0 i), r.1)

-- From a start with a map of some rows, any number of rounds of check_route_changes, whatever the
-- queries answer, does what a machine does whose state is the version, the time of the last loading
-- and the rows that were loaded last: rows that are not empty replace all others when the version
-- is a new one or ten seconds have gone by since that time, and each new version has the changes up
-- to it deleted. The statements to the database and the version are the same, and a request gets an
-- address just if one of those rows gives it for its key.
pub watch-view_rounds :
    (start : ℕ) (rounds : List (ℕ × Answers)) (loaded_rows : List Row) (s : Service)
    (modid cmdid value : ℕ)
    → s.route.data_map ≡ add_rows loaded_rows []
    → let w = watch start rounds s in
      let v =
        view_rounds rounds
          (record { version = s.route.version; last = start; table = loaded_rows }) in
      (w.0 ≡ delete_all ∷ v.0)
      × (w.1.1.route.version ≡ v.1.version)
      × (contains value (get_hosts modid cmdid w.1.1.route)
          ≡ has_row (key_of modid cmdid) value v.1.table)
unfolding watch remove_changes get_hosts
watch-view_rounds start rounds loaded_rows s modid cmdid value e =
    let v : View = record { version = s.route.version; last = start; table = loaded_rows } in
    let first : Shows (start, s) v = record {
      version = refl;
      last = refl;
      table = λ key val.
          ap (λ m. contains val (hosts_at key m)) e ∙ contains-add_rows_alone key val loaded_rows;
    } in
    let k = watch_rounds-Shows rounds (start, s) v first in
    (ap (λ log. delete_all ∷ log) k.0, k.1.version, k.1.table (key_of modid cmdid) value)
