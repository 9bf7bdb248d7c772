-- ===== src/Dns/Route/Reload.antt =====
-- Which hosts a request gets after a reload.
use rins.Prelude.{
  ℕ, ◌≡◌, refl, ◌∙◌, ◌==◌, if◌then◌else◌, List, [], ◌∷◌, Bool, true, false, ◌&&◌, ◌||◌, arith,
}
use rins.Prelude.Maps.{find, put, insert, contains, find-put, contains-insert}
use rins.Key.{key_of}
use rins.Dns.Route.{
  Row, rows, HostMap, Route, hosts_at, add_rows, get_hosts, load_route_data, swap, reload,
}

-- One of the rows gives the address for the key.
unfoldable pub has_row : ℕ → ℕ → List Row → Bool
has_row key value [] = false
has_row key value (row ∷ rs) =
    (key_of row.modid row.cmdid == key && key_of row.ip row.port == value) || has_row key value rs

pub hosts_at-put :
    (j k : ℕ) (s : List ℕ) (m : HostMap)
    → hosts_at j (put k s m) ≡ (if k == j then s else hosts_at j m)
unfolding hosts_at
hosts_at-put j k s m = ground (arith, find-put j k s m)

pub contains-added :
    (key value k v : ℕ) (m : HostMap)
    → contains value (hosts_at key (put k (insert v (hosts_at k m)) m))
      ≡ ((k == key && v == value) || contains value (hosts_at key m))
contains-added key value k v m =
    ground (
      arith,
      hosts_at-put key k (insert v (hosts_at k m)) m,
      contains-insert value v (hosts_at k m),
    )

contains-add_rows :
    (key value : ℕ) (rs : List Row) (m : HostMap)
    → contains value (hosts_at key (add_rows rs m))
      ≡ (has_row key value rs || contains value (hosts_at key m))
unfolding add_rows has_row
contains-add_rows key value [] m = refl
contains-add_rows key value (row ∷ rs) m =
    let k = key_of row.modid row.cmdid in
    let v = key_of row.ip row.port in
    ground (
      arith,
      contains-add_rows key value rs (put k (insert v (hosts_at k m)) m),
      contains-added key value k v m,
    )

or_false : (b : Bool) → (b || false) ≡ b
or_false true = refl
or_false false = refl

-- The map of the rows has nothing else.
pub contains-add_rows_alone :
    (key value : ℕ) (rs : List Row)
    → contains value (hosts_at key (add_rows rs [])) ≡ has_row key value rs
unfolding hosts_at find contains
contains-add_rows_alone key value rs =
    contains-add_rows key value rs [] ∙ or_false (has_row key value rs)

-- After a reload that finds rows, a request gets an address just if one of the new rows gives it for
-- the key of the request: nothing of the old routes is left, and nothing of the new ones is missing.
pub get_hosts-reload :
    (modid cmdid value : ℕ) (row : Row) (rs : List Row) (r : Route)
    → ((reload (rows (row ∷ rs)) r).0 ≡ true)
      × (contains value (get_hosts modid cmdid (reload (rows (row ∷ rs)) r).1)
          ≡ has_row (key_of modid cmdid) value (row ∷ rs))
unfolding reload load_route_data swap get_hosts hosts_at find contains
get_hosts-reload modid cmdid value row rs r = (
  refl,
  contains-add_rows (key_of modid cmdid) value (row ∷ rs) []
      ∙ or_false (has_row (key_of modid cmdid) value (row ∷ rs)),
)
