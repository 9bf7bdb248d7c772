-- ===== src/Reactor/ConnTable/Count.antt =====
-- The counter of connections against the table.
use rins.Prelude.{
  ℕ, zero, suc, ◌+◌, ◌^◌, ◌≤◌, ◌<◌, ◌≡◌, refl, sym, ap, ◌∙◌, if◌then◌else◌, Bool, true, false,
  Option-cases, inl, inr, List, [], ◌∷◌, length, length-set, set, get_elem?, replicate,
  length-replicate, some, ok, fault, out_of_bounds, arith,
}
use rins.Reactor.ConnTable.{
  Entry, unset, null, conn, ConnTable, read_entry, new_table, increase_conn, decrease_conn,
  get_conn_num, conn_at,
}

-- There is a connection in the entry; one that nothing has written has none.
unfoldable pub is_conn : Entry → Bool
is_conn unset = false
is_conn null = false
is_conn (conn name) = true

-- The entries with a connection.
unfoldable pub occupied : List Entry → ℕ
occupied [] = 0
occupied (e ∷ conns) = (if is_conn e then 1 else 0) + occupied conns

-- The tables that come about when a connection is entered only under a descriptor that has none,
-- and taken out only where there is one, as the kernel hands descriptors out.
pub data Reaches : ConnTable → Type 0 where
  starts : (max_conns : ℕ) → max_conns + 3 < 2 ^ 31 → Reaches (new_table max_conns)
  enters :
      (connfd name : ℕ) (e : Entry) (t u : ConnTable)
      → Reaches t
      → get_elem? t.conns connfd ≡ some e
      → is_conn e ≡ false
      → increase_conn connfd name t ≡ ok u
      → Reaches u
  leaves :
      (connfd name : ℕ) (t u : ConnTable)
      → Reaches t
      → conn_at connfd t ≡ ok (some name)
      → decrease_conn connfd t ≡ ok u
      → Reaches u

occupied-le : (conns : List Entry) → occupied conns ≤ length conns
unfolding occupied
occupied-le [] = omega arith
occupied-le (e ∷ conns) = ground (arith, occupied-le conns)

occupied-replicate : (n : ℕ) → occupied (replicate n unset) ≡ 0
unfolding occupied is_conn
occupied-replicate zero = refl
occupied-replicate (suc n) = omega (arith, occupied-replicate n)

-- A write of an entry changes the count by that entry.
occupied-set :
    (conns : List Entry) (i : ℕ) (e new : Entry)
    → get_elem? conns i ≡ some e
    → occupied (set conns i new) + (if is_conn e then 1 else 0)
      ≡ occupied conns + (if is_conn new then 1 else 0)
unfolding occupied
occupied-set [] i e new h = absurd (cc)
occupied-set (d ∷ conns) zero e new h = ground (arith, h)
occupied-set (d ∷ conns) (suc i) e new h = omega (arith, occupied-set conns i e new h)

conn_at-get :
    (fd name : ℕ) (t : ConnTable)
    → conn_at fd t ≡ ok (some name)
    → get_elem? t.conns fd ≡ some (conn name)
unfolding conn_at
conn_at-get fd name t h = elim (Option-cases (get_elem? t.conns fd)) [
  | inl e ↦
      (let missing : conn_at fd t ≡ fault out_of_bounds = rw (e, conn_at) refl in
        let never : fault out_of_bounds ≡ ok (some name) = sym missing ∙ h in absurd (cc))
  | inr (d, e) ↦
      (let present : conn_at fd t ≡ read_entry d = rw (e, conn_at) refl in
        e ∙ ap some (found d (sym present ∙ h)))
]
  where
    found : (d : Entry) → read_entry d ≡ ok (some name) → d ≡ conn name
    found unset q = absurd (cc)
    found null q = absurd (cc)
    found (conn m) q = cc

-- The counter is right, and the array has its size.
pub record Counts (t : ConnTable) : Type 0 where
  pub counted : get_conn_num t ≡ occupied t.conns
  pub size : length t.conns ≡ t.max_conns + 3
  pub small : t.max_conns + 3 < 2 ^ 31

increase_conn-Counts :
    (connfd name : ℕ) (e : Entry) (t u : ConnTable)
    → Counts t
    → get_elem? t.conns connfd ≡ some e
    → is_conn e ≡ false
    → increase_conn connfd name t ≡ ok u
    → Counts u
unfolding increase_conn get_conn_num is_conn
increase_conn-Counts connfd name e t u h found free r = ground (
  arith,
  occupied-set t.conns connfd e (conn name) found,
  occupied-le (set t.conns connfd (conn name)),
  length-set t.conns connfd (conn name),
)

decrease_conn-Counts :
    (connfd name : ℕ) (t u : ConnTable)
    → Counts t
    → get_elem? t.conns connfd ≡ some (conn name)
    → decrease_conn connfd t ≡ ok u
    → Counts u
unfolding decrease_conn get_conn_num is_conn
decrease_conn-Counts connfd name t u h e r = ground (
  arith,
  occupied-set t.conns connfd (conn name) null e,
  occupied-le t.conns,
  length-set t.conns connfd null,
)

-- After any sequence of calls of increase_conn for descriptors without a connection and of
-- decrease_conn for descriptors with one, get_conn_num gives the number of entries of conns that
-- have been written with a connection and not with null since, and the array keeps its maxConn + 3
-- entries, of which the constructor initialises none. The numbers of the array are below 2^31.
pub Reaches-Counts : {t : ConnTable} → Reaches t → Counts t
unfolding new_table get_conn_num
Reaches-Counts (starts n lt) = record {
  counted = sym (occupied-replicate (n + 3));
  size = length-replicate (n + 3) unset;
  small = lt;
}
Reaches-Counts (enters fd c e t u h found free r) =
    increase_conn-Counts fd c e t u (Reaches-Counts h) found free r
Reaches-Counts (leaves fd c t u h e r) =
    decrease_conn-Counts fd c t u (Reaches-Counts h) (conn_at-get fd c t e) r

-- The array has three entries more than connections are allowed: a larger descriptor is written
-- past its end.
increase_conn-Overruns :
    (connfd name : ℕ) {t : ConnTable}
    → Reaches t
    → t.max_conns + 3 ≤ connfd
    → increase_conn connfd name t ≡ fault out_of_bounds
unfolding increase_conn
increase_conn-Overruns connfd name h le = ground (arith, Reaches-Counts h)
