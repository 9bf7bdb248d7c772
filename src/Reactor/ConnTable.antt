-- ===== src/Reactor/ConnTable.antt =====
-- The connection table of reactor/src/tcp_server.cc: `conns`, `_cur_conns` and `_max_conns`. Each
-- call holds `_conns_mutex`, so it is one step.
pub mod Count
use rins.Prelude.{
  ℕ, ◌+◌, ◌-◌, ◌%◌, ◌^◌, ltb, if◌then◌else◌, List, length, set, get_elem?, replicate, Option, none,
  some, Result, ok, fault, out_of_bounds, bad_pointer,
}

-- An entry of `conns`: a pointer that nothing has written yet, a null pointer, or a connection,
-- which is named by a number.
pub data Entry : Type 0 where
  unset : Entry
  null : Entry
  conn : ℕ → Entry

-- `cur_conns` is an `int`.
pub record ConnTable : Type 0 where
  pub conns : List Entry
  pub cur_conns : ℕ
  pub max_conns : ℕ

-- The table of the constructor, which does not initialise the array
unfoldable pub new_table : ℕ → ConnTable
new_table max_conns = record {
  conns = replicate (max_conns + 3) unset;
  cur_conns = 0;
  max_conns = max_conns;
}

-- `tcp_server::increase_conn`; a descriptor past the end is a write out of bounds.
unfoldable pub increase_conn : ℕ → ℕ → ConnTable → Result ConnTable
increase_conn connfd name t =
    if ltb connfd (length t.conns)
    then ok (record t {
      conns = set t.conns connfd (conn name);
      cur_conns = (t.cur_conns + 1) % 2 ^ 32;
    })
    else fault out_of_bounds

-- `tcp_server::decrease_conn`
unfoldable pub decrease_conn : ℕ → ConnTable → Result ConnTable
decrease_conn connfd t =
    if ltb connfd (length t.conns)
    then ok (record t {
      conns = set t.conns connfd null;
      cur_conns = (t.cur_conns + 2 ^ 32 - 1) % 2 ^ 32;
    })
    else fault out_of_bounds

-- `tcp_server::get_conn_num`
unfoldable pub get_conn_num : ConnTable → ℕ
get_conn_num t = t.cur_conns

-- The value of an entry: one that nothing has written has none.
abbrev pub read_entry : Entry → Result (Option ℕ)
read_entry unset = fault bad_pointer
read_entry null = ok none
read_entry (conn name) = ok (some name)

-- `tcp_server::conns[fd]`
unfoldable pub conn_at : ℕ → ConnTable → Result (Option ℕ)
conn_at fd t = elim (get_elem? t.conns fd) [ none ↦ fault out_of_bounds | some c ↦ read_entry c ]
