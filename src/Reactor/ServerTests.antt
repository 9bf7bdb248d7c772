-- ===== src/Reactor/ServerTests.antt =====
-- The theorems on the start of the TCP server and on its table at concrete inputs.
use rins.Prelude.{◌≡◌, refl, [], ◌∷◌, some, ◌>>=◌, Returns, arith}
use rins.Reactor.Text.{text_eq, find, is_space, first_not_empty}
use rins.Reactor.ConfigFile.{StrMap, get_number, find_value, parse_number, read_signed, read_digits}
use rins.Reactor.EventLoop
use rins.Reactor.ConnTable.{unset, conn, ConnTable, new_table, increase_conn}
use rins.Reactor.ConnTable.Count.{is_conn, Reaches, starts, enters, Counts, Reaches-Counts}
use rins.Reactor.TcpServer.{handed_over}
use rins.Reactor.TcpServer.Limit.{accept_all}
use rins.Reactor.TcpServer.Start.{
  works, reactor, max_conn, thread_num, tcp_server, tcp_server-accept_all,
}

-- One connection is allowed, and there are two threads.
abbrev config : StrMap
config = (reactor, (max_conn, b'1' ∷ []) ∷ (thread_num, b'2' ∷ []) ∷ []) ∷ []

tcp_server-accept_all_example :
    Returns
      (tcp_server (works 4) (some config) EventLoop.init >>= λ r. accept_all (7 ∷ 8 ∷ 9 ∷ []) r.1)
      (λ a. (a.0 ≡ handed_over 7 ∷ handed_over 8 ∷ handed_over 9 ∷ []) × (a.1.table ≡ new_table 1))
unfolding get_number find_value parse_number read_signed read_digits find text_eq is_space
    first_not_empty
tcp_server-accept_all_example =
    tcp_server-accept_all 4 config EventLoop.init (7 ∷ 8 ∷ 9 ∷ []) (omega arith) (omega arith)
      (omega arith) (omega arith)

-- Descriptor 2 has the connection 9.
abbrev one_connection : ConnTable
one_connection = record {
  conns = unset ∷ unset ∷ conn 9 ∷ unset ∷ [];
  cur_conns = 1;
  max_conns = 1;
}

one_connection-Reaches : Reaches one_connection
unfolding new_table is_conn increase_conn
one_connection-Reaches =
    enters 2 9 unset (new_table 1) one_connection (starts 1 (omega arith)) refl refl refl

Reaches-Counts_example : Counts one_connection
Reaches-Counts_example = Reaches-Counts one_connection-Reaches
