-- ===== src/Reactor/TcpServer/Start.antt =====
-- The constructor of reactor/src/tcp_server.cc, with the configuration that it reads. What the calls
-- on the socket answer is an argument; the answers of signal and setsockopt are only printed.
use rins.Prelude.{
  ℕ, zero, suc, ◌+◌, ◌^◌, ◌<◌, ◌≡◌, refl, ◌==◌, if◌then◌else◌, List, [], ◌∷◌, replicate,
  length-replicate, Option, none, some, Bool, true, false, Result, ok, fault, exited, ◌>>=◌, ◌>>◌,
  check, Returns, arith,
}
use rins.Prelude.Words.{is_negative, add32}
use rins.Reactor.Text.{Text}
use rins.Reactor.ConfigFile.{StrMap, config_instance, get_number}
use rins.Reactor.EventLoop.{EventLoop, epollin, add_io_event}
use rins.Reactor.Callback.{Callback, Task, accept_callback}
use rins.Reactor.ConnTable.{unset, ConnTable, new_table, get_conn_num}
use rins.Reactor.ThreadQueue.{empty_queue, Making, makes_all, make_queues_lem}
use rins.Reactor.ThreadPool.{TaskMsg, ThreadPool, new_thread_pool}
use rins.Reactor.TcpServer.{TcpServer, is_full}
use rins.Reactor.TcpServer.Limit.{accept_all, all_handed_over, accept_all-handed_over}

-- The answers of `socket`, none for -1, of `bind` and of `listen`, and those for the threads
pub record Listening : Type 0 where
  pub socket : Option ℕ
  pub binds : Bool
  pub listens : Bool
  pub making : Making

-- All of the calls succeed.
abbrev pub works : ℕ → Listening
works fd = record { socket = some fd; binds = true; listens = true; making = makes_all }

abbrev pub reactor : Text
reactor = b'r' ∷ b'e' ∷ b'a' ∷ b'c' ∷ b't' ∷ b'o' ∷ b'r' ∷ []

abbrev pub max_conn : Text
max_conn = b'm' ∷ b'a' ∷ b'x' ∷ b'C' ∷ b'o' ∷ b'n' ∷ b'n' ∷ []

abbrev pub thread_num : Text
thread_num = b't' ∷ b'h' ∷ b'r' ∷ b'e' ∷ b'a' ∷ b'd' ∷ b'N' ∷ b'u' ∷ b'm' ∷ []

-- `new tcp_conn *[_max_conns + 3]`: a negative size ends the process.
unfoldable pub allocate : ℕ → Result ConnTable
allocate max_conns =
    if is_negative (add32 max_conns 3)
    then fault exited
    else ok (record {
      conns = replicate (add32 max_conns 3) unset;
      cur_conns = 0;
      max_conns = max_conns;
    })

-- No pool is made for a number of threads that is not positive. `_thread_pool` is not set then; none
-- stands for a null there.
unfoldable pub start_threads : ℕ → Making → Result (Option ThreadPool)
start_threads thread_cnt answers =
    if thread_cnt == 0
    then ok none
    else if is_negative thread_cnt
    then ok none
    else (do pool ← new_thread_pool thread_cnt answers; ok (some pool))

-- `tcp_server::tcp_server`
unfoldable pub tcp_server :
    Listening
    → Option StrMap
    → EventLoop Callback Task
    → Result (EventLoop Callback Task × TcpServer)
tcp_server answers config loop = elim answers.socket [
  | none ↦ fault exited
  | some fd ↦ do
    check answers.binds exited
    check answers.listens exited
    m ← config_instance config
    table ← allocate (get_number reactor max_conn 1024 m)
    pool ← start_threads (get_number reactor thread_num 3 m) answers.making
    ok (
      add_io_event true fd accept_callback epollin loop,
      record { table = table; thread_pool = pool },
    )
]

pub allocate_lem : (n : ℕ) → n + 3 < 2 ^ 31 → allocate n ≡ ok (new_table n)
unfolding allocate new_table
allocate_lem n few = ground (arith, few)

pub start_threads_lem :
    (n : ℕ)
    → 0 < n
    → n < 2 ^ 31
    → start_threads n makes_all
      ≡ ok (some (record { queues = replicate n empty_queue; thread_cnt = n; index = 0 }))
unfolding start_threads new_thread_pool
start_threads_lem zero pos few = absurd (omega arith)
start_threads_lem (suc n) pos few =
    let plus : is_negative (suc n) ≡ false = ground (arith, few) in
    rw (plus, make_queues_lem {A = TaskMsg} (suc n)) (ground arith)

new_table_room : (n : ℕ) → 0 < n → n + 3 < 2 ^ 31 → is_full (new_table n) ≡ false
unfolding is_full new_table get_conn_num
new_table_room n pos few = ground arith

-- A server whose socket, threads and queues can be set up, with maxConn and threadNum positive in
-- the configuration, both below 2^31 and the first with three more, hands over to its threads
-- however many connections come in before the threads construct any: the limit maxConn is not met,
-- no call fails, and no entry of the table is written.
pub tcp_server-accept_all :
    (fd : ℕ) (config : StrMap) (loop : EventLoop Callback Task) (fds : List ℕ)
    → 0 < get_number reactor max_conn 1024 config
    → get_number reactor max_conn 1024 config + 3 < 2 ^ 31
    → 0 < get_number reactor thread_num 3 config
    → get_number reactor thread_num 3 config < 2 ^ 31
    → Returns (tcp_server (works fd) (some config) loop >>= λ r. accept_all fds r.1) (λ a.
      (a.0 ≡ all_handed_over fds)
      × (a.1.table ≡ new_table (get_number reactor max_conn 1024 config)))
unfolding tcp_server config_instance
tcp_server-accept_all fd config loop fds some_conns few_conns some_threads few_threads =
    let max_conns = get_number reactor max_conn 1024 config in
    let threads = get_number reactor thread_num 3 config in
    let pool : ThreadPool = record {
      queues = replicate threads empty_queue;
      thread_cnt = threads;
      index = 0;
    } in
    let server : TcpServer = record { table = new_table max_conns; thread_pool = some pool } in
    rw (allocate_lem max_conns few_conns, start_threads_lem threads some_threads few_threads)
      (accept_all-handed_over fds server
        (
          pool,
          refl,
          record {
            count = length-replicate threads empty_queue;
            some_thread = some_threads;
            turn = omega arith;
          },
        )
        (new_table_room max_conns some_conns few_conns))
