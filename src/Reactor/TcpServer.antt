-- ===== src/Reactor/TcpServer.antt =====
-- The accepting of connections in reactor/src/tcp_server.cc. What `accept` answers is an argument.
pub mod Limit
pub mod Start
pub mod Boot
use rins.Prelude.{
  ℕ, leb, if◌then◌else◌, List, [], ◌∷◌, Option, none, some, Bool, true, false, not, ◌&&◌, Result,
  ok, fault, ◌^◌, out_of_fuel, ◌>>=◌,
}
use rins.Prelude.Words.{add32}
use rins.Reactor.ConnTable.{ConnTable, get_conn_num}
use rins.Reactor.ThreadPool.{ThreadPool, new_conn, get_thread, send_to}

-- `accept`: -1 with EINTR, with EAGAIN, with EMFILE or another error, or a descriptor.
pub data AcceptRet : Type 0 where
  accept_interrupted accept_again accept_failed : AcceptRet
  accepted : ℕ → AcceptRet

-- `_thread_pool` is none where the pointer is null.
pub record TcpServer : Type 0 where
  pub table : ConnTable
  pub thread_pool : Option ThreadPool

-- What becomes of a call of `do_accept`: nothing to accept, a descriptor that is closed, one that a
-- thread gets, or one whose connection is constructed at once.
pub data Outcome : Type 0 where
  nothing : Outcome
  closed handed_over constructed : ℕ → Outcome

-- `cur_conns >= _max_conns` of two `int`: the sign bit is turned round.
unfoldable pub is_full : ConnTable → Bool
is_full t = leb (add32 t.max_conns (2 ^ 31)) (add32 (get_conn_num t) (2 ^ 31))

unfoldable pub place : ℕ → TcpServer → Option ThreadPool → Result (Outcome × TcpServer)
place connfd s none = ok (constructed connfd, s)
place connfd s (some pool) = do
  let (i, pool') = get_thread pool
  p ← send_to i (new_conn connfd) pool'
  ok (handed_over connfd, record s { thread_pool = some p })

unfoldable pub admit : ℕ → TcpServer → Result (Outcome × TcpServer)
unfolding is_full place
admit connfd s = if is_full s.table then ok (closed connfd, s) else place connfd s s.thread_pool

-- `tcp_server::do_accept`: all errors but EAGAIN lead to the next call of `accept`, and a descriptor
-- ends the loop.
unfoldable pub do_accept : List AcceptRet → TcpServer → Result (Outcome × TcpServer)
unfolding admit
do_accept [] s = fault out_of_fuel
do_accept (accept_interrupted ∷ rets) s = do_accept rets s
do_accept (accept_failed ∷ rets) s = do_accept rets s
do_accept (accept_again ∷ rets) s = ok (nothing, s)
do_accept (accepted connfd ∷ rets) s = admit connfd s
