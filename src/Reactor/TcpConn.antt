-- ===== src/Reactor/TcpConn.antt =====
-- reactor/include/tcp_conn.h and reactor/src/tcp_conn.cc: a connection of the server. The calls of
-- the two connection callbacks and of the message handlers are arguments; epoll_ctl succeeds.
pub mod Framing
pub mod Serving
pub mod Stream
pub mod Recording
pub mod Failures
pub mod Send
use rins.Prelude.{
  ℕ, zero, suc, ◌+◌, ◌==◌, ltb, leb, if◌then◌else◌, List, [], ◌∷◌, length, take, Option, none, some,
  Bool, true, false, ◌||◌, ◌&&◌, ◌-◌, ◌^◌, Result, ok, fault, ◌>>=◌, out_of_fuel,
}
use rins.Prelude.Words.{is_negative}
use rins.Reactor.IoBuf.{IoBuf}
use rins.Reactor.BufPool.{BufPool}
use rins.Reactor.ReactorBuf
use rins.Reactor.ReactorBuf.{
  Attempts, IntRet, ReadRet, WriteRet, State, bytes, len, send_data, write2fd, read_data,
}
use rins.Reactor.EventLoop.{EventLoop, epollin, epollout, add_io_event, del_io_event, del_io_mask}
use rins.Reactor.Message.{MsgHead, message_head_len, message_length_limit, head_bytes, read_head}
use rins.Reactor.Callback.{Callback, Task, conn_rd_callback, conn_wt_callback}
use rins.Reactor.ConnTable.{ConnTable, increase_conn, decrease_conn}

-- The descriptor is an `int`, -1 once the connection is closed.
pub record TcpConn : Type 0 where
  pub connfd : ℕ
  pub in_buf : Option IoBuf
  pub out_buf : Option IoBuf

-- What a connection shares with the rest of the process; `user` is the state of the handlers.
pub record World (U : Type 0) : Type 0 where
  pub conn : TcpConn
  pub pool : BufPool
  pub loop : EventLoop Callback Task
  pub table : ConnTable
  pub user : U

abbrev pub closed_fd : ℕ
closed_fd = 2 ^ 32 - 1

-- A head that no message can have.
abbrev pub is_bad : MsgHead → Bool
is_bad head = ltb message_length_limit head.length || is_negative head.length

module _ {U : Type 0} where
  abbrev pub input : World U → State
  input w = (w.conn.in_buf, w.pool)

  abbrev pub set_input : State → World U → World U
  set_input s w = record w { conn = record w.conn { in_buf = s.0 }; pool = s.1 }

  abbrev pub output : World U → State
  output w = (w.conn.out_buf, w.pool)

  abbrev pub set_output : State → World U → World U
  set_output s w = record w { conn = record w.conn { out_buf = s.0 }; pool = s.1 }

  wake_writer : Bool → World U → World U
  wake_writer active w = record w {
    loop =
        if active then add_io_event true w.conn.connfd conn_wt_callback epollout w.loop else w.loop;
  }

  -- The head's length is taken off the front of the buffer.
  roll_back : State → World U → Result (Bool × World U)
  roll_back s w = do t ← ReactorBuf.pop message_head_len s; ok (false, set_output t w)

  -- The head has been appended: append the body, or take a head's length off the buffer again.
  send_body : Bool → List ℕ → World U → Result (Bool × World U)
  unfolding wake_writer roll_back
  send_body active body w = do
    r ← send_data body (output w)
    if r.0 then ok (true, wake_writer active (set_output r.1 w)) else roll_back r.1 w

  -- `tcp_conn::send_message`: true is the return with 0, false that with -1.
  unfoldable pub send_message : List ℕ → ℕ → World U → Result (Bool × World U)
  unfolding send_body
  send_message body msgid w = do
    r ← send_data (head_bytes (record { id = msgid; length = length body })) (output w)
    if r.0
        then send_body (len w.conn.out_buf == 0) body (set_output r.1 w)
        else ok (false, set_output r.1 w)

module _ {U : Type 0} (conn_start_cb : World U → Result (World U)) where
  -- `tcp_conn::tcp_conn`; `name` is the number of the new connection. The socket options are left
  -- out.
  unfoldable pub connect : ℕ → ℕ → World U → Result (World U)
  connect fd name w = do
    v ← conn_start_cb (record w {
      conn = record { connfd = fd; in_buf = none; out_buf = none };
      loop = add_io_event true fd conn_rd_callback epollin w.loop;
    })
    t ← increase_conn fd name v.table
    ok (record v { table = t })

module _ {U : Type 0} (conn_close_cb : World U → Result (World U)) where
  -- `tcp_conn::clean_conn`
  unfoldable pub clean_conn : World U → Result (World U)
  clean_conn w = do
    v ← conn_close_cb w
    t ← decrease_conn v.conn.connfd v.table
    s ← ReactorBuf.clear (v.conn.in_buf, v.pool)
    o ← ReactorBuf.clear (v.conn.out_buf, s.1)
    ok (record v {
      conn = record { connfd = closed_fd; in_buf = s.0; out_buf = o.0 };
      pool = o.1;
      loop = del_io_event v.conn.connfd v.loop;
      table = t;
    })

  -- The `while` of `do_write`, with the answers of the successive calls of `write`. It stops after
  -- an answer of 0 (EAGAIN), and closes the connection after an error; false is the return there.
  after_write :
      (World U → Result (Bool × World U)) → IntRet × State → World U → Result (Bool × World U)
  after_write rest (none, s) w = do v ← clean_conn (set_output s w); ok (false, v)
  after_write rest (some zero, s) w = ok (true, set_output s w)
  after_write rest (some (suc n), s) w = rest (set_output s w)

  unfoldable pub write_loop : List (Attempts WriteRet) → World U → Result (Bool × World U)
  unfolding after_write
  write_loop [] w = if len w.conn.out_buf == 0 then ok (true, w) else fault out_of_fuel
  write_loop (a ∷ answers) w =
      let go_on = write2fd a (output w) >>= (λ r. after_write (write_loop answers) r w) in
      if len w.conn.out_buf == 0 then ok (true, w) else go_on

  stop_writing : World U → World U
  stop_writing w = record w { loop = del_io_mask w.conn.connfd epollout w.loop }

  -- `tcp_conn::do_write`
  unfoldable pub do_write : List (Attempts WriteRet) → World U → Result (World U)
  unfolding stop_writing
  do_write answers w = do
    r ← write_loop answers w
    ok (if r.0 && len r.1.conn.out_buf == 0 then stop_writing r.1 else r.1)

module _ {U : Type 0} (serve : ℕ → List ℕ → World U → Result (World U)) where
  -- One message: its head is popped, the handler runs on the body, and the body is popped.
  unfoldable pub take_message : MsgHead → World U → Result (World U)
  take_message head w = do
    s ← ReactorBuf.pop message_head_len (input w)
    v ← serve head.id (take head.length (bytes s.0)) (set_input s w)
    t ← ReactorBuf.pop head.length (input v)
    ok (set_input t v)

module _ {U : Type 0} (conn_close_cb : World U → Result (World U))
    (serve : ℕ → List ℕ → World U → Result (World U)) where
  -- The `while` of `do_read`. Each message takes 8 bytes at least off the buffer.
  unfoldable pub read_loop : ℕ → World U → Result (World U)
  read_loop zero w = fault out_of_fuel
  read_loop (suc fuel) w = elim (read_head (bytes w.conn.in_buf)) [
    | none ↦ ok w
    | some head ↦
        let rest = take_message serve head w >>= λ v. read_loop fuel v in
        if is_bad head
        then clean_conn conn_close_cb w
        else if ltb (len w.conn.in_buf) (message_head_len + head.length)
        then ok w
        else rest
  ]

  after_read : Option ℕ → World U → Result (World U)
  after_read none w = clean_conn conn_close_cb w
  after_read (some zero) w = clean_conn conn_close_cb w
  after_read (some (suc n)) w = do
    v ← read_loop (suc (len w.conn.in_buf)) w
    s ← ReactorBuf.adjust (input v)
    ok (set_input s v)

  -- `tcp_conn::do_read`
  unfoldable pub do_read : Option ℕ → Attempts ReadRet → World U → Result (World U)
  unfolding after_read
  do_read need r w = do a ← read_data need r (input w); after_read a.0 (set_input a.1 w)
