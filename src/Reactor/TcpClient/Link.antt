-- ===== src/Reactor/TcpClient/Link.antt =====
-- reactor/src/tcp_client.cc: the connection of a client, its reading and its writing. The calls of
-- the two connection callbacks and of the message handlers are arguments; `U` is the state of them.
-- A callback that is not set does nothing.
use rins.Prelude.{
  ℕ, zero, suc, ◌+◌, ◌-◌, ◌^◌, ◌==◌, ltb, leb, if◌then◌else◌, List, [], ◌∷◌, length, Option, none,
  some, Bool, true, false, Result, ok, fault, check, ◌>>=◌, ◌>>◌, assertion, out_of_bounds, exited,
  out_of_fuel,
}
use rins.Prelude.Words.{is_negative}
use rins.Reactor.Memory.{window}
use rins.Reactor.IoBuf
use rins.Reactor.IoBuf.{IoBuf, contents}
use rins.Reactor.ReactorBuf.{
  Attempts, retry, ReadRet, read_failed, got, WriteRet, again, write_failed, wrote,
}
use rins.Reactor.EventLoop.{EventLoop, epollin, epollout, add_io_event, del_io_event, del_io_mask}
use rins.Reactor.Callback.{
  Callback, Task, client_read_callback, client_write_callback, connection_delay,
}
use rins.Reactor.Message.{message_head_len, read_head}
use rins.Reactor.TcpConn.{closed_fd}
use rins.Reactor.TcpClient.{TcpClient, new_tcp_client, append}

-- What `connect` answers: 0, -1 with EINPROGRESS, or -1 with another error.
pub data ConnectRet : Type 0 where
  connected in_progress refused : ConnectRet

-- The answers of `socket`, none for -1, and of `connect`.
pub record Dial : Type 0 where
  pub socket : Option ℕ
  pub connect : ConnectRet

-- What `check_connect` returns, 0, -1, -2 or -3; the socket is closed but for 0.
pub data CheckRet : Type 0 where
  usable not_ready unknown failed : CheckRet

-- `check_connect`: `ready` tells that `select` answers a positive number, `is_set` is FD_ISSET, and
-- `err` is what `getsockopt` puts there, none for its failure.
unfoldable pub check_connect : (ready is_set : Bool) → (err : Option ℕ) → CheckRet
check_connect ready is_set err =
    if ready
    then (if is_set
        then elim err [ none ↦ unknown | some e ↦ (if e == 0 then usable else failed) ]
        else usable)
    else not_ready

-- The callbacks of a connection that is there: reading, and writing if something waits.
unfoldable pub watch : ℕ → TcpClient → TcpClient
watch fd c =
    let reading = add_io_event true fd client_read_callback epollin c.loop in
    record c {
      loop =
          if c.out_buf.len == 0
          then reading
          else add_io_event true fd client_write_callback epollout reading;
    }

-- `io_buf::pop` of an `int`: a negative number moves the head back.
unfoldable pub pop_int : ℕ → IoBuf → Result IoBuf
pop_int n b =
    if is_negative n
    then (if ltb b.head (2 ^ 32 - n)
        then fault out_of_bounds
        else ok (record b { len = b.len + (2 ^ 32 - n); head = b.head - (2 ^ 32 - n) }))
    else ok (IoBuf.pop b n)

module _ {U : Type 0} (conn_start_cb : TcpClient × U → Result (TcpClient × U)) where
  after_connect : ConnectRet → TcpClient × U → Result (TcpClient × U)
  after_connect connected (c, u) = do
    s ← conn_start_cb (record c { connected = true }, u)
    ok (watch s.0.sockfd s.0, s.1)
  after_connect in_progress (c, u) =
      ok (record c { loop = add_io_event true c.sockfd connection_delay epollout c.loop }, u)
  after_connect refused s = fault exited

  -- `tcp_client::do_connect`
  unfoldable pub do_connect : Dial → TcpClient × U → Result (TcpClient × U)
  unfolding after_connect
  do_connect dial (c, u) = if c.sockfd == closed_fd then ok (c, u) else elim dial.socket [
    | none ↦ fault exited
    | some fd ↦ after_connect dial.connect (record c { sockfd = fd }, u)
  ]

  -- `tcp_client::tcp_client`
  unfoldable pub tcp_client : EventLoop Callback Task → Dial → U → Result (TcpClient × U)
  tcp_client loop dial u = do_connect dial (new_tcp_client loop, u)

  -- `connection_delay`; `result` is what SO_ERROR tells.
  unfoldable pub finish_connect : ℕ → ℕ → TcpClient × U → Result (TcpClient × U)
  finish_connect fd result (c, u) =
      let off : TcpClient = record c { loop = del_io_event fd c.loop } in
      if result == 0
      then (do s ← conn_start_cb (record off { connected = true }, u); ok (watch fd s.0, s.1))
      else ok (off, u)

module _ {U : Type 0} (conn_start_cb conn_close_cb : TcpClient × U → Result (TcpClient × U)) where
  -- `tcp_client::clean_conn`
  unfoldable pub clean_conn : Dial → TcpClient × U → Result (TcpClient × U)
  clean_conn dial (c, u) = do
    s ← conn_close_cb (
      record c {
        connected = false;
        loop = if c.sockfd == closed_fd then c.loop else del_io_event c.sockfd c.loop;
      },
      u,
    )
    do_connect conn_start_cb dial s

  -- The `while` of `do_write`, with the answers of the calls of `write`, and of the calls that
  -- connect again after an error.
  after_write :
      (TcpClient × U → Result (TcpClient × U))
      → WriteRet
      → Dial
      → TcpClient × U
      → Result (TcpClient × U)
  after_write rest again dial s = ok s
  after_write rest write_failed dial s = clean_conn dial s >>= rest
  after_write rest (wrote zero) dial s = ok s
  after_write rest (wrote (suc n)) dial (c, u) = do
    b ← IoBuf.adjust (IoBuf.pop c.out_buf (suc n))
    rest (record c { out_buf = b }, u)

  unfoldable pub write_loop :
      List (Attempts WriteRet × Dial) → TcpClient × U → Result (TcpClient × U)
  unfolding after_write
  write_loop [] s = if s.0.out_buf.len == 0 then ok s else fault out_of_fuel
  write_loop ((a, dial) ∷ answers) s =
      let go_on = after_write (write_loop answers) (retry a) dial s in
      if s.0.out_buf.len == 0 then ok s else go_on

  stop_writing : TcpClient × U → TcpClient × U
  stop_writing (c, u) =
      if c.out_buf.len == 0
      then (record c { loop = del_io_mask c.sockfd epollout c.loop }, u)
      else (c, u)

  -- `tcp_client::do_write`
  unfoldable pub do_write : List (Attempts WriteRet × Dial) → TcpClient × U → Result (TcpClient × U)
  unfolding stop_writing
  do_write answers s =
      if s.0.out_buf.head == 0
      then (if s.0.out_buf.len == 0
          then fault assertion
          else do t ← write_loop answers s; ok (stop_writing t))
      else fault assertion

module _ {U : Type 0} (serve : ℕ → ℕ → List ℕ → TcpClient × U → Result (TcpClient × U)) where
  -- One message: the handler gets the length that the head tells, and the block from there on.
  unfoldable pub take_message : ℕ → ℕ → TcpClient × U → Result (TcpClient × U)
  take_message msgid length (c, u) =
      let b = IoBuf.pop c.in_buf message_head_len in
      do
        s ←
            serve msgid length (window b.block b.head (b.capacity - b.head))
              (record c { in_buf = b }, u)
        d ← pop_int length s.0.in_buf
        ok (record s.0 { in_buf = d }, s.1)

  -- The `while` of `do_read`
  unfoldable pub read_loop : ℕ → TcpClient × U → Result (TcpClient × U)
  read_loop zero s = fault out_of_fuel
  read_loop (suc fuel) s = elim (read_head (contents s.0.in_buf)) [
    | none ↦ ok s
    | some head ↦ take_message head.id head.length s >>= read_loop fuel
  ]

module _ {U : Type 0} (conn_start_cb conn_close_cb : TcpClient × U → Result (TcpClient × U))
    (serve : ℕ → ℕ → List ℕ → TcpClient × U → Result (TcpClient × U)) where
  -- What `do_read` does with the answer of `read`; false is the return with -1.
  unfoldable pub after_read :
      ℕ → ℕ → ReadRet → Dial → TcpClient × U → Result (Bool × (TcpClient × U))
  after_read fuel need_read read_failed dial s = do
    t ← clean_conn conn_start_cb conn_close_cb dial s
    ok (false, t)
  after_read fuel need_read (got []) dial s = do
    t ← clean_conn conn_start_cb conn_close_cb dial s
    ok (false, t)
  after_read fuel need_read (got xs) dial (c, u) = do
    check (length xs == need_read) assertion
    b ← append xs c.in_buf
    t ← read_loop serve fuel (record c { in_buf = b }, u)
    d ← IoBuf.adjust t.0.in_buf
    ok (true, (record t.0 { in_buf = d }, t.1))

  -- `tcp_client::do_read`; `need` is the answer of FIONREAD, none for -1.
  unfoldable pub do_read :
      ℕ → Option ℕ → Attempts ReadRet → Dial → TcpClient × U → Result (Bool × (TcpClient × U))
  do_read fuel need r dial (c, u) = do
    check c.connected assertion
    elim need [
      | none ↦ ok (false, (c, u))
      | some need_read ↦ do
        check (leb need_read (c.in_buf.capacity - c.in_buf.len)) assertion
        after_read fuel need_read (retry r) dial (c, u)
    ]
