-- ===== src/Reactor/TcpClient.antt =====
-- reactor/include/tcp_client.h and reactor/src/tcp_client.cc: a client and the sending of messages.
-- Link has its connection, its reading and its writing.
pub mod Link
pub mod Kept
pub mod Reading
pub mod Misreading
pub mod Writing
pub mod Send
pub mod Phase
pub mod Asking
pub mod Listening
pub mod Dialling
pub mod Flushing
pub mod Settling
pub mod Serving
pub mod Turns
pub mod Lifecycle
use rins.Prelude.{
  ℕ, ◌+◌, ◌-◌, ◌==◌, ltb, if◌then◌else◌, List, length, Option, none, some, Bool, true, false,
  Result, ok, ◌>>=◌,
}
use rins.Reactor.IoBuf.{IoBuf, new_buf, write_at}
use rins.Reactor.EventLoop.{EventLoop, epollout, add_io_event}
use rins.Reactor.Callback.{Callback, Task, client_write_callback}
use rins.Reactor.Message.{message_head_len, head_bytes}

-- The client's own buffers do not come from the pool.
pub record TcpClient : Type 0 where
  pub sockfd : ℕ
  pub connected : Bool
  pub in_buf : IoBuf
  pub out_buf : IoBuf
  pub loop : EventLoop Callback Task

-- The fields as the constructor sets them, before it connects.
unfoldable pub new_tcp_client : EventLoop Callback Task → TcpClient
new_tcp_client loop = record {
  sockfd = 0;
  connected = false;
  in_buf = new_buf 4194304;
  out_buf = new_buf 4194304;
  loop = loop;
}

-- `memcpy` behind the bytes that wait, with the length that grows.
unfoldable pub append : List ℕ → IoBuf → Result IoBuf
append xs b = do c ← write_at b b.len xs; ok (record c { len = c.len + length xs })

-- The message is written, and EPOLLOUT is asked for if nothing waited.
unfoldable pub queue_message : List ℕ → ℕ → TcpClient → Result (Bool × TcpClient)
queue_message body msgid c = do
  h ← append (head_bytes (record { id = msgid; length = length body })) c.out_buf
  b ← append body h
  ok (
    true,
    record c {
      out_buf = b;
      loop =
          if c.out_buf.len == 0
          then add_io_event true c.sockfd client_write_callback epollout c.loop
          else c.loop;
    },
  )

-- `tcp_client::send_message`: true is the return with 0, false that with -1.
unfoldable pub send_message : List ℕ → ℕ → TcpClient → Result (Bool × TcpClient)
unfolding queue_message
send_message body msgid c =
    if c.connected
    then (if ltb (c.out_buf.capacity - c.out_buf.len) (length body + message_head_len)
        then ok (false, c)
        else queue_message body msgid c)
    else ok (false, c)
