-- ===== src/Reactor/Udp.antt =====
-- reactor/src/udp_server.cc and reactor/src/udp_client.cc: the loops over datagrams, the sending of
-- one, and the constructors. The answers of the system calls are arguments; a loop ends with the list at the latest,
-- as it does with EAGAIN.
pub mod Packets
use rins.Prelude.{
  ℕ, zero, suc, ◌+◌, ◌==◌, ltb, if◌then◌else◌, List, [], ◌∷◌, ◌++◌, length, take, Option, none,
  some, Bool, true, false, ◌||◌, not, Result, ok, fault, ◌>>=◌, ◌>>◌, check, leb, out_of_bounds,
  exited,
}
use rins.Prelude.Words.{is_negative}
use rins.Reactor.Memory.{Memory, window, blit}
use rins.Reactor.EventLoop.{EventLoop, epollin, add_io_event, del_io_event}
use rins.Reactor.Callback.{Callback, Task, udp_server_read, udp_client_read}
use rins.Reactor.Message.{MsgHead, message_head_len, message_length_limit, head_bytes, read_head}

-- `recvfrom`: -1 with EINTR, -1 with EAGAIN, -1 with another error, or a datagram.
pub data RecvRet : Type 0 where
  recv_interrupted recv_again recv_failed : RecvRet
  packet : List ℕ → RecvRet

-- The head in `_read_buf`, which keeps its bytes past a shorter datagram.
unfoldable pub buffered_head : Memory → Option MsgHead
buffered_head buf = read_head (window buf 0 message_head_len)

-- The test that the whole datagram is one message.
abbrev pub is_malformed : MsgHead → ℕ → Bool
is_malformed head pkt_len =
    ltb message_length_limit head.length
    || is_negative head.length
    || not (head.length + message_head_len == pkt_len)

-- The bytes that `recvfrom` stores: it cuts a datagram that is longer than the buffer.
abbrev pub received : List ℕ → List ℕ
received bytes = take message_length_limit bytes

module _ {W : Type 0} (serve : ℕ → List ℕ → W → Result W) where
  -- A well-formed datagram is handed to the router; `len` is the length that it is told.
  handle : (MsgHead → ℕ) → Option MsgHead → ℕ → Memory → W → Result W
  handle len none pkt_len buf w = ok w
  handle len (some head) pkt_len buf w =
      if is_malformed head pkt_len
      then ok w
      else serve head.id (window buf message_head_len (len head)) w

  -- The loop of the two `do_read`; what `_read_buf` holds goes from round to round.
  unfoldable pub read_packets : (MsgHead → ℕ) → List RecvRet → Memory → W → Result W
  unfolding handle
  read_packets len [] buf w = ok w
  read_packets len (recv_interrupted ∷ rs) buf w = read_packets len rs buf w
  read_packets len (recv_again ∷ rs) buf w = ok w
  read_packets len (recv_failed ∷ rs) buf w = ok w
  read_packets len (packet bytes ∷ rs) buf w =
      let buf' = blit buf 0 (received bytes) in
      handle len (buffered_head buf') (length (received bytes)) buf' w >>= read_packets len rs buf'

  -- `udp_server::do_read` tells the router the length of the body.
  unfoldable pub server_do_read : List RecvRet → Memory → W → Result W
  server_do_read = read_packets (λ head. head.length)

  -- `udp_client::do_read` tells the router the message's identifier as the length.
  unfoldable pub client_do_read : List RecvRet → Memory → W → Result W
  client_do_read = read_packets (λ head. head.id)

-- `udp_server::send_message` and `udp_client::send_message`, up to `sendto`: the datagram that is
-- handed to it, or none for a return with -1. `_write_buf` has MESSAGE_LENGTH_LIMIT bytes.
unfoldable pub send_message : List ℕ → ℕ → Result (Option (List ℕ))
send_message body msgid = if ltb message_length_limit (length body) then ok none else do
  check (leb (message_head_len + length body) message_length_limit) out_of_bounds
  ok (some (head_bytes (record { id = msgid; length = length body }) ++ body))

-- `udp_server::udp_server`: the answers of the two calls of `signal`, of `socket`, none for -1, and
-- of `bind`.
unfoldable pub udp_server :
    (Bool × Bool) → Option ℕ → Bool → EventLoop Callback Task → Result (ℕ × EventLoop Callback Task)
udp_server (sighup, sigpipe) socket binds loop = do
  check sighup exited
  check sigpipe exited
  elim socket [
    | none ↦ fault exited
    | some fd ↦ do check binds exited; ok (fd, add_io_event true fd udp_server_read epollin loop)
  ]

-- `udp_client::udp_client`: the answers of `socket` and of `connect`.
unfoldable pub udp_client :
    Option ℕ → Bool → EventLoop Callback Task → Result (ℕ × EventLoop Callback Task)
udp_client none connects loop = fault exited
udp_client (some fd) connects loop = do
  check connects exited
  ok (fd, add_io_event true fd udp_client_read epollin loop)

-- The two destructors
unfoldable pub close_udp : ℕ → EventLoop Callback Task → EventLoop Callback Task
close_udp fd loop = del_io_event fd loop
