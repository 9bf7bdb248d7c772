-- ===== src/Api.antt =====
-- api/cpp/src/rins_api.h and api/cpp/src/rins_api.cc: the client library. Parsing and serialising
-- are protobuf's; the sockets are arguments, sendto's answer and those of recvfrom.
pub mod Dialogue
mod Tests
use rins.Prelude.{
  ℕ, ◌+◌, ◌==◌, ltb, if◌then◌else◌, List, [], ◌∷◌, ◌++◌, length, drop, Option, none, some, Bool,
  true, false, ◌&&◌, not, Result, ok, fault, out_of_fuel, exited, check, ◌>>=◌, ◌>>◌,
}
use rins.Prelude.Words.{add32}
use rins.Protocol.{id_get_host_request, id_get_host_response}
use rins.Reactor.Memory.{Memory, blit}
use rins.Reactor.Message.{MsgHead, message_head_len, head_bytes}
use rins.Reactor.Udp.{buffered_head}
use rins.Agent.LoadBalance.{RetCode, ret_succ, ret_system_error, GetHostResponse}
use rins.Agent.Server.{GetHostRequest, shard}

-- `recvfrom` on the blocking socket: -1, or a datagram.
pub data Received : Type 0 where
  recv_failed : Received
  packet : List ℕ → Received

-- What the caller gets: the code, and what is written to `ip` (the address as a number). The port
-- is a parameter by value, so that the caller does not get it.
pub record Answer : Type 0 where
  pub code : RetCode
  pub ip : Option ℕ

abbrev pub system_error : Answer
system_error = record { code = ret_system_error; ip = none }

abbrev pub is_succ : RetCode → Bool
is_succ ret_succ = true
is_succ _ = false

-- The tests and the return after the loop.
unfoldable pub finish : ℕ → ℕ → ℕ → GetHostResponse → Answer
finish seq modid cmdid resp =
    if resp.seq == seq && resp.modid == modid && resp.cmdid == cmdid
    then record {
      code = resp.retcode;
      ip =
          if is_succ resp.retcode
          then elim resp.host [ none ↦ some 0 | some h ↦ some h.0 ]
          else none;
    }
    else system_error

module _ (parse_host_response : List ℕ → Option GetHostResponse) where
  -- One round of the loop; `again` is what a round with an old number goes on with.
  receive : ℕ → ℕ → ℕ → Result Answer → Option MsgHead → List ℕ → Result Answer
  receive seq modid cmdid again none bytes = ok system_error
  receive seq modid cmdid again (some head) bytes =
      if head.id == id_get_host_response
      then elim (parse_host_response (drop message_head_len bytes)) [
        | none ↦ ok system_error
        | some resp ↦ if ltb resp.seq seq then again else ok (finish seq modid cmdid resp)
      ]
      else ok system_error

  -- The loop over recvfrom; it waits for ever where the list has no more datagrams.
  unfoldable pub wait_for : List Received → Memory → ℕ → ℕ → ℕ → Result Answer
  unfolding receive
  wait_for [] buf seq modid cmdid = fault out_of_fuel
  wait_for (recv_failed ∷ rs) buf seq modid cmdid = ok system_error
  wait_for (packet bytes ∷ rs) buf seq modid cmdid =
      let buf' = blit buf 0 bytes in
      let again = wait_for rs buf' seq modid cmdid in
      receive seq modid cmdid again (buffered_head buf') bytes

  -- `rins_client::get_host`, once the request has its datagram: the socket that it goes to, and
  -- what the caller gets. `seqid` is the counter of the client, and `sent` tells whether sendto
  -- succeeds.
  unfoldable pub get_host :
      Bool → List Received → Memory → ℕ → ℕ → ℕ → (Option ℕ × Result Answer × ℕ)
  get_host sent rs buf modid cmdid seqid = (
    shard modid cmdid,
    (if sent then wait_for rs buf seqid modid cmdid else ok system_error),
    add32 seqid 1,
  )

-- The datagram of the request.
unfoldable pub request_bytes : (GetHostRequest → List ℕ) → ℕ → ℕ → ℕ → List ℕ
request_bytes serialize modid cmdid seqid =
    let body = serialize (record { seq = seqid; modid = modid; cmdid = cmdid }) in
    head_bytes (record { id = id_get_host_request; length = length body }) ++ body

-- One round of the loop in `rins_client::rins_client`: the answers of `socket` and of `connect`, and
-- the descriptor with the port that it is connected to.
unfoldable pub open_socket : ℕ → Option ℕ × Bool → Result (ℕ × ℕ)
open_socket i (none, connects) = fault exited
open_socket i (some fd, connects) = do check connects exited; ok (fd, 8888 + i)

-- `rins_client::rins_client`: the sockets, and 0 as `_seqid`.
unfoldable pub rins_client :
    Option ℕ × Bool → Option ℕ × Bool → Option ℕ × Bool → Result (List (ℕ × ℕ) × ℕ)
rins_client first second third = do
  a ← open_socket 0 first
  b ← open_socket 1 second
  c ← open_socket 2 third
  ok (a ∷ b ∷ c ∷ [], 0)
