-- ===== src/Api/Dialogue.antt =====
-- The client against the replies of an agent.
use rins.Prelude.{
  ℕ, ◌^◌, ◌≤◌, ◌<◌, ◌≡◌, ◌≢◌, refl, sym, ap, ◌∙◌, ◌==◌, ltb, if◌then◌else◌, List, [], ◌∷◌, ◌++◌,
  length, drop, drop-length-append, Option, some, false, ok, All, arith,
}
use rins.Protocol.{id_get_host_request, id_get_host_response}
use rins.Reactor.Memory.{Memory, blit}
use rins.Reactor.Message.{head_bytes}
use rins.Reactor.Message.Wire.{length-head_bytes}
use rins.Reactor.Udp.Packets.{datagram, datagram_parts}
use rins.Agent.LoadBalance.{Status, GetHostResponse}
use rins.Agent.RouteLb.{RouteLb}
use rins.Agent.Server.{GetHostRequest, Reply, handle_get_host}
use rins.Agent.Server.Replies.{handle_get_host-msgid}
use rins.Api.{Received, packet, system_error, finish, receive, wait_for}

body_of : (id : ℕ) (body : List ℕ) → drop 8 (datagram id body) ≡ body
body_of id body =
    let hs = head_bytes (record { id = id; length = length body }) in
    ap (λ n. drop n (hs ++ body))
      (sym (length-head_bytes (record { id = id; length = length body })))
    ∙ drop-length-append hs body

module _ (parse_host_response : List ℕ → Option GetHostResponse) where
  pub wait_for_other :
      (id : ℕ) (body : List ℕ) (rs : List Received) (buf : Memory) (seq modid cmdid : ℕ)
      → id < 2 ^ 32
      → length body ≤ 65519
      → id ≢ id_get_host_response
      → wait_for parse_host_response (packet (datagram id body) ∷ rs) buf seq modid cmdid
        ≡ ok system_error
  unfolding wait_for
  wait_for_other id body rs buf seq modid cmdid lt le ne =
      let other : (id == 5) ≡ false = ground arith in
      rw ((datagram_parts id body buf lt le).0, receive) (rw other refl)

  -- The bytes parse to a response with an older number.
  abbrev pub IsStale : ℕ → List ℕ → Type 0
  IsStale seq body =
      (resp : GetHostResponse) × (parse_host_response body ≡ some resp)
      × (resp.seq < seq)
      × (length body ≤ 65519)

  -- The replies that are left over from earlier calls.
  abbrev pub replies : List (List ℕ) → List Received → List Received
  replies [] rs = rs
  replies (body ∷ bodies) rs = packet (datagram 5 body) ∷ replies bodies rs

  wait_for_response :
      (body : List ℕ) (resp : GetHostResponse) (rs : List Received) (buf : Memory)
      (seq modid cmdid : ℕ)
      → length body ≤ 65519
      → parse_host_response body ≡ some resp
      → wait_for parse_host_response (packet (datagram 5 body) ∷ rs) buf seq modid cmdid ≡ (
          if ltb resp.seq seq
          then wait_for parse_host_response rs (blit buf 0 (datagram 5 body)) seq modid cmdid
          else ok (finish seq modid cmdid resp))
  unfolding wait_for receive
  wait_for_response body resp rs buf seq modid cmdid le e =
      let parsed : parse_host_response (drop 8 (datagram 5 body)) ≡ some resp =
        ap parse_host_response (body_of 5 body) ∙ e in
      rw ((datagram_parts 5 body buf (omega arith) le).0, receive) (rw (parsed) refl)

  -- The client skips the GetHostResponses with an older number, however many come first, and its
  -- call then ends as the first one decides that is not older; all of them parse and have at most
  -- 65519 bytes.
  pub wait_for-replies :
      (bodies : List (List ℕ)) (body : List ℕ) (resp : GetHostResponse) (rs : List Received)
      (buf : Memory) (seq modid cmdid : ℕ)
      → All (IsStale seq) bodies
      → length body ≤ 65519
      → parse_host_response body ≡ some resp
      → seq ≤ resp.seq
      → wait_for parse_host_response
          (replies bodies (packet (datagram 5 body) ∷ rs))
          buf
          seq
          modid
          cmdid
        ≡ ok (finish seq modid cmdid resp)
  wait_for-replies [] body resp rs buf seq modid cmdid old le e new =
      ground (arith, wait_for_response body resp rs buf seq modid cmdid le e)
  wait_for-replies (b ∷ bodies) body resp rs buf seq modid cmdid old le e new =
      wait_for_response b old.0.0 (replies bodies (packet (datagram 5 body) ∷ rs)) buf seq modid
        cmdid old.0.3 old.0.1
      ∙ ground (
        arith,
        old.0.2,
        wait_for-replies bodies body resp rs (blit buf 0 (datagram 5 b)) seq modid cmdid old.1 le e,
      )

-- A client that gets the reply of an agent to a GetHostRequest fails at once with RET_SYSTEM_ERROR,
-- whatever the agent answers: the reply goes out under the identifier of the request. Its body is
-- at most 65519 bytes long.
pub wait_for-handle_get_host :
    (parse_host_response : List ℕ → Option GetHostResponse)
    (parse_host_request : List ℕ → GetHostRequest)
    (serialize_host_response : GetHostResponse → List ℕ) (bytes : List ℕ) (r : RouteLb) (cnt : ℕ)
    (st : Status) (a : Reply × RouteLb) (rs : List Received) (buf : Memory) (seq modid cmdid : ℕ)
    → handle_get_host parse_host_request serialize_host_response bytes id_get_host_request
        (some r)
        cnt
        st
      ≡ ok a
    → length a.0.0 ≤ 65519
    → wait_for parse_host_response (packet (datagram a.0.1 a.0.0) ∷ rs) buf seq modid cmdid
      ≡ ok system_error
wait_for-handle_get_host parse parse_request serialize bytes r cnt st a rs buf seq modid cmdid e
      le =
    let id : a.0.1 ≡ 4 = handle_get_host-msgid parse_request serialize bytes 4 r cnt st a e in
    wait_for_other parse a.0.1 a.0.0 rs buf seq modid cmdid (omega arith) le (omega arith)
