-- ===== src/Api/Tests.antt =====
-- The client's theorems at concrete inputs.
use rins.Prelude.{ℕ, ◌≡◌, refl, List, [], ◌∷◌, Option, none, some, ok, arith}
use rins.Reactor.Memory.{blank}
use rins.Reactor.Udp.Packets.{datagram}
use rins.Agent.LoadBalance.{GetHostResponse, ret_succ}
use rins.Api.{packet, finish, wait_for}
use rins.Api.Dialogue.{replies, wait_for-replies}

-- The first byte is the number of the response.
abbrev parse_response : List ℕ → Option GetHostResponse
parse_response [] = none
parse_response (seq ∷ bytes) =
    some (record { seq = seq; modid = 1; cmdid = 2; retcode = ret_succ; host = some (7, 80) })

wait_for-replies_example :
    wait_for parse_response
      (replies parse_response ((2 ∷ []) ∷ []) (packet (datagram 5 (3 ∷ [])) ∷ []))
      blank
      3
      1
      2
    ≡ ok (record { code = ret_succ; ip = some 7 })
unfolding finish
wait_for-replies_example =
    wait_for-replies parse_response ((2 ∷ []) ∷ []) (3 ∷ [])
      (record { seq = 3; modid = 1; cmdid = 2; retcode = ret_succ; host = some (7, 80) }) [] blank 3
      1 2 ((_, refl, omega arith, omega arith), tt) (omega arith) refl (omega arith)
