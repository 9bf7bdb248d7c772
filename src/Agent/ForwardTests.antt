-- ===== src/Agent/ForwardTests.antt =====
-- The theorems on the forwarding of requests at concrete inputs.
use rins.Prelude.{
  ℕ, ◌≡◌, refl, List, [], ◌∷◌, ◌++◌, some, none, false, true, Result, ok, Returns, Ends, arith,
}
use rins.Protocol.{ReportStatusRequest}
use rins.Reactor.Memory.{blank, window}
use rins.Reactor.IoBuf.{IoBuf, contents}
use rins.Reactor.IoBuf.Laws.{Holds}
use rins.Reactor.BufPool.{init}
use rins.Reactor.BufPool.History.{init-IsValid}
use rins.Reactor.ReactorBuf.{returned, got}
use rins.Reactor.ReactorBuf.Room.{IsReady}
use rins.Reactor.EventLoop
use rins.Reactor.ConnTable.{new_table}
use rins.Reactor.Message.{head_bytes}
use rins.Reactor.ThreadQueue.{ThreadQueue, empty_queue, send}
use rins.Reactor.TcpConn.{World, do_read}
use rins.Reactor.TcpConn.Framing.{Msg}
use rins.Reactor.TcpClient.{TcpClient}
use rins.Agent.LoadBalance.{GetRouteRequest}
use rins.Agent.Forward.{new_dns_request}
use rins.Agent.Forward.Delivery.{new_dns_request-do_read}

-- A connection of the server, the handlers of which keep a list of what they get.
abbrev fresh : World (List Msg)
fresh = record {
  conn = record { connfd = 5; in_buf = none; out_buf = none };
  pool = init;
  loop = EventLoop.init;
  table = new_table 10;
  user = [];
}

abbrev keep : World (List Msg) → Result (World (List Msg))
keep w = ok w

abbrev note : ℕ → List ℕ → World (List Msg) → Result (World (List Msg))
note id body w = ok (record w { user = w.user ++ ((id, body) ∷ []) })

abbrev empty_buf : IoBuf
empty_buf = record { capacity = 4194304; len = 0; head = 0; block = blank }

abbrev client : TcpClient
client = record {
  sockfd = 6;
  connected = true;
  in_buf = empty_buf;
  out_buf = empty_buf;
  loop = EventLoop.init;
}

empty-Holds : Holds 4194304 [] empty_buf
unfolding window
empty-Holds = record { bytes = refl; front = refl; count = refl; size = refl; room = omega arith }

abbrev serialize : GetRouteRequest → List ℕ
serialize req = req.modid ∷ req.cmdid ∷ []

abbrev two_waiting : ThreadQueue GetRouteRequest
two_waiting =
    send (record { modid = 3; cmdid = 4 }) (send (record { modid = 1; cmdid = 2 }) empty_queue)

new_dns_request-do_read_example : Returns (new_dns_request serialize two_waiting client) (λ t.
    (t.0.queue ≡ [])
    × Ends
        (do_read keep note (some t.1.out_buf.len) (returned (got (contents t.1.out_buf))) fresh)
        (λ v.
          IsReady [] (v.conn.in_buf, v.pool) × (v.user ≡ (1, 1 ∷ 2 ∷ []) ∷ (1, 3 ∷ 4 ∷ []) ∷ [])))
unfolding send empty_queue head_bytes
new_dns_request-do_read_example =
    new_dns_request-do_read keep note (λ u. u) (λ id body w v. (refl, v, refl)) serialize
      two_waiting client fresh refl empty-Holds (omega arith) (omega arith) (omega arith)
      (record { held = refl; pool = init-IsValid })

-- A client that is still connecting
abbrev connecting : TcpClient
connecting = record client { connected = false }

abbrev no_bytes : ReportStatusRequest → List ℕ
no_bytes req = []

abbrev a_report : ThreadQueue ReportStatusRequest
a_report =
    send (record { modid = 1; cmdid = 2; caller = 3; results = []; timestamp = 4 }) empty_queue
