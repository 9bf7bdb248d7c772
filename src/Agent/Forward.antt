-- ===== src/Agent/Forward.antt =====
-- load_balance_agent/src/dns_client.cc and load_balance_agent/src/report_client.cc: the callbacks of
-- the two queues, which send what waits there to a server. Serialising is protobuf's.
pub mod Delivery
use rins.Prelude.{ℕ, List, [], ◌∷◌, Result, ok, ◌>>=◌}
use rins.Protocol.{id_get_route_request, id_report_status_request, ReportStatusRequest}
use rins.Reactor.ThreadQueue.{ThreadQueue, recv}
use rins.Reactor.TcpClient.{TcpClient, send_message}
use rins.Agent.LoadBalance.{GetRouteRequest}

module _ {M : Type 0} (serialize : M → List ℕ) where
  -- The loop over the queue. What `send_message` returns is not looked at.
  unfoldable pub send_all : ℕ → List M → TcpClient → Result TcpClient
  send_all msgid [] client = ok client
  send_all msgid (msg ∷ msgs) client = do
    r ← send_message (serialize msg) msgid client
    send_all msgid msgs r.1

-- `new_dns_request`
unfoldable pub new_dns_request :
    (GetRouteRequest → List ℕ)
    → ThreadQueue GetRouteRequest
    → TcpClient
    → Result (ThreadQueue GetRouteRequest × TcpClient)
new_dns_request serialize dns_queue client =
    let r = recv [] dns_queue in
    do sent ← send_all serialize id_get_route_request r.0 client; ok (r.1, sent)

-- `new_report_request`
unfoldable pub new_report_request :
    (ReportStatusRequest → List ℕ)
    → ThreadQueue ReportStatusRequest
    → TcpClient
    → Result (ThreadQueue ReportStatusRequest × TcpClient)
new_report_request serialize report_queue client =
    let r = recv [] report_queue in
    do sent ← send_all serialize id_report_status_request r.0 client; ok (r.1, sent)
