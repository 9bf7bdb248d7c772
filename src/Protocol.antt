-- ===== src/Protocol.antt =====
-- `enum MessageID` of base/proto/rins.proto, and the messages that no other module declares.
use rins.Prelude.{ℕ, Bool, List}

abbrev pub id_get_route_request : ℕ
id_get_route_request = 1

abbrev pub id_get_route_response : ℕ
id_get_route_response = 2

abbrev pub id_report_status_request : ℕ
id_report_status_request = 3

abbrev pub id_get_host_request : ℕ
id_get_host_request = 4

abbrev pub id_get_host_response : ℕ
id_get_host_response = 5

-- The message `HostCallResult`.
pub record HostCallResult : Type 0 where
  pub ip : ℕ
  pub port : ℕ
  pub succ : ℕ
  pub err : ℕ
  pub overload : Bool

-- The message `ReportStatusRequest`.
pub record ReportStatusRequest : Type 0 where
  pub modid : ℕ
  pub cmdid : ℕ
  pub caller : ℕ
  pub results : List HostCallResult
  pub timestamp : ℕ
