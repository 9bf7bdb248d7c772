-- ===== src/Report.antt =====
-- The report service: report/src/reporter_service.cc, report/src/store_report.cc and
-- report/include/store_thread.h. Parsing is protobuf's; the statements that go to the database are
-- a log, and whether they succeed is only printed.
pub mod Storing
pub mod Overruns
pub mod Start
pub mod Wire
mod Tests
mod StartTests
use rins.Prelude.{
  ℕ, zero, suc, ◌+◌, ◌%◌, ltb, Bool, if◌then◌else◌, List, [], ◌∷◌, ◌++◌, length, get_elem?, set,
  replicate, Option, none, some, Result, ok, fault, ◌>>=◌, out_of_bounds, exited,
}
use rins.Prelude.Words.{is_negative}
use rins.Reactor.Text.{Text}
use rins.Reactor.ConfigFile.{StrMap, get_number}
use rins.Reactor.ThreadQueue.{ThreadQueue, Making, make_queues, send, recv}
use rins.Database.{DbParams, store_report}
use rins.Protocol.{HostCallResult, ReportStatusRequest}

-- The values of an INSERT into ServerCallStatus, and of its UPDATE of the last four
pub record Statement : Type 0 where
  pub modid : ℕ
  pub cmdid : ℕ
  pub ip : ℕ
  pub port : ℕ
  pub caller : ℕ
  pub succ_cnt : ℕ
  pub err_cnt : ℕ
  pub ts : ℕ
  pub overload : ℕ

-- The statement for one result of a request
unfoldable pub statement : ReportStatusRequest → HostCallResult → Statement
statement req result = record {
  modid = req.modid;
  cmdid = req.cmdid;
  ip = result.ip;
  port = result.port;
  caller = req.caller;
  succ_cnt = result.succ;
  err_cnt = result.err;
  ts = req.timestamp;
  overload = if result.overload then 1 else 0;
}

unfoldable pub store_results :
    ReportStatusRequest → List HostCallResult → List Statement → List Statement
store_results req [] log = log
store_results req (result ∷ results) log =
    store_results req results (log ++ (statement req result ∷ []))

-- `store_report::store`
unfoldable pub store : ReportStatusRequest → List Statement → List Statement
store req log = store_results req req.results log

-- `queues`, the static `index` of the handler, and the statements in order. The number of queues is
-- `thread_cnt`.
pub record Service : Type 0 where
  pub queues : List (ThreadQueue ReportStatusRequest)
  pub index : ℕ
  pub log : List Statement

abbrev pub reporter : Text
reporter = b'r' ∷ b'e' ∷ b'p' ∷ b'o' ∷ b'r' ∷ b't' ∷ b'e' ∷ b'r' ∷ []

abbrev pub db_thread_cnt : Text
db_thread_cnt =
    b'd' ∷ b'b' ∷ b'_' ∷ b't' ∷ b'h' ∷ b'r' ∷ b'e' ∷ b'a' ∷ b'd' ∷ b'_' ∷ b'c' ∷ b'n' ∷ b't' ∷ []

-- `create_reportdb_thread`: an array of a negative size ends the process.
unfoldable pub create_reportdb_thread : Making → StrMap → Result Service
create_reportdb_thread answers config =
    let thread_cnt = get_number reporter db_thread_cnt 3 config in
    let made = make_queues thread_cnt 0 answers in
    if is_negative thread_cnt
    then fault exited
    else (do queues ← made; ok (record { queues = queues; index = 0; log = [] }))

-- The report goes to the queue at the static `index`.
unfoldable pub send_report : ReportStatusRequest → Service → Result Service
send_report req s = elim (get_elem? s.queues s.index) [
  | none ↦ fault out_of_bounds
  | some queue ↦ ok (record s { queues = set s.queues s.index (send req queue) })
]

-- `index++`
unfoldable pub step_index : Service → Service
step_index s = record s { index = s.index + 1 }

-- `index = index % thread_cnt`
unfoldable pub wrap_index : Service → Service
wrap_index s = record s { index = s.index % length s.queues }

module _ (parse_report : List ℕ → ReportStatusRequest) where
  -- `get_report_status`, with what MySQL answers a connection and the static of config_file. No lock
  -- guards `index`: this is a call that no other one interrupts.
  unfoldable pub get_report_status :
      (DbParams → Bool) → Option StrMap → List ℕ → Service → Result Service
  get_report_status mysql_real_connect config bytes s = do
    let req = parse_report bytes
    sr ← store_report mysql_real_connect config
    t ← send_report req (record s { log = store req s.log })
    ok (wrap_index (step_index t))

unfoldable pub store_all : List ReportStatusRequest → List Statement → List Statement
store_all [] log = log
store_all (msg ∷ report_msgs) log = store_all report_msgs (store msg log)

-- `thread_report` of the thread with the given queue
unfoldable pub thread_report : ℕ → Service → Result Service
thread_report i s = elim (get_elem? s.queues i) [
  | none ↦ fault out_of_bounds
  | some queue ↦
      (let r = recv [] queue in
        ok (record s { queues = set s.queues i r.1; log = store_all r.0 s.log }))
]
