-- ===== src/Report/Tests.antt =====
-- The theorem on the report service at a concrete input.
use rins.Prelude.{
  ℕ, ◌≡◌, refl, List, [], ◌∷◌, false, Bool, true, some, ◌+◌, ◌==◌, fault, out_of_bounds, ◌>>=◌,
  Returns, arith,
}
use rins.Reactor.Text.{text_eq, find, is_space, first_not_empty}
use rins.Reactor.ConfigFile.{StrMap, get_number, find_value, parse_number, read_signed, read_digits}
use rins.Database.{DbParams}
use rins.Reactor.ThreadQueue.{makes_all, empty_queue}
use rins.Protocol.{HostCallResult, ReportStatusRequest}
use rins.Report.{
  Service, send_report, step_index, Statement, statement, reporter, db_thread_cnt,
  create_reportdb_thread, get_report_status,
}
use rins.Report.Storing.{Event, gets, stores, run, reported, count, waiting, run-reported}
use rins.Report.Overruns.{get_report_status_no_threads, send_report-Overruns}

-- Two threads
abbrev config : StrMap
config = (reporter, (db_thread_cnt, b'2' ∷ []) ∷ []) ∷ []

-- A request with one result for each byte
abbrev parse_bytes : List ℕ → ReportStatusRequest
parse_bytes bytes = record {
  modid = 1;
  cmdid = 2;
  caller = 3;
  results = results_of bytes;
  timestamp = 4;
}
  where
    results_of : List ℕ → List HostCallResult
    results_of [] = []
    results_of (b ∷ bs) =
        record { ip = b; port = 80; succ = 1; err = 0; overload = false } ∷ results_of bs

abbrev takes_all : DbParams → Bool
takes_all p = true

abbrev two_requests : List Event
two_requests = gets (7 ∷ []) takes_all ∷ stores 0 ∷ gets (7 ∷ 8 ∷ []) takes_all ∷ stores 0 ∷ []

abbrev of_host_7 : Statement → Bool
of_host_7 st = st.ip == 7

run-reported_example :
    Returns
      (create_reportdb_thread makes_all config >>= run parse_bytes config two_requests)
      (λ t. count of_host_7 t.log + waiting of_host_7 t.queues ≡ 4)
unfolding get_number find_value parse_number read_signed read_digits find text_eq is_space
    first_not_empty reported count statement
run-reported_example =
    run-reported parse_bytes of_host_7 config two_requests (omega arith) (omega arith)
      (refl, (omega arith, (refl, (omega arith, tt))))

-- No threads
abbrev no_config : StrMap
no_config = (reporter, (db_thread_cnt, b'0' ∷ []) ∷ []) ∷ []

no_threads :
    (create_reportdb_thread makes_all no_config
      >>= get_report_status parse_bytes takes_all (some no_config) [])
    ≡ fault out_of_bounds
unfolding get_number find_value parse_number read_signed read_digits find text_eq is_space
    first_not_empty
no_threads = get_report_status_no_threads parse_bytes takes_all no_config [] refl refl

-- Two queues, with the turn of the second one
abbrev last_turn : Service
last_turn = record { queues = empty_queue ∷ empty_queue ∷ []; index = 1; log = [] }

send_report-Overruns_example :
    (send_report (parse_bytes (7 ∷ [])) last_turn >>= λ t.
    send_report (parse_bytes (8 ∷ [])) (step_index t))
    ≡ fault out_of_bounds
send_report-Overruns_example =
    send_report-Overruns (parse_bytes (7 ∷ [])) (parse_bytes (8 ∷ [])) last_turn refl
