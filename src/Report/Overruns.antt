-- ===== src/Report/Overruns.antt =====
-- How a handler of report/src/reporter_service.cc reads past the end of queues.
use rins.Prelude.{
  ℕ, zero, suc, ◌+◌, Bool, ◌≡◌, refl, List, [], ◌∷◌, length, length-set, get_elem?, get_elem?-lt,
  none, ◌≤◌, set, some, true, fault, ◌>>=◌, out_of_bounds, arith,
}
use rins.Database.{DbParams, db_params, report_host, store_report}
use rins.Reactor.ConfigFile.{StrMap, config_instance, get_number}
use rins.Reactor.ThreadQueue.{makes_all, make_queues, send}
use rins.Protocol.{ReportStatusRequest}
use rins.Report.{
  Service, reporter, db_thread_cnt, create_reportdb_thread, send_report, step_index,
  get_report_status,
}

get_elem?-past : {A : Type 0} (xs : List A) (i : ℕ) → length xs ≤ i → get_elem? xs i ≡ none
get_elem?-past [] i le = refl
get_elem?-past (x ∷ xs) zero le = absurd (omega (arith, le))
get_elem?-past (x ∷ xs) (suc i) le = get_elem?-past xs i (omega (arith, le))

-- Without threads in the configuration the first report reads past the end of the array.
pub get_report_status_no_threads :
    (parse_report : List ℕ → ReportStatusRequest) (mysql_real_connect : DbParams → Bool)
    (config : StrMap) (bytes : List ℕ)
    → get_number reporter db_thread_cnt 3 config ≡ 0
    → mysql_real_connect (db_params report_host config) ≡ true
    → (create_reportdb_thread makes_all config
        >>= get_report_status parse_report mysql_real_connect (some config) bytes)
      ≡ fault out_of_bounds
unfolding create_reportdb_thread make_queues get_report_status send_report store_report
    config_instance
get_report_status_no_threads parse_report mysql_real_connect config bytes e takes =
    rw (e, create_reportdb_thread) (rw (takes, get_report_status) refl)

pub send_report-Overruns :
    (first second : ReportStatusRequest) (s : Service)
    → s.index + 1 ≡ length s.queues
    → (send_report first s >>= λ t. send_report second (step_index t)) ≡ fault out_of_bounds
unfolding send_report step_index
send_report-Overruns first second s last =
    let (q, e) = get_elem?-lt s.queues s.index (omega (arith, last)) in
    let past : get_elem? (set s.queues s.index (send first q)) (s.index + 1) ≡ none =
      get_elem?-past (set s.queues s.index (send first q)) (s.index + 1)
        (omega (arith, last, length-set s.queues s.index (send first q))) in
    rw (e, send_report) (rw (past, send_report) refl)
