-- ===== src/Report/Storing.antt =====
-- What is stored of the reports that come in.
use rins.Prelude.{
  false, ◌^◌, ℕ, zero, suc, ◌+◌, ◌*◌, Bool, if◌then◌else◌, ◌<◌, ◌≡◌, refl, sym, ap, ◌∙◌, List, [],
  ◌∷◌, ◌++◌, map, append_assoc, append-nil, length, length-set, length-replicate, get_elem?,
  get_elem?-lt, set, replicate, some, true, Result, ok, ◌>>=◌, Returns, Returns->>=, Returns-map,
  arith,
}
use rins.Database.{DbParams, db_params, report_host, store_report}
use rins.Prelude.Words.{is_negative}
use rins.Reactor.ConfigFile.{StrMap, config_instance, get_number}
use rins.Reactor.ThreadQueue.{ThreadQueue, empty_queue, makes_all, make_queues_lem, send, recv}
use rins.Protocol.{HostCallResult, ReportStatusRequest}
use rins.Report.{
  Statement, statement, store_results, store, store_all, Service, reporter, db_thread_cnt,
  create_reportdb_thread, send_report, step_index, wrap_index, get_report_status, thread_report,
}

-- One statement for each result, in order
abbrev pub statements : ReportStatusRequest → List Statement
statements req = map (statement req) req.results

store_results_lem :
    (req : ReportStatusRequest) (results : List HostCallResult) (log : List Statement)
    → store_results req results log ≡ log ++ map (statement req) results
unfolding store_results
store_results_lem req [] log = sym (append-nil log)
store_results_lem req (r ∷ results) log =
    store_results_lem req results (log ++ (statement req r ∷ []))
    ∙ append_assoc log (statement req r ∷ []) (map (statement req) results)

store_lem :
    (req : ReportStatusRequest) (log : List Statement) → store req log ≡ log ++ statements req
unfolding store
store_lem req log = store_results_lem req req.results log

-- What happens to the service: a request comes in, while MySQL answers connections in the given
-- way, or a thread stores what waits in its queue.
pub data Event : Type 0 where
  gets : List ℕ → (DbParams → Bool) → Event
  stores : ℕ → Event

module _ (parse_report : List ℕ → ReportStatusRequest) where
  unfoldable pub happens : StrMap → Event → Service → Result Service
  happens config (gets bytes mysql_real_connect) s =
      get_report_status parse_report mysql_real_connect (some config) bytes s
  happens config (stores i) s = thread_report i s

  unfoldable pub run : StrMap → List Event → Service → Result Service
  run config [] s = ok s
  run config (e ∷ es) s = happens config e s >>= run config es

  -- The statements for the requests that come in.
  unfoldable pub reported : List Event → List Statement
  reported [] = []
  reported (gets bytes mysql_real_connect ∷ es) = statements (parse_report bytes) ++ reported es
  reported (stores i ∷ es) = reported es

-- The threads of the events are among the first `n`, and MySQL takes the connections.
abbrev pub AreServed : ℕ → StrMap → List Event → Type 0
AreServed n config [] = Unit
AreServed n config (gets bytes mysql_real_connect ∷ es) =
    (mysql_real_connect (db_params report_host config) ≡ true) × AreServed n config es
AreServed n config (stores i ∷ es) = (i < n) × AreServed n config es

module _ (test : Statement → Bool) where
  -- The number of statements that pass the test.
  unfoldable pub count : List Statement → ℕ
  count [] = 0
  count (st ∷ log) = (if test st then 1 else 0) + count log

  pub count-append : (log more : List Statement) → count (log ++ more) ≡ count log + count more
  unfolding count
  count-append [] more = omega arith
  count-append (st ∷ log) more = omega (arith, count-append log more)

  unfoldable pub count_requests : List ReportStatusRequest → ℕ
  count_requests [] = 0
  count_requests (req ∷ reqs) = count (statements req) + count_requests reqs

  -- The same for the requests that wait in the queues.
  unfoldable pub waiting : List (ThreadQueue ReportStatusRequest) → ℕ
  waiting [] = 0
  waiting (q ∷ qs) = count_requests q.queue + waiting qs

  count_requests-snoc :
      (reqs : List ReportStatusRequest) (req : ReportStatusRequest)
      → count_requests (reqs ++ (req ∷ [])) ≡ count_requests reqs + count (statements req)
  unfolding count_requests
  count_requests-snoc [] req = omega arith
  count_requests-snoc (r ∷ reqs) req = omega (arith, count_requests-snoc reqs req)

  count-store_all :
      (reqs : List ReportStatusRequest) (log : List Statement)
      → count (store_all reqs log) ≡ count log + count_requests reqs
  unfolding store_all count_requests
  count-store_all [] log = omega arith
  count-store_all (req ∷ reqs) log = omega (
    arith,
    count-store_all reqs (store req log),
    ap count (store_lem req log),
    count-append log (statements req),
  )

  waiting-set :
      (qs : List (ThreadQueue ReportStatusRequest)) (i : ℕ) (q q' : ThreadQueue ReportStatusRequest)
      → get_elem? qs i ≡ some q
      → waiting (set qs i q') + count_requests q.queue ≡ waiting qs + count_requests q'.queue
  unfolding waiting
  waiting-set [] i q q' e = absurd (cc)
  waiting-set (p ∷ qs) zero q q' e = ground (arith, e)
  waiting-set (p ∷ qs) (suc i) q q' e = omega (arith, waiting-set qs i q q' e)

  pub waiting-replicate : (n : ℕ) → waiting (replicate n empty_queue) ≡ 0
  unfolding waiting empty_queue count_requests
  waiting-replicate zero = refl
  waiting-replicate (suc n) = omega (arith, waiting-replicate n)

  -- Stored and waiting statements together.
  unfoldable pub held : Service → ℕ
  held s = count s.log + waiting s.queues

  -- There are `n` queues, and the index is one of them.
  abbrev pub IsReady : ℕ → Service → Type 0
  IsReady n s = (length s.queues ≡ n) × (s.index < n)

  pub get_report_status-held :
      (parse_report : List ℕ → ReportStatusRequest) (mysql_real_connect : DbParams → Bool)
      (config : StrMap) (n : ℕ) (bytes : List ℕ) (s : Service)
      → mysql_real_connect (db_params report_host config) ≡ true
      → IsReady n s
      → Returns
          (get_report_status parse_report mysql_real_connect (some config) bytes s)
          (λ t. IsReady n t × (held t ≡ held s + 2 * count (statements (parse_report bytes))))
  unfolding get_report_status store_report config_instance held send send_report step_index
      wrap_index
  get_report_status-held parse_report mysql_real_connect config n bytes s takes h =
      let req = parse_report bytes in
      let (q, e) = get_elem?-lt s.queues s.index (omega (arith, h.0, h.1)) in
      let q' = send req q in
      rw (takes, e, send_report)
        (
          (
            length-set s.queues s.index q' ∙ h.0,
            omega (arith, h.0, h.1, length-set s.queues s.index q'),
          ),
          omega (
            arith,
            ap count (store_lem req s.log),
            count-append s.log (statements req),
            waiting-set s.queues s.index q q' e,
            count_requests-snoc q.queue req,
          ),
        )

  thread_report-held :
      (n i : ℕ) (s : Service)
      → i < n
      → IsReady n s
      → Returns (thread_report i s) (λ t. IsReady n t × (held t ≡ held s))
  unfolding thread_report held recv count_requests
  thread_report-held n i s lt h =
      let (q, e) = get_elem?-lt s.queues i (omega (arith, h.0)) in
      let q' = (recv [] q).1 in
      rw (e, thread_report)
        (
          (length-set s.queues i q' ∙ h.0, h.1),
          omega (arith, count-store_all q.queue s.log, waiting-set s.queues i q q' e),
        )

  run-held :
      (parse_report : List ℕ → ReportStatusRequest) (config : StrMap) (n : ℕ) (es : List Event)
      (s : Service)
      → AreServed n config es
      → IsReady n s
      → Returns
          (run parse_report config es s)
          (λ t. held t ≡ held s + 2 * count (reported parse_report es))
  unfolding run happens reported count
  run-held parse_report config n [] s hs h = omega arith
  run-held parse_report config n (gets bytes db ∷ es) s hs h =
      Returns->>= (get_report_status parse_report db (some config) bytes s) _ _ _
        (get_report_status-held parse_report db config n bytes s hs.0 h)
        λ t k.
          Returns-map (run parse_report config es t) _ _
            (λ v g. omega (
              arith,
              g,
              k.1,
              count-append (statements (parse_report bytes)) (reported parse_report es),
            ))
            (run-held parse_report config n es t hs.1 k.0)
  run-held parse_report config n (stores i ∷ es) s hs h =
      Returns->>= (thread_report i s) _ _ _ (thread_report-held n i s hs.0 h) λ t k.
        Returns-map (run parse_report config es t) _ _ (λ v g. omega (arith, g, k.1))
          (run-held parse_report config n es t hs.1 k.0)

-- With a positive number of threads in the configuration, below 2^31, which can be made with their
-- queues, and any interleaving of requests that come in, handled one at a time and while MySQL
-- takes connections, and threads, among those that there are, that store what waits in their
-- queues: no call fails, and of the statements that pass any given test, those that have gone to
-- the database and those that wait in queues are together twice those of the requests. So every
-- result is stored twice once the queues are empty.
pub run-reported :
    (parse_report : List ℕ → ReportStatusRequest) (test : Statement → Bool) (config : StrMap)
    (es : List Event)
    → 0 < get_number reporter db_thread_cnt 3 config
    → get_number reporter db_thread_cnt 3 config < 2 ^ 31
    → AreServed (get_number reporter db_thread_cnt 3 config) config es
    → Returns
        (create_reportdb_thread makes_all config >>= run parse_report config es)
        (λ t. count test t.log + waiting test t.queues ≡ 2 * count test (reported parse_report es))
unfolding create_reportdb_thread held count
run-reported parse_report test config es pos lt hs =
    let n = get_number reporter db_thread_cnt 3 config in
    let plus : is_negative n ≡ false = ground arith in
    let s : Service = record { queues = replicate n empty_queue; index = 0; log = [] } in
    rw (plus, make_queues_lem {A = ReportStatusRequest} n)
      (Returns-map (run parse_report config es s) _ _
        (λ t g. omega (arith, g, waiting-replicate test n))
        (run-held test parse_report config n es s hs (length-replicate n empty_queue, pos)))
