-- ===== src/Report/Wire.antt =====
-- The report service from the bytes of a connection on: the router of `main` calls the handler for
-- the messages that reactor/src/tcp_conn.cc takes off the stream.
use rins.Prelude.{
  ℕ, ◌+◌, ◌*◌, ◌^◌, ◌<◌, ◌≡◌, refl, ap, ◌∙◌, ◌==◌, if◌then◌else◌, List, [], ◌∷◌, ◌++◌, map,
  length-replicate, replicate, All, Option, none, some, Bool, Bool-cases, inl, inr, true, Result,
  ok, ◌>>=◌, Ends, Ends->>=, Ends-map, Ends_of_Returns, arith,
}
use rins.Database.{DbParams, db_params, report_host}
use rins.Reactor.BufPool.Laws
use rins.Reactor.Text.{Text}
use rins.Reactor.ConfigFile.{StrMap, split_lines}
use rins.Reactor.ConfigFile.Log.{directive, entry_log}
use rins.Reactor.ReactorBuf.{State}
use rins.Reactor.ReactorBuf.Room.{IsReady}
use rins.Reactor.ThreadQueue.{empty_queue, makes_all}
use rins.Reactor.Message.{MsgRouter, route}
use rins.Reactor.TcpConn.{World, input, set_input}
use rins.Reactor.TcpConn.Framing.{Msg, IsMessage, stream}
use rins.Reactor.TcpConn.Stream.{concat, IsChunk, read_all, read_all-Serves}
use rins.Reactor.TcpServer.Start.{Listening, works, reactor, max_conn, thread_num}
use rins.Reactor.TcpServer.Boot.{number_of, text_3, text_1024}
use rins.Protocol.{id_report_status_request, ReportStatusRequest}
use rins.Report
use rins.Report.{Statement, Service, reporter, db_thread_cnt, create_reportdb_thread}
use rins.Report.Storing.{
  statements, count, count-append, waiting, waiting-replicate, held, IsReady as HasQueues,
  get_report_status-held,
}
use rins.Report.Start.{Handler, get_report_status, Running, Started, main, main-Started}

abbrev pub Router : Type 0
Router = MsgRouter Handler (Option (Unit {0}))

module _ (parse_report : List ℕ → ReportStatusRequest) where
  -- What a handler does to the state of the service, with what MySQL answers a connection and the
  -- static of config_file.
  unfoldable pub handle :
      (DbParams → Bool) → Option StrMap → Handler → List ℕ → Service → Result Service
  handle mysql_real_connect config get_report_status body s =
      Report.get_report_status parse_report mysql_real_connect config body s

  -- `msg_router::call`: a message that has no handler is dropped.
  unfoldable pub serve :
      (DbParams → Bool)
      → Option StrMap
      → Router
      → ℕ
      → List ℕ
      → World Service
      → Result (World Service)
  unfolding handle
  serve mysql_real_connect config router msgid body w = elim (route msgid router) [
    | none ↦ ok w
    | some callback ↦ do
      s ← handle mysql_real_connect config callback.0 body w.user
      ok (record w { user = s })
  ]

  -- The statements for the messages that are reports.
  unfoldable pub reports_of : List Msg → List Statement
  reports_of [] = []
  reports_of (m ∷ ms) =
      let rest = reports_of ms in
      if m.0 == id_report_status_request then statements (parse_report m.1) ++ rest else rest

  count-reports_of :
      (test : Statement → Bool) (m : Msg) (ms : List Msg)
      → count test (reports_of (m ∷ ms))
        ≡ (if m.0 == id_report_status_request
            then count test (statements (parse_report m.1))
            else 0)
          + count test (reports_of ms)
  unfolding reports_of
  count-reports_of test m ms =
      ground (arith, count-append test (statements (parse_report m.1)) (reports_of ms))

  module _ (test : Statement → Bool) (n total : ℕ) where
    -- What is held and what is still to come make up the total.
    Left : List Msg → World Service → Type 0
    Left ms w =
        HasQueues test n w.user × (held test w.user + 2 * count test (reports_of ms) ≡ total)

    input-Left :
        (ms : List Msg) (s : State) (w : World Service)
        → Laws.IsValid s.1
        → Left ms w
        → Left ms (set_input s w)
    unfolding Left
    input-Left ms s w ok_pool left = left

    finished :
        (v : World Service) → Left [] v → count test v.user.log + waiting test v.user.queues ≡ total
    unfolding Left held reports_of count
    finished v left = omega (arith, left.1)

    module _ (router : Router)
        (routes : (msgid : ℕ)
          → route msgid router ≡ (
              if msgid == id_report_status_request
              then some (get_report_status, some none)
              else none)) where
      serve-Left :
          (mysql_real_connect : DbParams → Bool) (config : StrMap)
          (takes : (p : DbParams) → mysql_real_connect p ≡ true) (m : Msg) (ms : List Msg)
          (w : World Service)
          → Laws.IsValid w.pool
          → Left (m ∷ ms) w
          → Ends
              (serve mysql_real_connect (some config) router m.0 m.1 w)
              (λ v. (v.conn.in_buf ≡ w.conn.in_buf) × Laws.IsValid v.pool × Left ms v)
      unfolding serve handle Left
      serve-Left mysql_real_connect config takes m ms w ok_pool left =
          elim (Bool-cases (m.0 == id_report_status_request)) [
            | inl e ↦
                let found : route m.0 router ≡ some (get_report_status, some none) =
                  routes m.0
                  ∙ ap (λ b. if b then some (get_report_status, some none) else none) e in
                let more : count test (reports_of (m ∷ ms))
                    ≡ count test (statements (parse_report m.1)) + count test (reports_of ms) =
                  count-reports_of test m ms
                  ∙ ap
                      (λ b.
                        (if b then count test (statements (parse_report m.1)) else 0)
                        + count test (reports_of ms))
                      e in
                rw (found, serve)
                  (Ends->>=
                    (Report.get_report_status parse_report mysql_real_connect (some config) m.1
                      w.user)
                    _ _ _
                    (Ends_of_Returns
                      (Report.get_report_status parse_report mysql_real_connect (some config) m.1
                        w.user)
                      _
                      (get_report_status-held test parse_report mysql_real_connect config n m.1
                        w.user (takes (db_params report_host config)) left.0))
                    λ s k. (refl, ok_pool, (k.0, omega (arith, k.1, left.1, more))))
            | inr e ↦
                let found : route m.0 router ≡ none =
                  routes m.0
                  ∙ ap (λ b. if b then some (get_report_status, some none) else none) e in
                let same : count test (reports_of (m ∷ ms)) ≡ 0 + count test (reports_of ms) =
                  count-reports_of test m ms
                  ∙ ap
                      (λ b.
                        (if b then count test (statements (parse_report m.1)) else 0)
                        + count test (reports_of ms))
                      e in
                rw (found, serve) (refl, ok_pool, (left.0, omega (arith, left.1, same)))
          ]

begun :
    (parse_report : List ℕ → ReportStatusRequest) (test : Statement → Bool) (n : ℕ) (ms : List Msg)
    (w : World Service)
    → 0 < n
    → w.user ≡ record { queues = replicate n empty_queue; index = 0; log = [] }
    → Left parse_report test n (2 * count test (reports_of parse_report ms)) ms w
unfolding Left held count
begun parse_report test n ms w pos fresh =
    rw fresh ((length-replicate n empty_queue, pos), omega (arith, waiting-replicate test n))

-- The connection of a peer, with the service of the process that `main` has started.
abbrev pub serve_peer :
    List (List ℕ)
    → World Service
    → (List ℕ → ReportStatusRequest)
    → (DbParams → Bool)
    → (World Service → Result (World Service))
    → Running
    → Result (World Service)
serve_peer chunks w parse_report mysql_real_connect conn_close_cb r =
    read_all conn_close_cb
      (serve parse_report mysql_real_connect (some r.boot.config) r.statics.router) chunks
      (record w { user = r.service })

-- The report service, started by main on a file with any bytes whose assignments stand in sections
-- and make maxConn plus three and the positive numbers threadNum and db_thread_cnt numbers below
-- 2^31, takes every report off a new connection with an empty input buffer and a pool in order:
-- however the bytes of whole messages are cut into reads, of 1 to 8323072 bytes each, of the
-- statements that pass any given test those that have gone to the database and those that wait in
-- the queues of the threads are together twice those of the reports, and messages with another
-- identifier add none. The messages have a body of 1 to MESSAGE_LENGTH_LIMIT bytes. The socket can
-- be set up and the threads and their queues made, MySQL takes every connection, and no other
-- thread runs the handler meanwhile; the process may exit for want of memory instead.
pub main-stored :
    (parse_report : List ℕ → ReportStatusRequest) (test : Statement → Bool)
    (mysql_real_connect : DbParams → Bool) (conn_close_cb : World Service → Result (World Service))
    (text : Text) (log : List (Text × (Text × Text))) (fd : ℕ) (ms : List Msg)
    (chunks : List (List ℕ)) (w : World Service)
    → entry_log none (map directive (split_lines text)) ≡ some log
    → number_of log reactor max_conn text_1024 + 3 < 2 ^ 31
    → 0 < number_of log reactor thread_num text_3
    → number_of log reactor thread_num text_3 < 2 ^ 31
    → 0 < number_of log reporter db_thread_cnt text_3
    → number_of log reporter db_thread_cnt text_3 < 2 ^ 31
    → ((p : DbParams) → mysql_real_connect p ≡ true)
    → concat chunks ≡ stream ms []
    → All IsMessage ms
    → All IsChunk chunks
    → IsReady [] (input w)
    → Ends
        (main (some text) (works fd) makes_all
          >>= serve_peer chunks w parse_report mysql_real_connect conn_close_cb)
        (λ v.
          IsReady [] (input v)
          × (count test v.user.log + waiting test v.user.queues
              ≡ 2 * count test (reports_of parse_report ms)))
main-stored parse_report test mysql_real_connect conn_close_cb text log fd ms chunks w e few pos
      small some_threads few_threads takes cut vs hs ready =
    let n = number_of log reporter db_thread_cnt text_3 in
    let answers : Listening = works fd in
    Ends->>= (main (some text) answers makes_all)
      (serve_peer chunks w parse_report mysql_real_connect conn_close_cb) (Started log fd) _
      (Ends_of_Returns (main (some text) answers makes_all) (Started log fd)
        (main-Started text log fd e few pos small few_threads))
      λ r started.
        let total = 2 * count test (reports_of parse_report ms) in
        let x : World Service = record w { user = r.service } in
        Ends-map (serve_peer chunks w parse_report mysql_real_connect conn_close_cb r) _ _
          (λ v g. (g.0, finished parse_report test n total v g.1))
          (read_all-Serves conn_close_cb
            (serve parse_report mysql_real_connect (some r.boot.config) r.statics.router)
            (Left parse_report test n total) (input-Left parse_report test n total)
            (serve-Left parse_report test n total r.statics.router started.routes mysql_real_connect
              r.boot.config takes)
            ms chunks x cut vs hs (begun parse_report test n ms x some_threads started.fresh) ready)
