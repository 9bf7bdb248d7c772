-- ===== src/Report/Start.antt =====
-- The start of the report service: `main` of report/src/reporter_service.cc and `store_main` of
-- report/include/store_thread.h. Whether the database answers a connection is an argument.
use rins.Prelude.{
  ℕ, ◌+◌, ◌^◌, ◌<◌, ◌≡◌, refl, sym, ap, ◌∙◌, ◌==◌, if◌then◌else◌, List, [], ◌∷◌, map, Option, none,
  some, Bool, Result, ok, ◌>>=◌, Returns, Returns->>=, subst, replicate, false, arith,
}
use rins.Prelude.Maps.{find, put}
use rins.Reactor.Text.{Text, first_not_empty, is_space}
use rins.Reactor.ConfigFile.{
  StrMap, split_lines, get_number, parse_number, read_signed, read_digits,
}
use rins.Reactor.ConfigFile.Log.{directive, entry_log}
use rins.Reactor.EventLoop.{EventLoop, init}
use rins.Reactor.Callback.{Callback, Task, thread_report as report_callback}
use rins.Prelude.Words.{is_negative}
use rins.Reactor.ThreadQueue.{set_callback, empty_queue, Making, makes_all, make_queues_lem}
use rins.Reactor.Message.{route, no_routes, register_msg_router}
use rins.Reactor.TcpServer.Start.{Listening, works, reactor, max_conn, thread_num}
use rins.Reactor.TcpServer.Boot.{
  Boot, boot, Booted, boot-Booted, Statics, new_statics, add_msg_router, number_of, Gives-number,
  text_3, text_1024, parse_defaults,
}
use rins.Database.{DbParams, store_report}
use rins.Protocol.{id_report_status_request, ReportStatusRequest}
use rins.Report.{Service, reporter, db_thread_cnt, create_reportdb_thread}

-- The handlers that `main` registers.
pub data Handler : Type 0 where
  get_report_status : Handler

-- The process before its loop.
pub record Running : Type 0 where
  pub boot : Boot
  pub statics : Statics Handler (Unit {0})
  pub service : Service

-- `main`: the contents of the file of the configuration, and what the calls on the socket and those
-- for the threads of the database answer.
unfoldable pub main : Option Text → Listening → Making → Result Running
main file answers making = do
  b ← boot 7779 file answers
  s ← create_reportdb_thread making b.config
  ok (record {
    boot = b;
    statics = add_msg_router id_report_status_request get_report_status new_statics;
    service = s;
  })

-- `store_main` up to its loop, with the queue that has the descriptor `evfd`.
unfoldable pub store_main :
    (DbParams → Bool) → Option StrMap → ℕ → Result (Option (EventLoop Callback Task))
store_main mysql_real_connect config evfd = do
  p ← store_report mysql_real_connect config
  ok (set_callback evfd report_callback (some init))

abbrev pub text_7779 : Text
text_7779 = b'7' ∷ b'7' ∷ b'7' ∷ b'9' ∷ []

parse_7779 : parse_number text_7779 ≡ 7779
unfolding parse_number read_signed read_digits first_not_empty is_space
parse_7779 = refl

-- The only route is that of the reports.
routes :
    (msgid : ℕ)
    → route msgid
        (add_msg_router {C = Unit {0}} id_report_status_request get_report_status
          new_statics).router
      ≡ (if msgid == id_report_status_request then some (get_report_status, some none) else none)
unfolding add_msg_router new_statics route register_msg_router no_routes find put
routes msgid = ground arith

-- The service that a file starts: its server, its only route, and its empty queues.
pub record Started (log : List (Text × (Text × Text))) (fd : ℕ) (r : Running) : Type 0 where
  pub booted : Booted log text_7779 fd r.boot
  pub routes :
      (msgid : ℕ)
      → route msgid r.statics.router
        ≡ (if msgid == id_report_status_request then some (get_report_status, some none) else none)
  pub fresh : r.service ≡ record {
    queues = replicate (number_of log reporter db_thread_cnt text_3) empty_queue;
    index = 0;
    log = [];
  }

pub main-Started :
    (text : Text) (log : List (Text × (Text × Text))) (fd : ℕ)
    → entry_log none (map directive (split_lines text)) ≡ some log
    → number_of log reactor max_conn text_1024 + 3 < 2 ^ 31
    → 0 < number_of log reactor thread_num text_3
    → number_of log reactor thread_num text_3 < 2 ^ 31
    → number_of log reporter db_thread_cnt text_3 < 2 ^ 31
    → Returns (main (some text) (works fd) makes_all) (Started log fd)
unfolding main create_reportdb_thread
main-Started text log fd e few pos small few_threads =
    let answers : Listening = works fd in
    let n = number_of log reporter db_thread_cnt text_3 in
    let plus : is_negative n ≡ false = ground (arith, few_threads) in
    Returns->>= (boot 7779 (some text) answers) _ (Booted log text_7779 fd) (Started log fd)
      (subst (λ k. Returns (boot k (some text) answers) (Booted log text_7779 fd)) parse_7779
        (boot-Booted text log text_7779 fd e few pos small))
      λ b booted.
        let cnt : get_number reporter db_thread_cnt 3 b.config ≡ n =
          sym (ap (λ k. get_number reporter db_thread_cnt k b.config) parse_defaults.0)
          ∙ Gives-number reporter db_thread_cnt text_3 log b.config booted.gives in
        rw (cnt, plus, make_queues_lem {A = ReportStatusRequest} n)
          (record { booted = booted; routes = routes; fresh = refl })
