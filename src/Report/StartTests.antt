-- ===== src/Report/StartTests.antt =====
-- The theorem on the start of the report service at a concrete configuration.
use rins.Prelude.{
  ℕ, ◌≡◌, refl, List, [], ◌∷◌, none, some, Bool, true, false, ◌+◌, Result, ok, ◌>>=◌, Ends, arith,
}
use rins.Reactor.Text.{
  Text, text_eq, is_space, first_not_empty, trim_left, last_not_empty, trim_right, trim, index_of,
}
use rins.Reactor.ConfigFile.{
  is_at, is_section, split_lines, add_first, parse_number, read_signed, read_digits,
}
use rins.Reactor.ConfigFile.Log.{opens, sets, directive, entry_directive, entry_log, last_value}
use rins.Reactor.ConfigFile.Lines.{print, print_directive}
use rins.Protocol.{ReportStatusRequest}
use rins.Report.{Service, Statement, statement, reporter, db_thread_cnt}
use rins.Report.Storing.{count, waiting}
use rins.Database.{DbParams}
use rins.Reactor.ThreadQueue.{makes_all}
use rins.Reactor.TcpServer.Start.{works}
use rins.Report.Start.{main}
use rins.Report.Wire.{reports_of, serve_peer, main-stored}
use rins.Reactor.BufPool
use rins.Reactor.BufPool.History.{init-IsValid}
use rins.Reactor.EventLoop
use rins.Reactor.ConnTable.{new_table}
use rins.Reactor.ReactorBuf.Room.{IsReady}
use rins.Reactor.Message.{head_bytes}
use rins.Reactor.TcpConn.{World}
use rins.Reactor.TcpConn.Framing.{Msg}

-- Two threads
abbrev text : Text
unfolding print print_directive
text = print (opens reporter ∷ sets db_thread_cnt (b'2' ∷ []) ∷ [])

abbrev log : List (Text × (Text × Text))
log = (reporter, (db_thread_cnt, b'2' ∷ [])) ∷ []

-- A request with one result
abbrev parse_any : List ℕ → ReportStatusRequest
parse_any bytes = record {
  modid = 1;
  cmdid = 2;
  caller = 3;
  results = record { ip = 7; port = 80; succ = 1; err = 0; overload = false } ∷ [];
  timestamp = 4;
}

abbrev every : Statement → Bool
every st = true

-- A connection with nothing in its buffers
abbrev peer : World Service
peer = record {
  conn = record { connfd = 5; in_buf = none; out_buf = none };
  pool = BufPool.init;
  loop = EventLoop.init;
  table = new_table 10;
  user = record { queues = []; index = 0; log = [] };
}

-- A report, and a message that has no handler
abbrev messages : List Msg
messages = (3, 7 ∷ []) ∷ (9, 8 ∷ []) ∷ []

abbrev chunks : List (List ℕ)
chunks = (3 ∷ 0 ∷ 0 ∷ 0 ∷ 1 ∷ 0 ∷ []) ∷ (0 ∷ 0 ∷ 7 ∷ 9 ∷ 0 ∷ 0 ∷ 0 ∷ 1 ∷ 0 ∷ 0 ∷ 0 ∷ 8 ∷ []) ∷ []

abbrev keep : World Service → Result (World Service)
keep w = ok w

-- MySQL takes every connection.
abbrev takes_all : DbParams → Bool
takes_all p = true

main-stored_example :
    Ends
      (main (some text) (works 4) makes_all >>= serve_peer chunks peer parse_any takes_all keep)
      (λ v.
        IsReady [] (v.conn.in_buf, v.pool)
        × (count every v.user.log + waiting every v.user.queues ≡ 2))
unfolding entry_log last_value directive entry_directive is_section is_at split_lines add_first text
    text_eq is_space first_not_empty trim_left last_not_empty trim_right trim index_of parse_number
    read_signed read_digits reports_of count statement head_bytes
main-stored_example =
    main-stored parse_any every takes_all keep text log 4 messages chunks peer refl (omega arith)
      (omega arith) (omega arith) (omega arith) (omega arith) (λ p. refl) refl (omega arith)
      (omega arith) (record { held = refl; pool = init-IsValid })
