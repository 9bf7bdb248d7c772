-- ===== src/Reactor/Tests.antt =====
-- The reactor's theorems at concrete inputs.
use rins.Prelude.{
  ℕ, ◌≡◌, refl, List, [], ◌∷◌, ◌++◌, replicate, none, some, true, false, Result, ok, assertion,
  out_of_bounds, Ends, FailsWith, arith,
}
use rins.Prelude.Maps.{find, put}
use rins.Reactor.Memory.{blank, window}
use rins.Reactor.IoBuf.{IoBuf}
use rins.Reactor.BufPool.{init, class_of, alloc_buf}
use rins.Reactor.BufPool.Laws.{Granted, alloc_buf-Granted, alloc_buf-revert}
use rins.Reactor.BufPool.Laws
use rins.Reactor.BufPool.History.{allocates, reverts, run, init-IsValid, run-init-IsValid}
use rins.Reactor.ReactorBuf.{interrupted, returned, got, retry, read_data, send_data}
use rins.Reactor.ReactorBuf.Room.{IsReady}
use rins.Reactor.ReactorBuf.Input.{HasRead, read_data-HasRead}
use rins.Reactor.ReactorBuf.Output.{send_data-IsReady}
use rins.Reactor.EventLoop
use rins.Reactor.EventLoop.{EventLoop, Fired, calls, action_of}
use rins.Reactor.EventLoop.Agreement.{
  AgreesAt, Op, reads, writes, drops, init-AgreesAt, run-AgreesAt, action_of-calls, kernel,
}
use rins.Reactor.EventLoop.Agreement
use rins.Reactor.Callback.{Callback, Task, conn_rd_callback, conn_wt_callback}
use rins.Reactor.Message.{head_bytes}
use rins.Reactor.ConnTable.{new_table}
use rins.Reactor.TcpConn.{World, do_read, send_message}
use rins.Reactor.TcpConn.Stream.{read_all}
use rins.Reactor.TcpConn.Framing.{Msg}
use rins.Reactor.TcpConn.Recording.{read_all-stream}
use rins.Reactor.TcpConn.Failures.{do_read_empty_body}
use rins.Reactor.TcpConn.Send.{Queued, send_message-Queued, send_message-Overruns}

-- A connection with nothing in its buffers; the handlers keep a list of what they get.
abbrev fresh : World (List Msg)
fresh = record {
  conn = record { connfd = 5; in_buf = none; out_buf = none };
  pool = init;
  loop = EventLoop.init;
  table = new_table 10;
  user = [];
}

abbrev keep : World (List Msg) → Result (World (List Msg))
keep w = ok w

abbrev note : ℕ → List ℕ → World (List Msg) → Result (World (List Msg))
note id body w = ok (record w { user = w.user ++ ((id, body) ∷ []) })

nothing_held : IsReady [] (none, init)
nothing_held = record { held = refl; pool = init-IsValid }

-- A block with four bytes in it.
abbrev four : IoBuf
four = record { capacity = 4096; len = 4; head = 0; block = blank }

four-IsReady : IsReady (0 ∷ 0 ∷ 0 ∷ 0 ∷ []) (some four, init)
unfolding window class_of
four-IsReady = record {
  held = (
    record { bytes = refl; front = refl; count = refl; size = refl; room = omega arith },
    (5, refl),
  );
  pool = init-IsValid;
}

small_class : class_of 5 ≡ some 4096
unfolding class_of
small_class = refl

run-init-IsValid_example :
    Ends (run (allocates 100 ∷ reverts 5 four small_class ∷ []) init) Laws.IsValid
run-init-IsValid_example = run-init-IsValid (allocates 100 ∷ reverts 5 four small_class ∷ [])

alloc_buf-Granted_example : Ends (alloc_buf 100 init) (λ r. Granted 100 r.0 × Laws.IsValid r.1)
alloc_buf-Granted_example = alloc_buf-Granted 100 init init-IsValid

read_data-HasRead_example :
    Ends
      (read_data (some 2) (interrupted (returned (got (7 ∷ 8 ∷ [])))) (some four, init))
      (HasRead (0 ∷ 0 ∷ 0 ∷ 0 ∷ []) (7 ∷ 8 ∷ []))
unfolding retry
read_data-HasRead_example =
    read_data-HasRead (0 ∷ 0 ∷ 0 ∷ 0 ∷ []) (7 ∷ 8 ∷ []) (interrupted (returned (got (7 ∷ 8 ∷ []))))
      (some four, init) refl four-IsReady

send_data-IsReady_example :
    Ends
      (send_data (7 ∷ 8 ∷ []) (some four, init))
      (λ r. (r.0 ≡ true) × IsReady (0 ∷ 0 ∷ 0 ∷ 0 ∷ 7 ∷ 8 ∷ []) r.1)
send_data-IsReady_example =
    send_data-IsReady (0 ∷ 0 ∷ 0 ∷ 0 ∷ []) (7 ∷ 8 ∷ []) (some four, init) four-IsReady (omega arith)

abbrev two_messages : List Msg
two_messages = (1, 7 ∷ []) ∷ (2, 8 ∷ 9 ∷ []) ∷ []

abbrev cut_head : List ℕ
cut_head = 1 ∷ 0 ∷ 0 ∷ []

abbrev wire : List ℕ
wire = 1 ∷ 0 ∷ 0 ∷ 0 ∷ 1 ∷ 0 ∷ 0 ∷ 0 ∷ 7 ∷ 2 ∷ 0 ∷ 0 ∷ 0 ∷ 2 ∷ 0 ∷ 0 ∷ 0 ∷ 8 ∷ 9 ∷ cut_head

do_read_empty_body_example :
    FailsWith assertion (
      do_read keep note
        (some 8)
        (returned (got (head_bytes (record { id = 1; length = 0 }))))
        fresh)
unfolding retry
do_read_empty_body_example =
    do_read_empty_body keep note (λ id body w. refl) 1
      (returned (got (head_bytes (record { id = 1; length = 0 })))) fresh (omega arith) refl
      nothing_held

send_message-Queued_example :
    Ends (send_message (7 ∷ []) 2 fresh) (Queued fresh (2 ∷ 0 ∷ 0 ∷ 0 ∷ 1 ∷ 0 ∷ 0 ∷ 0 ∷ 7 ∷ []))
unfolding head_bytes
send_message-Queued_example = send_message-Queued [] (7 ∷ []) 2 fresh nothing_held (omega arith)

abbrev large_body : List ℕ
large_body = replicate 4090 1

send_message-Overruns_example : FailsWith out_of_bounds (send_message large_body 2 fresh)
unfolding class_of
send_message-Overruns_example =
    send_message-Overruns large_body 2 4096 fresh refl init-IsValid (omega arith) refl (omega arith)

abbrev script : List (Op Callback)
script = reads 5 conn_rd_callback ∷ writes 5 conn_wt_callback ∷ drops 5 EventLoop.epollout ∷ []

run-AgreesAt_example : AgreesAt 5 (Agreement.run script (EventLoop.init {C = Callback} {T = Task}))
run-AgreesAt_example =
    run-AgreesAt 5 script (EventLoop.init {C = Callback} {T = Task}) (init-AgreesAt 5)

action_of-calls_example :
    (proc : Callback) × (action_of
        (record { fd = 5; ev_in = true; ev_out = false; ev_hup = false })
        (Agreement.run script (EventLoop.init {C = Callback} {T = Task}))
      ≡ ok (calls proc))
unfolding kernel Agreement.run Agreement.apply EventLoop.init EventLoop.add_io_event
    EventLoop.del_io_mask find put
action_of-calls_example =
    action_of-calls (record { fd = 5; ev_in = true; ev_out = false; ev_hup = false })
      (Agreement.run script (EventLoop.init {C = Callback} {T = Task})) run-AgreesAt_example
      (refl, refl, refl)

-- The two messages in three reads, which cut a head and a body.
abbrev three_reads : List (List ℕ)
three_reads =
    (1 ∷ 0 ∷ 0 ∷ 0 ∷ 1 ∷ [])
    ∷ (0 ∷ 0 ∷ 0 ∷ 7 ∷ 2 ∷ 0 ∷ 0 ∷ 0 ∷ 2 ∷ 0 ∷ 0 ∷ 0 ∷ 8 ∷ [])
    ∷ (9 ∷ [])
    ∷ []

read_all-stream_example :
    Ends
      (read_all keep note three_reads fresh)
      (λ v. IsReady [] (v.conn.in_buf, v.pool) × (v.user ≡ two_messages))
unfolding head_bytes
read_all-stream_example =
    read_all-stream keep note (λ u. u) (λ id body w v. (refl, v, refl)) two_messages three_reads
      fresh refl (omega arith) (omega arith) nothing_held
