-- ===== src/Reactor/EndpointTests.antt =====
-- The theorems on datagrams, threads, servers and clients at concrete inputs.
use rins.Prelude.{
  map, ℕ, ◌>>=◌, ◌≡◌, refl, List, [], ◌∷◌, ◌++◌, replicate, true, false, none, some, Result, ok,
  Returns, arith,
}
use rins.Reactor.Memory.{blank, blit, window}
use rins.Reactor.IoBuf.{IoBuf}
use rins.Reactor.IoBuf.Laws.{Holds}
use rins.Prelude.Maps.{find, put}
use rins.Reactor.EventLoop
use rins.Reactor.EventLoop.{
  EventLoop, epollin, add_io_event, event_process, registered, set_callback, event_at, init,
  run_all,
}
use rins.Reactor.Message.{head_bytes}
use rins.Reactor.Udp.{packet, server_do_read}
use rins.Reactor.Udp.Packets.{datagram, server_do_read-datagram}
use rins.Reactor.ThreadQueue.{ThreadQueue, empty_queue, new_thread_queue, send, adds_one, reads_all}
use rins.Reactor.ThreadQueue.Delivery
use rins.Reactor.ThreadQueue.Delivery.{
  Op as QueueOp, sends, receives, is_readable, has_some, run-new_thread_queue,
}
use rins.Reactor.ThreadPool.{ThreadPool, TaskMsg, new_conn, new_task, send_task}
use rins.Reactor.ThreadPool.Waking.{
  Loop, thread_call, construct, woken, tasks_of, event_process-woken,
}
use rins.Reactor.ThreadPool.Broadcast.{send_task-map}
use rins.Reactor.Callback.{
  Callback, Task, conn_rd_callback, push_change_task, deal_task_message as task_callback,
}
use rins.Reactor.TcpClient
use rins.Reactor.TcpClient.{TcpClient}
use rins.Reactor.TcpClient.Send
use rins.Reactor.TcpConn.Framing.{Msg}

-- A block with four bytes in it.
abbrev four : IoBuf
four = record { capacity = 4096; len = 4; head = 0; block = blank }

abbrev note_packet : ℕ → List ℕ → List Msg → Result (List Msg)
note_packet id body ms = ok (ms ++ ((id, body) ∷ []))

server_do_read-datagram_example :
    server_do_read note_packet (packet (datagram 2 (7 ∷ [])) ∷ []) blank [] ≡ (
      note_packet 2 (7 ∷ []) []
      >>= server_do_read note_packet [] (blit blank 0 (datagram 2 (7 ∷ []))))
server_do_read-datagram_example =
    server_do_read-datagram note_packet 2 (7 ∷ []) [] blank [] (omega arith) (omega arith)

abbrev operations : List (QueueOp ℕ)
operations = sends 1 ∷ sends 2 ∷ receives ∷ sends 3 ∷ []

abbrev made : ThreadQueue ℕ
made = empty_queue

run-new_thread_queue_example :
    let (received, q) = Delivery.run operations made in
    (received ++ q.queue ≡ 1 ∷ 2 ∷ 3 ∷ []) × (is_readable q.evfd ≡ has_some q.queue)
unfolding new_thread_queue
run-new_thread_queue_example = run-new_thread_queue operations true made refl

abbrev three_threads : ThreadPool
three_threads = record { queues = replicate 3 empty_queue; thread_cnt = 3; index = 0 }

-- A client that has just connected.
abbrev client : TcpClient
client = record {
  sockfd = 6;
  connected = true;
  in_buf = record four { capacity = 4194304; len = 0 };
  out_buf = record four { capacity = 4194304; len = 0 };
  loop = EventLoop.init;
}

empty_out_buf : Holds 4194304 [] client.out_buf
unfolding window
empty_out_buf = record { bytes = refl; front = refl; count = refl; size = refl; room = omega arith }

send_message-Sent_example :
    Returns
      (TcpClient.send_message (7 ∷ []) 2 client)
      (TcpClient.Send.Sent true 4194304 (2 ∷ 0 ∷ 0 ∷ 0 ∷ 1 ∷ 0 ∷ 0 ∷ 0 ∷ 7 ∷ []) client)
unfolding head_bytes
send_message-Sent_example =
    TcpClient.Send.send_message-Sent 4194304 [] (7 ∷ []) 2 client empty_out_buf

send_task-map_example :
    send_task push_change_task three_threads
    ≡ ok (record three_threads {
      queues = map (send (new_task push_change_task)) three_threads.queues;
    })
send_task-map_example = send_task-map push_change_task three_threads refl

-- A thread whose queue has the descriptor 5, and which keeps the connections and tasks it sees.
abbrev Seen : Type 0
Seen = List ℕ

abbrev keep_conn : ℕ → Loop × Seen → Result (Loop × Seen)
keep_conn connfd (l, seen) =
    ok (add_io_event true connfd conn_rd_callback epollin l, seen ++ (connfd ∷ []))

abbrev keep_task :
    Task → Loop × (ThreadQueue TaskMsg × Seen) → Result (Loop × (ThreadQueue TaskMsg × Seen))
keep_task func (l, (q, seen)) = ok (l, (q, seen ++ (99 ∷ [])))

abbrev no_others :
    Callback
    → ℕ
    → Loop × (ThreadQueue TaskMsg × Seen)
    → Result (Loop × (ThreadQueue TaskMsg × Seen))
no_others proc fd s = ok s

abbrev awake : Loop
awake = add_io_event true 5 task_callback epollin EventLoop.init

abbrev task_and_conn : ThreadQueue TaskMsg
task_and_conn = send (new_conn 7) (send (new_task push_change_task) empty_queue)

event_process-woken_example :
    event_process
      (thread_call keep_conn no_others)
      keep_task
      ((record { fd = 5; ev_in = true; ev_out = false; ev_hup = false } ∷ []) ∷ [])
      (awake, (task_and_conn, []))
    ≡ ok (
      add_io_event true 7 conn_rd_callback epollin awake,
      (record { queue = []; evfd = reads_all ∷ adds_one ∷ adds_one ∷ [] }, 7 ∷ 99 ∷ []),
    )
unfolding add_io_event send construct woken find put init empty_queue run_all tasks_of
event_process-woken_example =
    event_process-woken keep_conn (λ connfd funcs s. refl) keep_task no_others
      (record { fd = 5; ev_in = true; ev_out = false; ev_hup = false })
      (record { mask = epollin; read_callback = some task_callback; write_callback = none })
      task_and_conn awake [] refl refl refl
