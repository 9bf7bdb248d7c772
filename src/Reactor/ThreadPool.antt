-- ===== src/Reactor/ThreadPool.antt =====
-- reactor/include/thread_pool.h, reactor/include/task_msg.h and reactor/src/thread_pool.cc: the
-- threads of the server, each with its queue. What a thread runs is thread_main.
pub mod Turns
pub mod Broadcast
pub mod Waking
use rins.Prelude.{
  ℕ, zero, suc, ◌+◌, ◌==◌, leb, if◌then◌else◌, List, [], ◌∷◌, get_elem?, set, Option, none, some,
  Result, ok, fault, exited, out_of_bounds, ◌>>=◌,
}
use rins.Prelude.Words.{is_negative}
use rins.Reactor.EventLoop.{EventLoop, init, add_task}
use rins.Reactor.Callback.{Callback, Task, deal_task_message as task_callback}
use rins.Reactor.ThreadQueue.{ThreadQueue, Making, make_queues, send, recv, set_callback}

pub data TaskMsg : Type 0 where
  new_conn : ℕ → TaskMsg
  new_task : Task → TaskMsg

pub record ThreadPool : Type 0 where
  pub queues : List (ThreadQueue TaskMsg)
  pub thread_cnt : ℕ
  pub index : ℕ

-- `thread_pool::thread_pool`
unfoldable pub new_thread_pool : ℕ → Making → Result ThreadPool
new_thread_pool zero answers = fault exited
new_thread_pool (suc n) answers =
    let made = make_queues (suc n) 0 answers in
    if is_negative (suc n)
    then fault exited
    else (do queues ← made; ok (record { queues = queues; thread_cnt = suc n; index = 0 }))

-- `thread_pool::get_thread`: the index of the queue.
unfoldable pub get_thread : ThreadPool → ℕ × ThreadPool
get_thread p =
    let i = if p.index == p.thread_cnt then 0 else p.index in (i, record p { index = i + 1 })

-- `_queues[i]->send(task)`
unfoldable pub send_to : ℕ → TaskMsg → ThreadPool → Result ThreadPool
send_to i task p = elim (get_elem? p.queues i) [
  | none ↦ fault out_of_bounds
  | some q ↦ ok (record p { queues = set p.queues i (send task q) })
]

-- The loop of `send_task`, from the queue `i` on, with the number of queues that are left.
unfoldable pub send_from : ℕ → ℕ → TaskMsg → ThreadPool → Result ThreadPool
send_from zero i task p = ok p
send_from (suc left) i task p = do q ← send_to i task p; send_from left (i + 1) task q

-- `thread_pool::send_task`
unfoldable pub send_task : Task → ThreadPool → Result ThreadPool
send_task func p = send_from p.thread_cnt 0 (new_task func) p

module _ {W : Type 0}
    (new_tcp_conn : ℕ → EventLoop Callback Task × W → Result (EventLoop Callback Task × W)) where
  -- The loop of `deal_task_message`; `new_tcp_conn` constructs a connection.
  unfoldable pub deal_all :
      List TaskMsg → EventLoop Callback Task × W → Result (EventLoop Callback Task × W)
  deal_all [] s = ok s
  deal_all (new_conn connfd ∷ tasks) s = do t ← new_tcp_conn connfd s; deal_all tasks t
  deal_all (new_task func ∷ tasks) (loop, w) = deal_all tasks (add_task func loop, w)

  -- `deal_task_message`, with the queue of the thread.
  unfoldable pub deal_task_message :
      ThreadQueue TaskMsg
      → EventLoop Callback Task × W
      → Result (ThreadQueue TaskMsg × (EventLoop Callback Task × W))
  deal_task_message q s = do let (tasks, q') = recv [] q; t ← deal_all tasks s; ok (q', t)

-- `thread_main` up to its loop: the queue with the descriptor `evfd` wakes the thread's new loop.
unfoldable pub thread_main : ℕ → Option (EventLoop Callback Task)
thread_main evfd = set_callback evfd task_callback (some init)
