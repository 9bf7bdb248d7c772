-- ===== src/Reactor/ThreadQueue.antt =====
-- reactor/include/thread_queue.h: a queue between threads with its eventfd. The mutex makes each
-- call one step. What is done with the eventfd is a log, the last call first; the results of these
-- calls are only printed.
pub mod Delivery
use rins.Prelude.{
  ℕ, zero, suc, ◌+◌, ◌≡◌, refl, List, [], ◌∷◌, ◌++◌, replicate, Option, none, some, Bool, true,
  Result, ok, exited, check, ◌>>=◌, ◌>>◌,
}
use rins.Reactor.EventLoop.{EventLoop, epollin, add_io_event}

-- A `write` that adds 1 to the counter, or a `read`.
pub data Signal : Type 0 where
  adds_one reads_all : Signal

pub record ThreadQueue (A : Type 0) : Type 0 where
  pub queue : List A
  pub evfd : List Signal

-- Which calls of `eventfd` and of `pthread_create` answer something else than -1, by the index of
-- the queue
pub record Making : Type 0 where
  pub eventfd : ℕ → Bool
  pub creates : ℕ → Bool

abbrev pub makes_all : Making
makes_all = record { eventfd = λ i. true; creates = λ i. true }

module _ {A : Type 0} where
  -- A queue that has just been made
  unfoldable pub empty_queue : ThreadQueue A
  empty_queue = record { queue = []; evfd = [] }

  -- `thread_queue::thread_queue`; `made` tells whether `eventfd` answers something else than -1.
  unfoldable pub new_thread_queue : Bool → Result (ThreadQueue A)
  unfolding empty_queue
  new_thread_queue made = do check made exited; ok empty_queue

  -- A loop that makes a queue and a thread for it in each round, from the index `i` on, with the
  -- number of rounds that are left.
  unfoldable pub make_queues : ℕ → ℕ → Making → Result (List (ThreadQueue A))
  make_queues zero i answers = ok []
  make_queues (suc left) i answers = do
    q ← new_thread_queue (answers.eventfd i)
    check (answers.creates i) exited
    rest ← make_queues left (i + 1) answers
    ok (q ∷ rest)

  make_queues_from : (left i : ℕ) → make_queues left i makes_all ≡ ok (replicate left empty_queue)
  unfolding make_queues new_thread_queue
  make_queues_from zero i = refl
  make_queues_from (suc left) i = rw (make_queues_from left (i + 1)) refl

  -- All queues are made if no call fails.
  pub make_queues_lem : (n : ℕ) → make_queues n 0 makes_all ≡ ok (replicate n empty_queue)
  make_queues_lem n = make_queues_from n 0

  -- `thread_queue::send`
  unfoldable pub send : A → ThreadQueue A → ThreadQueue A
  send task q = record { queue = q.queue ++ (task ∷ []); evfd = adds_one ∷ q.evfd }

  -- `thread_queue::recv`: the two queues change places.
  unfoldable pub recv : List A → ThreadQueue A → List A × ThreadQueue A
  recv new_queue q = (q.queue, record { queue = new_queue; evfd = reads_all ∷ q.evfd })

-- `thread_queue::set_callback` of a queue with the descriptor `fd`, where `set_loop` has given it a
-- loop or not.
unfoldable pub set_callback :
    {C T : Type 0} → ℕ → C → Option (EventLoop C T) → Option (EventLoop C T)
set_callback fd cb none = none
set_callback fd cb (some l) = some (add_io_event true fd cb epollin l)
