-- ===== src/Reactor/ThreadPool/Waking.antt =====
-- A thread of the server that its queue wakes: from the event to the tasks that have run.
use rins.Prelude.{
  ℕ, ◌≡◌, refl, sym, ap, ◌∙◌, List, [], ◌∷◌, ◌++◌, append_assoc, append-nil, some, true, Result, ok,
  fault, ◌>>=◌,
}
use rins.Prelude.Maps.{find}
use rins.Reactor.EventLoop.{
  EventLoop, IoEvent, Fired, calls, add_task, call_of, action_of, perform, dispatch, run_all,
  execute_ready_task, event_process,
}
use rins.Reactor.Callback.{Callback, Task, deal_task_message as task_callback}
use rins.Reactor.ThreadQueue.{ThreadQueue, reads_all, recv}
use rins.Reactor.ThreadPool.{TaskMsg, new_conn, new_task, deal_all, deal_task_message}

abbrev pub Loop : Type 0
Loop = EventLoop Callback Task

-- The tasks among the messages
unfoldable pub tasks_of : List TaskMsg → List Task
tasks_of [] = []
tasks_of (new_conn connfd ∷ ms) = tasks_of ms
tasks_of (new_task func ∷ ms) = func ∷ tasks_of ms

then_each :
    {A B D : Type 0} (m : Result A) (f : A → Result D) (g : A → Result B) (h : B → Result D)
    → ((a : A) → f a ≡ (g a >>= h))
    → (m >>= f) ≡ (m >>= g >>= h)
then_each (fault e) f g h same = refl
then_each (ok a) f g h same = same a

>>=-ok : {A : Type 0} (m : Result A) → (m >>= λ a. ok a) ≡ m
>>=-ok (fault e) = refl
>>=-ok (ok a) = refl

>>=-values :
    {A B D E : Type 0} (m : Result A) (f : A → B) (g : B → D) (h : D → E)
    → (((m >>= λ a. ok (f a)) >>= λ b. ok (g b)) >>= (λ d. ok (h d)) >>= λ e. ok e)
      ≡ (m >>= λ a. ok (h (g (f a))))
>>=-values (fault e) f g h = refl
>>=-values (ok a) f g h = refl

action_of-calls :
    (f : Fired) (ev : IoEvent Callback) (l : Loop)
    → find f.fd l.io_evs ≡ some ev
    → ev.read_callback ≡ some task_callback
    → f.ev_in ≡ true
    → action_of f l ≡ ok (calls task_callback)
unfolding action_of call_of
action_of-calls f ev l e reads fired = rw (e, action_of) (rw (fired, reads, call_of) refl)

module _ {W : Type 0} where
  -- The loop with more tasks at the end of `_read_tasks`
  abbrev pub later : List Task → Loop × W → Loop × W
  later funcs (l, w) = (record l { tasks = l.tasks ++ funcs }, w)

  later-nil : (s : Loop × W) → later [] s ≡ s
  later-nil (l, w) = ap (λ ts. (record l { tasks = ts }, w)) (append-nil l.tasks)

  later-later : (fs gs : List Task) (s : Loop × W) → later gs (later fs s) ≡ later (fs ++ gs) s
  later-later fs gs (l, w) = ap (λ ts. (record l { tasks = ts }, w)) (append_assoc l.tasks fs gs)

  module _ (new_tcp_conn : ℕ → Loop × W → Result (Loop × W)) where
    -- The connections among the messages, constructed in order
    unfoldable pub construct : List TaskMsg → Loop × W → Result (Loop × W)
    construct [] s = ok s
    construct (new_conn connfd ∷ ms) s = do t ← new_tcp_conn connfd s; construct ms t
    construct (new_task func ∷ ms) s = construct ms s

    -- The callbacks of a thread's loop: its queue's own, and the others.
    unfoldable pub thread_call :
        (Callback
          → ℕ
          → Loop × (ThreadQueue TaskMsg × W)
          → Result (Loop × (ThreadQueue TaskMsg × W)))
        → Callback
        → ℕ
        → Loop × (ThreadQueue TaskMsg × W)
        → Result (Loop × (ThreadQueue TaskMsg × W))
    thread_call others task_callback fd (l, (q, w)) = do
      t ← deal_task_message new_tcp_conn q (l, w)
      ok (t.1.0, (t.0, t.1.1))
    thread_call others proc fd s = others proc fd s

    -- What a thread does when its queue wakes it: the connections in order, and then all tasks.
    unfoldable pub woken :
        (Task → Loop × (ThreadQueue TaskMsg × W) → Result (Loop × (ThreadQueue TaskMsg × W)))
        → ThreadQueue TaskMsg
        → Loop × W
        → Result (Loop × (ThreadQueue TaskMsg × W))
    woken run q s = do
      t ← construct q.queue s
      let all = later (tasks_of q.queue) t
      u ← run_all run all.0.tasks (all.0, (record { queue = []; evfd = reads_all ∷ q.evfd }, t.1))
      ok (record u.0 { tasks = [] }, u.1)

    module _
        (apart : (connfd : ℕ) (funcs : List Task) (s : Loop × W)
          → new_tcp_conn connfd (later funcs s)
            ≡ (new_tcp_conn connfd s >>= λ t. ok (later funcs t))) where
      construct-later :
          (ms : List TaskMsg) (funcs : List Task) (s : Loop × W)
          → construct ms (later funcs s) ≡ (construct ms s >>= λ t. ok (later funcs t))
      unfolding construct
      construct-later [] funcs s = refl
      construct-later (new_conn connfd ∷ ms) funcs s =
          ap (λ m. m >>= construct ms) (apart connfd funcs s)
          ∙ sym (
              then_each (new_tcp_conn connfd s) (λ t. construct ms (later funcs t))
                (λ t. ok (later funcs t)) (construct ms) (λ t. refl))
          ∙ then_each (new_tcp_conn connfd s) (λ t. construct ms (later funcs t)) (construct ms)
              (λ t. ok (later funcs t)) (λ t. construct-later ms funcs t)
      construct-later (new_task func ∷ ms) funcs s = construct-later ms funcs s

      deal_all-construct :
          (ms : List TaskMsg) (s : Loop × W)
          → deal_all new_tcp_conn ms s ≡ (construct ms s >>= λ t. ok (later (tasks_of ms) t))
      unfolding deal_all construct tasks_of add_task
      deal_all-construct [] s = ap ok (sym (later-nil s))
      deal_all-construct (new_conn connfd ∷ ms) s =
          then_each (new_tcp_conn connfd s) (deal_all new_tcp_conn ms) (construct ms)
            (λ t. ok (later (tasks_of ms) t)) (λ t. deal_all-construct ms t)
      deal_all-construct (new_task func ∷ ms) s =
          deal_all-construct ms (later (func ∷ []) s)
          ∙ ap (λ m. m >>= λ t. ok (later (tasks_of ms) t)) (construct-later ms (func ∷ []) s)
          ∙ sym (
              then_each (construct ms s) (λ t. ok (later (func ∷ tasks_of ms) t))
                (λ t. ok (later (func ∷ []) t)) (λ t. ok (later (tasks_of ms) t))
                (λ t. ap ok (sym (later-later (func ∷ []) (tasks_of ms) t))))

      module _
          (run : Task
            → Loop × (ThreadQueue TaskMsg × W)
            → Result (Loop × (ThreadQueue TaskMsg × W)))
          (others : Callback
            → ℕ
            → Loop × (ThreadQueue TaskMsg × W)
            → Result (Loop × (ThreadQueue TaskMsg × W))) where
        dispatch_woken :
            (f : Fired) (ev : IoEvent Callback) (q : ThreadQueue TaskMsg) (l : Loop) (w : W)
            → find f.fd l.io_evs ≡ some ev
            → ev.read_callback ≡ some task_callback
            → f.ev_in ≡ true
            → dispatch (thread_call others) (f ∷ []) (l, (q, w)) ≡ (
                construct q.queue (l, w) >>= λ t. ok (
                  (later (tasks_of q.queue) t).0,
                  (record { queue = []; evfd = reads_all ∷ q.evfd }, t.1),
                ))
        unfolding dispatch perform thread_call deal_task_message recv
        dispatch_woken f ev q l w e reads fired =
            rw (action_of-calls f ev l e reads fired, deal_all-construct q.queue (l, w))
              (>>=-values (construct q.queue (l, w)) (later (tasks_of q.queue))
                (λ t. (record { queue = []; evfd = reads_all ∷ q.evfd }, t))
                (λ t. (t.1.0, (t.0, t.1.1))))

        pub event_process-woken :
            (f : Fired) (ev : IoEvent Callback) (q : ThreadQueue TaskMsg) (l : Loop) (w : W)
            → find f.fd l.io_evs ≡ some ev
            → ev.read_callback ≡ some task_callback
            → f.ev_in ≡ true
            → event_process (thread_call others) run ((f ∷ []) ∷ []) (l, (q, w))
              ≡ woken run q (l, w)
        unfolding event_process woken execute_ready_task
        event_process-woken f ev q l w e reads fired =
            ap (λ m. m >>= λ s. execute_ready_task run s >>= λ t. ok t)
              (dispatch_woken f ev q l w e reads fired)
            ∙ sym (
                then_each (construct q.queue (l, w)) _ _
                  (λ s. execute_ready_task run s >>= λ t. ok t)
                  (λ t. sym (
                    >>=-ok (
                      execute_ready_task run (
                        (later (tasks_of q.queue) t).0,
                        (record { queue = []; evfd = reads_all ∷ q.evfd }, t.1),
                      )))))
