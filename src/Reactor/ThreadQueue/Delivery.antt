-- ===== src/Reactor/ThreadQueue/Delivery.antt =====
-- Sending and receiving threads in any interleaving.
use rins.Prelude.{
  ◌≡◌, refl, sym, ap, ◌∙◌, List, [], ◌∷◌, ◌++◌, append_assoc, append-nil, Bool, true, false, ok,
  subst,
}
use rins.Reactor.ThreadQueue.{
  Signal, adds_one, reads_all, ThreadQueue, empty_queue, new_thread_queue, send, recv,
}

-- A thread sends, or the thread of the queue receives into an empty queue.
pub data Op (A : Type 0) : Type 0 where
  sends : A → Op A
  receives : Op A

-- An eventfd is readable after a write until the next read.
abbrev pub is_readable : List Signal → Bool
is_readable [] = false
is_readable (adds_one ∷ log) = true
is_readable (reads_all ∷ log) = false

module _ {A : Type 0} where
  -- What is received, in order, and the queue that is left.
  unfoldable pub run : List (Op A) → ThreadQueue A → List A × ThreadQueue A
  run [] q = ([], q)
  run (sends task ∷ ops) q = run ops (send task q)
  run (receives ∷ ops) q =
      let (tasks, q') = recv [] q in let (rest, end) = run ops q' in (tasks ++ rest, end)

  abbrev pub sent : List (Op A) → List A
  sent [] = []
  sent (sends task ∷ ops) = task ∷ sent ops
  sent (receives ∷ ops) = sent ops

  abbrev pub has_some : List A → Bool
  has_some [] = false
  has_some (task ∷ tasks) = true

  has_some-append : (xs : List A) (x : A) → has_some (xs ++ (x ∷ [])) ≡ true
  has_some-append [] x = refl
  has_some-append (y ∷ xs) x = refl

  run_all :
      (ops : List (Op A)) (q : ThreadQueue A)
      → (run ops q).0 ++ (run ops q).1.queue ≡ q.queue ++ sent ops
  unfolding run send recv
  run_all [] q = sym (append-nil q.queue)
  run_all (sends task ∷ ops) q =
      run_all ops (send task q) ∙ append_assoc q.queue (task ∷ []) (sent ops)
  run_all (receives ∷ ops) q =
      append_assoc q.queue (run ops (recv [] q).1).0 (run ops (recv [] q).1).1.queue
      ∙ ap (λ l. q.queue ++ l) (run_all ops (recv [] q).1)

  run_signals :
      (ops : List (Op A)) (q : ThreadQueue A)
      → is_readable q.evfd ≡ has_some q.queue
      → is_readable (run ops q).1.evfd ≡ has_some (run ops q).1.queue
  unfolding run send recv
  run_signals [] q e = e
  run_signals (sends task ∷ ops) q e =
      run_signals ops (send task q) (sym (has_some-append q.queue task))
  run_signals (receives ∷ ops) q e = run_signals ops (recv [] q).1 refl

  -- In any interleaving of threads that send and one that receives into an empty queue, what has
  -- been received and what still waits are together all that was sent, in the order of the sending,
  -- and the eventfd is readable just while something waits, so that no task is left without a
  -- wake-up.
  pub run-new_thread_queue :
      (ops : List (Op A)) (made : Bool) (new : ThreadQueue A)
      → new_thread_queue made ≡ ok new
      → let (received, q) = run ops new in
        (received ++ q.queue ≡ sent ops) × (is_readable q.evfd ≡ has_some q.queue)
  unfolding empty_queue new_thread_queue
  run-new_thread_queue ops false new e = absurd (cc)
  run-new_thread_queue ops true new e =
      let same : empty_queue ≡ new = cc in
      subst
        (λ n.
          ((run ops n).0 ++ (run ops n).1.queue ≡ sent ops)
          × (is_readable (run ops n).1.evfd ≡ has_some (run ops n).1.queue))
        same (run_all ops empty_queue, run_signals ops empty_queue refl)
