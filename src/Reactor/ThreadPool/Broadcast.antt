-- ===== src/Reactor/ThreadPool/Broadcast.antt =====
-- A task for all threads.
use rins.Prelude.{
  ◌+◌, ◌≡◌, refl, sym, ap, ◌∙◌, List, [], ◌∷◌, ◌++◌, map, append_assoc, length, length-append,
  get_elem?, set, some, ok, arith,
}
use rins.Reactor.Callback.{Task}
use rins.Reactor.ThreadQueue.{ThreadQueue, send}
use rins.Reactor.ThreadPool.{TaskMsg, new_task, ThreadPool, send_to, send_from, send_task}

get_elem?-length :
    {A : Type 0} (xs : List A) (y : A) (ys : List A)
    → get_elem? (xs ++ (y ∷ ys)) (length xs) ≡ some y
get_elem?-length [] y ys = refl
get_elem?-length (x ∷ xs) y ys = get_elem?-length xs y ys

set-length :
    {A : Type 0} (xs : List A) (y z : A) (ys : List A)
    → set (xs ++ (y ∷ ys)) (length xs) z ≡ xs ++ (z ∷ ys)
set-length [] y z ys = refl
set-length (x ∷ xs) y z ys = ap (◌∷◌ x) (set-length xs y z ys)

send_to-dealt :
    (task : TaskMsg) (dealt left : List (ThreadQueue TaskMsg)) (q : ThreadQueue TaskMsg)
    (p : ThreadPool)
    → send_to (length dealt) task (record p { queues = dealt ++ (q ∷ left) })
      ≡ ok (record p { queues = dealt ++ (send task q ∷ left) })
unfolding send_to
send_to-dealt task dealt left q p =
    rw (get_elem?-length dealt q left, set-length dealt q (send task q) left, send_to) refl

-- The loop has dealt with the queues in front.
send_from-map :
    (task : TaskMsg) (dealt left : List (ThreadQueue TaskMsg)) (p : ThreadPool)
    → send_from (length left) (length dealt) task (record p { queues = dealt ++ left })
      ≡ ok (record p { queues = dealt ++ map (send task) left })
unfolding send_from
send_from-map task dealt [] p = refl
send_from-map task dealt (q ∷ left) p =
    let here : send_to (length dealt) task (record p { queues = dealt ++ (q ∷ left) })
        ≡ ok (record p { queues = dealt ++ (send task q ∷ left) }) =
      send_to-dealt task dealt left q p in
    let step : length dealt + 1 ≡ length (dealt ++ (send task q ∷ [])) =
      omega (arith, length-append dealt (send task q ∷ [])) in
    rw (here, step)
      (ap
          (λ qs.
            send_from (length left) (length (dealt ++ (send task q ∷ []))) task
              (record p { queues = qs }))
          (sym (append_assoc dealt (send task q ∷ []) left))
        ∙ send_from-map task (dealt ++ (send task q ∷ [])) left p
        ∙ ap (λ qs. ok (record p { queues = qs }))
            (append_assoc dealt (send task q ∷ []) (map (send task) left)))

-- The loop of send_task over the indexes does what a map over the queues does: each thread's queue
-- gets the task once, at its end, and no index is out of bounds, if there are as many queues as
-- threads.
pub send_task-map :
    (func : Task) (p : ThreadPool)
    → p.thread_cnt ≡ length p.queues
    → send_task func p ≡ ok (record p { queues = map (send (new_task func)) p.queues })
unfolding send_task
send_task-map func p e =
    ap (λ n. send_from n 0 (new_task func) p) e ∙ send_from-map (new_task func) [] p.queues p
