-- ===== src/Reactor/TcpServer/Limit.antt =====
-- The limit on the number of connections, when threads construct them.
use rins.Prelude.{
  ℕ, ◌+◌, ◌<◌, ◌≤◌, ◌≡◌, refl, sym, ap, ◌∙◌, subst, ◌==◌, if◌then◌else◌, List, [], ◌∷◌, length,
  length-set, set, get_elem?-lt, some, false, Result, ok, ◌>>=◌, Returns, Returns->>=, arith,
}
use rins.Reactor.ThreadQueue.{send}
use rins.Reactor.ThreadPool.{ThreadPool, new_conn, get_thread, send_to}
use rins.Reactor.TcpServer.{
  TcpServer, accepted, Outcome, handed_over, is_full, place, admit, do_accept,
}

-- The pool has its queues, at least one, and an index among them or at their end.
pub record IsReady (p : ThreadPool) : Type 0 where
  pub count : length p.queues ≡ p.thread_cnt
  pub some_thread : 0 < p.thread_cnt
  pub turn : p.index ≤ p.thread_cnt

place-IsReady :
    (connfd : ℕ) (s : TcpServer) (p : ThreadPool)
    → IsReady p
    → Returns (place connfd s (some p)) (λ a.
      (a.0 ≡ handed_over connfd)
      × (a.1.table ≡ s.table)
      × ((q : ThreadPool) × (a.1.thread_pool ≡ some q) × IsReady q))
unfolding place get_thread send_to
place-IsReady connfd s p v =
    let i = if p.index == p.thread_cnt then 0 else p.index in
    let inside : i < length p.queues = ground (arith, v) in
    let (q, e) = get_elem?-lt p.queues i inside in
    let task = new_conn connfd in
    rw (e, send_to)
      (
        refl,
        refl,
        (
          record p { queues = set p.queues i (send task q); index = i + 1 },
          refl,
          record {
            count = length-set p.queues i (send task q) ∙ v.count;
            some_thread = v.some_thread;
            turn = omega (arith, v.count);
          },
        ),
      )

-- The calls of `do_accept` for a sequence of connections that come in.
unfoldable pub accept_all : List ℕ → TcpServer → Result (List Outcome × TcpServer)
accept_all [] s = ok ([], s)
accept_all (connfd ∷ fds) s = do
  a ← do_accept (accepted connfd ∷ []) s
  b ← accept_all fds a.1
  ok (a.0 ∷ b.0, b.1)

-- All descriptors go to threads.
abbrev pub all_handed_over : List ℕ → List Outcome
all_handed_over [] = []
all_handed_over (connfd ∷ fds) = handed_over connfd ∷ all_handed_over fds

-- The pool of the server is in order.
abbrev pub HasThreads : TcpServer → Type 0
HasThreads s = (p : ThreadPool) × (s.thread_pool ≡ some p) × IsReady p

do_accept-placed :
    (connfd : ℕ) (s : TcpServer)
    → HasThreads s
    → is_full s.table ≡ false
    → Returns
        (do_accept (accepted connfd ∷ []) s)
        (λ a. (a.0 ≡ handed_over connfd) × (a.1.table ≡ s.table) × HasThreads a.1)
unfolding do_accept admit
do_accept-placed connfd s (p, e, v) room = rw room (
    subst
      (λ o.
        Returns (place connfd s o)
          (λ a. (a.0 ≡ handed_over connfd) × (a.1.table ≡ s.table) × HasThreads a.1))
      (sym e) (place-IsReady connfd s p v))

-- As long as the threads have not constructed the connections, the limit is not met: however many
-- connections come in, each is handed over to a thread, if the table is not full at the start and
-- the pool has its threads, each with a queue. No call fails.
pub accept_all-handed_over :
    (fds : List ℕ) (s : TcpServer)
    → HasThreads s
    → is_full s.table ≡ false
    → Returns (accept_all fds s) (λ a. (a.0 ≡ all_handed_over fds) × (a.1.table ≡ s.table))
unfolding accept_all
accept_all-handed_over [] s h room = (refl, refl)
accept_all-handed_over (connfd ∷ fds) s h room =
    Returns->>= (do_accept (accepted connfd ∷ []) s) _ _ _ (do_accept-placed connfd s h room) λ a g.
      Returns->>= (accept_all fds a.1) _ _ _
        (accept_all-handed_over fds a.1 g.2 (ap is_full g.1 ∙ room))
        λ b k. (step a.0 b.0 connfd g.0 k.0, k.1 ∙ g.1)
  where
    step :
        (o : Outcome) (os : List Outcome) (c : ℕ)
        → o ≡ handed_over c
        → os ≡ all_handed_over fds
        → (o ∷ os) ≡ (handed_over c ∷ all_handed_over fds)
    step o os c x y = cc
