-- ===== src/Reactor/TcpClient/Serving.antt =====
-- What a client's reading does to its registration with the loop.
use rins.Prelude.{
  ℕ, zero, suc, sym, subst, inl, inr, List, [], ◌∷◌, length, Option, Option-cases, Bool, true,
  false, ◌==◌, leb, Result, ok, ◌>>=◌, IfReturns, IfReturns->>=, IfReturns_any, IfReturns-check,
  assertion, ◌-◌,
}
use rins.Reactor.Memory.{window}
use rins.Reactor.IoBuf.{contents, pop, adjust}
use rins.Reactor.Message.{message_head_len, read_head}
use rins.Reactor.ReactorBuf.{Attempts, retry, ReadRet, read_failed, got}
use rins.Reactor.TcpClient.{TcpClient, append}
use rins.Reactor.TcpClient.Link.{
  Dial, ConnectRet, connected, in_progress, refused, clean_conn, pop_int, take_message, read_loop,
  after_read, do_read,
}
use rins.Reactor.TcpClient.Phase.{starting, linked, lost, At, Moves}
use rins.Reactor.TcpClient.Dialling.{Keeps, Usable, Redialled, clean_conn-Redialled}
use rins.Reactor.TcpClient.Settling.{Settled, in_buf-At}

module _ {U : Type 0} (serve : ℕ → ℕ → List ℕ → TcpClient × U → Result (TcpClient × U))
    (serve_lem : (msgid length : ℕ) (view : List ℕ) → Keeps linked (serve msgid length view)) where
  take_message-linked :
      (msgid length fd : ℕ) (c : TcpClient) (u : U)
      → At linked fd c
      → IfReturns (take_message serve msgid length (c, u)) (λ t. At linked fd t.0)
  unfolding take_message
  take_message-linked msgid length fd c u a =
      let b = pop c.in_buf message_head_len in
      let d : TcpClient = record c { in_buf = b } in
      let view = window b.block b.head (b.capacity - b.head) in
      IfReturns->>= (serve msgid length view (d, u)) _ (λ s. Moves linked fd d s.0) _
        (serve_lem msgid length view fd d u (in_buf-At linked fd c b a))
        λ s m.
          IfReturns->>= (pop_int length s.0.in_buf) _ (λ e. Unit) _
            (IfReturns_any (pop_int length s.0.in_buf)) λ e any. in_buf-At linked fd s.0 e m.at

  read_loop-linked :
      (fuel fd : ℕ) (c : TcpClient) (u : U)
      → At linked fd c
      → IfReturns (read_loop serve fuel (c, u)) (λ t. At linked fd t.0)
  unfolding read_loop
  read_loop-linked zero fd c u a = tt
  read_loop-linked (suc fuel) fd c u a = elim (Option-cases (read_head (contents c.in_buf))) [
    | inl e ↦ rw (e, read_loop) a
    | inr (head, e) ↦
        rw (e, read_loop)
          (IfReturns->>= (take_message serve head.id head.length (c, u)) _ (λ t. At linked fd t.0) _
            (take_message-linked head.id head.length fd c u a)
            λ t b. read_loop-linked fuel fd t.0 t.1 b)
  ]

pub Settled-of_Redialled : (ret : ConnectRet) (c d : TcpClient) → Redialled ret c d → Settled d
Settled-of_Redialled connected c d r = inl r.at
Settled-of_Redialled in_progress c d r = inr (inl r.at)
Settled-of_Redialled refused c d r = absurd r.at.entry

module _ {U : Type 0} (conn_start_cb conn_close_cb : TcpClient × U → Result (TcpClient × U))
    (serve : ℕ → ℕ → List ℕ → TcpClient × U → Result (TcpClient × U))
    (start_lem : Keeps starting conn_start_cb) (close_lem : Keeps lost conn_close_cb)
    (serve_lem : (msgid length : ℕ) (view : List ℕ) → Keeps linked (serve msgid length view)) where
  closed-Settled :
      (dial : Dial) (c : TcpClient) (u : U)
      → Usable dial.socket c
      → At linked c.sockfd c
      → IfReturns {A = Bool × (TcpClient × U)}
          (do t ← clean_conn conn_start_cb conn_close_cb dial (c, u); ok (false, t))
          (λ r. Settled r.1.0)
  closed-Settled dial c u usable a =
      IfReturns->>= (clean_conn conn_start_cb conn_close_cb dial (c, u)) _
        (λ t. Redialled dial.connect c t.0) _
        (clean_conn-Redialled conn_start_cb conn_close_cb start_lem close_lem linked dial c u a
          usable)
        λ t r. Settled-of_Redialled dial.connect c t.0 r

  after_read-Settled :
      (fuel need_read : ℕ) (ret : ReadRet) (dial : Dial) (c : TcpClient) (u : U)
      → Usable dial.socket c
      → At linked c.sockfd c
      → IfReturns
          (after_read conn_start_cb conn_close_cb serve fuel need_read ret dial (c, u))
          (λ r. Settled r.1.0)
  unfolding after_read
  after_read-Settled fuel need_read read_failed dial c u usable a = closed-Settled dial c u usable a
  after_read-Settled fuel need_read (got []) dial c u usable a = closed-Settled dial c u usable a
  after_read-Settled fuel need_read (got (x ∷ xs)) dial c u usable a =
      IfReturns-check (length (x ∷ xs) == need_read) assertion
        (do
          b ← append (x ∷ xs) c.in_buf
          t ← read_loop serve fuel (record c { in_buf = b }, u)
          d ← adjust t.0.in_buf
          ok (true, (record t.0 { in_buf = d }, t.1)))
        _
        λ e.
          IfReturns->>= (append (x ∷ xs) c.in_buf) _ (λ b. Unit) _
            (IfReturns_any (append (x ∷ xs) c.in_buf))
            λ b any.
              IfReturns->>= (read_loop serve fuel (record c { in_buf = b }, u)) _
                (λ t. At linked c.sockfd t.0) _
                (read_loop-linked serve serve_lem fuel c.sockfd (record c { in_buf = b }) u
                  (in_buf-At linked c.sockfd c b a))
                λ t k.
                  IfReturns->>= (adjust t.0.in_buf) _ (λ d. Unit) _
                    (IfReturns_any (adjust t.0.in_buf))
                    λ d any'. inl (
                      in_buf-At linked t.0.sockfd t.0 d
                        (subst (λ n. At linked n t.0) (sym k.own) k))

  pub do_read-Settled :
      (fuel : ℕ) (need : Option ℕ) (r : Attempts ReadRet) (dial : Dial) (c : TcpClient) (u : U)
      → Usable dial.socket c
      → At linked c.sockfd c
      → IfReturns
          (do_read conn_start_cb conn_close_cb serve fuel need r dial (c, u))
          (λ r. Settled r.1.0)
  unfolding do_read
  do_read-Settled fuel need r dial c u usable a = IfReturns-check c.connected assertion _ _ λ on.
      elim (Option-cases need) [
        | inl e ↦ rw e (inl a)
        | inr (need_read, e) ↦ rw e (
            IfReturns-check (leb need_read (c.in_buf.capacity - c.in_buf.len)) assertion _ _
              λ fits. after_read-Settled fuel need_read (retry r) dial c u usable a)
      ]
