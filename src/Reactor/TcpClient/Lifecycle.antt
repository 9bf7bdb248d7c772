-- ===== src/Reactor/TcpClient/Lifecycle.antt =====
-- The life of a client's connection: any sequence of the calls that its owner and its loop make.
use rins.Prelude.{
  ℕ, ◌≡◌, refl, sym, subst, inl, inr, List, Option, none, some, Bool, true, false, Bool-cases, ◌==◌,
  if◌then◌else◌, Result, ok, IfReturns, IfReturns-map, IfReturns-eq,
}
use rins.Prelude.Maps.{find}
use rins.Reactor.IoBuf.{new_buf}
use rins.Reactor.ReactorBuf.{Attempts, ReadRet, WriteRet}
use rins.Reactor.EventLoop.{EventLoop, Fired, calls, action_of}
use rins.Reactor.EventLoop.Agreement.{Reported, mask_of}
use rins.Reactor.Callback.{
  Callback, Task, client_read_callback, client_write_callback, connection_delay,
}
use rins.Reactor.TcpConn.{closed_fd}
use rins.Reactor.TcpClient.{TcpClient, new_tcp_client, send_message}
use rins.Reactor.TcpClient.Link.{
  Dial, ConnectRet, connected, in_progress, refused, do_write, do_read, finish_connect, tcp_client,
  do_connect,
}
use rins.Reactor.TcpClient.Phase.{Phase, starting, linked, waiting, lost, Registers, At, Moves}
use rins.Reactor.TcpClient.Flushing.{Honest, AreUsable}
use rins.Reactor.TcpClient.Serving.{do_read-Settled}
use rins.Reactor.TcpClient.Dialling.{
  Keeps, phase_of, Usable, finish_connect-Moves, do_connect-Moves,
}
use rins.Reactor.TcpClient.Phase.{waiting-off, lost-off}
use rins.Reactor.TcpClient.Turns.{
  Turn, Ready, Watched, Turn-Expects, Settled-Chosen, Expects-Ready, linked-Watched,
}
use rins.Reactor.TcpClient.Asking.{send_message-Moves}
use rins.Reactor.TcpClient.Settling.{Settled, do_write-Settled}

own-At : (p : Phase) (fd : ℕ) (d : TcpClient) → At p fd d → At p d.sockfd d
own-At p fd d a = subst (λ n. At p n d) (sym a.own) a

sent-Settled :
    (body : List ℕ) (msgid : ℕ) (c : TcpClient) (r : Bool × TcpClient)
    → send_message body msgid c ≡ ok r
    → Settled c
    → Settled r.1
sent-Settled body msgid c r e settled = elim settled [
  | inl a ↦ inl (sent linked a)
  | inr (inl a) ↦ inr (inl (sent waiting a))
  | inr (inr a) ↦ inr (inr (sent lost a))
]
  where
    sent : (p : Phase) → At p c.sockfd c → At p r.1.sockfd r.1
    sent p a =
        own-At p c.sockfd r.1
          (IfReturns-eq (send_message body msgid c) (λ x. Moves p c.sockfd c x.1) r e
            (send_message-Moves p c.sockfd body msgid c a)).at

shared-At :
    (p : Phase) (loop : EventLoop Callback Task) (c : TcpClient)
    → find c.sockfd loop.io_evs ≡ find c.sockfd c.loop.io_evs
    → At p c.sockfd c
    → At p c.sockfd (record c { loop = loop })
shared-At p loop c e a = record {
  own = refl;
  open_fd = a.open_fd;
  front = a.front;
  entry = subst (Registers p c.connected c.out_buf.len) (sym e) a.entry;
}

shared-Settled :
    (loop : EventLoop Callback Task) (c : TcpClient)
    → find c.sockfd loop.io_evs ≡ find c.sockfd c.loop.io_evs
    → Settled c
    → Settled (record c { loop = loop })
shared-Settled loop c e (inl a) = inl (shared-At linked loop c e a)
shared-Settled loop c e (inr (inl a)) = inr (inl (shared-At waiting loop c e a))
shared-Settled loop c e (inr (inr a)) = inr (inr (shared-At lost loop c e a))

finished-Settled :
    (result fd : ℕ) (c d : TcpClient)
    → Moves (if result == 0 then linked else lost) fd c d
    → Settled d
finished-Settled result fd c d m = elim (Bool-cases (result == 0)) [
  | inl e ↦ inl (own-At linked fd d (subst (λ b. At (if b then linked else lost) fd d) e m.at))
  | inr e ↦ inr (inr (own-At lost fd d (subst (λ b. At (if b then linked else lost) fd d) e m.at)))
]

begun-Settled :
    (ret : ConnectRet) (fd : ℕ) (c d : TcpClient) → Moves (phase_of ret) fd c d → Settled d
begun-Settled connected fd c d m = inl (own-At linked fd d m.at)
begun-Settled in_progress fd c d m = inr (inl (own-At waiting fd d m.at))
begun-Settled refused fd c d m = absurd m.at.entry

-- A new descriptor, which is not registered yet.
abbrev pub IsNew : Option ℕ → EventLoop Callback Task → Type 0
IsNew none loop = Unit
IsNew (some fd) loop = ((fd == closed_fd) ≡ false) × (find fd loop.io_evs ≡ none)

module _ {U : Type 0} (conn_start_cb conn_close_cb : TcpClient × U → Result (TcpClient × U))
    (serve : ℕ → ℕ → List ℕ → TcpClient × U → Result (TcpClient × U)) where
  -- The clients that come about: after the constructor, after messages that the owner sends, after
  -- the callbacks that the loop runs, and after whatever others do with their own descriptors.
  pub data Reaches : TcpClient × U → Type 0 where
    begins :
        (loop : EventLoop Callback Task) (dial : Dial) (u : U) (t : TcpClient × U)
        → IsNew dial.socket loop
        → tcp_client conn_start_cb loop dial u ≡ ok t
        → Reaches t
    sends :
        (body : List ℕ) (msgid : ℕ) (s : TcpClient × U) (r : Bool × TcpClient)
        → Reaches s
        → send_message body msgid s.0 ≡ ok r
        → Reaches (r.1, s.1)
    shares :
        (loop : EventLoop Callback Task) (s : TcpClient × U)
        → Reaches s
        → find s.0.sockfd loop.io_evs ≡ find s.0.sockfd s.0.loop.io_evs
        → Reaches (record s.0 { loop = loop }, s.1)
    connects :
        (f : Fired) (result : ℕ) (s t : TcpClient × U)
        → Reaches s
        → Turn f connection_delay s.0
        → finish_connect conn_start_cb s.0.sockfd result s ≡ ok t
        → Reaches t
    reads :
        (f : Fired) (fuel : ℕ) (need : Option ℕ) (r : Attempts ReadRet) (dial : Dial)
        (s : TcpClient × U) (t : Bool × (TcpClient × U))
        → Reaches s
        → Turn f client_read_callback s.0
        → Usable dial.socket s.0
        → do_read conn_start_cb conn_close_cb serve fuel need r dial s ≡ ok t
        → Reaches t.1
    writes :
        (f : Fired) (answers : List (Attempts WriteRet × Dial)) (s t : TcpClient × U)
        → Reaches s
        → Turn f client_write_callback s.0
        → Honest true answers
        → AreUsable answers s.0
        → do_write conn_start_cb conn_close_cb answers s ≡ ok t
        → Reaches t

  tcp_client-Settled :
      (start_lem : Keeps starting conn_start_cb) (loop : EventLoop Callback Task)
      (socket : Option ℕ) (ret : ConnectRet) (u : U)
      → IsNew socket loop
      → IfReturns
          (tcp_client conn_start_cb loop (record { socket = socket; connect = ret }) u)
          (λ t. Settled t.0)
  unfolding tcp_client do_connect new_tcp_client new_buf
  tcp_client-Settled start_lem loop none ret u new = tt
  tcp_client-Settled start_lem loop (some fd) ret u new =
      let c = new_tcp_client loop in
      IfReturns-map (do_connect conn_start_cb (record { socket = some fd; connect = ret }) (c, u)) _
        _ (λ t m. begun-Settled ret fd c t.0 m)
        (do_connect-Moves conn_start_cb start_lem fd ret c u refl refl refl new)

  module _ (start_lem : Keeps starting conn_start_cb) (close_lem : Keeps lost conn_close_cb)
      (serve_lem : (msgid length : ℕ) (view : List ℕ)
        → Keeps linked (serve msgid length view)) where
    Reaches-Settled : (s : TcpClient × U) → Reaches s → Settled s.0
    Reaches-Settled s (begins loop dial u t new e) =
        IfReturns-eq (tcp_client conn_start_cb loop dial u) (λ x. Settled x.0) t e
          (tcp_client-Settled start_lem loop dial.socket dial.connect u new)
    Reaches-Settled s (sends body msgid r0 r h e) =
        sent-Settled body msgid r0.0 r e (Reaches-Settled r0 h)
    Reaches-Settled s (shares loop r h e) = shared-Settled loop r.0 e (Reaches-Settled r h)
    Reaches-Settled s (connects f result r t h turn e) =
        let a = Turn-Expects f connection_delay r.0 (Reaches-Settled r h) turn in
        finished-Settled result r.0.sockfd r.0 t.0 (
          IfReturns-eq (finish_connect conn_start_cb r.0.sockfd result r)
            (λ x. Moves (if result == 0 then linked else lost) r.0.sockfd r.0 x.0) t e
            (finish_connect-Moves conn_start_cb start_lem r.0.sockfd result r.0 r.1 a))
    Reaches-Settled s (reads f fuel need r dial c t h turn usable e) =
        let a = Turn-Expects f client_read_callback c.0 (Reaches-Settled c h) turn in
        IfReturns-eq (do_read conn_start_cb conn_close_cb serve fuel need r dial c)
          (λ x. Settled x.1.0) t e
          (do_read-Settled conn_start_cb conn_close_cb serve start_lem close_lem serve_lem fuel need
            r dial c.0 c.1 usable a)
    Reaches-Settled s (writes f answers c t h turn honest usable e) =
        let a = Turn-Expects f client_write_callback c.0 (Reaches-Settled c h) turn in
        IfReturns-eq (do_write conn_start_cb conn_close_cb answers c) (λ x. Settled x.0) t e
          (do_write-Settled conn_start_cb conn_close_cb start_lem close_lem answers c.0 c.1 honest
            usable a.0)

    -- In the life of a client that begins on a descriptor which is not registered, goes on with
    -- messages that its owner sends, the callbacks that its loop runs and whatever others do with
    -- their own descriptors, and in which the handlers and the start and close callbacks keep the
    -- phase of the connection and other descriptors and take back no byte that waits, as any do
    -- that send messages, each new descriptor is free, and the kernel answers EAGAIN to a write on
    -- a descriptor that it is still connecting: for every event that the kernel may report of the
    -- client's descriptor, the loop calls a callback whose assertions on the connection hold. It is
    -- connection_delay of a client that is not connected, do_read of one that is, or do_write of
    -- one that is and has bytes to write from index 0 on.
    pub Reaches-Ready :
        (s : TcpClient × U) (f : Fired)
        → Reaches s
        → f.fd ≡ s.0.sockfd
        → Reported f (mask_of (find s.0.sockfd s.0.loop.io_evs))
        → (proc : Callback) × (action_of f s.0.loop ≡ ok (calls proc)) × Ready proc s.0
    Reaches-Ready s f h own told =
        let (proc, e, expects) = Settled-Chosen f s.0 own (Reaches-Settled s h) told in
        (proc, e, Expects-Ready proc s.0 expects)

    -- In the life of a client that begins on a descriptor which is not registered, goes on with
    -- messages that its owner sends, the callbacks that its loop runs and whatever others do with
    -- their own descriptors, and in which the handlers and the start and close callbacks keep the
    -- phase of the connection and other descriptors and take back no byte that waits, as any do
    -- that send messages, each new descriptor is free, and the kernel answers EAGAIN to a write on
    -- a descriptor that it is still connecting: a client that is connected has EPOLLIN registered
    -- with the callback that reads, and EPOLLOUT just while bytes wait, with the callback that
    -- writes, so that no queued byte is left without a wake-up.
    pub Reaches-Watched : (s : TcpClient × U) → Reaches s → s.0.connected ≡ true → Watched s.0
    Reaches-Watched s h on = elim (Reaches-Settled s h) [
      | inl a ↦ linked-Watched s.0 a
      | inr (inl a) ↦ (let off = waiting-off s.0.connected s.0.out_buf.len _ a.entry in absurd (cc))
      | inr (inr a) ↦ (let off = lost-off s.0.connected s.0.out_buf.len _ a.entry in absurd (cc))
    ]
