-- ===== src/Reactor/TcpClient/Dialling.antt =====
-- The calls of tcp_client.cc that make and drop a connection, from phase to phase.
use rins.Prelude.{
  ℕ, ◌≤◌, ◌≡◌, refl, sym, ◌∙◌, subst, ◌⊎◌, inl, inr, Option, none, some, Bool, true, false,
  Bool-cases, ◌==◌, if◌then◌else◌, Result, IfReturns, IfReturns->>=, IfReturns-map, arith,
}
use rins.Prelude.Maps.{find, find-remove}
use rins.Reactor.EventLoop.{
  IoEvent, EventLoop, epollout, event_at, no_event, add_io_event, del_io_event,
}
use rins.Reactor.Callback.{Callback, Task, connection_delay}
use rins.Reactor.TcpConn.{closed_fd}
use rins.Reactor.TcpClient.{TcpClient}
use rins.Reactor.TcpClient.Link.{
  Dial, ConnectRet, connected, in_progress, refused, watch, do_connect, clean_conn, finish_connect,
}
use rins.Reactor.TcpClient.Phase.{
  Phase, starting, linked, waiting, lost, ended, Registers, At, Moves, waiting-off, lost-off,
}
use rins.Reactor.TcpClient.Asking.{find_registered, find_other}
use rins.Reactor.TcpClient.Listening.{watch-Moves}

-- A callback or a handler that leaves the phase and other descriptors alone, and takes back no
-- byte that waits.
abbrev pub Keeps : {U : Type 0} → Phase → (TcpClient × U → Result (TcpClient × U)) → Type 0
Keeps {U = U} p call =
    (fd : ℕ) (c : TcpClient) (u : U) → At p fd c → IfReturns (call (c, u)) (λ s. Moves p fd c s.0)

-- The phase after `connect` has answered
abbrev pub phase_of : ConnectRet → Phase
phase_of connected = linked
phase_of in_progress = waiting
phase_of refused = ended

-- A descriptor that `socket` may answer: none that is registered.
abbrev pub Fresh : ℕ → TcpClient → Type 0
Fresh fd c = ((fd == closed_fd) ≡ false) × (find fd c.loop.io_evs ≡ none)

waiting-Registers :
    (fd : ℕ) (c : TcpClient)
    → Fresh fd c
    → c.connected ≡ false
    → Registers waiting c.connected c.out_buf.len
        (find fd (add_io_event true fd connection_delay epollout c.loop).io_evs)
unfolding event_at
waiting-Registers fd c fresh off =
    let none_yet : event_at fd c.loop.io_evs ≡ no_event = ground (arith, fresh.1) in
    rw (find_registered fd connection_delay c.loop, off, none_yet) (refl, refl, refl, refl, refl)

lost-find :
    (len : ℕ) (on : Bool) (o : Option (IoEvent Callback)) → Registers lost on len o → o ≡ none
lost-find len on none r = refl
lost-find len on (some ev) r = absurd r

find_gone : (fd : ℕ) (loop : EventLoop Callback Task) → find fd (del_io_event fd loop).io_evs ≡ none
unfolding del_io_event
find_gone fd loop = ground (arith, find-remove fd fd loop.io_evs)

gone_other :
    (j fd : ℕ) (loop : EventLoop Callback Task)
    → (fd == j) ≡ false
    → find j (del_io_event fd loop).io_evs ≡ find j loop.io_evs
unfolding del_io_event
gone_other j fd loop far = ground (arith, find-remove j fd loop.io_evs)

module _ {U : Type 0} (conn_start_cb : TcpClient × U → Result (TcpClient × U))
    (start_lem : Keeps starting conn_start_cb) where
  started-Moves :
      (fd : ℕ) (c d : TcpClient) → Moves starting fd c d → Moves linked fd c (watch fd d)
  started-Moves fd c d m =
      let w = watch-Moves fd d m.at in
      record {
        at = w.at;
        others = λ j far. w.others j far ∙ m.others j far;
        grows = omega (arith, w.grows, m.grows);
      }

  pub do_connect-Moves :
      (fd : ℕ) (ret : ConnectRet) (c : TcpClient) (u : U)
      → (c.sockfd == closed_fd) ≡ false
      → c.connected ≡ false
      → c.out_buf.head ≡ 0
      → Fresh fd c
      → IfReturns
          (do_connect conn_start_cb (record { socket = some fd; connect = ret }) (c, u))
          (λ t. Moves (phase_of ret) fd c t.0)
  unfolding do_connect
  do_connect-Moves fd connected c u opened off front fresh =
      let up : TcpClient = record c { sockfd = fd; connected = true } in
      let a : At starting fd up = record {
        own = refl;
        open_fd = fresh.0;
        front = front;
        entry = rw fresh.1 refl;
      } in
      simp opened (
        IfReturns->>= (conn_start_cb (up, u)) _ (λ s. Moves starting fd up s.0) _
          (start_lem fd up u a)
          λ s m.
            subst (λ n. Moves linked fd c (watch n s.0)) (sym m.at.own)
              (started-Moves fd c s.0 (record { at = m.at; others = m.others; grows = m.grows })))
  do_connect-Moves fd in_progress c u opened off front fresh = simp opened (record {
    at = record {
      own = refl;
      open_fd = fresh.0;
      front = front;
      entry = waiting-Registers fd c fresh off;
    };
    others = λ j far. find_other j fd connection_delay c.loop far;
    grows = omega arith;
  })
  do_connect-Moves fd refused c u opened off front fresh = simp opened tt

  -- `connection_delay` of the client's own descriptor.
  pub finish_connect-Moves :
      (fd result : ℕ) (c : TcpClient) (u : U)
      → At waiting fd c
      → IfReturns
          (finish_connect conn_start_cb fd result (c, u))
          (λ t. Moves (if result == 0 then linked else lost) fd c t.0)
  unfolding finish_connect del_io_event
  finish_connect-Moves fd result c u a =
      let off : TcpClient = record c { loop = del_io_event fd c.loop } in
      elim (Bool-cases (result == 0)) [
        | inl e ↦
            let up : TcpClient = record off { connected = true } in
            simp e (
              IfReturns->>= (conn_start_cb (up, u)) _ (λ s. Moves starting fd up s.0) _
                (start_lem fd up u (record {
                  own = a.own;
                  open_fd = a.open_fd;
                  front = a.front;
                  entry = rw (find_gone fd c.loop) refl;
                }))
                λ s m. started-Moves fd c s.0 (record {
                  at = m.at;
                  others = λ j far. m.others j far ∙ gone_other j fd c.loop far;
                  grows = m.grows;
                }))
        | inr e ↦ simp e (record {
          at = record {
            own = a.own;
            open_fd = a.open_fd;
            front = a.front;
            entry =
                rw (find_gone fd c.loop)
                  (waiting-off c.connected c.out_buf.len (find fd c.loop.io_evs) a.entry);
          };
          others = λ j far. gone_other j fd c.loop far;
          grows = omega arith;
        })
      ]

-- A descriptor that is not registered, or that is the client's own, which is closed before the next
-- call of `socket`.
abbrev pub Free : ℕ → TcpClient → Type 0
Free j c = ((c.sockfd == j) ≡ true) ⊎ (find j c.loop.io_evs ≡ none)

-- What `socket` may answer to the client.
abbrev pub Usable : Option ℕ → TcpClient → Type 0
Usable none c = Unit
Usable (some fd) c = ((fd == closed_fd) ≡ false) × Free fd c

-- The client has closed its descriptor and has connected again, or begun to.
pub record Redialled (ret : ConnectRet) (c d : TcpClient) : Type 0 where
  pub at : At (phase_of ret) d.sockfd d
  pub grows : c.out_buf.len ≤ d.out_buf.len
  pub free : (j : ℕ) → Free j c → Free j d

module _ {U : Type 0} (conn_start_cb conn_close_cb : TcpClient × U → Result (TcpClient × U))
    (start_lem : Keeps starting conn_start_cb) (close_lem : Keeps lost conn_close_cb) where
  -- A descriptor that was free is not registered once the old one is closed.
  freed :
      (old j : ℕ) (c d : TcpClient)
      → c.sockfd ≡ old
      → Moves lost old (record c { loop = del_io_event old c.loop }) d
      → Free j c
      → find j d.loop.io_evs ≡ none
  freed old j c d own m f = elim (Bool-cases (old == j)) [
    | inl e ↦
        let same : old ≡ j = ground arith in
        subst (λ n. find n d.loop.io_evs ≡ none) same
          (lost-find d.out_buf.len d.connected (find old d.loop.io_evs) m.at.entry)
    | inr far ↦
        m.others j far
        ∙ gone_other j old c.loop far
        ∙ elim f [ inl e ↦ absurd (ground arith) | inr gone ↦ gone ]
  ]

  -- A closed client that connects again.
  closed-Redialled :
      (old : ℕ) (socket : Option ℕ) (ret : ConnectRet) (c d : TcpClient) (u : U)
      → c.sockfd ≡ old
      → Usable socket c
      → Moves lost old (record c { loop = del_io_event old c.loop }) d
      → IfReturns
          (do_connect conn_start_cb (record { socket = socket; connect = ret }) (d, u))
          (λ t. Redialled ret c t.0)
  unfolding do_connect
  closed-Redialled old none ret c d u own usable m =
      let opened : (d.sockfd == closed_fd) ≡ false = rw m.at.own m.at.open_fd in simp opened tt
  closed-Redialled old (some fd) ret c d u own usable m =
      let opened : (d.sockfd == closed_fd) ≡ false = rw m.at.own m.at.open_fd in
      IfReturns-map (do_connect conn_start_cb (record { socket = some fd; connect = ret }) (d, u)) _
        _
        (λ t n. record {
          at = subst (λ k. At (phase_of ret) k t.0) (sym n.at.own) n.at;
          grows = omega (arith, m.grows, n.grows);
          free = λ j f. elim (Bool-cases (fd == j)) [
            | inl e ↦ inl (rw n.at.own e)
            | inr far ↦ inr (n.others j far ∙ freed old j c d own m f)
          ];
        })
        (do_connect-Moves conn_start_cb start_lem fd ret d u opened
          (lost-off d.connected d.out_buf.len (find old d.loop.io_evs) m.at.entry) m.at.front
          (usable.0, freed old fd c d own m usable.1))

  pub clean_conn-Redialled :
      (p : Phase) (dial : Dial) (c : TcpClient) (u : U)
      → At p c.sockfd c
      → Usable dial.socket c
      → IfReturns
          (clean_conn conn_start_cb conn_close_cb dial (c, u))
          (λ t. Redialled dial.connect c t.0)
  unfolding clean_conn
  clean_conn-Redialled p dial c u a usable =
      let closed : TcpClient = record c {
        connected = false;
        loop = del_io_event c.sockfd c.loop;
      } in
      simp a.open_fd (
        IfReturns->>= (conn_close_cb (closed, u)) _ (λ s. Moves lost c.sockfd closed s.0) _
          (close_lem c.sockfd closed u (record {
            own = refl;
            open_fd = a.open_fd;
            front = a.front;
            entry = rw (find_gone c.sockfd c.loop) refl;
          }))
          λ s m.
            closed-Redialled c.sockfd dial.socket dial.connect c s.0 s.1 refl usable
              (record { at = m.at; others = m.others; grows = m.grows }))
