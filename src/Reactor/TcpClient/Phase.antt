-- ===== src/Reactor/TcpClient/Phase.antt =====
-- The phases of a client's connection: what the loop has registered for its descriptor, and how the
-- calls of tcp_client.cc that register events lead from one to the next.
use rins.Prelude.{ℕ, ◌≤◌, ◌<◌, ◌≡◌, refl, Option, none, some, Bool, true, false, not, ◌==◌, arith}
use rins.Prelude.Maps.{find}
use rins.Reactor.EventLoop.{IoEvent}
use rins.Reactor.Callback.{Callback, client_read_callback, client_write_callback, connection_delay}
use rins.Reactor.TcpConn.{closed_fd}
use rins.Reactor.TcpClient.{TcpClient}

-- `starting` is the connection in its start callback, `flushing` that in the loop of `do_write`;
-- between calls it is `linked`, `waiting` for the kernel to connect it, or `lost`.
-- After a refusal the process has `ended`.
pub data Phase : Type 0 where
  starting linked flushing waiting lost ended : Phase

-- What is registered for the descriptor of a client that is `on` and has `len` bytes to write.
abbrev pub Registers : Phase → Bool → ℕ → Option (IoEvent Callback) → Type 0
Registers starting on len none = on ≡ true
Registers starting on len (some ev) =
    (on ≡ true)
    × (ev.mask.epollout ≡ true → (ev.write_callback ≡ some client_write_callback) × (0 < len))
Registers linked on len none = ⊥
Registers linked on len (some ev) =
    (on ≡ true)
    × (ev.mask.epollin ≡ true)
    × (ev.read_callback ≡ some client_read_callback)
    × (ev.mask.epollout ≡ not (len == 0))
    × (ev.mask.epollout ≡ true → ev.write_callback ≡ some client_write_callback)
Registers flushing on len none = ⊥
Registers flushing on len (some ev) =
    (on ≡ true)
    × (ev.mask.epollin ≡ true)
    × (ev.read_callback ≡ some client_read_callback)
    × (ev.mask.epollout ≡ true)
    × (ev.write_callback ≡ some client_write_callback)
Registers waiting on len none = ⊥
Registers waiting on len (some ev) =
    (on ≡ false)
    × (ev.mask.epollin ≡ false)
    × (ev.read_callback ≡ none)
    × (ev.mask.epollout ≡ true)
    × (ev.write_callback ≡ some connection_delay)
Registers lost on len none = on ≡ false
Registers lost on len (some ev) = ⊥
Registers ended on len o = ⊥

-- The client is in the phase with the descriptor `fd`, and its bytes to write begin at index 0.
pub record At (p : Phase) (fd : ℕ) (c : TcpClient) : Type 0 where
  pub own : c.sockfd ≡ fd
  pub open_fd : (fd == closed_fd) ≡ false
  pub front : c.out_buf.head ≡ 0
  pub entry : Registers p c.connected c.out_buf.len (find fd c.loop.io_evs)

-- From one client to another with the same descriptor and phase: nothing is registered or removed
-- for other descriptors, and no byte that waits is taken away.
pub record Moves (p : Phase) (fd : ℕ) (c d : TcpClient) : Type 0 where
  pub at : At p fd d
  pub others : (j : ℕ) → (fd == j) ≡ false → find j d.loop.io_evs ≡ find j c.loop.io_evs
  pub grows : c.out_buf.len ≤ d.out_buf.len

pub stays : {p : Phase} {fd : ℕ} {c : TcpClient} → At p fd c → Moves p fd c c
stays a = record { at = a; others = λ j e. refl; grows = omega arith }

pub linked-on :
    (on : Bool) (len : ℕ) (o : Option (IoEvent Callback)) → Registers linked on len o → on ≡ true
linked-on on len none r = absurd r
linked-on on len (some ev) r = r.0

pub waiting-off :
    (on : Bool) (len : ℕ) (o : Option (IoEvent Callback)) → Registers waiting on len o → on ≡ false
waiting-off on len none r = absurd r
waiting-off on len (some ev) r = r.0

pub lost-off :
    (on : Bool) (len : ℕ) (o : Option (IoEvent Callback)) → Registers lost on len o → on ≡ false
lost-off on len none r = r
lost-off on len (some ev) r = absurd r

pub starting-on :
    (len : ℕ) (on : Bool) (o : Option (IoEvent Callback)) → Registers starting on len o → on ≡ true
starting-on len on none r = r
starting-on len on (some ev) r = r.0

pub more-Registers :
    (p : Phase) (on : Bool) (len len' : ℕ) (o : Option (IoEvent Callback))
    → 0 < len
    → len ≤ len'
    → Registers p on len o
    → Registers p on len' o
more-Registers starting on len len' none lt le r = r
more-Registers starting on len len' (some ev) lt le r = (r.0, λ e. ((r.1 e).0, omega arith))
more-Registers linked on len len' none lt le r = absurd r
more-Registers linked on len len' (some ev) lt le r = ground (arith, r)
more-Registers flushing on len len' none lt le r = r
more-Registers flushing on len len' (some ev) lt le r = r
more-Registers waiting on len len' none lt le r = r
more-Registers waiting on len len' (some ev) lt le r = r
more-Registers lost on len len' none lt le r = r
more-Registers lost on len len' (some ev) lt le r = r
more-Registers ended on len len' o lt le r = r
