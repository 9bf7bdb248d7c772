-- ===== src/Agent/Life.antt =====
-- What the agent's client threads start: a client in its life on a loop that its queue wakes.
use rins.Prelude.{
  ℕ, ◌^◌, ◌%◌, ◌≡◌, ◌≢◌, refl, ◌∙◌, ◌==◌, List, [], Option, none, some, true, false, Result, ok,
  fault, bad_pointer, Returns, arith,
}
use rins.Prelude.Maps.{find, find-put}
use rins.Reactor.Text.{Text}
use rins.Reactor.ConfigFile.{StrMap, config_instance, get_string, get_number}
use rins.Reactor.EventLoop.{
  init, epollin, epollout, add_io_event, registered, set_callback as set_event, event_at,
}
use rins.Reactor.Callback.{Callback, connection_delay}
use rins.Reactor.TcpClient.Asking.{find_other}
use rins.Reactor.ThreadQueue.{set_callback}
use rins.Reactor.IoBuf.{new_buf}
use rins.Reactor.TcpConn.{closed_fd}
use rins.Reactor.TcpClient.{TcpClient, new_tcp_client}
use rins.Reactor.TcpClient.Link.{Dial, connected, in_progress, do_connect, tcp_client, watch}
use rins.Reactor.TcpClient.Lifecycle.{Reaches, begins, shares}
use rins.Reactor.TcpServer.Boot.{ip_key, port_key}
use rins.Reactor.Message.{MsgRouter}
use rins.Agent.RouteLb.{RouteLb}
use rins.Agent.Server.{Handler}
use rins.Agent.Start.{ClientThread, no_callback, attach, client_thread}

abbrev pub Handling : Type 0
Handling = ℕ → ℕ → List ℕ → TcpClient × Unit {0} → Result (TcpClient × Unit {0})

find-attach :
    (j evfd : ℕ) (cb : Callback) (c : TcpClient)
    → (evfd == j) ≡ false
    → find j (attach evfd cb c).loop.io_evs ≡ find j c.loop.io_evs
unfolding attach set_callback add_io_event
find-attach j evfd cb c far =
    ground (arith, find-put j evfd (registered evfd cb epollin c.loop.io_evs) c.loop.io_evs)

attach-sockfd : (evfd : ℕ) (cb : Callback) (c : TcpClient) → (attach evfd cb c).sockfd ≡ c.sockfd
unfolding attach set_callback
attach-sockfd evfd cb c = refl

attach_registered :
    (evfd : ℕ) (cb : Callback) (c : TcpClient)
    → find evfd c.loop.io_evs ≡ none
    → find evfd (attach evfd cb c).loop.io_evs
      ≡ some (record { mask = epollin; read_callback = some cb; write_callback = none })
unfolding attach set_callback add_io_event registered set_event event_at
attach_registered evfd cb c e =
    ground (arith, find-put evfd evfd (registered evfd cb epollin c.loop.io_evs) c.loop.io_evs)

-- The thread's client is in its life, and its queue's descriptor runs the callback.
pub record Lives (serve : Handling) (section : Text) (cb : Callback) (m : StrMap) (fd evfd : ℕ)
    (t : ClientThread) : Type 0 where
  pub ip : t.ip ≡ get_string section ip_key [] m
  pub port : t.port ≡ get_number section port_key 0 m % 2 ^ 16
  pub sockfd : t.client.sockfd ≡ fd
  pub lives : Reaches no_callback no_callback serve (t.client, tt)
  pub woken :
      find evfd t.client.loop.io_evs
      ≡ some (record { mask = epollin; read_callback = some cb; write_callback = none })

attach-Reaches :
    (serve : Handling) (evfd : ℕ) (cb : Callback) (c : TcpClient)
    → (evfd == c.sockfd) ≡ false
    → Reaches no_callback no_callback serve (c, tt)
    → Reaches no_callback no_callback serve (attach evfd cb c, tt)
unfolding attach set_callback
attach-Reaches serve evfd cb c away h =
    shares (add_io_event true evfd cb epollin c.loop) (c, tt) h
      (find-attach c.sockfd evfd cb c away)

-- The constructor of the client on a new loop, while the connection is in progress
dialled :
    (fd : ℕ)
    → (c : TcpClient) × (tcp_client no_callback init
          (record { socket = some fd; connect = in_progress })
          tt
        ≡ ok (c, tt))
      × (c.sockfd ≡ fd)
      × ((j : ℕ) → (fd == j) ≡ false → find j c.loop.io_evs ≡ none)
unfolding tcp_client do_connect new_tcp_client init watch new_buf find
dialled fd = (
  record (new_tcp_client init) {
    sockfd = fd;
    loop = add_io_event true fd connection_delay epollout init;
  },
  refl,
  refl,
  λ j far. find_other j fd connection_delay init far,
)

-- A client thread of the agent that has a configuration, a descriptor that is not -1 and another
-- one for its queue starts if the connection is in progress: it has the address and the port of its
-- section, its client begins a life as in Lifecycle on the new loop, whatever handlers it has, and
-- an event of the queue's descriptor runs the callback that sends what waits there. If the
-- connection is made at once, the constructor uses the start callback, which nothing has
-- initialised.
pub client_thread-Lives :
    (serve : Handling) (section : Text) (cb : Callback)
    (routes : MsgRouter Handler (Option RouteLb)) (m : StrMap) (fd evfd : ℕ)
    → fd ≢ closed_fd
    → fd ≢ evfd
    → Returns
        (client_thread section cb routes
          (some m)
          (record { socket = some fd; connect = in_progress })
          evfd)
        (Lives serve section cb m fd evfd)
      × (client_thread section cb routes
            (some m)
            (record { socket = some fd; connect = connected })
            evfd
          ≡ fault bad_pointer)
unfolding client_thread config_instance init find tcp_client do_connect new_tcp_client new_buf
client_thread-Lives serve section cb routes m fd evfd opened apart =
    let dial : Dial = record { socket = some fd; connect = in_progress } in
    let (c, e, own, others) = dialled fd in
    let far : (fd == evfd) ≡ false = ground (arith, apart) in
    let away : (evfd == c.sockfd) ≡ false = ground (arith, apart, own) in
    let new : (fd == closed_fd) ≡ false = ground (arith, opened) in
    (
      started dial c e (record {
        ip = refl;
        port = refl;
        sockfd = attach-sockfd evfd cb c ∙ own;
        lives = attach-Reaches serve evfd cb c away (begins init dial tt (c, tt) (new, refl) e);
        woken = attach_registered evfd cb c (others evfd far);
      }),
      refl,
    )
  where
    started :
        (dial : Dial) (c : TcpClient)
        → tcp_client no_callback init dial tt ≡ ok (c, tt)
        → Lives serve section cb m fd evfd (record {
          ip = get_string section ip_key [] m;
          port = get_number section port_key 0 m % 2 ^ 16;
          client = attach evfd cb c;
          routes = routes;
        })
        → Returns
            (client_thread section cb routes (some m) dial evfd)
            (Lives serve section cb m fd evfd)
    started dial c e h = rw e h
