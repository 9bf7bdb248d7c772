-- ===== src/Reactor/LifeTests.antt =====
-- The theorems on the life of a client's connection at a concrete one.
use rins.Prelude.{
  ℕ, ◌≡◌, refl, List, [], ◌∷◌, none, some, false, true, Bool, Result, ok, ◌>>=◌, IfReturns->>=,
}
use rins.Prelude.Maps.{find, put, remove, insert, erase, contains}
use rins.Reactor.Memory.{blank, blit}
use rins.Reactor.IoBuf.{new_buf, write_at}
use rins.Reactor.Message.{head_bytes}
use rins.Reactor.EventLoop.{
  EventLoop, Fired, init, calls, action_of, epollout, ctl_add, ctl_mod, ctl_del, add_io_event,
  del_io_event, registered, set_callback, event_at, ctl_for,
}
use rins.Reactor.Callback.{
  Callback, Task, client_read_callback, client_write_callback, connection_delay,
}
use rins.Reactor.TcpClient.{TcpClient, new_tcp_client, send_message, append}
use rins.Reactor.TcpClient.Link.{Dial, in_progress, tcp_client, do_connect, finish_connect, watch}
use rins.Reactor.TcpClient.Phase.{Phase, starting, linked, lost, Moves}
use rins.Reactor.TcpClient.Asking.{send_message-Moves}
use rins.Reactor.TcpClient.Dialling.{Keeps}
use rins.Reactor.TcpClient.Turns.{Ready, Watched}
use rins.Reactor.TcpClient.Lifecycle.{Reaches, begins, connects, Reaches-Ready, Reaches-Watched}

abbrev State : Type 0
State = TcpClient × Unit {0}

-- A callback that sends a message of one byte
abbrev greet : State → Result State
greet (c, u) = do r ← send_message (7 ∷ []) 2 c; ok (r.1, u)

greet-Keeps : (p : Phase) → Keeps p greet
greet-Keeps p fd c u a =
    IfReturns->>= (send_message (7 ∷ []) 2 c) _ (λ r. Moves p fd c r.1) (λ s. Moves p fd c s.0)
      (send_message-Moves p fd (7 ∷ []) 2 c a) λ r m. m

-- A handler that answers each message with one of its own
abbrev reply : ℕ → ℕ → List ℕ → State → Result State
reply msgid length view s = greet s

abbrev dial : Dial
dial = record { socket = some 5; connect = in_progress }

abbrev fired : Bool → Bool → Fired
fired ins out = record { fd = 5; ev_in = ins; ev_out = out; ev_hup = false }

-- The loop of a client that waits for the kernel
abbrev waiting_loop : EventLoop Callback Task
waiting_loop = record {
  io_evs =
      (5, record { mask = epollout; read_callback = none; write_callback = some connection_delay })
      ∷ [];
  listen_fds = 5 ∷ [];
  tasks = [];
  log = ctl_add 5 epollout ∷ [];
}

abbrev waiting_client : TcpClient
waiting_client = record {
  sockfd = 5;
  connected = false;
  in_buf = record { capacity = 4194304; len = 0; head = 0; block = blank };
  out_buf = record { capacity = 4194304; len = 0; head = 0; block = blank };
  loop = waiting_loop;
}

waiting-Reaches : Reaches greet greet reply (waiting_client, tt)
unfolding tcp_client do_connect new_tcp_client new_buf add_io_event registered set_callback event_at
    ctl_for find put insert init
waiting-Reaches = begins init dial tt (waiting_client, tt) (refl, refl) refl

-- The client is connected in the end, with its greeting to write.
abbrev greeted_client : TcpClient
greeted_client = record {
  sockfd = 5;
  connected = true;
  in_buf = record { capacity = 4194304; len = 0; head = 0; block = blank };
  out_buf = record {
    capacity = 4194304;
    len = 9;
    head = 0;
    block = blit (blit blank 0 (2 ∷ 0 ∷ 0 ∷ 0 ∷ 1 ∷ 0 ∷ 0 ∷ 0 ∷ [])) 8 (7 ∷ []);
  };
  loop = record {
    io_evs =
        (
          5,
          record {
            mask = record { epollin = true; epollout = true };
            read_callback = some client_read_callback;
            write_callback = some client_write_callback;
          },
        )
        ∷ [];
    listen_fds = 5 ∷ [];
    tasks = [];
    log =
        ctl_mod 5 (record { epollin = true; epollout = true })
        ∷ ctl_mod 5 (record { epollin = true; epollout = true })
        ∷ ctl_add 5 epollout
        ∷ ctl_del 5
        ∷ ctl_add 5 epollout
        ∷ [];
  };
}

greeted-Reaches : Reaches greet greet reply (greeted_client, tt)
unfolding finish_connect del_io_event send_message watch append write_at head_bytes add_io_event
    registered set_callback event_at ctl_for find put insert remove erase contains action_of
greeted-Reaches =
    connects (fired false true) 0 (waiting_client, tt) (greeted_client, tt) waiting-Reaches
      (refl, (refl, refl, refl), refl) refl

Reaches-Ready_example :
    (proc : Callback) × (action_of (fired false true) greeted_client.loop ≡ ok (calls proc))
    × Ready proc greeted_client
unfolding find
Reaches-Ready_example =
    Reaches-Ready greet greet reply (greet-Keeps starting) (greet-Keeps lost)
      (λ msgid length view. greet-Keeps linked) (greeted_client, tt) (fired false true)
      greeted-Reaches refl (refl, refl, refl)

Reaches-Watched_example : Watched greeted_client
Reaches-Watched_example =
    Reaches-Watched greet greet reply (greet-Keeps starting) (greet-Keeps lost)
      (λ msgid length view. greet-Keeps linked) (greeted_client, tt) greeted-Reaches refl
