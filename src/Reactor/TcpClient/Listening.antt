-- ===== src/Reactor/TcpClient/Listening.antt =====
-- What a client registers once it is connected.
use rins.Prelude.{
  ℕ, ◌≡◌, ◌∙◌, subst, inl, inr, Option, none, some, true, false, Bool-cases, ◌==◌, arith,
}
use rins.Prelude.Maps.{find, find-put}
use rins.Reactor.EventLoop.{
  IoEvent, EventLoop, epollin, event_at, no_event, set_callback, registered, add_io_event,
}
use rins.Reactor.Callback.{Callback, Task, client_read_callback, client_write_callback}
use rins.Reactor.TcpClient.{TcpClient}
use rins.Reactor.TcpClient.Link.{watch}
use rins.Reactor.TcpClient.Phase.{starting, linked, Registers, At, Moves, starting-on}
use rins.Reactor.TcpClient.Asking.{find_other, arm, find-arm}

-- An entry, or its lack, once EPOLLIN is asked for.
abbrev listen : Option (IoEvent Callback) → Option (IoEvent Callback)
listen o =
    let ev : IoEvent Callback = elim o [ none ↦ no_event | some old ↦ old ] in
    some (record ev {
      mask = record { epollin = true; epollout = ev.mask.epollout };
      read_callback = some client_read_callback;
    })

find-listen :
    (fd : ℕ) (loop : EventLoop Callback Task)
    → find fd (add_io_event true fd client_read_callback epollin loop).io_evs
      ≡ listen (find fd loop.io_evs)
unfolding event_at add_io_event registered set_callback
find-listen fd loop =
    ground
      (arith, find-put fd fd (registered fd client_read_callback epollin loop.io_evs) loop.io_evs)

pub listen_other :
    (j fd : ℕ) (loop : EventLoop Callback Task)
    → (fd == j) ≡ false
    → find j (add_io_event true fd client_read_callback epollin loop).io_evs ≡ find j loop.io_evs
unfolding add_io_event
listen_other j fd loop far =
    ground
      (arith, find-put j fd (registered fd client_read_callback epollin loop.io_evs) loop.io_evs)

idle-Registers :
    (len : ℕ) (o : Option (IoEvent Callback))
    → (len == 0) ≡ true
    → Registers starting true len o
    → Registers linked true len (listen o)
idle-Registers len none e r = ground (arith, r)
idle-Registers len (some ev) e r = ground (arith, r, r.1)

busy-Registers :
    (len : ℕ) (o : Option (IoEvent Callback))
    → (len == 0) ≡ false
    → Registers starting true len o
    → Registers linked true len (arm (listen o))
busy-Registers len none e r = ground (arith, r)
busy-Registers len (some ev) e r = ground (arith, r)

pub watch-Moves : (fd : ℕ) (c : TcpClient) → At starting fd c → Moves linked fd c (watch fd c)
unfolding watch
watch-Moves fd c a =
    let on : c.connected ≡ true =
      starting-on c.out_buf.len c.connected (find fd c.loop.io_evs) a.entry in
    let reading = add_io_event true fd client_read_callback epollin c.loop in
    let before : Registers starting true c.out_buf.len (find fd c.loop.io_evs) =
      subst (λ o. Registers starting o c.out_buf.len (find fd c.loop.io_evs)) on a.entry in
    elim (Bool-cases (c.out_buf.len == 0)) [
      | inl e ↦ rw e (record {
        at = record {
          own = a.own;
          open_fd = a.open_fd;
          front = a.front;
          entry =
              rw (on, find-listen fd c.loop)
                (idle-Registers c.out_buf.len (find fd c.loop.io_evs) e before);
        };
        others = λ j far. listen_other j fd c.loop far;
        grows = omega arith;
      })
      | inr e ↦ rw e (record {
        at = record {
          own = a.own;
          open_fd = a.open_fd;
          front = a.front;
          entry =
              rw (on, find-arm fd reading, find-listen fd c.loop)
                (busy-Registers c.out_buf.len (find fd c.loop.io_evs) e before);
        };
        others = λ j far.
            find_other j fd client_write_callback reading far ∙ listen_other j fd c.loop far;
        grows = omega arith;
      })
    ]
