-- ===== src/Reactor/TcpClient/Asking.antt =====
-- How a client asks for EPOLLOUT, and that sending a message keeps its phase.
use rins.Prelude.{
  ℕ, ◌+◌, ◌<◌, ◌≡◌, refl, ◌∙◌, subst, inl, inr, List, length, Option, none, some, true, false,
  Bool-cases, ◌==◌, if◌then◌else◌, IfReturns, IfReturns->>=, arith,
}
use rins.Prelude.Maps.{find, find-put}
use rins.Reactor.IoBuf.{IoBuf, write_at}
use rins.Reactor.EventLoop.{
  IoEvent, EventLoop, epollout, event_at, no_event, set_callback, registered, add_io_event,
}
use rins.Reactor.Callback.{Callback, Task, client_write_callback}
use rins.Reactor.Message.{head_bytes}
use rins.Reactor.Message.Wire.{length-head_bytes}
use rins.Reactor.TcpClient.{TcpClient, append, queue_message, send_message}
use rins.Reactor.TcpClient.Phase.{
  Phase, starting, linked, flushing, waiting, lost, ended, Registers, At, Moves, stays,
  more-Registers,
}

pub find_registered :
    (fd : ℕ) (proc : Callback) (loop : EventLoop Callback Task)
    → find fd (add_io_event true fd proc epollout loop).io_evs
      ≡ some (record (event_at fd loop.io_evs) {
        mask = record { epollin = (event_at fd loop.io_evs).mask.epollin; epollout = true };
        write_callback = some proc;
      })
unfolding add_io_event registered set_callback
find_registered fd proc loop =
    ground (arith, find-put fd fd (registered fd proc epollout loop.io_evs) loop.io_evs)

pub find_other :
    (j fd : ℕ) (proc : Callback) (loop : EventLoop Callback Task)
    → (fd == j) ≡ false
    → find j (add_io_event true fd proc epollout loop).io_evs ≡ find j loop.io_evs
unfolding add_io_event
find_other j fd proc loop e =
    ground (arith, find-put j fd (registered fd proc epollout loop.io_evs) loop.io_evs)

pub append_grows :
    (xs : List ℕ) (b : IoBuf)
    → IfReturns (append xs b) (λ d. (d.len ≡ b.len + length xs) × (d.head ≡ b.head))
unfolding append write_at
append_grows xs b = ground arith

-- An entry, or its lack, once EPOLLOUT is asked for.
abbrev pub arm : Option (IoEvent Callback) → Option (IoEvent Callback)
arm o =
    let ev : IoEvent Callback = elim o [ none ↦ no_event | some old ↦ old ] in
    some (record ev {
      mask = record { epollin = ev.mask.epollin; epollout = true };
      write_callback = some client_write_callback;
    })

pub find-arm :
    (fd : ℕ) (loop : EventLoop Callback Task)
    → find fd (add_io_event true fd client_write_callback epollout loop).io_evs
      ≡ arm (find fd loop.io_evs)
unfolding event_at
find-arm fd loop = find_registered fd client_write_callback loop

arm-Registers :
    (p : Phase) (len : ℕ) (o : Option (IoEvent Callback))
    → 0 < len
    → Registers p true 0 o
    → Registers p true len (arm o)
arm-Registers starting len none lt r = (refl, λ e. (refl, lt))
arm-Registers starting len (some ev) lt r = (refl, λ e. (refl, lt))
arm-Registers linked len none lt r = absurd r
arm-Registers linked len (some ev) lt r = ground (arith, r)
arm-Registers flushing len none lt r = absurd r
arm-Registers flushing len (some ev) lt r = ground (arith, r)
arm-Registers waiting len none lt r = absurd r
arm-Registers waiting len (some ev) lt r = absurd (cc)
arm-Registers lost len none lt r = absurd (cc)
arm-Registers lost len (some ev) lt r = absurd r
arm-Registers ended len o lt r = absurd r

-- A client that is connected asks for EPOLLOUT as soon as something waits.
woken-Moves :
    (p : Phase) (fd : ℕ) (c : TcpClient) (b : IoBuf)
    → At p fd c
    → c.connected ≡ true
    → c.out_buf.len < b.len
    → b.head ≡ c.out_buf.head
    → Moves p fd c (record c {
      out_buf = b;
      loop =
          if c.out_buf.len == 0
          then add_io_event true c.sockfd client_write_callback epollout c.loop
          else c.loop;
    })
woken-Moves p fd c b a on lt front = elim (Bool-cases (c.out_buf.len == 0)) [
  | inl e ↦
      let idle : c.out_buf.len ≡ 0 = ground arith in
      let before : Registers p true 0 (find fd c.loop.io_evs) =
        subst (λ n. Registers p true n (find fd c.loop.io_evs)) idle
          (subst (λ o. Registers p o c.out_buf.len (find fd c.loop.io_evs)) on a.entry) in
      rw (e, a.own)
        (record {
          at = record {
            own = refl;
            open_fd = a.open_fd;
            front = front ∙ a.front;
            entry =
                rw (on, find-arm fd c.loop)
                  (arm-Registers p b.len (find fd c.loop.io_evs) (omega arith) before);
          };
          others = λ j far. find_other j fd client_write_callback c.loop far;
          grows = omega arith;
        })
  | inr e ↦ rw e (record {
    at = record {
      own = a.own;
      open_fd = a.open_fd;
      front = front ∙ a.front;
      entry =
          more-Registers p c.connected c.out_buf.len b.len (find fd c.loop.io_evs) (ground arith)
            (omega arith) a.entry;
    };
    others = λ j far. refl;
    grows = omega arith;
  })
]

queue_message-Moves :
    (p : Phase) (fd : ℕ) (body : List ℕ) (msgid : ℕ) (c : TcpClient)
    → At p fd c
    → c.connected ≡ true
    → IfReturns (queue_message body msgid c) (λ r. Moves p fd c r.1)
unfolding queue_message
queue_message-Moves p fd body msgid c a on =
    let hs = head_bytes (record { id = msgid; length = length body }) in
    IfReturns->>= (append hs c.out_buf) _ _ _ (append_grows hs c.out_buf) λ d k.
      IfReturns->>= (append body d) _ _ _ (append_grows body d) λ b l.
        woken-Moves p fd c b a on
          (omega (arith, k.0, l.0, length-head_bytes (record { id = msgid; length = length body })))
          (l.1 ∙ k.1)

-- `send_message` may be called in every phase.
pub send_message-Moves :
    (p : Phase) (fd : ℕ) (body : List ℕ) (msgid : ℕ) (c : TcpClient)
    → At p fd c
    → IfReturns (send_message body msgid c) (λ r. Moves p fd c r.1)
unfolding send_message
send_message-Moves p fd body msgid c a = elim (Bool-cases c.connected) [
  | inl on ↦ ground (arith, stays a, queue_message-Moves p fd body msgid c a on)
  | inr off ↦ simp off (stays a)
]
