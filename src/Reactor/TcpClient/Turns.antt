-- ===== src/Reactor/TcpClient/Turns.antt =====
-- What the loop calls for the events of a client's descriptor, by the phase of the client.
use rins.Prelude.{
  ◌<◌, ◌≡◌, ap, ◌∙◌, subst, inl, inr, some, Option-cases, true, false, Bool-cases, not, ◌&&◌, ◌==◌,
  ok, arith,
}
use rins.Prelude.Maps.{find}
use rins.Reactor.EventLoop.{IoEvent, EventLoop, Fired, calls, action_of}
use rins.Reactor.EventLoop.Agreement.{Reported, mask_of}
use rins.Reactor.Callback.{
  Callback, Task, client_read_callback, client_write_callback, connection_delay,
}
use rins.Reactor.TcpClient.{TcpClient}
use rins.Reactor.TcpClient.Phase.{linked, waiting, lost, Registers, At}
use rins.Reactor.TcpClient.Phase.{linked-on, waiting-off}
use rins.Reactor.TcpClient.Settling.{Settled}

-- The loop calls `proc` for an event of the client's descriptor that the kernel may report.
abbrev pub Turn : Fired → Callback → TcpClient → Type 0
Turn f proc c =
    (f.fd ≡ c.sockfd)
    × Reported f (mask_of (find c.sockfd c.loop.io_evs))
    × (action_of f c.loop ≡ ok (calls proc))

-- The phase that a callback expects
abbrev pub Expects : Callback → TcpClient → Type 0
Expects connection_delay c = At waiting c.sockfd c
Expects client_read_callback c = At linked c.sockfd c
Expects client_write_callback c = At linked c.sockfd c × (0 < c.out_buf.len)
Expects _ c = ⊥

-- What the loop calls for an entry.
abbrev pub Chosen : Fired → EventLoop Callback Task → TcpClient → Type 0
Chosen f loop c = (proc : Callback) × (action_of f loop ≡ ok (calls proc)) × Expects proc c

linked-Chosen :
    (f : Fired) (ev : IoEvent Callback) (c : TcpClient)
    → find f.fd c.loop.io_evs ≡ some ev
    → Registers linked c.connected c.out_buf.len (some ev)
    → Reported f (some ev.mask)
    → At linked c.sockfd c
    → Chosen f c.loop c
unfolding action_of
linked-Chosen f ev c e r told a = elim (Bool-cases (not f.ev_in && f.ev_out)) [
  | inl out ↦ (client_write_callback, ground (arith, r), (a, ground (arith, r)))
  | inr other ↦ (client_read_callback, ground (arith, r), a)
]

waiting-Chosen :
    (f : Fired) (ev : IoEvent Callback) (c : TcpClient)
    → find f.fd c.loop.io_evs ≡ some ev
    → Registers waiting c.connected c.out_buf.len (some ev)
    → Reported f (some ev.mask)
    → At waiting c.sockfd c
    → Chosen f c.loop c
unfolding action_of
waiting-Chosen f ev c e r told a = (connection_delay, ground (arith, r), a)

pub Settled-Chosen :
    (f : Fired) (c : TcpClient)
    → f.fd ≡ c.sockfd
    → Settled c
    → Reported f (mask_of (find c.sockfd c.loop.io_evs))
    → Chosen f c.loop c
Settled-Chosen f c own settled told = elim (Option-cases (find c.sockfd c.loop.io_evs)) [
  | inl e ↦ absurd (subst (λ o. Reported f (mask_of o)) e told)
  | inr (ev, e) ↦
      let here : find f.fd c.loop.io_evs ≡ some ev = ap (λ n. find n c.loop.io_evs) own ∙ e in
      let told' : Reported f (some ev.mask) = subst (λ o. Reported f (mask_of o)) e told in
      elim settled [
        | inl a ↦
            linked-Chosen f ev c here (subst (Registers linked c.connected c.out_buf.len) e a.entry)
              told' a
        | inr (inl a) ↦
            waiting-Chosen f ev c here
              (subst (Registers waiting c.connected c.out_buf.len) e a.entry) told' a
        | inr (inr a) ↦ absurd (subst (Registers lost c.connected c.out_buf.len) e a.entry)
      ]
]

pub Turn-Expects :
    (f : Fired) (proc : Callback) (c : TcpClient) → Settled c → Turn f proc c → Expects proc c
Turn-Expects f proc c settled turn =
    let (q, e, expects) = Settled-Chosen f c turn.0 settled turn.1 in
    let same : q ≡ proc = cc in subst (λ p. Expects p c) same expects

-- What the assertions of a callback ask for.
abbrev pub Ready : Callback → TcpClient → Type 0
Ready connection_delay c = c.connected ≡ false
Ready client_read_callback c = c.connected ≡ true
Ready client_write_callback c = (c.connected ≡ true) × (c.out_buf.head ≡ 0) × (0 < c.out_buf.len)
Ready _ c = ⊥

pub Expects-Ready : (proc : Callback) (c : TcpClient) → Expects proc c → Ready proc c
Expects-Ready connection_delay c a = waiting-off c.connected c.out_buf.len _ a.entry
Expects-Ready client_read_callback c a = linked-on c.connected c.out_buf.len _ a.entry
Expects-Ready client_write_callback c a =
    (linked-on c.connected c.out_buf.len _ a.0.entry, a.0.front, a.1)
Expects-Ready _ c a = absurd a

-- EPOLLIN is registered, and EPOLLOUT just while bytes wait.
abbrev pub Watched : TcpClient → Type 0
Watched c =
    (ev : IoEvent Callback) × (find c.sockfd c.loop.io_evs ≡ some ev)
    × (ev.mask.epollin ≡ true)
    × (ev.read_callback ≡ some client_read_callback)
    × (ev.mask.epollout ≡ not (c.out_buf.len == 0))
    × (ev.mask.epollout ≡ true → ev.write_callback ≡ some client_write_callback)

pub linked-Watched : (c : TcpClient) → At linked c.sockfd c → Watched c
linked-Watched c a = elim (Option-cases (find c.sockfd c.loop.io_evs)) [
  | inl e ↦ absurd (subst (Registers linked c.connected c.out_buf.len) e a.entry)
  | inr (ev, e) ↦
      let (on, ins, reads, out, writes) =
        subst (Registers linked c.connected c.out_buf.len) e a.entry in
      (ev, e, ins, reads, out, writes)
]
