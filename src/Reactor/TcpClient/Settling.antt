-- ===== src/Reactor/TcpClient/Settling.antt =====
-- Where a client stands between two calls, and that its writing keeps it there.
use rins.Prelude.{
  ℕ, ◌≡◌, refl, subst, ◌⊎◌, inl, inr, List, Option, none, some, Option-cases, Bool, true, false,
  Bool-cases, ◌==◌, if◌then◌else◌, Result, IfReturns, IfReturns->>=, arith,
}
use rins.Prelude.Maps.{find, find-put}
use rins.Reactor.IoBuf.{IoBuf}
use rins.Reactor.ReactorBuf.{Attempts, WriteRet}
use rins.Reactor.EventLoop.{IoEvent, EventLoop, mask_without, epollout, del_io_mask}
use rins.Reactor.Callback.{Callback, Task}
use rins.Reactor.TcpClient.{TcpClient}
use rins.Reactor.TcpClient.Link.{Dial, write_loop, do_write}
use rins.Reactor.TcpClient.Phase.{Phase, starting, linked, flushing, waiting, lost, Registers, At}
use rins.Reactor.TcpClient.Dialling.{Keeps}
use rins.Reactor.TcpClient.Flushing.{
  Honest, AreUsable, Flushed, busy-flushing, flushed-linked, write_loop-Flushed,
}

-- Where a client stands between two calls: it is connected, or the kernel is connecting it, or it
-- has lost its connection.
abbrev pub Settled : TcpClient → Type 0
Settled c = At linked c.sockfd c ⊎ At waiting c.sockfd c ⊎ At lost c.sockfd c

-- An entry, once EPOLLOUT is dropped.
abbrev disarm : Option (IoEvent Callback) → Option (IoEvent Callback)
disarm none = none
disarm (some ev) = some (record ev { mask = record { epollin = true; epollout = false } })

find-del_io_mask :
    (fd len : ℕ) (on : Bool) (loop : EventLoop Callback Task)
    → Registers flushing on len (find fd loop.io_evs)
    → find fd (del_io_mask fd epollout loop).io_evs ≡ disarm (find fd loop.io_evs)
unfolding del_io_mask
find-del_io_mask fd len on loop r = elim (Option-cases (find fd loop.io_evs)) [
  | inl e ↦ absurd (subst (Registers flushing on len) e r)
  | inr (ev, e) ↦
      let q : Registers flushing on len (some ev) = subst (Registers flushing on len) e r in
      let without : IoEvent Callback = record ev { mask = mask_without ev.mask epollout } in
      rw (e, del_io_mask) (ground (arith, q, find-put fd fd without loop.io_evs))
]

disarm-Registers :
    (on : Bool) (len : ℕ) (o : Option (IoEvent Callback))
    → (len == 0) ≡ true
    → Registers flushing on len o
    → Registers linked on len (disarm o)
disarm-Registers on len none e r = r
disarm-Registers on len (some ev) e r = ground (arith, r)

-- The input buffer has no part in it.
pub in_buf-At :
    (p : Phase) (fd : ℕ) (c : TcpClient) (b : IoBuf) → At p fd c → At p fd (record c { in_buf = b })
in_buf-At p fd c b a = record { own = a.own; open_fd = a.open_fd; front = a.front; entry = a.entry }

-- EPOLLOUT is dropped once nothing waits.
stopped-Settled :
    {U : Type 0} (c : TcpClient) (u : U)
    → Flushed c
    → Settled
        (if◌then◌else◌ {A = TcpClient × U}
          (c.out_buf.len == 0)
          (record c { loop = del_io_mask c.sockfd epollout c.loop }, u)
          (c, u)).0
unfolding Flushed
stopped-Settled c u (inr (a, lt)) =
    let busy : (c.out_buf.len == 0) ≡ false = ground arith in simp busy (inr (inl a))
stopped-Settled c u (inl a) = elim (Bool-cases (c.out_buf.len == 0)) [
  | inl idle ↦ simp idle (
      inl (record {
        own = refl;
        open_fd = a.open_fd;
        front = a.front;
        entry =
            rw (find-del_io_mask c.sockfd c.out_buf.len c.connected c.loop a.entry) (
              disarm-Registers c.connected c.out_buf.len (find c.sockfd c.loop.io_evs) idle
                a.entry);
      }))
  | inr busy ↦ simp busy (
      inl (record {
        own = refl;
        open_fd = a.open_fd;
        front = a.front;
        entry = flushed-linked c.connected c.out_buf.len (find c.sockfd c.loop.io_evs) busy a.entry;
      }))
]

module _ {U : Type 0} (conn_start_cb conn_close_cb : TcpClient × U → Result (TcpClient × U))
    (start_lem : Keeps starting conn_start_cb) (close_lem : Keeps lost conn_close_cb) where
  pub do_write-Settled :
      (answers : List (Attempts WriteRet × Dial)) (c : TcpClient) (u : U)
      → Honest true answers
      → AreUsable answers c
      → At linked c.sockfd c
      → IfReturns (do_write conn_start_cb conn_close_cb answers (c, u)) (λ t. Settled t.0)
  unfolding do_write Flushed
  do_write-Settled answers c u honest usable a = elim (Bool-cases (c.out_buf.len == 0)) [
    | inl idle ↦ simp (a.front, idle) tt
    | inr busy ↦
        simp (a.front, busy)
          (IfReturns->>= (write_loop conn_start_cb conn_close_cb answers (c, u)) _
            (λ t. Flushed t.0) _
            (write_loop-Flushed conn_start_cb conn_close_cb start_lem close_lem answers c u honest
              usable
              (record {
                own = refl;
                open_fd = a.open_fd;
                front = a.front;
                entry =
                    busy-flushing c.connected c.out_buf.len (find c.sockfd c.loop.io_evs)
                      (ground arith) a.entry;
              }))
            λ t f. stopped-Settled t.0 t.1 f)
  ]
