-- ===== src/Reactor/EventLoop.antt =====
-- reactor/include/event_base.h, reactor/include/event_loop.h and reactor/src/event_loop.cc: the
-- registered events of a loop and their dispatch. A callback stands with its argument; what
-- `epoll_ctl` was asked is a log, and what it answered an argument.
pub mod Agreement
use rins.Prelude.{
  ℕ, List, [], ◌∷◌, ◌++◌, Option, none, some, Bool, true, false, not, ◌&&◌, ◌||◌, if◌then◌else◌,
  Result, ok, fault, ◌>>=◌, assertion, bad_pointer,
}
use rins.Prelude.Maps.{find, put, remove, insert, erase}

-- A set of the flags EPOLLIN and EPOLLOUT, the only ones that the program registers.
pub record Mask : Type 0 where
  pub epollin : Bool
  pub epollout : Bool

abbrev pub epollin : Mask
epollin = record { epollin = true; epollout = false }

abbrev pub epollout : Mask
epollout = record { epollin = false; epollout = true }

-- `a | b`
abbrev pub mask_or : Mask → Mask → Mask
mask_or a b = record { epollin = a.epollin || b.epollin; epollout = a.epollout || b.epollout }

-- `a & ~b`
abbrev pub mask_without : Mask → Mask → Mask
mask_without a b = record {
  epollin = a.epollin && not b.epollin;
  epollout = a.epollout && not b.epollout;
}

abbrev pub is_empty : Mask → Bool
is_empty a = not (a.epollin || a.epollout)

pub record IoEvent (C : Type 0) : Type 0 where
  pub mask : Mask
  pub read_callback : Option C
  pub write_callback : Option C

-- A call of `epoll_ctl`.
pub data Ctl : Type 0 where
  ctl_add : ℕ → Mask → Ctl
  ctl_mod : ℕ → Mask → Ctl
  ctl_del : ℕ → Ctl

-- `tasks` is `_read_tasks`; `log` has the last call of `epoll_ctl` first.
pub record EventLoop (C T : Type 0) : Type 0 where
  pub io_evs : List (ℕ × IoEvent C)
  pub listen_fds : List ℕ
  pub tasks : List T
  pub log : List Ctl

-- What epoll_wait reports of a descriptor.
pub record Fired : Type 0 where
  pub fd : ℕ
  pub ev_in : Bool
  pub ev_out : Bool
  pub ev_hup : Bool

-- What the loop does with a fired event.
pub data Action (C : Type 0) : Type 0 where
  calls : C → Action C
  deletes : Action C
  skips : Action C

module _ {C : Type 0} where
  abbrev pub no_event : IoEvent C
  no_event = record {
    mask = record { epollin = false; epollout = false };
    read_callback = none;
    write_callback = none;
  }

  -- `_io_evs[fd]`, which is default-constructed where it is missing.
  unfoldable pub event_at : ℕ → List (ℕ × IoEvent C) → IoEvent C
  event_at fd evs = elim (find fd evs) [ none ↦ no_event | some ev ↦ ev ]

  unfoldable pub set_callback : Mask → C → IoEvent C → IoEvent C
  set_callback m proc ev =
      if m.epollin
      then record ev { read_callback = some proc }
      else if m.epollout
      then record ev { write_callback = some proc }
      else ev

  -- The entry of `fd` with the callback and the final mask.
  unfoldable pub registered : ℕ → C → Mask → List (ℕ × IoEvent C) → IoEvent C
  unfolding event_at set_callback
  registered fd proc m evs = record (set_callback m proc (event_at fd evs)) {
    mask = mask_or (event_at fd evs).mask m;
  }

  unfoldable pub ctl_for : ℕ → Mask → List (ℕ × IoEvent C) → Ctl
  ctl_for fd m evs = elim (find fd evs) [
    | none ↦ ctl_add fd m
    | some ev ↦ ctl_mod fd (mask_or ev.mask m)
  ]

  -- A call through a null function pointer is a fault.
  unfoldable pub call_of : Option C → Result (Action C)
  call_of none = fault bad_pointer
  call_of (some proc) = ok (calls proc)

  hup_action : IoEvent C → Action C
  hup_action ev = elim ev.read_callback [
    | some proc ↦ calls proc
    | none ↦ elim ev.write_callback [ some proc ↦ calls proc | none ↦ deletes ]
  ]

module _ {C T : Type 0} where
  -- `event_loop::event_loop`
  unfoldable pub init : EventLoop C T
  init = record { io_evs = []; listen_fds = []; tasks = []; log = [] }

  -- `event_loop::add_io_event`; `done` is false where epoll_ctl answers -1.
  unfoldable pub add_io_event : Bool → ℕ → C → Mask → EventLoop C T → EventLoop C T
  unfolding registered ctl_for
  add_io_event done fd proc m l = record l {
    io_evs = put fd (registered fd proc m l.io_evs) l.io_evs;
    listen_fds = if done then insert fd l.listen_fds else l.listen_fds;
    log = ctl_for fd m l.io_evs ∷ l.log;
  }

  -- `event_loop::del_io_event(int fd)`
  unfoldable pub del_io_event : ℕ → EventLoop C T → EventLoop C T
  del_io_event fd l = record l {
    io_evs = remove fd l.io_evs;
    listen_fds = erase fd l.listen_fds;
    log = ctl_del fd ∷ l.log;
  }

  -- `event_loop::del_io_event(int fd, int mask)`
  unfoldable pub del_io_mask : ℕ → Mask → EventLoop C T → EventLoop C T
  unfolding del_io_event
  del_io_mask fd m l = elim (find fd l.io_evs) [
    | none ↦ l
    | some ev ↦
        (if is_empty (mask_without ev.mask m) then del_io_event fd l else record l {
          io_evs = put fd (record ev { mask = mask_without ev.mask m }) l.io_evs;
          log = ctl_mod fd (mask_without ev.mask m) ∷ l.log;
        })
  ]

  -- `event_loop::add_task`
  unfoldable pub add_task : T → EventLoop C T → EventLoop C T
  add_task t l = record l { tasks = l.tasks ++ (t ∷ []) }

  -- `get_listen_fds`
  unfoldable pub get_listen_fds : EventLoop C T → List ℕ
  get_listen_fds l = l.listen_fds

  -- The body of the loop over `_fired_evs`, up to the call.
  unfoldable pub action_of : Fired → EventLoop C T → Result (Action C)
  unfolding call_of hup_action
  action_of f l = elim (find f.fd l.io_evs) [
    | none ↦ fault assertion
    | some ev ↦
        (if f.ev_in
          then call_of ev.read_callback
          else if f.ev_out
          then call_of ev.write_callback
          else if f.ev_hup
          then ok (hup_action ev)
          else ok skips)
  ]

module _ {C T W : Type 0} (call : C → ℕ → EventLoop C T × W → Result (EventLoop C T × W)) where
  unfoldable pub perform : Action C → ℕ → EventLoop C T × W → Result (EventLoop C T × W)
  perform (calls proc) fd s = call proc fd s
  perform deletes fd (l, w) = ok (del_io_event fd l, w)
  perform skips fd s = ok s

  -- One batch of `event_process`: the events in order, each looked up when its turn comes.
  unfoldable pub dispatch : List Fired → EventLoop C T × W → Result (EventLoop C T × W)
  unfolding perform
  dispatch [] s = ok s
  dispatch (f ∷ fs) s = do a ← action_of f s.0; s' ← perform a f.fd s; dispatch fs s'

module _ {C T W : Type 0} (run : T → EventLoop C T × W → Result (EventLoop C T × W)) where
  unfoldable pub run_all : List T → EventLoop C T × W → Result (EventLoop C T × W)
  run_all [] s = ok s
  run_all (t ∷ ts) s = do s' ← run t s; run_all ts s'

  -- `event_loop::execute_ready_task`, for tasks that do not call `add_task`.
  unfoldable pub execute_ready_task : EventLoop C T × W → Result (EventLoop C T × W)
  unfolding run_all
  execute_ready_task s = do s' ← run_all s.0.tasks s; ok (record s'.0 { tasks = [] }, s'.1)

module _ {C T W : Type 0} (call : C → ℕ → EventLoop C T × W → Result (EventLoop C T × W))
    (run : T → EventLoop C T × W → Result (EventLoop C T × W)) where
  -- The rounds of `event_process`, each with what `epoll_wait` reports in it.
  unfoldable pub event_process : List (List Fired) → EventLoop C T × W → Result (EventLoop C T × W)
  event_process [] s = ok s
  event_process (fired_evs ∷ rounds) s = do
    s' ← dispatch call fired_evs s
    t ← execute_ready_task run s'
    event_process rounds t
