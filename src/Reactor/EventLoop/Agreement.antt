-- ===== src/Reactor/EventLoop/Agreement.antt =====
-- The loop's table, its set of descriptors and the interest set of the kernel.
use rins.Prelude.{
  sym, Result, Bool-cases, ℕ, ◌≡◌, refl, List, [], ◌∷◌, Option, none, some, Bool, true, false, not,
  ◌&&◌, ◌||◌, ◌==◌, if◌then◌else◌, arith, Result, ok, Option-cases, inl, inr, subst, ap, ◌∙◌,
}
use rins.Prelude.Maps.{find, contains, find-put, find-remove, contains-insert, contains-erase}
use rins.Reactor.EventLoop.{
  Mask, mask_without, is_empty, IoEvent, Ctl, ctl_add, ctl_mod, ctl_del, EventLoop, init, Action,
  Fired, calls, add_io_event, del_io_event, del_io_mask, action_of, call_of, hup_action, skips,
  epollin, epollout, registered,
}

-- The interest set after a log of calls that all succeed, as epoll_ctl(2) describes it.
unfoldable pub kernel : List Ctl → ℕ → Option Mask
kernel [] fd = none
kernel (ctl_add j m ∷ log) fd = if j == fd then some m else kernel log fd
kernel (ctl_mod j m ∷ log) fd = if j == fd then some m else kernel log fd
kernel (ctl_del j ∷ log) fd = if j == fd then none else kernel log fd

module _ {C : Type 0} where
  abbrev pub mask_of : Option (IoEvent C) → Option Mask
  mask_of none = none
  mask_of (some ev) = some ev.mask

  abbrev pub is_some : Option C → Bool
  is_some none = false
  is_some (some proc) = true

  abbrev pub is_there : Option (IoEvent C) → Bool
  is_there none = false
  is_there (some ev) = true

  -- A registered event has a flag, and a callback for each of its flags.
  abbrev pub is_served : Option (IoEvent C) → Bool
  is_served none = true
  is_served (some ev) =
      (not ev.mask.epollin || is_some ev.read_callback)
      && (not ev.mask.epollout || is_some ev.write_callback)
      && not (is_empty ev.mask)

-- What the kernel may report of a descriptor: flags of its interest set, and HUP or ERR at any
-- time, but nothing of a descriptor that is not registered.
abbrev pub Reported : Fired → Option Mask → Type 0
Reported f none = ⊥
Reported f (some m) =
    ((f.ev_in || f.ev_out || f.ev_hup) ≡ true)
    × ((not f.ev_in || m.epollin) ≡ true)
    × ((not f.ev_out || m.epollout) ≡ true)

module _ {C : Type 0} where
  -- What the loop does with an entry that it has found.
  abbrev chosen : Fired → IoEvent C → Result (Action C)
  unfolding call_of hup_action
  chosen f ev =
      if f.ev_in
      then call_of ev.read_callback
      else if f.ev_out
      then call_of ev.write_callback
      else if f.ev_hup
      then ok (hup_action ev)
      else ok skips

  served-calls :
      (f : Fired) (ev : IoEvent C)
      → is_served (some ev) ≡ true
      → Reported f (some ev.mask)
      → (proc : C) × (chosen f ev ≡ ok (calls proc))
  unfolding call_of hup_action
  served-calls f ev served told = elim (Option-cases ev.read_callback) [
    | inl no_read ↦ elim (Option-cases ev.write_callback) [
      | inl no_write ↦ absurd (ground arith)
      | inr (q, write) ↦ (q, ground arith)
    ]
    | inr (p, read) ↦ elim (Bool-cases (not f.ev_in && f.ev_out)) [
      | inl out ↦ elim (Option-cases ev.write_callback) [
        | inl no_write ↦ absurd (ground arith)
        | inr (q, write) ↦ (q, ground arith)
      ]
      | inr other ↦ (p, ground arith)
    ]
  ]

module _ {C T : Type 0} where
  -- The three tables say the same of the descriptor.
  pub record AgreesAt (fd : ℕ) (l : EventLoop C T) : Type 0 where
    pub in_kernel : kernel l.log fd ≡ mask_of (find fd l.io_evs)
    pub listened : contains fd l.listen_fds ≡ is_there (find fd l.io_evs)
    pub served : is_served (find fd l.io_evs) ≡ true

  pub init-AgreesAt : (fd : ℕ) → AgreesAt fd (init {C = C} {T = T})
  unfolding init find contains kernel
  init-AgreesAt fd = record { in_kernel = refl; listened = refl; served = refl }

  pub add_io_event-AgreesAt :
      (fd j : ℕ) (proc : C) (m : Mask) (l : EventLoop C T)
      → is_empty m ≡ false
      → (m.epollin && m.epollout ≡ false)
      → AgreesAt fd l
      → AgreesAt fd (add_io_event true j proc m l)
  unfolding add_io_event kernel
  add_io_event-AgreesAt fd j proc m l ne one a = ground (
    arith,
    find-put fd j (registered j proc m l.io_evs) l.io_evs,
    contains-insert fd j l.listen_fds,
  )

  pub del_io_event-AgreesAt :
      (fd j : ℕ) (l : EventLoop C T) → AgreesAt fd l → AgreesAt fd (del_io_event j l)
  unfolding del_io_event kernel
  del_io_event-AgreesAt fd j l a =
      ground (arith, find-remove fd j l.io_evs, contains-erase fd j l.listen_fds)

  pub del_io_mask-AgreesAt :
      (fd j : ℕ) (m : Mask) (l : EventLoop C T) → AgreesAt fd l → AgreesAt fd (del_io_mask j m l)
  unfolding del_io_mask kernel
  del_io_mask-AgreesAt fd j m l a = elim (Option-cases (find j l.io_evs)) [
    | inl e ↦ rw (e, del_io_mask) a
    | inr (ev, e) ↦
        rw (e, del_io_mask)
          (ground (
            arith,
            find-remove fd j l.io_evs,
            contains-erase fd j l.listen_fds,
            find-put fd j (record ev { mask = mask_without ev.mask m }) l.io_evs,
          ))
  ]

  -- If the loop's tables and the kernel agree on a descriptor, an event that the kernel reports of
  -- it runs a callback: neither the assertion nor a null callback stops the loop, and no entry is
  -- dropped as unknown.
  pub action_of-calls :
      (f : Fired) (l : EventLoop C T)
      → AgreesAt f.fd l
      → Reported f (kernel l.log f.fd)
      → (proc : C) × (action_of f l ≡ ok (calls proc))
  unfolding action_of
  action_of-calls f l a r = elim (Option-cases (find f.fd l.io_evs)) [
    | inl e ↦ absurd (subst (Reported f) (a.in_kernel ∙ ap mask_of e) r)
    | inr (ev, e) ↦
        let served : is_served (some ev) ≡ true = ap is_served (sym e) ∙ a.served in
        let told : Reported f (some ev.mask) = subst (Reported f) (a.in_kernel ∙ ap mask_of e) r in
        let (proc, q) = served-calls f ev served told in (proc, rw (e, action_of) q)
  ]

-- The calls that the program makes on a loop, with the one flag that each registration has.
pub data Op (C : Type 0) : Type 0 where
  reads writes : ℕ → C → Op C
  leaves : ℕ → Op C
  drops : ℕ → Mask → Op C

module _ {C T : Type 0} where
  unfoldable pub apply : Op C → EventLoop C T → EventLoop C T
  apply (reads fd proc) l = add_io_event true fd proc epollin l
  apply (writes fd proc) l = add_io_event true fd proc epollout l
  apply (leaves fd) l = del_io_event fd l
  apply (drops fd m) l = del_io_mask fd m l

  unfoldable pub run : List (Op C) → EventLoop C T → EventLoop C T
  run [] l = l
  run (o ∷ os) l = run os (apply o l)

  apply-AgreesAt : (fd : ℕ) (o : Op C) (l : EventLoop C T) → AgreesAt fd l → AgreesAt fd (apply o l)
  unfolding apply
  apply-AgreesAt fd (reads j proc) l a = add_io_event-AgreesAt fd j proc epollin l refl refl a
  apply-AgreesAt fd (writes j proc) l a = add_io_event-AgreesAt fd j proc epollout l refl refl a
  apply-AgreesAt fd (leaves j) l a = del_io_event-AgreesAt fd j l a
  apply-AgreesAt fd (drops j m) l a = del_io_mask-AgreesAt fd j m l a

  -- After any sequence of registrations and removals that the kernel accepts, each for one of
  -- EPOLLIN and EPOLLOUT, the loop's table, its set of descriptors and the interest set of the
  -- kernel agree on a descriptor, and each registered direction has its callback, if that was so
  -- before.
  pub run-AgreesAt :
      (fd : ℕ) (os : List (Op C)) (l : EventLoop C T) → AgreesAt fd l → AgreesAt fd (run os l)
  unfolding run
  run-AgreesAt fd [] l a = a
  run-AgreesAt fd (o ∷ os) l a = run-AgreesAt fd os (apply o l) (apply-AgreesAt fd o l a)
