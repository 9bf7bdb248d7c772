-- ===== src/Reactor/TcpClient/Flushing.antt =====
-- What a client's writing does to its registration with the loop.
use rins.Prelude.{
  ℕ, zero, suc, ◌<◌, ◌≡◌, refl, subst, ◌⊎◌, inl, inr, List, [], ◌∷◌, Option, none, some, Bool, true,
  false, Bool-cases, ◌==◌, Result, IfReturns, IfReturns->>=, arith,
}
use rins.Prelude.Maps.{find}
use rins.Reactor.IoBuf.{IoBuf, pop, adjust}
use rins.Reactor.ReactorBuf.{Attempts, retry, WriteRet, again, write_failed, wrote}
use rins.Reactor.EventLoop.{IoEvent}
use rins.Reactor.Callback.{Callback}
use rins.Reactor.TcpClient.{TcpClient}
use rins.Reactor.TcpClient.Link.{
  Dial, ConnectRet, connected, in_progress, refused, clean_conn, write_loop,
}
use rins.Reactor.TcpClient.Phase.{starting, linked, flushing, waiting, lost, Registers, At}
use rins.Reactor.TcpClient.Dialling.{Keeps, Free, Usable, Redialled, clean_conn-Redialled}

abbrev is_up : ConnectRet → Bool
is_up connected = true
is_up in_progress = false
is_up refused = false

abbrev HonestAfter : (Bool → Type 0) → ConnectRet → WriteRet → Type 0
HonestAfter rest ret again = Unit
HonestAfter rest ret write_failed = rest (is_up ret)
HonestAfter rest ret (wrote n) = rest true

-- The answers to a `do_write`: while the kernel is still connecting a new descriptor, `write` on it
-- answers EAGAIN.
abbrev pub Honest : Bool → List (Attempts WriteRet × Dial) → Type 0
Honest up [] = Unit
Honest false ((a, dial) ∷ answers) = retry a ≡ again
Honest true ((a, dial) ∷ answers) = HonestAfter (λ up. Honest up answers) dial.connect (retry a)

-- The descriptors that `socket` answers are free.
abbrev pub AreUsable : List (Attempts WriteRet × Dial) → TcpClient → Type 0
AreUsable [] c = Unit
AreUsable ((a, dial) ∷ answers) c = Usable dial.socket c × AreUsable answers c

pub Usable-map :
    (c d : TcpClient) → ((j : ℕ) → Free j c → Free j d) → (o : Option ℕ) → Usable o c → Usable o d
Usable-map c d k none h = h
Usable-map c d k (some j) h = (h.0, k j h.1)

AreUsable-map :
    (c d : TcpClient)
    → ((j : ℕ) → Free j c → Free j d)
    → (answers : List (Attempts WriteRet × Dial)) → AreUsable answers c
    → AreUsable answers d
AreUsable-map c d k [] h = tt
AreUsable-map c d k ((a, dial) ∷ answers) h =
    (Usable-map c d k dial.socket h.0, AreUsable-map c d k answers h.1)

flushing-Registers :
    (on : Bool) (len len' : ℕ) (o : Option (IoEvent Callback))
    → Registers flushing on len o
    → Registers flushing on len' o
flushing-Registers on len len' none r = r
flushing-Registers on len len' (some ev) r = r

pub busy-flushing :
    (on : Bool) (len : ℕ) (o : Option (IoEvent Callback))
    → 0 < len
    → Registers linked on len o
    → Registers flushing on len o
busy-flushing on len none lt r = r
busy-flushing on len (some ev) lt r = ground (arith, r)

pub flushed-linked :
    (on : Bool) (len : ℕ) (o : Option (IoEvent Callback))
    → (len == 0) ≡ false
    → Registers flushing on len o
    → Registers linked on len o
flushed-linked on len none e r = r
flushed-linked on len (some ev) e r = ground (arith, r)

adjust-front : (b : IoBuf) → IfReturns (adjust b) (λ d. d.head ≡ 0)
unfolding adjust
adjust-front b = ground arith

-- What the loop of `do_write` leaves.
unfoldable pub Flushed : TcpClient → Type 0
Flushed c = At flushing c.sockfd c ⊎ (At waiting c.sockfd c × (0 < c.out_buf.len))

WriteRet-cases : (w : WriteRet) → (w ≡ again) ⊎ (w ≡ write_failed) ⊎ ((n : ℕ) × (w ≡ wrote n))
WriteRet-cases again = inl refl
WriteRet-cases write_failed = inr (inl refl)
WriteRet-cases (wrote n) = inr (inr (n, refl))

module _ {U : Type 0} (conn_start_cb conn_close_cb : TcpClient × U → Result (TcpClient × U))
    (start_lem : Keeps starting conn_start_cb) (close_lem : Keeps lost conn_close_cb) where
  -- While it is not connected the client gets no answer but EAGAIN.
  write_loop_waits :
      (answers : List (Attempts WriteRet × Dial)) (c : TcpClient) (u : U)
      → Honest false answers
      → At waiting c.sockfd c
      → 0 < c.out_buf.len
      → IfReturns (write_loop conn_start_cb conn_close_cb answers (c, u)) (λ t. Flushed t.0)
  unfolding write_loop Flushed
  write_loop_waits [] c u honest a lt =
      let busy : (c.out_buf.len == 0) ≡ false = ground arith in simp busy tt
  write_loop_waits ((w, dial) ∷ answers) c u honest a lt =
      let busy : (c.out_buf.len == 0) ≡ false = ground arith in simp (busy, honest) (inr (a, lt))

  -- After an error the loop goes on with the new connection.
  Redialled-Flushed :
      (answers : List (Attempts WriteRet × Dial)) (ret : ConnectRet) (c d : TcpClient) (u : U)
      → (Honest true answers
          → AreUsable answers d
          → At flushing d.sockfd d
          → IfReturns (write_loop conn_start_cb conn_close_cb answers (d, u)) (λ t. Flushed t.0))
      → 0 < c.out_buf.len
      → Honest (is_up ret) answers
      → AreUsable answers c
      → Redialled ret c d
      → IfReturns (write_loop conn_start_cb conn_close_cb answers (d, u)) (λ t. Flushed t.0)
  Redialled-Flushed answers connected c d u rest lt honest usable r =
      rest honest (AreUsable-map c d r.free answers usable) (record {
        own = refl;
        open_fd = r.at.open_fd;
        front = r.at.front;
        entry =
            busy-flushing d.connected d.out_buf.len (find d.sockfd d.loop.io_evs)
              (omega (arith, r.grows, lt)) r.at.entry;
      })
  Redialled-Flushed answers in_progress c d u rest lt honest usable r =
      write_loop_waits answers d u honest r.at (omega (arith, r.grows, lt))
  Redialled-Flushed answers refused c d u rest lt honest usable r = absurd r.at.entry

  pub write_loop-Flushed :
      (answers : List (Attempts WriteRet × Dial)) (c : TcpClient) (u : U)
      → Honest true answers
      → AreUsable answers c
      → At flushing c.sockfd c
      → IfReturns (write_loop conn_start_cb conn_close_cb answers (c, u)) (λ t. Flushed t.0)
  unfolding write_loop Flushed
  write_loop-Flushed [] c u honest usable a = ground (arith, a)
  write_loop-Flushed ((w, dial) ∷ answers) c u honest usable a =
      elim (Bool-cases (c.out_buf.len == 0)) [
        | inl idle ↦ simp idle (inl a)
        | inr busy ↦ elim (WriteRet-cases (retry w)) [
          | inl e ↦ simp (busy, e) (inl a)
          | inr (inl e) ↦
              simp (busy, e)
                (IfReturns->>= (clean_conn conn_start_cb conn_close_cb dial (c, u)) _
                  (λ t. Redialled dial.connect c t.0) _
                  (clean_conn-Redialled conn_start_cb conn_close_cb start_lem close_lem flushing
                    dial c u a usable.0)
                  λ t r.
                    Redialled-Flushed answers dial.connect c t.0 t.1
                      (λ h k b. write_loop-Flushed answers t.0 t.1 h k b) (ground arith)
                      (subst (HonestAfter (λ up. Honest up answers) dial.connect) e honest) usable.1
                      r)
          | inr (inr (zero, e)) ↦ simp (busy, e) (inl a)
          | inr (inr (suc n, e)) ↦
              simp (busy, e)
                (IfReturns->>= (adjust (pop c.out_buf (suc n))) _ _ _
                  (adjust-front (pop c.out_buf (suc n)))
                  λ b front.
                    let d : TcpClient = record c { out_buf = b } in
                    write_loop-Flushed answers d u
                      (subst (HonestAfter (λ up. Honest up answers) dial.connect) e honest)
                      (AreUsable-map c d (λ j f. f) answers usable.1)
                      (record {
                        own = refl;
                        open_fd = a.open_fd;
                        front = front;
                        entry =
                            flushing-Registers c.connected c.out_buf.len b.len
                              (find c.sockfd c.loop.io_evs) a.entry;
                      }))
        ]
      ]
