-- ===== src/Reactor/TcpClient/Writing.antt =====
-- What a client writes, with the answers of `write`.
use rins.Prelude.{
  drop-drop, length-drop, ℕ, zero, suc, ◌+◌, ◌≤◌, ◌<◌, ◌≡◌, ◌≢◌, refl, sym, ap, ◌∙◌, subst, List,
  [], ◌∷◌, ◌++◌, length, drop, some, true, false, ◌==◌, if◌then◌else◌, Result, ok, ◌>>=◌, Returns,
  Returns->>=, Returns-eq, Returns-map, arith,
}
use rins.Reactor.IoBuf
use rins.Reactor.IoBuf.{IoBuf, contents, pop}
use rins.Reactor.IoBuf.Laws.{Holds, adjust_lem, contents-pop, capacity-pop, pop-IsValid}
use rins.Reactor.ReactorBuf.{Attempts, retry, WriteRet, again, write_failed, wrote}
use rins.Reactor.EventLoop.{epollout, del_io_event, del_io_mask}
use rins.Reactor.TcpConn.{closed_fd}
use rins.Reactor.TcpClient.{TcpClient}
use rins.Reactor.TcpClient.Link.{Dial, in_progress, do_connect, clean_conn, write_loop, do_write}

-- The calls of `write` take these numbers of bytes, each at least one.
abbrev pub AreTaken : List (Attempts WriteRet × Dial) → List ℕ → Type 0
AreTaken [] [] = Unit
AreTaken ((a, dial) ∷ answers) (n ∷ ns) = (retry a ≡ wrote n) × (0 < n) × AreTaken answers ns
AreTaken _ _ = ⊥

abbrev pub total : List ℕ → ℕ
total [] = 0
total (n ∷ ns) = n + total ns

-- One write, and the rest moved to the front.
taken-Holds :
    (cap n : ℕ) (xs : List ℕ) (b : IoBuf)
    → n ≤ length xs
    → Holds cap xs b
    → Returns (IoBuf.adjust (pop b n)) (Holds cap (drop n xs))
taken-Holds cap n xs b le h =
    let c = pop b n in
    Returns-map (IoBuf.adjust c) (Holds c.capacity (contents c)) (Holds cap (drop n xs))
      (λ d k.
        subst (λ m. Holds m (drop n xs) d) (capacity-pop b n ∙ h.size)
          (subst (λ l. Holds c.capacity l d)
            (contents-pop b n (omega (arith, h.count)) ∙ ap (drop n) h.bytes) k))
      (adjust_lem c
        (pop-IsValid b n (record { fits = omega (arith, h.front, h.count, h.size, h.room) })))

module _ {U : Type 0} (conn_start_cb conn_close_cb : TcpClient × U → Result (TcpClient × U)) where
  -- The loop goes on with the bytes that have not been taken.
  write_loop-AreTaken :
      (cap : ℕ) (xs : List ℕ) (answers tail : List (Attempts WriteRet × Dial)) (ns : List ℕ)
      (c : TcpClient) (u : U)
      → AreTaken answers ns
      → total ns ≤ length xs
      → Holds cap xs c.out_buf
      → (b : IoBuf) × Holds cap (drop (total ns) xs) b
        × (write_loop conn_start_cb conn_close_cb (answers ++ tail) (c, u)
            ≡ write_loop conn_start_cb conn_close_cb tail (record c { out_buf = b }, u))
  unfolding write_loop
  write_loop-AreTaken cap xs [] tail [] c u taken le h = (c.out_buf, h, refl)
  write_loop-AreTaken cap xs [] tail (n ∷ ns) c u taken le h = absurd taken
  write_loop-AreTaken cap xs (a ∷ answers) tail [] c u taken le h = absurd taken
  write_loop-AreTaken cap xs ((a, dial) ∷ answers) tail (zero ∷ ns) c u taken le h =
      absurd (omega (arith, taken.1))
  write_loop-AreTaken cap xs ((a, dial) ∷ answers) tail (suc n ∷ ns) c u taken le h =
      let waits : (c.out_buf.len == 0) ≡ false = ground (arith, h.count) in
      let (d, ed, kd) =
        Returns-eq (IoBuf.adjust (pop c.out_buf (suc n))) _
          (taken-Holds cap (suc n) xs c.out_buf (omega arith) h) in
      let (b, kb, eb) =
        write_loop-AreTaken cap (drop (suc n) xs) answers tail ns (record c { out_buf = d }) u
          taken.2 (omega (arith, length-drop (suc n) xs (omega arith))) kd in
      (
        b,
        subst (λ l. Holds cap l b) (drop-drop (total ns) (suc n) xs) kb,
        simp (waits, taken.0, ed) eb,
      )

  -- After the last answer the loop ends with what is left.
  write_loop-again :
      (last : Attempts WriteRet) (dial : Dial) (s : TcpClient × U)
      → retry last ≡ again
      → write_loop conn_start_cb conn_close_cb ((last, dial) ∷ []) s ≡ ok s
  unfolding write_loop
  write_loop-again last dial s e = simp e (ground arith)

  write_loop-failed :
      (broken : Attempts WriteRet) (dial : Dial) (tail : List (Attempts WriteRet × Dial))
      (s : TcpClient × U)
      → retry broken ≡ write_failed
      → (s.0.out_buf.len == 0) ≡ false
      → write_loop conn_start_cb conn_close_cb ((broken, dial) ∷ tail) s ≡ (
          clean_conn conn_start_cb conn_close_cb dial s
          >>= write_loop conn_start_cb conn_close_cb tail)
  unfolding write_loop
  write_loop-failed broken dial tail s e waits = simp (e, waits) refl

  do_write_starts :
      (cap : ℕ) (xs : List ℕ) (answers : List (Attempts WriteRet × Dial)) (c : TcpClient) (u : U)
      → 0 < length xs
      → Holds cap xs c.out_buf
      → do_write conn_start_cb conn_close_cb answers (c, u) ≡ (
          write_loop conn_start_cb conn_close_cb answers (c, u) >>= λ t. ok (
            if t.0.out_buf.len == 0
            then (record t.0 { loop = del_io_mask t.0.sockfd epollout t.0.loop }, t.1)
            else t))
  unfolding do_write
  do_write_starts cap xs answers c u pos h =
      let front : (c.out_buf.head == 0) ≡ true = ground (arith, h.front) in
      let waits : (c.out_buf.len == 0) ≡ false = ground (arith, h.count) in simp (front, waits) refl

  -- While write takes some bytes in each of its calls, however many, and then answers EAGAIN,
  -- do_write takes the same number of bytes off the front of the output buffer and keeps the others
  -- in order; EPOLLOUT is dropped just if all have been taken, and the input buffer and the
  -- handlers' state stay. The buffer holds its bytes, one at least, from index 0 on.
  pub do_write-Drained :
      (cap : ℕ) (xs : List ℕ) (answers : List (Attempts WriteRet × Dial)) (ns : List ℕ)
      (last : Attempts WriteRet) (dial : Dial) (c : TcpClient) (u : U)
      → 0 < length xs
      → AreTaken answers ns
      → total ns ≤ length xs
      → retry last ≡ again
      → Holds cap xs c.out_buf
      → Returns (do_write conn_start_cb conn_close_cb (answers ++ ((last, dial) ∷ [])) (c, u)) (λ t.
        Holds cap (drop (total ns) xs) t.0.out_buf
        × (t.0.loop
            ≡ (if total ns == length xs then del_io_mask c.sockfd epollout c.loop else c.loop))
        × (t.0.in_buf ≡ c.in_buf)
        × (t.1 ≡ u))
  do_write-Drained cap xs answers ns last dial c u pos taken le e h =
      let tail : List (Attempts WriteRet × Dial) = (last, dial) ∷ [] in
      let (b, kb, eb) = write_loop-AreTaken cap xs answers tail ns c u taken le h in
      let size = length-drop (total ns) xs le in
      rw
        (
          do_write_starts cap xs (answers ++ tail) c u pos h,
          eb,
          write_loop-again last dial (record c { out_buf = b }, u) e,
        )
        (ground (arith, kb, kb.count, size))

  clean_conn-in_progress :
      (keeps : (s : TcpClient × U) → Returns (conn_close_cb s) (λ t. t.0 ≡ s.0)) (fd : ℕ)
      (dial : Dial) (s : TcpClient × U)
      → s.0.sockfd ≢ closed_fd
      → dial.socket ≡ some fd
      → dial.connect ≡ in_progress
      → Returns
          (clean_conn conn_start_cb conn_close_cb dial s)
          (λ t. (t.0.out_buf ≡ s.0.out_buf) × (t.0.sockfd ≡ fd) × (t.0.connected ≡ false))
  unfolding clean_conn do_connect
  clean_conn-in_progress keeps fd dial (c, u) opened ef ec =
      let off : TcpClient = record c {
        connected = false;
        loop = if c.sockfd == closed_fd then c.loop else del_io_event c.sockfd c.loop;
      } in
      let open_fd : (c.sockfd == closed_fd) ≡ false = ground (arith, opened) in
      Returns->>= (conn_close_cb (off, u)) _ _ _ (keeps (off, u)) λ t k.
        rw (ap (λ d. d.sockfd == closed_fd) k ∙ open_fd, ef, ec)
          (ap (λ d. d.out_buf) k, refl, ap (λ d. d.connected) k)

  -- If write fails after it has taken some of the waiting bytes, or none, but not all, and the
  -- client connects again with EINPROGRESS, the bytes that were not taken are what the new
  -- connection starts with, also where they begin inside a message. The client has a descriptor and
  -- holds its bytes from index 0 on, the close callback leaves the client alone, and EAGAIN is the
  -- next answer of write.
  pub do_write-resumes :
      (keeps : (s : TcpClient × U) → Returns (conn_close_cb s) (λ t. t.0 ≡ s.0)) (cap fd : ℕ)
      (xs : List ℕ) (answers : List (Attempts WriteRet × Dial)) (ns : List ℕ)
      (broken last : Attempts WriteRet) (dial dial' : Dial) (c : TcpClient) (u : U)
      → AreTaken answers ns
      → total ns < length xs
      → retry broken ≡ write_failed
      → retry last ≡ again
      → c.sockfd ≢ closed_fd
      → dial.socket ≡ some fd
      → dial.connect ≡ in_progress
      → Holds cap xs c.out_buf
      → Returns
          (do_write conn_start_cb conn_close_cb
            (answers ++ ((broken, dial) ∷ (last, dial') ∷ []))
            (c, u))
          (λ t.
            Holds cap (drop (total ns) xs) t.0.out_buf
            × (t.0.sockfd ≡ fd)
            × (t.0.connected ≡ false))
  do_write-resumes keeps cap fd xs answers ns broken last dial dial' c u taken lt eb el opened ef ec
        h =
      let tail : List (Attempts WriteRet × Dial) = (broken, dial) ∷ (last, dial') ∷ [] in
      let (b, kb, same) = write_loop-AreTaken cap xs answers tail ns c u taken (omega arith) h in
      let size = length-drop (total ns) xs (omega arith) in
      let waits : (b.len == 0) ≡ false = ground (arith, kb.count, size) in
      let stopped : TcpClient = record c { out_buf = b } in
      let Resumes : TcpClient × U → Type 0 = λ t.
        Holds cap (drop (total ns) xs) t.0.out_buf × (t.0.sockfd ≡ fd) × (t.0.connected ≡ false) in
      rw
        (
          do_write_starts cap xs (answers ++ tail) c u (omega arith) h,
          same,
          write_loop-failed broken dial ((last, dial') ∷ []) (stopped, u) eb waits,
        )
        (Returns->>=
          (clean_conn conn_start_cb conn_close_cb dial (stopped, u)
            >>= write_loop conn_start_cb conn_close_cb ((last, dial') ∷ []))
          _ Resumes Resumes
          (Returns->>= (clean_conn conn_start_cb conn_close_cb dial (stopped, u)) _ Resumes Resumes
            (Returns-map (clean_conn conn_start_cb conn_close_cb dial (stopped, u)) _ Resumes
              (λ t g. (subst (Holds cap (drop (total ns) xs)) (sym g.0) kb, g.1, g.2))
              (clean_conn-in_progress keeps fd dial (stopped, u) opened ef ec))
            λ t g. rw (write_loop-again last dial' t el) g)
          λ t g. ground (arith, g.0, g.1, g.2))
