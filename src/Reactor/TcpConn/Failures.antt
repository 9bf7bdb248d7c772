-- ===== src/Reactor/TcpConn/Failures.antt =====
-- `do_read` and a message without a body.
use rins.Prelude.{
  ℕ, zero, suc, ◌^◌, ◌<◌, ◌≡◌, refl, sym, ap, ◌∙◌, subst, List, [], append-nil, length, take, none,
  some, false, ltb, Result, assertion, Returns, Ends, Ends_of_Returns, FailsWith, FailsWith->>=,
  FailsWith-first, arith, inl,
}
use rins.Reactor.ReactorBuf
use rins.Reactor.ReactorBuf.{Attempts, ReadRet, got, retry, IntRet, State, bytes, len, read_data}
use rins.Reactor.ReactorBuf.Room.{IsReady}
use rins.Reactor.ReactorBuf.Input.{
  HasRead, IsHeld, IsReady-IsHeld, len-IsHeld, bytes-IsHeld, read_data-HasRead, pop-null, pop_all,
}
use rins.Reactor.Message.{MsgHead, head_bytes, read_head}
use rins.Reactor.Message.Wire.{read_head-head_bytes, length-head_bytes}
use rins.Reactor.TcpConn.{World, input, set_input, take_message, read_loop, after_read, do_read}

module _ {U : Type 0} (conn_close_cb : World U → Result (World U))
    (serve : ℕ → List ℕ → World U → Result (World U))
    (serve_lem : (id : ℕ) (body : List ℕ) (w : World U)
      → Ends (serve id body w) (λ v. v.conn.in_buf ≡ w.conn.in_buf)) where
  abbrev empty_head : ℕ → MsgHead
  empty_head id = record { id = id; length = 0 }

  -- The pop of the head gives the empty block back; the pop of the body meets a null buffer.
  take_empty :
      (id : ℕ) (w : World U)
      → IsHeld (head_bytes (empty_head id)) (input w)
      → FailsWith assertion (take_message serve (empty_head id) w)
  unfolding take_message
  take_empty id w h =
      FailsWith->>= assertion (ReactorBuf.pop 8 (input w)) _ (λ t. t.0 ≡ none)
        (Ends_of_Returns (ReactorBuf.pop 8 (input w)) _ (
          subst (λ n. Returns (ReactorBuf.pop n (input w)) (λ t. t.0 ≡ none)) size
            (pop_all (head_bytes (empty_head id)) (input w) (omega (arith, size)) h)))
        λ s gone.
          FailsWith->>= assertion (serve id (take 0 (bytes s.0)) (set_input s w)) _
            (λ v. v.conn.in_buf ≡ s.0) (serve_lem id (take 0 (bytes s.0)) (set_input s w))
            λ v same. rw (pop-null 0 (input v) (same ∙ gone)) (inl refl)
    where
      size : length (head_bytes (empty_head id)) ≡ 8
      size = length-head_bytes (empty_head id)

  loop_empty :
      (id fuel : ℕ) (w : World U)
      → id < 2 ^ 32
      → IsHeld (head_bytes (empty_head id)) (input w)
      → FailsWith assertion (read_loop conn_close_cb serve (suc fuel) w)
  unfolding read_loop
  loop_empty id fuel w lt h =
      let new = head_bytes (empty_head id) in
      let here : read_head (bytes w.conn.in_buf) ≡ some (empty_head id) =
        ap read_head (bytes-IsHeld new (input w) h ∙ sym (append-nil new))
        ∙ read_head-head_bytes (empty_head id) [] lt (omega arith) in
      let whole : ltb (len w.conn.in_buf) 8 ≡ false =
        ground (arith, len-IsHeld new (input w) h, length-head_bytes (empty_head id)) in
      rw (here, read_loop)
        (rw whole
          (FailsWith-first assertion (take_message serve (empty_head id) w) _ (take_empty id w h)))

  after_read_empty :
      (id : ℕ) (w : World U) (a : IntRet × State)
      → id < 2 ^ 32
      → HasRead [] (head_bytes (empty_head id)) a
      → FailsWith assertion (after_read conn_close_cb serve a.0 (set_input a.1 w))
  unfolding after_read
  after_read_empty id w (none, s) lt g =
      absurd (omega (arith, g.1, length-head_bytes (empty_head id)))
  after_read_empty id w (some zero, s) lt g =
      absurd (omega (arith, g.1, length-head_bytes (empty_head id)))
  after_read_empty id w (some (suc n), s) lt g =
      let x = set_input s w in
      FailsWith-first assertion (read_loop conn_close_cb serve (suc (len s.0)) x) _
        (loop_empty id (len s.0) x lt (IsReady-IsHeld (head_bytes (empty_head id)) s g.0))

  -- A message without a body that comes in alone, on an empty buffer, makes an assertion fail,
  -- whatever its identifier, for handlers that leave the input buffer alone: do_read pops the body
  -- off a buffer that it has given back. The process may exit for want of memory instead.
  pub do_read_empty_body :
      (id : ℕ) (r : Attempts ReadRet) (w : World U)
      → id < 2 ^ 32
      → retry r ≡ got (head_bytes (empty_head id))
      → IsReady [] (input w)
      → FailsWith assertion (do_read conn_close_cb serve (some 8) r w)
  unfolding do_read
  do_read_empty_body id r w lt e h =
      let new = head_bytes (empty_head id) in
      FailsWith->>= assertion (read_data (some 8) r (input w)) _ (HasRead [] new)
        (subst (λ n. Ends (read_data (some n) r (input w)) (HasRead [] new))
          (length-head_bytes (empty_head id)) (read_data-HasRead [] new r (input w) e h))
        λ a g. after_read_empty id w a lt g
