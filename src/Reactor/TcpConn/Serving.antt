-- ===== src/Reactor/TcpConn/Serving.antt =====
-- What `do_read` does with the messages of a stream, for handlers that keep up an invariant.
use rins.Prelude.{
  ℕ, zero, suc, ◌+◌, ◌≤◌, ◌<◌, ◌≡◌, sym, ap, ◌∙◌, subst, inl, inr, List, [], ◌∷◌, ◌++◌, length,
  length-append, take, drop, take-length-append, drop-length-append, All, none, some, true, false,
  ltb, Result, ok, ◌>>=◌, Returns-map, Ends, Ends->>=, Ends_of_Returns, arith,
}
use rins.Reactor.BufPool.Laws
use rins.Reactor.BufPool.{m8_m}
use rins.Reactor.ReactorBuf
use rins.Reactor.ReactorBuf.{Attempts, ReadRet, got, retry, IntRet, State, bytes, len, read_data}
use rins.Reactor.ReactorBuf.Room.{IsReady}
use rins.Reactor.ReactorBuf.Input.{
  HasRead, IsHeld, IsReady-IsHeld, len-IsHeld, bytes-IsHeld, pop-IsHeld, adjust-IsReady,
  read_data-HasRead,
}
use rins.Reactor.Message.{head_bytes, read_head}
use rins.Reactor.Message.Wire.{read_head-head_bytes, length-head_bytes}
use rins.Reactor.TcpConn.{World, input, set_input, take_message, read_loop, after_read, do_read}
use rins.Reactor.TcpConn.Framing.{
  Msg, IsMessage, head_of, stream, IsPartial, length-stream, read_head_short, is_bad-head_of,
}

-- `Left ms w` is what is known of the world while the messages `ms` are still to come.
module _ {U : Type 0} (conn_close_cb : World U → Result (World U))
    (serve : ℕ → List ℕ → World U → Result (World U)) (Left : List Msg → World U → Type 0)
    (input_lem : (ms : List Msg) (s : State) (w : World U)
      → Laws.IsValid s.1
      → Left ms w
      → Left ms (set_input s w))
    (serve_lem : (m : Msg) (ms : List Msg) (w : World U)
      → Laws.IsValid w.pool
      → Left (m ∷ ms) w
      → Ends
          (serve m.0 m.1 w)
          (λ v. (v.conn.in_buf ≡ w.conn.in_buf) × Laws.IsValid v.pool × Left ms v)) where
  -- The input of `v` is `rest`, and the messages `ms` are still to come.
  record Took (ms : List Msg) (rest : List ℕ) (v : World U) : Type 0 where
    left : IsHeld rest (input v)
    known : Left ms v

  pop_body :
      (m : Msg) (ms : List Msg) (rest : List ℕ) (s : State)
      → IsMessage m
      → IsHeld (m.1 ++ rest) s
      → (x : World U) → x.conn.in_buf ≡ s.0
      → Laws.IsValid x.pool
      → Left ms x
      → Ends (ReactorBuf.pop (length m.1) (input x) >>= λ t. ok (set_input t x)) (Took ms rest)
  pop_body m ms rest s v hs x same ok_pool known =
      let held : IsHeld (m.1 ++ rest) (input x) = record {
        held = subst (λ b. ReactorBuf.Input.HeldAt b (m.1 ++ rest)) (sym same) hs.held;
        pool = ok_pool;
      } in
      let size : length (m.1 ++ rest) ≡ length m.1 + length rest = length-append m.1 rest in
      Ends->>= (ReactorBuf.pop (length m.1) (input x)) _ (IsHeld (drop (length m.1) (m.1 ++ rest)))
        (Took ms rest)
        (Ends_of_Returns (ReactorBuf.pop (length m.1) (input x)) _
          (pop-IsHeld (length m.1) (m.1 ++ rest) (input x) (omega arith) (omega arith) held))
        λ t ht. record {
          left = subst (λ l. IsHeld l t) (drop-length-append m.1 rest) ht;
          known = input_lem ms t x ht.pool known;
        }

  take_message-Took :
      (m : Msg) (ms : List Msg) (rest : List ℕ) (w : World U)
      → IsMessage m
      → Left (m ∷ ms) w
      → IsHeld (head_bytes (head_of m) ++ (m.1 ++ rest)) (input w)
      → Ends (take_message serve (head_of m) w) (Took ms rest)
  unfolding take_message
  take_message-Took m ms rest w v known h =
      let head = head_bytes (head_of m) in
      let rest_of = m.1 ++ rest in
      let cut : drop 8 (head ++ rest_of) ≡ rest_of =
        ap (λ n. drop n (head ++ rest_of)) (sym (length-head_bytes (head_of m)))
        ∙ drop-length-append head rest_of in
      let size : length (head ++ rest_of) ≡ 8 + (length m.1 + length rest) = omega (
        arith,
        length-append head rest_of,
        length-append m.1 rest,
        length-head_bytes (head_of m),
      ) in
      Ends->>= (ReactorBuf.pop 8 (input w)) _ (IsHeld rest_of) (Took ms rest)
        (Ends_of_Returns (ReactorBuf.pop 8 (input w)) (IsHeld rest_of) (
          Returns-map (ReactorBuf.pop 8 (input w)) _ (IsHeld rest_of)
            (λ s h'. subst (λ l. IsHeld l s) cut h')
            (pop-IsHeld 8 (head ++ rest_of) (input w) (omega arith) (omega arith) h)))
        λ s hs.
          let got_body : take (length m.1) (bytes s.0) ≡ m.1 =
            ap (take (length m.1)) (bytes-IsHeld rest_of s hs) ∙ take-length-append m.1 rest in
          rw got_body (
            Ends->>= (serve m.0 m.1 (set_input s w)) _ _ (Took ms rest)
              (serve_lem m ms (set_input s w) hs.pool (input_lem (m ∷ ms) s w hs.pool known))
              λ x k. pop_body m ms rest s v hs x k.0 k.1 k.2)

  read_loop-Took :
      (ms later : List Msg) (rest : List ℕ) (fuel : ℕ) (w : World U)
      → length (stream ms rest) < fuel
      → All IsMessage ms
      → IsPartial rest
      → Left (ms ++ later) w
      → IsHeld (stream ms rest) (input w)
      → Ends (read_loop conn_close_cb serve fuel w) (Took later rest)
  unfolding read_loop
  read_loop-Took ms later rest zero w lt vs p known h = absurd (omega arith)
  read_loop-Took [] later rest (suc fuel) w lt vs (inl short) known h =
      let none_here : read_head (bytes w.conn.in_buf) ≡ none =
        ap read_head (bytes-IsHeld rest (input w) h) ∙ read_head_short rest short in
      rw (none_here, read_loop) (record { left = h; known = known })
  read_loop-Took [] later rest (suc fuel) w lt vs (inr (hd, e, good, short)) known h =
      let count : ltb (len w.conn.in_buf) (8 + hd.length) ≡ true =
        ground (arith, len-IsHeld rest (input w) h) in
      let here : read_head (bytes w.conn.in_buf) ≡ some hd =
        ap read_head (bytes-IsHeld rest (input w) h) ∙ e in
      rw (here, read_loop) (rw (good, count) (record { left = h; known = known }))
  read_loop-Took (m ∷ ms) later rest (suc fuel) w lt vs p known h =
      let all = stream (m ∷ ms) rest in
      let size : length all ≡ 8 + (length m.1 + length (stream ms rest)) =
        length-stream m ms rest in
      let good = is_bad-head_of m vs.0 in
      let whole : ltb (len w.conn.in_buf) (8 + length m.1) ≡ false =
        ground (arith, len-IsHeld all (input w) h) in
      let head : read_head all ≡ some (head_of m) =
        read_head-head_bytes (head_of m) (m.1 ++ stream ms rest) vs.0.0 (omega arith) in
      let here : read_head (bytes w.conn.in_buf) ≡ some (head_of m) =
        ap read_head (bytes-IsHeld all (input w) h) ∙ head in
      rw (here, read_loop)
        (rw (good, whole)
          (Ends->>= (take_message serve (head_of m) w) _ (Took (ms ++ later) (stream ms rest))
            (Took later rest) (take_message-Took m (ms ++ later) (stream ms rest) w vs.0 known h)
            λ x t. read_loop-Took ms later rest fuel x (omega arith) vs.1 p t.known t.left))

  after_read-Took :
      (ms later : List Msg) (old new rest : List ℕ) (w : World U) (a : IntRet × State)
      → 0 < length new
      → length old + length new ≤ m8_m
      → old ++ new ≡ stream ms rest
      → All IsMessage ms
      → IsPartial rest
      → Left (ms ++ later) w
      → HasRead old new a
      → Ends
          (after_read conn_close_cb serve a.0 (set_input a.1 w))
          (λ v. IsReady rest (input v) × Left later v)
  unfolding after_read
  after_read-Took ms later old new rest w (none, s) pos fits cut vs p known g =
      absurd (omega (arith, g.1))
  after_read-Took ms later old new rest w (some zero, s) pos fits cut vs p known g =
      absurd (omega (arith, g.1))
  after_read-Took ms later old new rest w (some (suc n), s) pos fits cut vs p known g =
      let x = set_input s w in
      let held : IsHeld (stream ms rest) s =
        subst (λ l. IsHeld l s) cut (IsReady-IsHeld (old ++ new) s g.0) in
      let enough : length (stream ms rest) < suc (len s.0) =
        omega (arith, len-IsHeld (stream ms rest) s held) in
      Ends->>= (read_loop conn_close_cb serve (suc (len s.0)) x) _ (Took later rest) _
        (read_loop-Took ms later rest (suc (len s.0)) x enough vs p
          (input_lem (ms ++ later) s w held.pool known) held)
        λ v t.
          Ends->>= (ReactorBuf.adjust (input v)) _ (IsReady rest) _
            (Ends_of_Returns (ReactorBuf.adjust (input v)) (IsReady rest)
              (adjust-IsReady rest (input v) t.left))
            λ u ready. (ready, input_lem later u v ready.pool t.known)

  -- A read of all waiting bytes serves the whole messages, and keeps the beginning of the next one.
  pub do_read-Serves :
      (ms later : List Msg) (old new rest : List ℕ) (r : Attempts ReadRet) (w : World U)
      → retry r ≡ got new
      → 0 < length new
      → length old + length new ≤ m8_m
      → old ++ new ≡ stream ms rest
      → All IsMessage ms
      → IsPartial rest
      → Left (ms ++ later) w
      → IsReady old (input w)
      → Ends
          (do_read conn_close_cb serve (some (length new)) r w)
          (λ v. IsReady rest (input v) × Left later v)
  unfolding do_read
  do_read-Serves ms later old new rest r w e pos fits cut vs p known h =
      Ends->>= (read_data (some (length new)) r (input w)) _ (HasRead old new) _
        (read_data-HasRead old new r (input w) e h)
        λ a g. after_read-Took ms later old new rest w a pos fits cut vs p known g
