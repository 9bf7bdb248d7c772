-- ===== src/Reactor/TcpConn/Send.antt =====
-- `tcp_conn::send_message`: what it queues, when it asks for EPOLLOUT, and when it overruns.
use rins.Prelude.{
  ℕ, ◌+◌, ◌≤◌, ◌<◌, ◌≡◌, refl, sym, ap, subst, List, [], ◌++◌, append_assoc, length, length-append,
  Option, none, some, Bool, true, ◌==◌, if◌then◌else◌, Ends, Ends->>=, Ends-both, FailsWith,
  FailsWith->>=, FailsWith-first, out_of_bounds, arith,
}
use rins.Reactor.IoBuf.{IoBuf}
use rins.Reactor.BufPool.{m4_k, class_of}
use rins.Reactor.BufPool.Laws
use rins.Reactor.EventLoop.{epollout, add_io_event}
use rins.Reactor.Callback.{conn_wt_callback}
use rins.Reactor.ReactorBuf.{State, len, send_data}
use rins.Reactor.ReactorBuf.Room.{IsReady, HoldsAt}
use rins.Reactor.ReactorBuf.Output.{Fits, send_data-IsReady, send_data-Overruns}
use rins.Reactor.ReactorBuf.Capacity.{SizeIs, send_data_kept, send_data_fresh}
use rins.Reactor.Message.{head_bytes}
use rins.Reactor.Message.Wire.{length-head_bytes}
use rins.Reactor.TcpConn.{World, output, set_output, send_body, send_message}
use rins.Reactor.TcpConn.Framing.{head_of, encode}

-- The size of the block that the next data go into, 4 KB where there is none yet.
abbrev pub capacity_of : Option IoBuf → ℕ
capacity_of none = m4_k
capacity_of (some b) = b.capacity

class_of_head : (hs : List ℕ) → length hs ≡ 8 → class_of (length hs) ≡ some m4_k
unfolding class_of
class_of_head hs e = ground arith

-- The head goes into the block, or into a fresh one of 4 KB.
head_queued :
    (xs hs : List ℕ) (s : State)
    → IsReady xs s
    → length hs ≡ 8
    → length xs + 8 ≤ capacity_of s.0
    → Ends
        (send_data hs s)
        (λ r. ((r.0 ≡ true) × IsReady (xs ++ hs) r.1) × SizeIs (capacity_of s.0) r.1.0)
head_queued xs hs (none, p) h size le =
    Ends-both (send_data hs (none, p)) _ _ (send_data-IsReady xs hs (none, p) h (omega arith))
      (send_data_fresh m4_k hs p (class_of_head hs size) (omega arith) h.pool)
head_queued xs hs (some b, p) h size le =
    Ends-both (send_data hs (some b, p)) _ _ (send_data-IsReady xs hs (some b, p) h (omega arith))
      (send_data_kept hs b p h.held.0.front (omega (arith, h.held.0.count)))

SizeIs-Fits :
    (c : ℕ) (o : Option IoBuf) (xs ys : List ℕ)
    → SizeIs c o
    → length xs + length ys ≤ c
    → Fits o xs ys
SizeIs-Fits c none xs ys e le = absurd e
SizeIs-Fits c (some b) xs ys e le = omega arith

-- The block that has room for the body stays.
body_kept :
    (c : ℕ) (xs body : List ℕ) (s : State)
    → IsReady xs s
    → SizeIs c s.0
    → length xs + length body ≤ c
    → Ends (send_data body s) (λ r. SizeIs c r.1.0)
body_kept c xs body (none, p) h e le = absurd e
body_kept c xs body (some b, p) h e le =
    subst (λ n. Ends (send_data body (some b, p)) (λ r. SizeIs n r.1.0)) e
      (send_data_kept body b p h.held.0.front (omega (arith, h.held.0.count, e)))

module _ {U : Type 0} where
  -- The message waits behind the others; nothing else of the connection changes, and EPOLLOUT is
  -- asked for if nothing waited before.
  pub record Queued (w : World U) (all : List ℕ) (r : Bool × World U) : Type 0 where
    pub succeeds : r.0 ≡ true
    pub queued : IsReady all (output r.1)
    pub input_kept : r.1.conn.in_buf ≡ w.conn.in_buf
    pub user_kept : r.1.user ≡ w.user
    pub fd_kept : r.1.conn.connfd ≡ w.conn.connfd
    pub room : SizeIs (capacity_of w.conn.out_buf) r.1.conn.out_buf
    pub armed : r.1.loop ≡ (
        if len w.conn.out_buf == 0
        then add_io_event true w.conn.connfd conn_wt_callback epollout w.loop
        else w.loop)

  send_body-Queued :
      (xs body : List ℕ) (w : World U) (s : State)
      → IsReady xs s
      → SizeIs (capacity_of w.conn.out_buf) s.0
      → length xs + length body ≤ capacity_of w.conn.out_buf
      → Ends (send_body (len w.conn.out_buf == 0) body (set_output s w)) (Queued w (xs ++ body))
  unfolding send_body
  send_body-Queued xs body w s h size le =
      let c = capacity_of w.conn.out_buf in
      Ends->>= (send_data body s) _
        (λ r. ((r.0 ≡ true) × IsReady (xs ++ body) r.1) × SizeIs c r.1.0) _
        (Ends-both (send_data body s) _ _
          (send_data-IsReady xs body s h (SizeIs-Fits c s.0 xs body size le))
          (body_kept c xs body s h size le))
        λ r g. rw g.0.0 (record {
          succeeds = refl;
          queued = g.0.1;
          input_kept = refl;
          user_kept = refl;
          fd_kept = refl;
          room = g.1;
          armed = refl;
        })

  -- A message that fits into the block behind the waiting bytes, or into 4 KB where there is no
  -- block, is queued whole behind them, head first; EPOLLOUT is asked for just if nothing waited
  -- before, and the input buffer and the handlers' state stay. The process may exit for want of
  -- memory instead.
  pub send_message-Queued :
      (xs body : List ℕ) (msgid : ℕ) (w : World U)
      → IsReady xs (output w)
      → length xs + (8 + length body) ≤ capacity_of w.conn.out_buf
      → Ends (send_message body msgid w) (Queued w (xs ++ encode (msgid, body)))
  unfolding send_message
  send_message-Queued xs body msgid w h le =
      let hs = head_bytes (head_of (msgid, body)) in
      let size = length-head_bytes (head_of (msgid, body)) in
      Ends->>= (send_data hs (output w)) _ _ _ (head_queued xs hs (output w) h size (omega arith))
        λ r g. rw g.0.0 (
          subst
            (λ l. Ends (send_body (len w.conn.out_buf == 0) body (set_output r.1 w)) (Queued w l))
            (append_assoc xs hs body)
            (send_body-Queued (xs ++ hs) body w r.1 g.0.1 g.1
              (omega (arith, size, length-append xs hs))))

  body_overruns :
      (hs body : List ℕ) (c : ℕ) (active : Bool) (w : World U) (s : State)
      → IsReady hs s
      → SizeIs m4_k s.0
      → length hs ≡ 8
      → m4_k < 8 + length body
      → class_of (length body) ≡ some c
      → c < 8 + length body
      → FailsWith out_of_bounds (send_body active body (set_output s w))
  unfolding send_body
  body_overruns hs body c active w (none, p) h e size big cls small = absurd e
  body_overruns hs body c active w (some b, p) h e size big cls small =
      FailsWith-first out_of_bounds (send_data body (some b, p)) _
        (send_data-Overruns hs body b p c h (omega arith) cls (omega arith))

  -- The first message of an idle connection overruns its block if it does not fit into 4 KB and the
  -- class of its body's length has no room for the head as well: the block that replaces the one of
  -- 4 KB is chosen by the body's length alone. The process may exit for want of memory instead.
  pub send_message-Overruns :
      (body : List ℕ) (msgid c : ℕ) (w : World U)
      → w.conn.out_buf ≡ none
      → Laws.IsValid w.pool
      → m4_k < 8 + length body
      → class_of (length body) ≡ some c
      → c < 8 + length body
      → FailsWith out_of_bounds (send_message body msgid w)
  unfolding send_message
  send_message-Overruns body msgid c w e v big cls small =
      let hs = head_bytes (head_of (msgid, body)) in
      let size = length-head_bytes (head_of (msgid, body)) in
      let empty : IsReady [] (output w) = record {
        held = subst (λ o. HoldsAt o []) (sym e) refl;
        pool = v;
      } in
      FailsWith->>= out_of_bounds (send_data hs (output w)) _
        (λ r. ((r.0 ≡ true) × IsReady ([] ++ hs) r.1) × SizeIs m4_k r.1.0)
        (subst
          (λ n.
            Ends (send_data hs (output w))
              (λ r. ((r.0 ≡ true) × IsReady ([] ++ hs) r.1) × SizeIs n r.1.0))
          (ap capacity_of e)
          (head_queued [] hs (output w) empty size (ground (arith, ap capacity_of e))))
        λ r g. rw g.0.0 (
          body_overruns hs body c (len w.conn.out_buf == 0) (set_output r.1 w) r.1 g.0.1 g.1 size
            big cls small)
