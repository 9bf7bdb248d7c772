-- ===== src/Reactor/TcpClient/Send.antt =====
-- What a client queues.
use rins.Prelude.{
  ℕ, ◌+◌, ◌-◌, ◌≤◌, ◌≡◌, refl, sym, ap, ◌∙◌, subst, ◌==◌, ltb, leb, if◌then◌else◌, List, ◌++◌,
  append_assoc, length, length-append, Bool, true, false, not, ◌&&◌, Result, ok, Returns,
  Returns->>=, arith,
}
use rins.Reactor.IoBuf.{IoBuf, write_at}
use rins.Reactor.IoBuf.Laws.{Holds, write_at-Holds}
use rins.Reactor.EventLoop.{add_io_event, epollout}
use rins.Reactor.Callback.{client_write_callback}
use rins.Reactor.Message.{head_bytes}
use rins.Reactor.Message.Wire.{length-head_bytes}
use rins.Reactor.TcpConn.Framing.{head_of, encode}
use rins.Reactor.TcpClient.{TcpClient, append, queue_message, send_message}

pub append-Holds :
    (b : IoBuf) (cap : ℕ) (xs ys : List ℕ)
    → Holds cap xs b
    → length xs + length ys ≤ cap
    → Returns (append ys b) (Holds cap (xs ++ ys))
unfolding append
append-Holds b cap xs ys h le =
    Returns->>= (write_at b b.len ys) _ _ (Holds cap (xs ++ ys)) (write_at-Holds b cap xs ys h le)
      λ r k. k

-- The message waits behind the others, and EPOLLOUT is asked for if nothing waited before.
pub record Queued (cap : ℕ) (all : List ℕ) (c : TcpClient) (r : Bool × TcpClient) : Type 0 where
  pub succeeds : r.0 ≡ true
  pub queued : Holds cap all r.1.out_buf
  pub input_kept : r.1.in_buf ≡ c.in_buf
  pub stays_connected : r.1.connected ≡ c.connected
  pub armed : r.1.loop ≡ (
      if c.out_buf.len == 0
      then add_io_event true c.sockfd client_write_callback epollout c.loop
      else c.loop)

-- What `send_message` does: it queues the message, or refuses it and changes nothing.
abbrev pub Sent : Bool → ℕ → List ℕ → TcpClient → Bool × TcpClient → Type 0
Sent true cap all c r = Queued cap all c r
Sent false cap all c r = r ≡ (false, c)

queue_message-Queued :
    (cap : ℕ) (xs body : List ℕ) (msgid : ℕ) (c : TcpClient)
    → Holds cap xs c.out_buf
    → length xs + (8 + length body) ≤ cap
    → Returns (queue_message body msgid c) (Queued cap (xs ++ encode (msgid, body)) c)
unfolding queue_message
queue_message-Queued cap xs body msgid c h le =
    let hs = head_bytes (head_of (msgid, body)) in
    let size = length-head_bytes (head_of (msgid, body)) in
    Returns->>= (append hs c.out_buf) _ (Holds cap (xs ++ hs)) _
      (append-Holds c.out_buf cap xs hs h (omega (arith, size)))
      λ d k.
        Returns->>= (append body d) _ (Holds cap ((xs ++ hs) ++ body)) _
          (append-Holds d cap (xs ++ hs) body k (omega (arith, size, length-append xs hs)))
          λ e l. record {
            succeeds = refl;
            queued = subst (λ ys. Holds cap ys e) (append_assoc xs hs body) l;
            input_kept = refl;
            stays_connected = refl;
            armed = refl;
          }

-- Which of the three ways the code takes.
send_message_branches :
    (body : List ℕ) (msgid : ℕ) (c : TcpClient)
    → send_message body msgid c ≡ (
        if c.connected && not (ltb (c.out_buf.capacity - c.out_buf.len) (length body + 8))
        then queue_message body msgid c
        else ok (false, c))
unfolding send_message
send_message_branches body msgid c =
    both c.connected (ltb (c.out_buf.capacity - c.out_buf.len) (length body + 8))
  where
    both :
        (on full : Bool)
        → (if on
            then (if full then ok (false, c) else queue_message body msgid c)
            else ok (false, c))
          ≡ (if on && not full then queue_message body msgid c else ok (false, c))
    both true true = refl
    both true false = refl
    both false full = refl

either_way :
    (fits : Bool) (cap : ℕ) (all : List ℕ) (m : Result (Bool × TcpClient)) (c : TcpClient)
    → (fits ≡ true → Returns m (Queued cap all c))
    → Returns (if fits then m else ok (false, c)) (Sent fits cap all c)
either_way true cap all m c h = h refl
either_way false cap all m c h = refl

-- A client whose output buffer holds bytes from index 0 on queues a message whole behind them, head
-- first, if it is connected and has room for the head and the body, and asks for EPOLLOUT just if
-- nothing waited before; otherwise it refuses the message and stays as it is. No write leaves the
-- buffer.
pub send_message-Sent :
    (cap : ℕ) (xs body : List ℕ) (msgid : ℕ) (c : TcpClient)
    → Holds cap xs c.out_buf
    → Returns (send_message body msgid c) (
        Sent
          (c.connected && leb (length xs + (8 + length body)) cap)
          cap
          (xs ++ encode (msgid, body))
          c)
send_message-Sent cap xs body msgid c h =
    let fits = c.connected && leb (length xs + (8 + length body)) cap in
    let all = xs ++ encode (msgid, body) in
    let same : (c.connected && not (ltb (c.out_buf.capacity - c.out_buf.len) (length body + 8)))
        ≡ fits =
      ground (arith, h) in
    let way : send_message body msgid c
        ≡ (if fits then queue_message body msgid c else ok (false, c)) =
      send_message_branches body msgid c
      ∙ ap (λ b. if b then queue_message body msgid c else ok (false, c)) same in
    subst (λ m. Returns m (Sent fits cap all c)) (sym way)
      (either_way fits cap all (queue_message body msgid c) c
        λ yes. queue_message-Queued cap xs body msgid c h (ground arith))
