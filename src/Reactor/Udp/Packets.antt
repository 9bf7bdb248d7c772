-- ===== src/Reactor/Udp/Packets.antt =====
-- What goes over UDP: which messages arrive, and which overrun the buffer of the sender.
use rins.Prelude.{
  ℕ, zero, suc, ◌+◌, ◌^◌, ◌≤◌, ◌<◌, ◌≡◌, refl, sym, ap, ◌∙◌, leb, if◌then◌else◌, List, [], ◌∷◌,
  ◌++◌, append-nil, length, length-append, take, take-length-append, drop, drop-length-append, ◌-◌,
  ◌≢◌, none, some, false, Result, ok, fault, ◌>>=◌, out_of_bounds, arith,
}
use rins.Reactor.Memory.{
  Memory, window, blit, window-blit_self, window_at, take-window, drop-window, length-window,
}
use rins.Reactor.Message.{MsgHead, head_bytes, read_head}
use rins.Reactor.Message.Wire.{read_head-head_bytes, length-head_bytes}
use rins.Reactor.Udp.{
  packet, RecvRet, buffered_head, is_malformed, received, handle, read_packets, server_do_read,
  client_do_read, send_message,
}

-- The datagram of a message.
abbrev pub datagram : ℕ → List ℕ → List ℕ
datagram id body = head_bytes (record { id = id; length = length body }) ++ body

-- Over UDP a body of up to 65519 bytes is sent as one datagram, a body longer than 65527 is
-- refused, and one of the eight lengths between them is written past the end of _write_buf.
pub send_message_lem :
    (id : ℕ) (body : List ℕ)
    → send_message body id ≡ (
        if leb (length body) 65519
        then ok (some (datagram id body))
        else if leb (length body) 65527
        then fault out_of_bounds
        else ok none)
unfolding send_message
send_message_lem id body = ground arith

take_all : (xs : List ℕ) (n : ℕ) → length xs ≤ n → take n xs ≡ xs
take_all [] zero h = refl
take_all [] (suc n) h = refl
take_all (x ∷ xs) zero h = absurd (omega arith)
take_all (x ∷ xs) (suc n) h = ap (◌∷◌ x) (take_all xs n (omega arith))

-- The head of a datagram and its body, as they stand in the buffer.
split_window :
    (buf : Memory) (xs ys : List ℕ)
    → (window (blit buf 0 (xs ++ ys)) 0 (length xs) ≡ xs)
      × (window (blit buf 0 (xs ++ ys)) (length xs) (length ys) ≡ ys)
split_window buf xs ys =
    let m = blit buf 0 (xs ++ ys) in
    let all = window-blit_self buf 0 (xs ++ ys) in
    let size = length-append xs ys in
    (
      sym (take-window m 0 (length (xs ++ ys)) (length xs) (omega arith))
          ∙ ap (take (length xs)) all
          ∙ take-length-append xs ys,
      window_at m (length xs) (0 + length xs) (length ys) (length (xs ++ ys) - length xs)
            (omega arith) (omega arith)
          ∙ sym (drop-window m 0 (length (xs ++ ys)) (length xs) (omega arith))
          ∙ ap (drop (length xs)) all
          ∙ drop-length-append xs ys,
    )

-- What the buffer holds when a datagram of one message has come in.
pub datagram_parts :
    (id : ℕ) (body : List ℕ) (buf : Memory)
    → id < 2 ^ 32
    → length body ≤ 65519
    → (buffered_head (blit buf 0 (datagram id body))
        ≡ some (record { id = id; length = length body }))
      × (window (blit buf 0 (datagram id body)) 8 (length body) ≡ body)
unfolding buffered_head
datagram_parts id body buf lt le =
    let hd : MsgHead = record { id = id; length = length body } in
    let (front, back) = split_window buf (head_bytes hd) body in
    let size = length-head_bytes hd in
    let m = blit buf 0 (datagram id body) in
    (
      ap read_head (
            window_at m 0 0 8 (length (head_bytes hd)) refl (sym size)
            ∙ front
            ∙ sym (append-nil (head_bytes hd)))
          ∙ read_head-head_bytes hd [] lt (omega arith),
      window_at m 8 (length (head_bytes hd)) (length body) (length body) (sym size) refl ∙ back,
    )

received-datagram :
    (id : ℕ) (body : List ℕ) → length body ≤ 65519 → received (datagram id body) ≡ datagram id body
received-datagram id body le = take_all (datagram id body) 65527 (
    omega (
      arith,
      length-append (head_bytes (record { id = id; length = length body })) body,
      length-head_bytes (record { id = id; length = length body }),
    ))

module _ {W : Type 0} (serve : ℕ → List ℕ → W → Result W) where
  -- Either loop hands one message to the router, with as many bytes as it takes for the length.
  read_datagram :
      (len : MsgHead → ℕ) (id : ℕ) (body : List ℕ) (rs : List RecvRet) (buf : Memory) (w : W)
      → id < 2 ^ 32
      → length body ≤ 65519
      → read_packets serve len (packet (datagram id body) ∷ rs) buf w ≡ (
          serve id
            (window
              (blit buf 0 (datagram id body))
              8
              (len (record { id = id; length = length body })))
            w
          >>= read_packets serve len rs (blit buf 0 (datagram id body)))
  unfolding read_packets handle
  read_datagram len id body rs buf w lt le =
      let hd : MsgHead = record { id = id; length = length body } in
      let (head, rest) = datagram_parts id body buf lt le in
      let good : is_malformed hd (length (datagram id body)) ≡ false =
        ground (arith, length-append (head_bytes hd) body, length-head_bytes hd) in
      rw (received-datagram id body le) (rw (head, handle) (rw good refl))

  -- A datagram that holds one message of at most 65519 bytes is handed to the server's handler with
  -- its identifier and its body, whatever the buffer held before, and the loop goes on with the
  -- next datagram.
  pub server_do_read-datagram :
      (id : ℕ) (body : List ℕ) (rs : List RecvRet) (buf : Memory) (w : W)
      → id < 2 ^ 32
      → length body ≤ 65519
      → server_do_read serve (packet (datagram id body) ∷ rs) buf w
        ≡ (serve id body w >>= server_do_read serve rs (blit buf 0 (datagram id body)))
  unfolding server_do_read
  server_do_read-datagram id body rs buf w lt le =
      read_datagram (λ head. head.length) id body rs buf w lt le
      ∙ ap
          (λ b.
            serve id b w
            >>= read_packets serve (λ head. head.length) rs (blit buf 0 (datagram id body)))
          ((datagram_parts id body buf lt le).1)

  -- When the client gets a datagram that holds one message of at most 65519 bytes, its handler is
  -- told the identifier as the length: it gets that many bytes of the buffer, which is the body
  -- only if the two numbers are the same.
  pub client_do_read-datagram :
      (id : ℕ) (body : List ℕ) (rs : List RecvRet) (buf : Memory) (w : W)
      → id < 2 ^ 32
      → length body ≤ 65519
      → (client_do_read serve (packet (datagram id body) ∷ rs) buf w ≡ (
          serve id (window (blit buf 0 (datagram id body)) 8 id) w
          >>= client_do_read serve rs (blit buf 0 (datagram id body))))
        × (id ≢ length body → window (blit buf 0 (datagram id body)) 8 id ≢ body)
  unfolding client_do_read
  client_do_read-datagram id body rs buf w lt le = (
    read_datagram (λ head. head.id) id body rs buf w lt le,
    λ ne e. ne (sym (length-window (blit buf 0 (datagram id body)) 8 id) ∙ ap length e),
  )
