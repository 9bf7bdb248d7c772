-- ===== src/Reactor/TcpConn/Framing.antt =====
-- The bytes of a connection as a stream of messages.
use rins.Prelude.{
  ℕ, ◌+◌, ◌^◌, ◌≤◌, ◌<◌, ◌≡◌, refl, ◌⊎◌, List, [], ◌∷◌, ◌++◌, length, length-append, none, some,
  false, arith,
}
use rins.Reactor.Message.{MsgHead, message_head_len, message_length_limit, head_bytes, read_head}
use rins.Reactor.Message.Wire.{length-head_bytes}
use rins.Reactor.TcpConn.{is_bad}

-- An identifier and a body.
abbrev pub Msg : Type 0
Msg = ℕ × List ℕ

-- What `send_message` can send and `do_read` takes: a body that is not empty.
abbrev pub IsMessage : Msg → Type 0
IsMessage (id, body) = (id < 2 ^ 32) × (0 < length body) × (length body ≤ message_length_limit)

abbrev pub head_of : Msg → MsgHead
head_of (id, body) = record { id = id; length = length body }

abbrev pub encode : Msg → List ℕ
encode (id, body) = head_bytes (head_of (id, body)) ++ body

-- The bytes of the messages in order, and then the rest.
abbrev pub stream : List Msg → List ℕ → List ℕ
stream [] rest = rest
stream (m ∷ ms) rest = head_bytes (head_of m) ++ (m.1 ++ stream ms rest)

pub length-encode : (m : Msg) → length (encode m) ≡ 8 + length m.1
length-encode m =
    omega (arith, length-append (head_bytes (head_of m)) m.1, length-head_bytes (head_of m))

pub length-stream :
    (m : Msg) (ms : List Msg) (rest : List ℕ)
    → length (stream (m ∷ ms) rest) ≡ 8 + (length m.1 + length (stream ms rest))
length-stream m ms rest = omega (
  arith,
  length-append (head_bytes (head_of m)) (m.1 ++ stream ms rest),
  length-append m.1 (stream ms rest),
  length-head_bytes (head_of m),
)

-- The beginning of a message that has not come in whole.
abbrev pub IsPartial : List ℕ → Type 0
IsPartial rest =
    (length rest < message_head_len)
    ⊎ ((h : MsgHead) × (read_head rest ≡ some h)
        × (is_bad h ≡ false)
        × (length rest < message_head_len + h.length))

pub read_head_short : (xs : List ℕ) → length xs < 8 → read_head xs ≡ none
unfolding read_head
read_head_short (a ∷ b ∷ c ∷ d ∷ e ∷ f ∷ g ∷ h ∷ rest) lt = absurd (omega arith)
read_head_short _ lt = refl

pub is_bad-head_of : (m : Msg) → IsMessage m → is_bad (head_of m) ≡ false
is_bad-head_of m v = ground arith
