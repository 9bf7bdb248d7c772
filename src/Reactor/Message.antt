-- ===== src/Reactor/Message.antt =====
-- reactor/include/message.h: the head of a message on the wire, and the table of handlers.
pub mod Wire
use rins.Prelude.{
  ℕ, ◌+◌, ◌*◌, ◌/◌, ◌%◌, ◌^◌, ◌≡◌, List, [], ◌∷◌, ◌++◌, Bool, true, false, Option, none, some,
}
use rins.Prelude.Maps.{find, put}

-- `id` and `length` are the bit patterns of two `int`.
pub record MsgHead : Type 0 where
  pub id : ℕ
  pub length : ℕ

abbrev pub message_head_len : ℕ
message_head_len = 8

abbrev pub message_length_limit : ℕ
message_length_limit = 65527

-- An `int` in memory, on the little-endian machines that the program is built for.
unfoldable pub int_bytes : ℕ → List ℕ
int_bytes w = (w % 256) ∷ (w / 256 % 256) ∷ (w / 65536 % 256) ∷ (w / 16777216 % 256) ∷ []

-- `memcpy(buf, &head, MESSAGE_HEAD_LEN)`
unfoldable pub head_bytes : MsgHead → List ℕ
unfolding int_bytes
head_bytes h = int_bytes h.id ++ int_bytes h.length

int_at : ℕ → ℕ → ℕ → ℕ → ℕ
int_at a b c d = a + 256 * b + 65536 * c + 16777216 * d

-- `memcpy(&head, buf, MESSAGE_HEAD_LEN)`: `none` where the buffer has fewer bytes.
unfoldable pub read_head : List ℕ → Option MsgHead
unfolding int_at
read_head (a ∷ b ∷ c ∷ d ∷ e ∷ f ∷ g ∷ h ∷ rest) =
    some (record { id = int_at a b c d; length = int_at e f g h })
read_head _ = none

-- `msg_router`: `C` is the type of the callbacks, `D` that of their arguments.
pub record MsgRouter (C D : Type 0) : Type 0 where
  pub router : List (ℕ × C)
  pub args : List (ℕ × D)

module _ {C D : Type 0} where
  unfoldable pub no_routes : MsgRouter C D
  no_routes = record { router = []; args = [] }

  -- `msg_router::register_msg_router`: true is the return with 0, false that with -1.
  unfoldable pub register_msg_router : ℕ → C → D → MsgRouter C D → Bool × MsgRouter C D
  register_msg_router msgid msg_cb user_data r = elim (find msgid r.router) [
    | some old ↦ (false, r)
    | none ↦
        (true, record { router = put msgid msg_cb r.router; args = put msgid user_data r.args })
  ]

  -- What `msg_router::call` runs, `none` for an identifier that is not registered. `_args[msgid]`
  -- of a missing key would be null; `none` stands for it.
  unfoldable pub route : ℕ → MsgRouter C D → Option (C × Option D)
  route msgid r = elim (find msgid r.router) [
    | none ↦ none
    | some callback ↦ some (callback, find msgid r.args)
  ]
