-- ===== src/Reactor/Message/Wire.antt =====
-- Heads and messages as bytes, and the handler table.
use rins.Prelude.{
  ℕ, ◌^◌, ◌<◌, ◌≡◌, ◌≢◌, refl, List, ◌++◌, length, none, some, Option-cases, inl, inr, arith, ◌==◌,
  if◌then◌else◌, true, false,
}
use rins.Prelude.Maps.{find, find-put}
use rins.Reactor.Message.{MsgHead, head_bytes, read_head, MsgRouter, register_msg_router, route}

-- A head of two 32-bit numbers is read back as it was written, whatever bytes follow.
pub read_head-head_bytes :
    (h : MsgHead) (rest : List ℕ)
    → h.id < 2 ^ 32
    → h.length < 2 ^ 32
    → read_head (head_bytes h ++ rest) ≡ some h
unfolding read_head head_bytes
read_head-head_bytes h rest i l = ground arith

pub length-head_bytes : (h : MsgHead) → length (head_bytes h) ≡ 8
unfolding head_bytes
length-head_bytes h = refl

-- A registered handler is the one that is called, and a second one under its identifier is refused
-- and changes nothing; other identifiers are not affected.
pub route-register_msg_router :
    {C D : Type 0} (j msgid : ℕ) (cb : C) (data' : D) (r : MsgRouter C D)
    → let (done, r') = register_msg_router msgid cb data' r in
      ((find msgid r.router ≡ none)
        → (done ≡ true) × (route j r' ≡ (if msgid == j then some (cb, some data') else route j r)))
      × ((find msgid r.router ≢ none) → (done ≡ false) × (r' ≡ r))
unfolding register_msg_router route
route-register_msg_router j msgid cb data' r = elim (Option-cases (find msgid r.router)) [
  | inl e ↦
      rw (e, register_msg_router)
        (
          λ n. (refl, ground (arith, find-put j msgid cb r.router, find-put j msgid data' r.args)),
          λ n. absurd (n refl),
        )
  | inr (old, e) ↦ rw (e, register_msg_router) (λ n. cc, λ n. (refl, refl))
]
