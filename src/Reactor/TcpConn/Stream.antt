-- ===== src/Reactor/TcpConn/Stream.antt =====
-- A connection over many reads, which may cut the bytes anywhere.
use rins.Prelude.{
  ℕ, ◌+◌, ◌≤◌, ◌<◌, ◌≡◌, refl, sym, ap, ◌∙◌, subst, inl, inr, List, [], ◌∷◌, ◌++◌, append_assoc,
  append-nil, length, length-append, drop, All, some, ltb, Bool-cases, ltb→lt, Result, ok, ◌>>=◌,
  Ends, Ends->>=, arith,
}
use rins.Reactor.BufPool.Laws
use rins.Reactor.ReactorBuf.{State, returned, got, retry}
use rins.Reactor.ReactorBuf.Room.{IsReady}
use rins.Reactor.Message.{head_bytes, read_head}
use rins.Reactor.Message.Wire.{read_head-head_bytes, length-head_bytes}
use rins.Reactor.TcpConn.{World, input, set_input, do_read}
use rins.Reactor.TcpConn.Framing.{
  length-encode, length-stream, Msg, IsMessage, head_of, encode, stream, IsPartial,
}
use rins.Reactor.TcpConn.Serving.{do_read-Serves}

abbrev pub concat : List (List ℕ) → List ℕ
concat [] = []
concat (c ∷ cs) = c ++ concat cs

-- The longer of two beginnings of a list goes on as the list does behind the shorter one.
split_front :
    (xs ys zs ws : List ℕ)
    → xs ++ ys ≡ zs ++ ws
    → length zs ≤ length xs
    → (xs ≡ zs ++ drop (length zs) xs) × (drop (length zs) xs ++ ys ≡ ws)
split_front xs ys [] ws e h = (refl, e)
split_front [] ys (z ∷ zs) ws e h = absurd (omega arith)
split_front (x ∷ xs) ys (z ∷ zs) ws e h =
    let (p, q) = split_front xs ys zs ws (cc) (omega arith) in (cc, q)

-- The bytes `xs` of a stream are whole messages and the beginning of the next.
record Cut (ms : List Msg) (xs ys : List ℕ) : Type 0 where
  whole : List Msg
  later : List Msg
  part : List ℕ
  all : ms ≡ whole ++ later
  read : xs ≡ stream whole part
  partial : IsPartial part
  unread : part ++ ys ≡ stream later []

IsPartial-front :
    (m : Msg) (xs ys rest : List ℕ)
    → IsMessage m
    → xs ++ ys ≡ head_bytes (head_of m) ++ rest
    → length xs < 8 + length m.1
    → IsPartial xs
IsPartial-front m xs ys rest v e lt = elim (Bool-cases (ltb (length xs) 8)) [
  | inl short ↦ inl (ltb→lt (length xs) 8 short)
  | inr long ↦
      let size = length-head_bytes (head_of m) in
      let (front, back) =
        split_front xs ys (head_bytes (head_of m)) rest e (ground (arith, long, size)) in
      inr (
        head_of m,
        ap read_head front
            ∙ read_head-head_bytes (head_of m) (drop (length (head_bytes (head_of m))) xs) v.0
                (omega (arith, v.2)),
        ground (arith, v.2),
        lt,
      )
]

cut : (ms : List Msg) (xs ys : List ℕ) → All IsMessage ms → xs ++ ys ≡ stream ms [] → Cut ms xs ys
cut [] xs ys vs e =
    let none_left : length xs ≡ 0 = omega (arith, ap length e, length-append xs ys) in
    record {
      whole = [];
      later = [];
      part = xs;
      all = refl;
      read = refl;
      partial = inl (omega arith);
      unread = e;
    }
cut (m ∷ ms) xs ys vs e =
    let hb = head_bytes (head_of m) in
    let size = length-encode m in
    elim (Bool-cases (ltb (length xs) (8 + length m.1))) [
      | inl short ↦ record {
        whole = [];
        later = m ∷ ms;
        part = xs;
        all = refl;
        read = refl;
        partial =
            IsPartial-front m xs ys (m.1 ++ stream ms []) vs.0 e
              (ltb→lt (length xs) (8 + length m.1) short);
        unread = e;
      }
      | inr long ↦
          let joined : xs ++ ys ≡ encode m ++ stream ms [] =
            e ∙ sym (append_assoc hb m.1 (stream ms [])) in
          let (front, back) =
            split_front xs ys (encode m) (stream ms []) joined (ground (arith, long, size)) in
          let next = cut ms (drop (length (encode m)) xs) ys vs.1 back in
          record {
            whole = m ∷ next.whole;
            later = next.later;
            part = next.part;
            all = ap (◌∷◌ m) next.all;
            read =
                front
                ∙ ap (◌++◌ (encode m)) next.read
                ∙ append_assoc hb m.1 (stream next.whole next.part);
            partial = next.partial;
            unread = next.unread;
          }
    ]

All-split : (ms ns : List Msg) → All IsMessage (ms ++ ns) → All IsMessage ms × All IsMessage ns
All-split [] ns h = (tt, h)
All-split (m ∷ ms) ns h = ((h.0, (All-split ms ns h.1).0), (All-split ms ns h.1).1)

length-IsPartial : (p : List ℕ) → IsPartial p → length p < 65536
length-IsPartial p (inl short) = omega arith
length-IsPartial p (inr (h, e, good, short)) = ground (arith, good, short)

-- A whole message is no beginning of one.
stream-IsPartial :
    (ms : List Msg) (p : List ℕ) → All IsMessage ms → IsPartial p → p ≡ stream ms [] → ms ≡ []
stream-IsPartial [] p vs part e = refl
stream-IsPartial (m ∷ ms) p vs part e = absurd (too_long part)
  where
    size : length p ≡ 8 + (length m.1 + length (stream ms []))
    size = ap length e ∙ length-stream m ms []

    here : read_head p ≡ some (head_of m)
    here =
        ap read_head e
        ∙ read_head-head_bytes (head_of m) (m.1 ++ stream ms []) vs.0.0 (omega (arith, vs.0.2))

    too_long : IsPartial p → ⊥
    too_long (inl short) = omega (arith, size)
    too_long (inr (h, f, good, short)) =
        let same : h.length ≡ length m.1 = ground (arith, here, f) in omega (arith, size, same)

-- What `read` can bring at once: 8 MB hold it with the longest beginning of a message.
abbrev pub IsChunk : List ℕ → Type 0
IsChunk c = (0 < length c) × (length c ≤ 8323072)

module _ {U : Type 0} (conn_close_cb : World U → Result (World U))
    (serve : ℕ → List ℕ → World U → Result (World U)) where
  -- The calls of `do_read` for what the kernel has ready each time.
  unfoldable pub read_all : List (List ℕ) → World U → Result (World U)
  read_all [] w = ok w
  read_all (c ∷ cs) w = do
    v ← do_read conn_close_cb serve (some (length c)) (returned (got c)) w
    read_all cs v

-- As in Serving: `Left ms w` is what is known while the messages `ms` are still to come.
module _ {U : Type 0} (conn_close_cb : World U → Result (World U))
    (serve : ℕ → List ℕ → World U → Result (World U)) (Left : List Msg → World U → Type 0)
    (input_lem : (ms : List Msg) (s : State) (w : World U)
      → Laws.IsValid s.1
      → Left ms w
      → Left ms (set_input s w))
    (serve_lem : (m : Msg) (ms : List Msg) (w : World U)
      → Laws.IsValid w.pool
      → Left (m ∷ ms) w
      → Ends
          (serve m.0 m.1 w)
          (λ v. (v.conn.in_buf ≡ w.conn.in_buf) × Laws.IsValid v.pool × Left ms v)) where
  read_all-from :
      (ms : List Msg) (cs : List (List ℕ)) (p : List ℕ) (w : World U)
      → p ++ concat cs ≡ stream ms []
      → IsPartial p
      → All IsMessage ms
      → All IsChunk cs
      → Left ms w
      → IsReady p (input w)
      → Ends (read_all conn_close_cb serve cs w) (λ v. IsReady [] (input v) × Left [] v)
  unfolding read_all retry
  read_all-from ms [] p w e part vs hs known ready =
      let same : p ≡ stream ms [] = sym (append-nil p) ∙ e in
      let done : ms ≡ [] = stream-IsPartial ms p vs part same in
      (
        subst (λ l. IsReady l (input w)) (same ∙ ap (λ l. stream l []) done) ready,
        subst (λ l. Left l w) done known,
      )
  read_all-from ms (c ∷ cs) p w e part vs hs known ready =
      let k = cut ms (p ++ c) (concat cs) vs (append_assoc p c (concat cs) ∙ e) in
      let (early, late) = All-split k.whole k.later (subst (All IsMessage) k.all vs) in
      Ends->>= (do_read conn_close_cb serve (some (length c)) (returned (got c)) w)
        (read_all conn_close_cb serve cs) _ _
        (do_read-Serves conn_close_cb serve Left input_lem serve_lem k.whole k.later p c k.part
          (returned (got c)) w refl hs.0.0 (omega (arith, length-IsPartial p part, hs.0.1)) k.read
          early k.partial (subst (λ l. Left l w) k.all known) ready)
        λ v g. read_all-from k.later cs k.part v k.unread k.partial late hs.1 g.1 g.0

  -- However the bytes of whole messages are cut into reads, each message is served, in order.
  pub read_all-Serves :
      (ms : List Msg) (cs : List (List ℕ)) (w : World U)
      → concat cs ≡ stream ms []
      → All IsMessage ms
      → All IsChunk cs
      → Left ms w
      → IsReady [] (input w)
      → Ends (read_all conn_close_cb serve cs w) (λ v. IsReady [] (input v) × Left [] v)
  read_all-Serves ms cs w e vs hs known ready =
      read_all-from ms cs [] w e (inl (omega arith)) vs hs known ready
