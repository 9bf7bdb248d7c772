-- ===== src/Agent/LoadBalance/Choice.antt =====
-- Which host `choice_one_host` answers, call after call.
use rins.Prelude.{
  ℕ, zero, suc, ◌+◌, ◌%◌, ◌≤◌, ◌≡◌, refl, ap, ◌∙◌, List, [], ◌∷◌, some, ◌==◌, if◌then◌else◌, Result,
  ok, ◌>>=◌, arith,
}
use rins.Prelude.Maps.{find}
use rins.Agent.HostInfo.{HostInfo, Heap, deref}
use rins.Agent.LoadBalance.{
  LoadBalance, HostAddr, GetHostResponse, RetCode, ret_succ, ret_overload, get_host_from_list,
  choice_one_host,
}

abbrev addr : HostInfo → HostAddr
addr h = (h.ip, h.port)

-- The counter after a call: it runs from 0 to 10 and starts again.
abbrev pub next_cnt : ℕ → ℕ
next_cnt n = if n == 10 then 0 else n + 1

-- One call: with idle and overloaded hosts it answers the first idle host, but the first overloaded one
-- if the counter is 10; the counter goes on, and nothing else of the balancer changes, the order of
-- the two lists included.
choice_one_host_mixed :
    (lb : LoadBalance) (rsp : GetHostResponse) (heap : Heap) (i o : ℕ) (is os : List ℕ)
    (hi ho : HostInfo)
    → lb.access_cnt ≤ 10
    → lb.idle_list ≡ i ∷ is
    → lb.overload_list ≡ o ∷ os
    → find i heap.cells ≡ some hi
    → find o heap.cells ≡ some ho
    → choice_one_host lb rsp heap
      ≡ ok (
        ret_succ,
        record rsp {
          host = some (if lb.access_cnt == 10 then (ho.ip, ho.port) else (hi.ip, hi.port));
        },
        record lb { access_cnt = next_cnt lb.access_cnt },
      )
unfolding choice_one_host get_host_from_list deref
choice_one_host_mixed lb rsp heap i o is os hi ho le ei eo fi fo = ground arith

-- With overloaded hosts alone, ten calls of eleven are refused.
choice_one_host_overloaded :
    (lb : LoadBalance) (rsp : GetHostResponse) (heap : Heap) (o : ℕ) (os : List ℕ) (ho : HostInfo)
    → lb.access_cnt ≤ 10
    → lb.idle_list ≡ []
    → lb.overload_list ≡ o ∷ os
    → find o heap.cells ≡ some ho
    → choice_one_host lb rsp heap ≡ (
        if lb.access_cnt == 10
        then ok
            (ret_succ, record rsp { host = some (ho.ip, ho.port) }, record lb { access_cnt = 0 })
        else ok (ret_overload, rsp, record lb { access_cnt = lb.access_cnt + 1 }))
unfolding choice_one_host get_host_from_list deref
choice_one_host_overloaded lb rsp heap o os ho le ei eo fo = ground arith

-- A number of calls, with what each of them returns and answers.
unfoldable pub rounds :
    ℕ
    → LoadBalance
    → GetHostResponse
    → Heap
    → Result (List (RetCode × GetHostResponse) × LoadBalance)
rounds zero lb rsp heap = ok ([], lb)
rounds (suc n) lb rsp heap = do
  a ← choice_one_host lb rsp heap
  b ← rounds n a.2 rsp heap
  ok ((a.0, a.1) ∷ b.0, b.1)

-- `n` answers from the call number `c` on: every eleventh is `rare`, the others are `usual`.
abbrev pub every_eleventh : {A : Type 0} → A → A → ℕ → ℕ → List A
every_eleventh rare usual c zero = []
every_eleventh rare usual c (suc n) =
    (if c % 11 == 10 then rare else usual) ∷ every_eleventh rare usual (c + 1) n

abbrev with_host : GetHostResponse → HostInfo → GetHostResponse
with_host rsp h = record rsp { host = some (h.ip, h.port) }

-- With idle and overloaded hosts, every eleventh call answers the first overloaded host and all
-- others the first idle host, if the counter starts at the number of the call modulo 11; nothing
-- else of the balancer changes, so that the hosts behind the first ones are never answered.
pub rounds_mixed :
    (n c : ℕ) (lb : LoadBalance) (rsp : GetHostResponse) (heap : Heap) (i o : ℕ) (is os : List ℕ)
    (hi ho : HostInfo)
    → lb.access_cnt ≡ c % 11
    → lb.idle_list ≡ i ∷ is
    → lb.overload_list ≡ o ∷ os
    → find i heap.cells ≡ some hi
    → find o heap.cells ≡ some ho
    → rounds n lb rsp heap
      ≡ ok (
        every_eleventh (ret_succ, with_host rsp ho) (ret_succ, with_host rsp hi) c n,
        record lb { access_cnt = (c + n) % 11 },
      )
unfolding rounds
rounds_mixed zero c lb rsp heap i o is os hi ho e ei eo fi fo =
    ap (λ k. ok ([], record lb { access_cnt = k })) (e ∙ ground arith)
rounds_mixed (suc n) c lb rsp heap i o is os hi ho e ei eo fi fo =
    let lb' : LoadBalance = record lb { access_cnt = (c + 1) % 11 } in
    let next : next_cnt lb.access_cnt ≡ (c + 1) % 11 = ground arith in
    let one = choice_one_host_mixed lb rsp heap i o is os hi ho (omega arith) ei eo fi fo in
    let step : choice_one_host lb rsp heap
        ≡ ok (ret_succ, with_host rsp (if lb.access_cnt == 10 then ho else hi), lb') =
      ground arith in
    let rest = rounds_mixed n (c + 1) lb' rsp heap i o is os hi ho refl ei eo fi fo in
    rw step (rw rest (ground arith))

-- With overloaded hosts alone, every eleventh call answers the first of them, and all others are
-- refused with RET_OVERLOAD, if the counter starts at the number of the call modulo 11; nothing
-- else of the balancer changes.
pub rounds_overloaded :
    (n c : ℕ) (lb : LoadBalance) (rsp : GetHostResponse) (heap : Heap) (o : ℕ) (os : List ℕ)
    (ho : HostInfo)
    → lb.access_cnt ≡ c % 11
    → lb.idle_list ≡ []
    → lb.overload_list ≡ o ∷ os
    → find o heap.cells ≡ some ho
    → rounds n lb rsp heap
      ≡ ok (
        every_eleventh (ret_succ, with_host rsp ho) (ret_overload, rsp) c n,
        record lb { access_cnt = (c + n) % 11 },
      )
unfolding rounds
rounds_overloaded zero c lb rsp heap o os ho e ei eo fo =
    ap (λ k. ok ([], record lb { access_cnt = k })) (e ∙ ground arith)
rounds_overloaded (suc n) c lb rsp heap o os ho e ei eo fo =
    let lb' : LoadBalance = record lb { access_cnt = (c + 1) % 11 } in
    let one = choice_one_host_overloaded lb rsp heap o os ho (omega arith) ei eo fo in
    let step : choice_one_host lb rsp heap
        ≡ ok (
          (if lb.access_cnt == 10 then ret_succ else ret_overload),
          (if lb.access_cnt == 10 then with_host rsp ho else rsp),
          lb',
        ) =
      ground arith in
    let rest = rounds_overloaded n (c + 1) lb' rsp heap o os ho refl ei eo fo in
    rw step (rw rest (ground arith))
