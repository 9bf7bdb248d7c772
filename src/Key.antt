-- ===== src/Key.antt =====
-- The 64-bit keys that the services make of two `int`: of a modid and a cmdid, and of the address
-- and port of a host. The expression `((uint64_t)a << 32) + b` stands in dns/src/dns_route.cc,
-- dns/src/dns_service.cc, load_balance_agent/src/route_lb.cc and load_balance_agent/src/load_balance.cc.
pub mod Laws
use rins.Prelude.{ℕ, ◌+◌, ◌*◌, ◌/◌, ◌%◌, ◌^◌}
use rins.Prelude.Words.{extend64, low32, add64}

-- `((uint64_t)a << 32) + b`: the shift drops the high half of `a`, and `b` is sign-extended.
unfoldable pub key_of : ℕ → ℕ → ℕ
key_of a b = add64 (extend64 a * 2 ^ 32 % 2 ^ 64) (extend64 b)

-- `(int)(key >> 32)` and `(int)key`
unfoldable pub key_high : ℕ → ℕ
key_high key = low32 (key / 2 ^ 32)

unfoldable pub key_low : ℕ → ℕ
key_low key = low32 key
