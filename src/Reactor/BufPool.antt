-- ===== src/Reactor/BufPool.antt =====
-- reactor/include/buf_pool.h and reactor/src/buf_pool.cc. A free list is the list of its blocks,
-- first block first. The calls run under `_mutex`, so that each is one step.
pub mod Laws
pub mod History
use rins.Prelude.{
  ℕ, ◌+◌, ◌*◌, ◌/◌, ◌^◌, leb, if◌then◌else◌, List, [], ◌∷◌, replicate, Option, none, some, Result,
  ok, fault, exited, assertion, zero, suc, ◌-◌,
}
use rins.Prelude.Words.{add64}
use rins.Prelude.Maps.{find, put}
use rins.Reactor.IoBuf.{IoBuf, new_buf}

-- The size classes of `enum MEM_CAP`.
abbrev pub m4_k : ℕ
m4_k = 4096

abbrev pub m16_k : ℕ
m16_k = 16384

abbrev pub m64_k : ℕ
m64_k = 65536

abbrev pub m256_k : ℕ
m256_k = 262144

abbrev pub m1_m : ℕ
m1_m = 1048576

abbrev pub m4_m : ℕ
m4_m = 4194304

abbrev pub m8_m : ℕ
m8_m = 8388608

-- In kilobytes.
abbrev pub extra_mem_limit : ℕ
extra_mem_limit = 5 * 1024 * 1024

-- `find` of `pool` is `none` for a key that the table does not have, and `[]` stands for a null
-- list head. `total_mem` is in kilobytes.
pub record BufPool : Type 0 where
  pub pool : List (ℕ × List IoBuf)
  pub total_mem : ℕ

-- The blocks that the loop of `init_memmory` links behind the first.
fresh_list : ℕ → ℕ → List IoBuf
fresh_list cap zero = []
fresh_list cap (suc n) = new_buf cap ∷ fresh_list cap n

-- The list has the first block also at `num` 0.
unfoldable pub init_memmory : ℕ → ℕ → BufPool → BufPool
unfolding fresh_list
init_memmory cap num p = record {
  pool = put cap (new_buf cap ∷ fresh_list cap (num - 1)) p.pool;
  total_mem = add64 p.total_mem (cap / 1024 * num);
}

-- `buf_pool::buf_pool`
unfoldable pub init : BufPool
init = init_memmory m8_m 10 (
    init_memmory m4_m 20 (
      init_memmory m1_m 50 (
        init_memmory m256_k 200 (
          init_memmory m64_k 500 (
            init_memmory m16_k 1000
              (init_memmory m4_k 5000 (record { pool = []; total_mem = 0 })))))))

-- The smallest class that holds `n` bytes.
unfoldable pub class_of : ℕ → Option ℕ
class_of n =
    if leb n m4_k
    then some m4_k
    else if leb n m16_k
    then some m16_k
    else if leb n m64_k
    then some m64_k
    else if leb n m256_k
    then some m256_k
    else if leb n m1_m
    then some m1_m
    else if leb n m4_m
    then some m4_m
    else if leb n m8_m
    then some m8_m
    else none

-- `_pool[index]`: a missing key reads as the null list.
unfoldable pub free_list : BufPool → ℕ → List IoBuf
unfolding find
free_list p index = elim (find index p.pool) [ none ↦ [] | some bufs ↦ bufs ]

-- A new block, or the end of the process where the pool is at its limit.
unfoldable pub extra_buf : BufPool → ℕ → Result (Option IoBuf × BufPool)
extra_buf p index =
    if leb extra_mem_limit (add64 p.total_mem (index / 1024))
    then fault exited
    else ok (some (new_buf index), record p { total_mem = add64 p.total_mem (index / 1024) })

take_buf : BufPool → ℕ → List IoBuf → Result (Option IoBuf × BufPool)
unfolding extra_buf
take_buf p index [] = extra_buf p index
take_buf p index (target ∷ next) = ok (some target, record p { pool = put index next p.pool })

-- `buf_pool::alloc_buf`
unfoldable pub alloc_buf : ℕ → BufPool → Result (Option IoBuf × BufPool)
unfolding class_of take_buf free_list
alloc_buf n p = elim (class_of n) [
  | none ↦ ok (none, p)
  | some index ↦ take_buf p index (free_list p index)
]

-- `buf_pool::revert`
unfoldable pub revert : IoBuf → BufPool → Result BufPool
unfolding find
revert b p = elim (find b.capacity p.pool) [
  | none ↦ fault assertion
  | some bufs ↦
      ok (record p { pool = put b.capacity (record b { len = 0; head = 0 } ∷ bufs) p.pool })
]
