-- ===== src/Reactor/IoBuf/Laws.antt =====
-- The buffer operations on the unprocessed bytes.
use rins.Prelude.{
  ℕ, ◌+◌, ◌-◌, ◌≤◌, ◌-◌, ◌≡◌, List, ◌++◌, length, drop, arith, refl, Returns, length-append,
}
use rins.Reactor.Memory.{
  window, blit, length-window, window-blit_before, window-blit_self, window-add, window_at,
  drop-window,
}
use rins.Reactor.IoBuf.{IoBuf, contents, adjust, copy, pop, write_at}

-- The unprocessed bytes lie inside the block.
pub record IsValid (b : IoBuf) : Type 0 where
  pub fits : b.head + b.len ≤ b.capacity

-- `r` holds `xs` from index 0 on, in a block of `cap` bytes.
pub record Holds (cap : ℕ) (xs : List ℕ) (r : IoBuf) : Type 0 where
  pub bytes : contents r ≡ xs
  pub front : r.head ≡ 0
  pub count : r.len ≡ length xs
  pub size : r.capacity ≡ cap
  pub room : length xs ≤ cap

-- `adjust` drops no unprocessed byte.
pub adjust_lem : (b : IoBuf) → IsValid b → Returns (adjust b) (Holds b.capacity (contents b))
unfolding adjust window
adjust_lem b v = ground (
  arith,
  length-window b.block b.head b.len,
  window_at (blit b.block 0 (contents b)) 0 0 b.len (length (contents b)) refl,
  window-blit_self b.block 0 (contents b),
)

-- `pop` drops the first bytes.
pub contents-pop : (b : IoBuf) (n : ℕ) → n ≤ b.len → contents (pop b n) ≡ drop n (contents b)
unfolding pop
contents-pop b n h = ground (arith, drop-window b.block b.head b.len n)

-- `pop` keeps the bytes inside the block, whatever number it is given.
pub pop-IsValid : (b : IoBuf) (n : ℕ) → IsValid b → IsValid (pop b n)
unfolding pop
pop-IsValid b n v = ground arith

-- `copy` takes over the bytes of a block that starts at index 0, if the new block is large enough.
pub copy_lem :
    (b other : IoBuf) (cap : ℕ) (xs : List ℕ)
    → Holds cap xs other
    → length xs ≤ b.capacity
    → Returns (copy b other) (Holds b.capacity xs)
unfolding copy
copy_lem b other cap xs v h = ground (
  arith,
  window_at (blit b.block 0 (window other.block 0 other.len)) 0 0 other.len (length xs) refl,
  window-blit_self b.block 0 xs,
)

-- A write behind the bytes appends to them.
pub write_at-Holds :
    (b : IoBuf) (cap : ℕ) (xs ys : List ℕ)
    → Holds cap xs b
    → length xs + length ys ≤ cap
    → Returns
        (write_at b b.len ys)
        (λ r. Holds cap (xs ++ ys) (record r { len = r.len + length ys }))
unfolding write_at
write_at-Holds b cap xs ys v h = ground (
  arith,
  length-append xs ys,
  window-blit_before b.block 0 b.len b.len ys,
  window-blit_self b.block b.len ys,
  window-add (blit b.block b.len ys) 0 b.len (length ys),
)

pub capacity-pop : (b : IoBuf) (n : ℕ) → (pop b n).capacity ≡ b.capacity
unfolding pop
capacity-pop b n = ground arith

pub len-pop : (b : IoBuf) (n : ℕ) → n ≤ b.len → (pop b n).len ≡ b.len - n
unfolding pop
len-pop b n h = ground arith
