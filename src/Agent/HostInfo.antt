-- ===== src/Agent/HostInfo.antt =====
-- load_balance_agent/include/host_info.h and the heap of its objects.
use rins.Prelude.{ℕ, ◌+◌, List, none, some, Bool, false, Result, ok, fault, bad_pointer}
use rins.Prelude.Maps.{find, put, remove}

pub record HostInfo : Type 0 where
  pub ip : ℕ
  pub port : ℕ
  pub vsucc : ℕ
  pub verr : ℕ
  pub rsucc : ℕ
  pub rerr : ℕ
  pub contin_succ : ℕ
  pub contin_err : ℕ
  pub overload : Bool

-- `host_info::host_info`
unfoldable pub new_host_info : ℕ → ℕ → ℕ → HostInfo
new_host_info ip port init_vsucc = record {
  ip = ip;
  port = port;
  vsucc = init_vsucc;
  verr = 0;
  rsucc = 0;
  rerr = 0;
  contin_succ = 0;
  contin_err = 0;
  overload = false;
}

-- The objects that live, by address; an address is not used twice.
pub record Heap : Type 0 where
  pub cells : List (ℕ × HostInfo)
  pub next : ℕ

unfoldable pub alloc : HostInfo → Heap → ℕ × Heap
alloc h heap = (heap.next, record { cells = put heap.next h heap.cells; next = heap.next + 1 })

-- `*p`: a null or dangling pointer is a fault.
unfoldable pub deref : ℕ → Heap → Result HostInfo
deref p heap = elim (find p heap.cells) [ none ↦ fault bad_pointer | some h ↦ ok h ]

-- `delete p`
unfoldable pub free : ℕ → Heap → Result Heap
free p heap = elim (find p heap.cells) [
  | none ↦ fault bad_pointer
  | some h ↦ ok (record heap { cells = remove p heap.cells })
]
