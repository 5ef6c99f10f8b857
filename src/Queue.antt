-- ===== src/Queue.antt =====
-- src/queue.cpp and include/shmipc/queue.hpp, class Queue: a ring of 12-byte elements in shared
-- memory. A method takes the memory and returns the new one; `Queue` holds the addresses that the
-- source keeps as pointers, in the x86_64 layout (head at +4, tail at +12, working flag at +20,
-- elements at +24). The mutex of `put` makes it one step of its process.
pub mod Layout
mod Tests
pub mod Fifo
pub mod Flag
pub mod Wakeup
pub mod Region
pub mod Manager
use shmipc_cpp.Common.{
  ℕ, ◌+◌, ◌-◌, ◌*◌, ◌%◌, ◌^◌, Bool, true, false, ltb, ◌==◌, if◌then◌else◌, add_i64, sub_i64, le_i64,
}
use shmipc_cpp.Shm.{Shm, load_u32, store_u32, load_i64, store_i64}
use shmipc_cpp.Error.{Result, ok, err, queue_full, queue_empty}

abbrev pub queue_header_length : ℕ
queue_header_length = 24

abbrev pub queue_element_len : ℕ
queue_element_len = 12

abbrev pub queue_count : ℕ
queue_count = 2

pub record QueueElement : Type 0 where
  pub seq_id : ℕ
  pub offset_in_shm_buf : ℕ
  pub status : ℕ

pub record Queue : Type 0 where
  pub head_at : ℕ
  pub tail_at : ℕ
  pub flag_at : ℕ
  pub elements_at : ℕ
  pub cap : ℕ
  pub len : ℕ

unfoldable pub count_queue_mem_size : ℕ → ℕ
count_queue_mem_size queue_cap = queue_header_length + queue_element_len * queue_cap

unfoldable pub mapping_from_bytes : Shm → ℕ → Queue
mapping_from_bytes m data_at = record {
  head_at = data_at + 4;
  tail_at = data_at + 12;
  flag_at = data_at + 20;
  elements_at = data_at + queue_header_length;
  cap = load_u32 m data_at;
  len = queue_header_length + queue_element_len * load_u32 m data_at - queue_header_length;
}

abbrev pub load_head : Queue → Shm → ℕ
load_head q m = load_i64 m q.head_at

abbrev pub load_tail : Queue → Shm → ℕ
load_tail q m = load_i64 m q.tail_at

abbrev pub load_flag : Queue → Shm → ℕ
load_flag q m = load_u32 m q.flag_at

unfoldable pub create_from_bytes : Shm → ℕ → ℕ → Queue × Shm
unfolding mapping_from_bytes
create_from_bytes m data_at cap =
    let m₁ = store_u32 m data_at cap in
    let q = mapping_from_bytes m₁ data_at in
    let m₂ = store_i64 m₁ q.head_at 0 in
    let m₃ = store_i64 m₂ q.tail_at 0 in (q, store_u32 m₃ q.flag_at 0)

unfoldable pub size : Queue → Shm → ℕ
size q m = sub_i64 (load_tail q m) (load_head q m)

unfoldable pub is_full : Queue → Shm → Bool
unfolding size
is_full q m = size q m == q.cap

unfoldable pub is_empty : Queue → Shm → Bool
unfolding size
is_empty q m = size q m == 0

-- `a % b` on std::int64_t patterns, b positive: the sign is that of `a`.
abbrev pub rem_i64 : ℕ → ℕ → ℕ
rem_i64 a b = if ltb a (2 ^ 63) then a % b else (2 ^ 64 - (2 ^ 64 - a) % b) % 2 ^ 64

-- static_cast<std::size_t>((index % cap_) * kQueueElementLen)
abbrev pub queue_offset : Queue → ℕ → ℕ
queue_offset q index = rem_i64 index q.cap * queue_element_len % 2 ^ 64

unfoldable pub load_element : Shm → ℕ → QueueElement
load_element m at_addr = record {
  seq_id = load_u32 m at_addr;
  offset_in_shm_buf = load_u32 m (at_addr + 4);
  status = load_u32 m (at_addr + 8);
}

unfoldable pub store_element : Shm → ℕ → QueueElement → Shm
store_element m at_addr e =
    store_u32 (store_u32 (store_u32 m at_addr e.seq_id) (at_addr + 4) e.offset_in_shm_buf)
      (at_addr + 8) e.status

unfoldable pub put : Queue → QueueElement → Shm → Result (Unit {0}) × Shm
put q e m =
    let m₁ = store_element m (q.elements_at + queue_offset q (load_tail q m)) e in
    if le_i64 q.cap (sub_i64 (load_tail q m) (load_head q m))
    then (err queue_full, m)
    else (ok tt, store_i64 m₁ q.tail_at (add_i64 (load_tail q m₁) 1))

unfoldable pub pop : Queue → Shm → Result QueueElement × Shm
pop q m = if le_i64 (load_tail q m) (load_head q m) then (err queue_empty, m) else (
  ok (load_element m (q.elements_at + queue_offset q (load_head q m))),
  store_i64 m q.head_at (add_i64 (load_head q m) 1),
)

unfoldable pub consumer_is_working : Queue → Shm → Bool
consumer_is_working q m = ltb 0 (load_flag q m)

-- compare_exchange_strong from 0 to 1: whether the transition happened.
unfoldable pub mark_working : Queue → Shm → Bool × Shm
mark_working q m = if load_flag q m == 0 then (true, store_u32 m q.flag_at 1) else (false, m)

-- The two stores of mark_not_working.
unfoldable pub clear_flag : Queue → Shm → Shm
clear_flag q m = store_u32 m q.flag_at 0

unfoldable pub set_flag : Queue → Shm → Shm
set_flag q m = store_u32 m q.flag_at 1

unfoldable pub mark_not_working : Queue → Shm → Bool × Shm
mark_not_working q m =
    let m₁ = clear_flag q m in if size q m₁ == 0 then (true, m₁) else (false, set_flag q m₁)
