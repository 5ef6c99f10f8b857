-- ===== src/Buffer/FreeList.antt =====
-- class BufferList (src/buffer/list.cpp, include/shmipc/buffer/list.hpp): the free buffers of one
-- size, linked through their headers in shared memory. `head` and `tail` are offsets in the buffer
-- region. The atomics are read and written one access at a time, in the order of the source; with
-- no other process between two accesses a compare-exchange succeeds when the value is the one read.
pub mod Chain
pub mod State
pub mod Create
pub mod Initial
mod Tests
use shmipc_cpp.Common.{
  ℕ, zero, suc, ◌+◌, ◌-◌, ◌*◌, ◌%◌, ◌^◌, Bool, true, false, ◌||◌, ltb, leb, ◌==◌, if◌then◌else◌,
  add_u32, sub_u32, le_i32, Option, none, some,
}
use Prim.Native.Nat.{bit_or}
use shmipc_cpp.Shm.{Shm, load_u32, store_u32, load_byte, store_byte}
use shmipc_cpp.Error.{Result, ok, err, no_more_buffer, other}
use shmipc_cpp.Buffer.Header
use shmipc_cpp.Buffer.Header.{
  buffer_header_size, buffer_size_offset, buffer_data_start_offset, next_buffer_offset_offset,
  buffer_flag_offset, has_next_buffer_flag,
}
use shmipc_cpp.Buffer.Slice.{BufferSlice, new_slice, reset}

abbrev pub buffer_list_header_size : ℕ
buffer_list_header_size = 36

abbrev pub counter_list_offset : ℕ
counter_list_offset = 20

pub record BufferList : Type 0 where
  pub size_at : ℕ
  pub cap_at : ℕ
  pub head_at : ℕ
  pub tail_at : ℕ
  pub cap_per_buffer_at : ℕ
  pub counter_at : ℕ
  pub buffer_region : ℕ
  pub buffer_region_len : ℕ
  pub buffer_region_offset_in_shm : ℕ
  pub offset_in_shm : ℕ

unfoldable pub count_buffer_list_mem_size : ℕ → ℕ → ℕ
count_buffer_list_mem_size buffer_num cap_per_buffer =
    (buffer_list_header_size + buffer_num * (cap_per_buffer + buffer_header_size)) % 2 ^ 32

-- The view of a list whose header stands at `offset`, its region `len` bytes long.
abbrev pub list_at : ℕ → ℕ → BufferList
list_at offset len = record {
  size_at = offset;
  cap_at = offset + 4;
  head_at = offset + 8;
  tail_at = offset + 12;
  cap_per_buffer_at = offset + 16;
  counter_at = offset + counter_list_offset;
  buffer_region = offset + buffer_list_header_size;
  buffer_region_len = len;
  buffer_region_offset_in_shm = (offset + buffer_list_header_size) % 2 ^ 32;
  offset_in_shm = offset;
}

-- The size that `create` and `mapping` compute in 64 bits.
abbrev pub size_64 : ℕ → ℕ → ℕ
size_64 buffer_num cap_per_buffer =
    buffer_list_header_size + buffer_num * (cap_per_buffer + buffer_header_size)

-- The tests of `create`, in order: true where it returns an error.
unfoldable pub create_rejects : ℕ → ℕ → ℕ → ℕ → Bool
create_rejects buffer_num cap_per_buffer mem_len offset =
    let need = size_64 buffer_num cap_per_buffer in
    (buffer_num == 0 || cap_per_buffer == 0)
    || leb (2 ^ 32) need
    || (ltb mem_len (offset + need) || ltb (mem_len % 2 ^ 32) offset || ltb (mem_len % 2 ^ 32) need)
    || leb (add_u32 offset need) (add_u32 offset buffer_list_header_size)

-- The list's header.
unfoldable pub store_list_header : Shm → ℕ → ℕ → ℕ → Shm
store_list_header m offset buffer_num cap_per_buffer =
    let m₁ = store_u32 m offset buffer_num in
    let m₂ = store_u32 m₁ (offset + 4) buffer_num in
    let m₃ = store_u32 m₂ (offset + 8) 0 in
    let m₄ =
      store_u32 m₃ (offset + 12)
        ((buffer_num - 1) * (cap_per_buffer + buffer_header_size) % 2 ^ 32) in
    let m₅ = store_u32 m₄ (offset + 16) cap_per_buffer in
    store_u32 m₅ (offset + counter_list_offset) 0

-- One round of the loop over the buffers, at address `p`, `next` the offset of the one behind.
unfoldable pub store_buffer_header : Shm → ℕ → ℕ → ℕ → Bool → Shm
store_buffer_header m p cap_per_buffer next linked =
    let m₁ = store_u32 m p cap_per_buffer in
    let m₂ = store_u32 m₁ (p + buffer_size_offset) 0 in
    let m₃ = store_u32 m₂ (p + buffer_data_start_offset) 0 in
    let m₄ = store_u32 m₃ (p + next_buffer_offset_offset) next in
    let m₅ = store_u32 m₄ (p + buffer_flag_offset) 0 in
    let m₆ =
      store_byte m₅ (p + buffer_flag_offset)
        (bit_or (load_byte m₅ (p + buffer_flag_offset)) has_next_buffer_flag) in
    if linked then m₆ else m₃

-- for (i = 0; i < buffer_num; ++i), `left` rounds before its end.
unfoldable pub store_buffers : ℕ → ℕ → ℕ → ℕ → ℕ → ℕ → Shm → Shm
store_buffers zero i region buffer_num cap_per_buffer current m = m
store_buffers (suc left) i region buffer_num cap_per_buffer current m =
    let next = (current + cap_per_buffer + buffer_header_size) % 2 ^ 32 in
    store_buffers left (i + 1) region buffer_num cap_per_buffer next
      (store_buffer_header m (region + current) cap_per_buffer next (ltb i (buffer_num - 1)))

unfoldable pub create : ℕ → ℕ → ℕ → ℕ → Shm → Result BufferList × Shm
create buffer_num cap_per_buffer mem_len offset m =
    let need = size_64 buffer_num cap_per_buffer in
    let l = list_at offset (need - buffer_list_header_size) in
    let m₁ = store_list_header m offset buffer_num cap_per_buffer in
    let m₂ = store_buffers buffer_num 0 l.buffer_region buffer_num cap_per_buffer 0 m₁ in
    if create_rejects buffer_num cap_per_buffer mem_len offset
    then (err other, m)
    else (ok l, store_u32 m₂ (l.buffer_region + load_u32 m₂ l.tail_at + buffer_flag_offset) 0)

unfoldable pub mapping_rejects : ℕ → ℕ → ℕ → ℕ → Bool
mapping_rejects buffer_num cap_per_buffer mem_len offset =
    let need = size_64 buffer_num cap_per_buffer in
    leb (2 ^ 32) need
    || (ltb mem_len (add_u32 offset need)
        || ltb (add_u32 offset need) (add_u32 offset buffer_list_header_size))

unfoldable pub mapping : ℕ → ℕ → Shm → Result BufferList
mapping mem_len offset m =
    let buffer_num = load_u32 m (offset + 4) in
    let cap_per_buffer = load_u32 m (offset + 16) in
    if ltb mem_len (offset + buffer_list_header_size)
    then err other
    else if mapping_rejects buffer_num cap_per_buffer mem_len offset
    then err other
    else ok (list_at offset (size_64 buffer_num cap_per_buffer - buffer_list_header_size))

abbrev pub load_size : BufferList → Shm → ℕ
load_size l m = load_u32 m l.size_at

abbrev pub load_cap : BufferList → Shm → ℕ
load_cap l m = load_u32 m l.cap_at

abbrev pub load_head : BufferList → Shm → ℕ
load_head l m = load_u32 m l.head_at

abbrev pub load_tail : BufferList → Shm → ℕ
load_tail l m = load_u32 m l.tail_at

abbrev pub load_counter : BufferList → Shm → ℕ
load_counter l m = load_u32 m l.counter_at

abbrev pub cap_per_buffer : BufferList → Shm → ℕ
cap_per_buffer l m = load_u32 m l.cap_per_buffer_at

-- fetch_add(1) and fetch_sub(1): the new memory. The old value is what was loaded.
abbrev pub add_one : Shm → ℕ → Shm
add_one m a = store_u32 m a ((load_u32 m a + 1) % 2 ^ 32)

abbrev pub sub_one : Shm → ℕ → Shm
sub_one m a = store_u32 m a ((load_u32 m a + (2 ^ 32 - 1)) % 2 ^ 32)

-- compare_exchange_strong
abbrev pub compare_exchange : Shm → ℕ → ℕ → ℕ → Bool × Shm
compare_exchange m a expected desired =
    if load_u32 m a == expected then (true, store_u32 m a desired) else (false, m)

-- The loop of `push`, its rounds counted by fuel: `none` when it runs out.
unfoldable pub push_loop : ℕ → BufferList → ℕ → Shm → Option Shm
push_loop zero l new_tail m = none
push_loop (suc fuel) l new_tail m =
    let old_tail = load_tail l m in
    let (swapped, m₁) = compare_exchange m l.tail_at old_tail new_tail in
    let again = push_loop fuel l new_tail m₁ in
    let m₂ = Header.link_next m₁ (l.buffer_region + old_tail) new_tail in
    let done : Option Shm = some (sub_one (add_one m₂ l.size_at) l.counter_at) in
    if swapped then done else again

unfoldable pub push : BufferList → BufferSlice → Shm → Option Shm
push l buffer m =
    let (b, m₁) = reset buffer m in
    push_loop 1 l (sub_u32 b.offset_in_shm l.buffer_region_offset_in_shm) m₁

-- The state with `size_` put back, and the error.
abbrev pub give_up : BufferList → Shm → Result BufferSlice × Shm
give_up l m = (err no_more_buffer, add_one m l.size_at)

-- At most `retries` rounds.
unfoldable pub pop_loop : ℕ → BufferList → ℕ → Shm → Result BufferSlice × Shm
pop_loop zero l old_head m = give_up l m
pop_loop (suc retries) l old_head m =
    let h = l.buffer_region + old_head in
    let (swapped, m₁) = compare_exchange m l.head_at old_head (Header.next_buffer_offset m h) in
    let m₂ = add_one (Header.set_in_used (Header.clear_flag m₁ h) h) l.counter_at in
    let taken : Result BufferSlice × Shm = (
      ok (
          new_slice m₂ (some h) (h + buffer_header_size) (cap_per_buffer l m₂)
            (add_u32 old_head l.buffer_region_offset_in_shm) true),
      m₂,
    ) in
    let again = pop_loop retries l (load_head l m) m in
    if Header.has_next m h
    then (if swapped then taken else again)
    else if le_i32 (load_size l m) 1
    then give_up l m
    else again

unfoldable pub pop : BufferList → Shm → Result BufferSlice × Shm
pop l m =
    let old_head = load_head l m in
    let m₁ = sub_one m l.size_at in
    let found = pop_loop 200 l old_head m₁ in
    if le_i32 (load_size l m) 1
      || ltb l.buffer_region_len
          (add_u32 (add_u32 old_head buffer_header_size) (cap_per_buffer l m₁))
    then give_up l m₁
    else found
