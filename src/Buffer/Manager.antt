-- ===== src/Buffer/Manager.antt =====
-- class BufferManager (src/buffer/manager.cpp, include/shmipc/buffer/manager.hpp): the free lists of
-- one mapping, in the order of their capacities, and the lookup of a buffer by its offset.
pub mod Lookup
pub mod Choice
pub mod Chains
pub mod Harvest
mod Tests
use shmipc_cpp.Common.{
  ℕ, zero, suc, ◌+◌, ◌-◌, ◌*◌, ◌%◌, ◌^◌, Bool, true, false, ◌||◌, not, ltb, leb, ◌==◌,
  if◌then◌else◌, add_u32, sub_u32, Option, none, some, List, [], ◌∷◌,
}
use shmipc_cpp.Shm.{Shm, load_u32}
use shmipc_cpp.Error.{Result, ok, err, no_more_buffer, other}
use shmipc_cpp.Buffer.Header
use shmipc_cpp.Buffer.Header.{buffer_header_size, buffer_cap_offset}
use shmipc_cpp.Buffer.Slice.{BufferSlice, new_slice}
use shmipc_cpp.Buffer.FreeList.{
  BufferList, cap_per_buffer, load_size, load_cap, load_counter, pop, push,
}

pub record BufferManager : Type 0 where
  pub lists : List BufferList
  pub mem_size : ℕ
  pub min_slice_size : ℕ
  pub max_slice_size : ℕ

-- The loop of alloc_shm_buffer.
unfoldable pub alloc_from : List BufferList → ℕ → Shm → Result BufferSlice × Shm
alloc_from [] size m = (err no_more_buffer, m)
alloc_from (l ∷ ls) size m =
    let later = alloc_from ls size m in if leb size (cap_per_buffer l m) then pop l m else later

unfoldable pub alloc_shm_buffer : BufferManager → ℕ → Shm → Result BufferSlice × Shm
alloc_shm_buffer bm size m =
    if leb size bm.max_slice_size then alloc_from bm.lists size m else (err no_more_buffer, m)

-- The loop of recycle_buffer; `none` where the loop of a push does not end.
unfoldable pub recycle_to : List BufferList → BufferSlice → Shm → Option Shm
recycle_to [] slice m = some m
recycle_to (l ∷ ls) slice m =
    let later = recycle_to ls slice m in
    if slice.cap == cap_per_buffer l m then push l slice m else later

unfoldable pub recycle_used : List BufferList → BufferSlice → Option ℕ → Shm → Option Shm
recycle_used ls slice none m = some m
recycle_used ls slice (some h) m =
    if not (Header.is_in_used m h) then some m else recycle_to ls slice m

unfoldable pub recycle_buffer : BufferManager → BufferSlice → Shm → Option Shm
unfolding recycle_used
recycle_buffer bm slice m =
    if slice.is_from_shm then recycle_used bm.lists slice slice.buffer_header m else some m

-- The second test and the span are computed in 32 bits. `none` is the assertion of the constructor
-- of a slice, that the span is not empty.
unfoldable pub read_buffer_slice : BufferManager → ℕ → Shm → Option (Result BufferSlice)
read_buffer_slice bm offset m =
    let buf_cap = load_u32 m (offset + buffer_cap_offset) in
    let buf_end_offset = add_u32 (add_u32 offset buffer_header_size) buf_cap in
    let len = sub_u32 buf_end_offset (add_u32 offset buffer_header_size) in
    if leb bm.mem_size (offset + buffer_header_size)
    then some (err other)
    else if ltb bm.mem_size buf_end_offset
    then some (err other)
    else if len == 0
    then none
    else some (ok (new_slice m (some offset) (offset + buffer_header_size) len offset true))

unfoldable pub list_returned : BufferList → Shm → Bool
list_returned l m = not (not (load_size l m == load_cap l m) || not (load_counter l m == 0))

unfoldable pub all_returned : List BufferList → Shm → Bool
all_returned [] m = true
all_returned (l ∷ ls) m =
    let later = all_returned ls m in if list_returned l m then later else false

unfoldable pub check_buffer_returned : BufferManager → Shm → Bool
check_buffer_returned bm m = all_returned bm.lists m
