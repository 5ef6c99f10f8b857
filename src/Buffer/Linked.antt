-- ===== src/Buffer/Linked.antt =====
-- class LinkedBuffer (src/buffer/linked.cpp, include/shmipc/buffer/linked.hpp): the slices of one
-- direction of a stream. Its buffer manager and the memory are arguments of the operations. The
-- children have the reading side and the writing side.
pub mod Read
pub mod ReadLoop
pub mod Bytes
pub mod Peek
pub mod Discard
pub mod Agree
pub mod PushFrame
pub mod OneList
pub mod Write
pub mod Supply
pub mod WriteStep
pub mod WriteLoop
pub mod Appending
pub mod FromHeap
pub mod PopFrame
pub mod Shared
pub mod Filling
pub mod Allotted
pub mod Several
pub mod FromList
mod Tests
pub mod Reclaim
use shmipc_cpp.Common.{
  ℕ, zero, suc, ◌+◌, ◌-◌, ◌%◌, ◌^◌, Bool, true, false, ◌&&◌, ◌==◌, not, if◌then◌else◌, add_u64,
  Option, none, some, List, [], ◌∷◌, length,
}
use shmipc_cpp.Shm.{Shm}
use shmipc_cpp.Buffer.Slice.{BufferSlice, update, reset}
use shmipc_cpp.Buffer.Slice
use shmipc_cpp.Buffer.Manager.{BufferManager, recycle_buffer}
use shmipc_cpp.Buffer.SliceList.{
  SliceList, Cursor, null, at_slice, popped, no_slices, behind_front, front, push_back, pop_front,
  write_back, split_from_write,
}

pub record LinkedBuffer : Type 0 where
  pub slice_list : SliceList
  pub pinned_list : SliceList
  pub current_pinned : Bool
  pub end_stream : Bool
  pub is_from_shm : Bool
  pub len : ℕ

-- The constructor.
unfoldable pub new_linked : LinkedBuffer
new_linked = record {
  slice_list = no_slices;
  pinned_list = no_slices;
  current_pinned = false;
  end_stream = false;
  is_from_shm = true;
  len = 0;
}

-- The memory after a call of recycle_buffer, which returns on every slice.
abbrev pub after_recycle : Shm → Option Shm → Shm
after_recycle m none = m
after_recycle m (some m₁) = m₁

unfoldable pub recycled : BufferManager → BufferSlice → Shm → Shm
recycled bm s m = after_recycle m (recycle_buffer bm s m)

-- recycle_buffer on each slice of a chain.
unfoldable pub recycle_all : BufferManager → List BufferSlice → Shm → Shm
recycle_all bm [] m = m
recycle_all bm (s ∷ ss) m = recycle_all bm ss (recycled bm s m)

-- The same for the slices that are from shared memory.
unfoldable pub recycle_shm : BufferManager → List BufferSlice → Shm → Shm
recycle_shm bm [] m = m
recycle_shm bm (s ∷ ss) m = recycle_shm bm ss (if s.is_from_shm then recycled bm s m else m)

abbrev pub next_offset : List BufferSlice → Option ℕ
next_offset [] = none
next_offset (s ∷ ss) = some s.offset_in_shm

abbrev pub is_first : Cursor → Bool
is_first (at_slice zero) = true
is_first c = false

-- `update` on the slices up to the one the cursor is at.
unfoldable pub update_to : Cursor → List BufferSlice → Shm → Shm
update_to c [] m = m
update_to c (s ∷ ss) m =
    let m₁ = update s (next_offset ss) m in
    let rest = update_to (behind_front c) ss m₁ in if is_first c then m₁ else rest

unfoldable pub done : BufferManager → LinkedBuffer → Shm → LinkedBuffer × Shm
done bm b m =
    let m₁ = update_to b.slice_list.write b.slice_list.slices m in
    let (unused, kept) = split_from_write b.slice_list in
    if b.is_from_shm then (record b { slice_list = kept }, recycle_all bm unused m₁) else (b, m)

unfoldable pub append_buffer_slice : LinkedBuffer → BufferSlice → LinkedBuffer
append_buffer_slice b s = record b {
  is_from_shm = if s.is_from_shm then b.is_from_shm else false;
  len = add_u64 b.len (Slice.size s);
  slice_list = write_back (push_back s b.slice_list);
}

unfoldable pub clean_pinned_list : BufferManager → LinkedBuffer → Shm → LinkedBuffer × Shm
clean_pinned_list bm b m = drained b.pinned_list.slices
  where
    drained : List BufferSlice → LinkedBuffer × Shm
    drained [] = (b, m)
    drained ss = (
      record b { current_pinned = false; pinned_list = record b.pinned_list { slices = [] } },
      recycle_shm bm ss m,
    )

-- The only slice, when nothing is left to read.
abbrev pub reuse : LinkedBuffer → List BufferSlice → Shm → LinkedBuffer × Shm
reuse b (s ∷ []) m =
    if s.is_from_shm
    then (let (s', m') = reset s m in
        (record b { slice_list = record b.slice_list { slices = s' ∷ [] } }, m'))
    else (record b { slice_list = no_slices }, m)
reuse b ss m = (b, m)

unfoldable pub release_previous_read_and_reserve :
    BufferManager → LinkedBuffer → Shm → LinkedBuffer × Shm
release_previous_read_and_reserve bm b m =
    let (b₁, m₁) = clean_pinned_list bm b m in
    let reused = reuse b₁ b₁.slice_list.slices m₁ in if b₁.len == 0 then reused else (b₁, m₁)

-- What `recycle` and `clean` leave behind.
abbrev pub cleared : LinkedBuffer → LinkedBuffer
cleared b = record b {
  slice_list = no_slices;
  is_from_shm = true;
  end_stream = false;
  current_pinned = false;
  len = 0;
}

unfoldable pub recycle : BufferManager → LinkedBuffer → Shm → LinkedBuffer × Shm
recycle bm b m = (cleared b, recycle_shm bm b.slice_list.slices m)

unfoldable pub clean : LinkedBuffer → LinkedBuffer
clean b = cleared b

unfoldable pub root_buf_offset : LinkedBuffer → ℕ
root_buf_offset b = elim (front b.slice_list) [ none ↦ 0 | some s ↦ s.offset_in_shm ]

unfoldable pub is_empty : LinkedBuffer → Bool
is_empty b = b.len == 0

unfoldable pub cap : LinkedBuffer → ℕ
cap b = sum_of b.slice_list.slices
  where
    sum_of : List BufferSlice → ℕ
    sum_of [] = 0
    sum_of (s ∷ ss) = add_u64 s.cap (sum_of ss)

-- The slice in front leaves: to the pinned list, or back to the manager.
unfoldable pub read_next_slice : BufferManager → LinkedBuffer → Shm → LinkedBuffer × Shm
read_next_slice bm b m = leaves (pop_front b.slice_list)
  where
    leaves : Option BufferSlice × SliceList → LinkedBuffer × Shm
    leaves (none, l) = (record b { slice_list = l; current_pinned = false }, m)
    leaves (some s, l) =
        let b₁ = record b { slice_list = l; current_pinned = false } in
        if s.is_from_shm
        then (if b.current_pinned
            then (record b₁ { pinned_list = push_back s b.pinned_list }, m)
            else (b₁, recycled bm s m))
        else (b₁, m)

-- The slice in front is spent and is the one to write in. Its length is 0, so nothing is unread.
unfoldable pub release_previous_read : BufferManager → LinkedBuffer → Shm → LinkedBuffer × Shm
release_previous_read bm b m =
    let (b₁, m₁) = clean_pinned_list bm b m in spent b₁ m₁ b₁.slice_list.slices
  where
    spent : LinkedBuffer → Shm → List BufferSlice → LinkedBuffer × Shm
    spent b₁ m₁ [] = (b₁, m₁)
    spent b₁ m₁ (s ∷ ss) =
        if Slice.size s == 0 && is_first b₁.slice_list.write
        then (record b₁ { slice_list = record { slices = ss; write = null } }, recycled bm s m₁)
        else (b₁, m₁)
