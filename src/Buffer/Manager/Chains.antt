-- ===== src/Buffer/Manager/Chains.antt =====
-- BufferManager over several buffers at once (src/buffer/manager.cpp): alloc_shm_buffers,
-- recycle_buffers and remain_size. The first two are loops; `none` is a loop that has
-- not ended within its fuel, or in recycle_buffers the dereference of a header that is not there.
use shmipc_cpp.Common.{
  ℕ, zero, suc, ◌+◌, ◌-◌, ◌*◌, ◌%◌, ◌^◌, ◌==◌, if◌then◌else◌, Option, none, some, ◌>>=◌, List, [],
  ◌∷◌, add_u32, le_i32,
}
use shmipc_cpp.Shm.{Shm}
use shmipc_cpp.Error.{Result, ok, err}
use shmipc_cpp.Buffer.Header
use shmipc_cpp.Buffer.Slice.{BufferSlice}
use shmipc_cpp.Buffer.FreeList.{BufferList, cap_per_buffer, load_size, pop}
use shmipc_cpp.Buffer.Manager.{BufferManager, recycle_buffer, read_buffer_slice}
use shmipc_cpp.Buffer.SliceList.{SliceList, push_back}

-- What the loops of alloc_shm_buffers carry. `remain` only serves the test `remain > 0`, so it
-- stops at 0 here where the source goes below.
pub record Allocation : Type 0 where
  pub remain : ℕ
  pub alloc_size : ℕ
  pub slices : SliceList

abbrev pub taken : Allocation → BufferSlice → Allocation
taken a b = record {
  remain = a.remain - b.cap;
  alloc_size = a.alloc_size + b.cap;
  slices = push_back b a.slices;
}

-- Behind a pop: on with the new slice, or the end.
abbrev pub after_pop :
    (Allocation → Shm → Option (Allocation × Shm))
    → Allocation
    → Result BufferSlice × Shm
    → Option (Allocation × Shm)
after_pop on a (ok b, m) = on (taken a b) m
after_pop on a (err e, m) = some (a, m)

-- The inner loop: pops until enough is there or the list refuses.
unfoldable pub alloc_list : ℕ → BufferList → Allocation → Shm → Option (Allocation × Shm)
alloc_list zero l a m = none
alloc_list (suc fuel) l a m =
    let more = after_pop (alloc_list fuel l) a (pop l m) in
    if a.remain == 0 then some (a, m) else more

-- The outer loop, over the lists from the last to the first. A list is popped at most once for
-- each buffer that it says it has, and once more to be refused.
unfoldable pub alloc_lists : List BufferList → Allocation → Shm → Option (Allocation × Shm)
alloc_lists [] a m = some (a, m)
alloc_lists (l ∷ ls) a m = alloc_lists ls a m >>= on_first
  where
    on_first : Allocation × Shm → Option (Allocation × Shm)
    on_first (a₁, m₁) = alloc_list (load_size l m₁ + 1) l a₁ m₁

-- The size that was allocated, and the slices with the new ones behind them.
unfoldable pub alloc_shm_buffers :
    BufferManager → SliceList → ℕ → Shm → Option (ℕ × SliceList × Shm)
alloc_shm_buffers bm slices size m =
    alloc_lists bm.lists (record { remain = size; alloc_size = 0; slices = slices }) m
    >>= (λ r. some (r.0.alloc_size, r.0.slices, r.1))

abbrev pub with_next : (BufferSlice → Option Shm) → Shm → Result BufferSlice → Option Shm
with_next on m (ok next) = on next
with_next on m (err e) = some m

-- The loop of recycle_buffers; the chain may have been written by the peer. The link is read
-- before the buffer goes back, the next buffer afterwards.
unfoldable pub recycle_chain : ℕ → BufferManager → BufferSlice → Shm → Option Shm
recycle_chain zero bm slice m = none
recycle_chain (suc fuel) bm slice m = slice.buffer_header >>= (λ h.
    recycle_buffer bm slice m >>= (λ m₁.
      let rest =
        read_buffer_slice bm (Header.next_buffer_offset m h) m₁
        >>= with_next (λ next. recycle_chain fuel bm next m₁) m₁ in
      if Header.has_next m h then rest else some m₁))

unfoldable pub recycle_buffers : ℕ → BufferManager → BufferSlice → Shm → Option Shm
recycle_buffers fuel bm slice m =
    let chain = recycle_chain fuel bm slice m in if slice.is_from_shm then chain else some m

-- The sum over the lists of size times capacity, without the lists whose size, an std::int32_t, is
-- not positive.
unfoldable pub remain_of : List BufferList → Shm → ℕ → ℕ
remain_of [] m result = result
remain_of (l ∷ ls) m result = remain_of ls m (
    if le_i32 (load_size l m) 0
    then result
    else add_u32 result (load_size l m * cap_per_buffer l m % 2 ^ 32))

unfoldable pub remain_size : BufferManager → Shm → ℕ
remain_size bm m = remain_of bm.lists m 0
