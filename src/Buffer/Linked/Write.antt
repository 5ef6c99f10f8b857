-- ===== src/Buffer/Linked/Write.antt =====
-- LinkedBuffer as a BufferWriter (src/buffer/linked.cpp): alloc, reserve and write_bytes. `none` is
-- a loop that has not ended within its fuel, or the dereference of a cursor that is at no slice.
use shmipc_cpp.Common.{
  ℕ, zero, suc, ◌+◌, ◌-◌, ◌%◌, ◌^◌, max, false, ltb, ◌==◌, if◌then◌else◌, add_u64, Option, none,
  some, ◌>>=◌, List, [], ◌∷◌, length, drop, get_elem?,
}
use shmipc_cpp.Shm.{Shm}
use shmipc_cpp.Error.{Result, ok, err}
use shmipc_cpp.Buffer.Slice
use shmipc_cpp.Buffer.Slice.{BufferSlice, append, from_heap}
use shmipc_cpp.Buffer.Manager.{BufferManager, alloc_shm_buffer}
use shmipc_cpp.Buffer.Manager.Chains.{alloc_shm_buffers}
use shmipc_cpp.Buffer.SliceList.{SliceList, Cursor, null, at_slice, push_back, write_back}
use shmipc_cpp.Buffer.Linked.{LinkedBuffer}

abbrev pub default_single_buffer_size : ℕ
default_single_buffer_size = 4096

abbrev pub zeros : ℕ → List ℕ
zeros zero = []
zeros (suc n) = 0 ∷ zeros n

-- A slice on the heap, of the default size at least.
unfoldable pub push_heap : ℕ → LinkedBuffer → LinkedBuffer
push_heap size b = record b {
  slice_list = push_back (from_heap (zeros (max size default_single_buffer_size))) b.slice_list;
  is_from_shm = false;
}

-- Behind alloc_shm_buffers: what it could not allocate comes from the heap.
unfoldable pub alloc_rest : ℕ → LinkedBuffer → ℕ × SliceList × Shm → LinkedBuffer × Shm
alloc_rest size b (alloc_size, slices, m) =
    let b₁ = record b { slice_list = slices } in
    if size - alloc_size == 0 then (b₁, m) else (push_heap (size - alloc_size) b₁, m)

abbrev pub alloc_behind :
    BufferManager → ℕ → LinkedBuffer → Result BufferSlice × Shm → Option (LinkedBuffer × Shm)
alloc_behind bm size b (ok s, m) = some (record b { slice_list = push_back s b.slice_list }, m)
alloc_behind bm size b (err e, m) =
    alloc_shm_buffers bm b.slice_list size m >>= (λ r. some (alloc_rest size b r))

unfoldable pub alloc : BufferManager → ℕ → LinkedBuffer → Shm → Option (LinkedBuffer × Shm)
alloc bm size b m = alloc_behind bm size b (alloc_shm_buffer bm size m)

abbrev pub with_cursor : Cursor → LinkedBuffer → LinkedBuffer
with_cursor c b = record b { slice_list = record b.slice_list { write = c } }

-- set_write(front())
abbrev pub front_cursor : List BufferSlice → Cursor
front_cursor [] = null
front_cursor (s ∷ ss) = at_slice 0

abbrev pub write_front : LinkedBuffer × Shm → Option (LinkedBuffer × Shm)
write_front (b, m) = some (with_cursor (front_cursor b.slice_list.slices) b, m)

-- What both operations begin with: a buffer without a cursor allocates.
abbrev pub prepare : Cursor → BufferManager → ℕ → LinkedBuffer → Shm → Option (LinkedBuffer × Shm)
prepare null bm size b m = alloc bm (size % 2 ^ 32) b m >>= write_front
prepare c bm size b m = some (b, m)

abbrev pub put_at : ℕ → BufferSlice → List BufferSlice → List BufferSlice
put_at i s [] = []
put_at zero s (x ∷ xs) = s ∷ xs
put_at (suc i) s (x ∷ xs) = x ∷ put_at i s xs

abbrev pub with_slice : ℕ → BufferSlice → LinkedBuffer → LinkedBuffer
with_slice i s b = record b {
  slice_list = record b.slice_list { slices = put_at i s b.slice_list.slices };
}

abbrev pub position : Cursor → Option ℕ
position (at_slice i) = some i
position c = none

-- The slice that the cursor is at, for a member access.
abbrev pub write_slice : LinkedBuffer → Option (ℕ × BufferSlice)
write_slice b =
    position b.slice_list.write >>= (λ i. get_elem? b.slice_list.slices i >>= (λ s. some (i, s)))

-- Where the reserved bytes stand: which slice, at which index, and how many.
abbrev pub Reserved : Type 0
Reserved = Result (ℕ × ℕ × ℕ)

abbrev pub counted : ℕ → LinkedBuffer → LinkedBuffer
counted size b = record b { len = add_u64 b.len size }

-- reserve on slice `i`, `otherwise` when it has no room.
abbrev pub reserve_at :
    ℕ
    → ℕ
    → LinkedBuffer
    → Result (ℕ × ℕ) × BufferSlice
    → Option (Reserved × LinkedBuffer)
    → Option (Reserved × LinkedBuffer)
reserve_at size i b (ok (at, n), s) otherwise =
    some (ok (i, at, n), counted size (with_cursor (at_slice i) (with_slice i s b)))
reserve_at size i b (err e, s) otherwise = otherwise

-- 3. A new slice, with the answer of its reserve whatever it is.
abbrev pub new_slice_for : ℕ → LinkedBuffer → Result BufferSlice × Shm → LinkedBuffer × Shm
new_slice_for size b (ok s, m) = (record b { slice_list = push_back s b.slice_list }, m)
new_slice_for size b (err e, m) = (push_heap size b, m)

abbrev pub answer_at : ℕ → LinkedBuffer → Result (ℕ × ℕ) × BufferSlice → Reserved × LinkedBuffer
answer_at i b (ok (at, n), s) = (ok (i, at, n), with_slice i s b)
answer_at i b (err e, s) = (err e, b)

unfoldable pub reserve_new :
    BufferManager → ℕ → LinkedBuffer → Shm → Option (Reserved × LinkedBuffer × Shm)
reserve_new bm size b m =
    let (b₁, m₁) = new_slice_for size b (alloc_shm_buffer bm (size % 2 ^ 32) m) in
    let b₂ = counted size (record b₁ { slice_list = write_back b₁.slice_list }) in
    write_slice b₂
    >>= (λ w. let (res, b₃) = answer_at w.0 b₂ (Slice.reserve w.1 size) in some (res, b₃, m₁))

abbrev pub found_or :
    Shm
    → Option (Reserved × LinkedBuffer × Shm)
    → Option (Reserved × LinkedBuffer)
    → Option (Reserved × LinkedBuffer × Shm)
found_or m otherwise none = otherwise
found_or m otherwise (some (res, b)) = some (res, b, m)

-- 1. and 2.: the slice at the cursor, then the next one.
unfoldable pub reserve_in :
    BufferManager → ℕ → LinkedBuffer × Shm → Option (Reserved × LinkedBuffer × Shm)
reserve_in bm size (b, m) = write_slice b >>= (λ w.
    let next =
      get_elem? b.slice_list.slices (w.0 + 1)
      >>= (λ e. reserve_at size (w.0 + 1) b (Slice.reserve e size) none) in
    found_or m (reserve_new bm size b m) (reserve_at size w.0 b (Slice.reserve w.1 size) next))

unfoldable pub reserve :
    BufferManager → ℕ → LinkedBuffer → Shm → Option (Reserved × LinkedBuffer × Shm)
reserve bm size b m = prepare b.slice_list.write bm size b m >>= reserve_in bm size

-- The cursor on the slice behind `i`; there is none when nothing was allocated.
abbrev pub write_next : ℕ → LinkedBuffer × Shm → LinkedBuffer × Shm
write_next i (b, m) =
    (with_cursor (if ltb (i + 1) (length b.slice_list.slices) then at_slice (i + 1) else null) b, m)

-- No allocated slice is left behind `i`: more are.
abbrev pub more_behind : BufferManager → ℕ → ℕ → LinkedBuffer → Shm → Option (LinkedBuffer × Shm)
more_behind bm i left b m =
    if ltb (i + 1) (length b.slice_list.slices) then some (b, m) else alloc bm (left % 2 ^ 32) b m

-- while (true): `bytes` are those that are left.
unfoldable pub write_loop :
    ℕ → BufferManager → List ℕ → ℕ → LinkedBuffer → Shm → Option (ℕ × LinkedBuffer × Shm)
write_loop zero bm bytes n b m = none
write_loop (suc fuel) bm bytes n b m = write_slice b >>= (λ w.
    let (k, s, m₁) = append w.1 bytes m in
    let b₁ = with_slice w.0 s b in
    let rest = more_behind bm w.0 (length bytes - k) b₁ m₁ >>= (λ r.
      let (b₂, m₂) = write_next w.0 r in write_loop fuel bm (drop k bytes) (n + k) b₂ m₂) in
    if ltb k (length bytes) then rest else some (n + k, b₁, m₁))

abbrev pub as_written : ℕ × LinkedBuffer × Shm → Option (ℕ × LinkedBuffer × Shm)
as_written (n, b, m) = some (n, counted n b, m)

-- Every round fills a slice: there is one for each slice, one for each byte and one more.
unfoldable pub write_bytes :
    BufferManager → List ℕ → LinkedBuffer → Shm → Option (ℕ × LinkedBuffer × Shm)
write_bytes bm [] b m = some (0, b, m)
write_bytes bm bytes b m = prepare b.slice_list.write bm (length bytes) b m >>= (λ r.
    write_loop (length r.0.slice_list.slices + length bytes + 1) bm bytes 0 r.0 r.1 >>= as_written)
