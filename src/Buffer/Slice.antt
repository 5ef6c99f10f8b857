-- ===== src/Buffer/Slice.antt =====
-- class BufferSlice (src/buffer/slice.cpp, include/shmipc/buffer/slice.hpp): a window of bytes
-- between a read and a write index, in shared memory or on the heap. The pointer `data` is an
-- address in the mapping, or the storage that a heap slice owns; the owned chain `next_slice_` is
-- kept by the lists that hold slices, so `update` is told the next slice's offset.
pub mod Window
pub mod Handover
mod Tests
use shmipc_cpp.Common.{
  ℕ, ◌+◌, ◌-◌, ◌%◌, ◌^◌, Bool, true, false, Option, none, some, List, [], ◌∷◌, length, take, min,
  ltb, leb, if◌then◌else◌, add_u32,
}
use shmipc_cpp.Shm.{Shm}
use shmipc_cpp.Shm.Span.{read_span, write_span}
use shmipc_cpp.Error.{Result, ok, err, no_more_buffer}
use shmipc_cpp.Buffer.Header

pub data Place : Type 0 where
  in_shm : ℕ → Place
  on_heap : Shm → Place

pub record BufferSlice : Type 0 where
  pub buffer_header : Option ℕ
  pub place : Place
  pub cap : ℕ
  pub start : ℕ
  pub offset_in_shm : ℕ
  pub read_index : ℕ
  pub write_index : ℕ
  pub is_from_shm : Bool

abbrev with_header : Shm → ℕ → ℕ → ℕ → BufferSlice
with_header m h data_at offset = record {
  buffer_header = some h;
  place = in_shm data_at;
  cap = Header.cap m h;
  start = Header.start m h;
  offset_in_shm = offset;
  read_index = Header.start m h;
  write_index = add_u32 (Header.start m h) (Header.size m h);
  is_from_shm = true;
}

abbrev bare : ℕ → ℕ → ℕ → Bool → BufferSlice
bare data_at len offset shm = record {
  buffer_header = none;
  place = in_shm data_at;
  cap = len % 2 ^ 32;
  start = 0;
  offset_in_shm = offset;
  read_index = 0;
  write_index = 0;
  is_from_shm = shm;
}

-- The constructor BufferSlice(header, data, offset_in_shm, is_from_shm) behind its assertion, that
-- `data` has bytes, which read_buffer_slice tests; a list whose buffers have none is not modelled.
unfoldable pub new_slice : Shm → Option ℕ → ℕ → ℕ → ℕ → Bool → BufferSlice
new_slice m (some h) data_at len offset true = with_header m h data_at offset
new_slice m _ data_at len offset shm = bare data_at len offset shm

-- The storage of a vector.
unfoldable pub storage_of : List ℕ → Shm
storage_of bytes = write_span (λ x. 0) 0 bytes

unfoldable pub from_heap : List ℕ → BufferSlice
from_heap bytes = record {
  buffer_header = none;
  place = on_heap (storage_of bytes);
  cap = length bytes % 2 ^ 32;
  start = 0;
  offset_in_shm = 0;
  read_index = 0;
  write_index = 0;
  is_from_shm = false;
}

-- std::size_t arithmetic wraps.
unfoldable pub size : BufferSlice → ℕ
size s = (s.write_index + 2 ^ 64 - s.read_index) % 2 ^ 64

unfoldable pub remain : BufferSlice → ℕ
remain s = (s.cap + 2 ^ 64 - s.write_index) % 2 ^ 64

pub link_if : Shm → ℕ → Option ℕ → Shm
link_if m h none = m
link_if m h (some next) = Header.link_next m h next

pub update_header : Shm → Option ℕ → ℕ → ℕ → Option ℕ → Shm
unfolding link_if
update_header m none n start next = m
update_header m (some h) n start next =
    link_if (Header.set_start (Header.set_size m h (n % 2 ^ 32)) h start) h next

unfoldable pub update : BufferSlice → Option ℕ → Shm → Shm
unfolding update_header
update s next m = update_header m s.buffer_header (size s) s.start next

unfoldable pub reset_header : Option ℕ → Shm → Shm
reset_header none m = m
reset_header (some h) m = Header.clear_flag (Header.set_start (Header.set_size m h 0) h 0) h

unfoldable pub reset : BufferSlice → Shm → BufferSlice × Shm
reset s m =
    (record s { start = 0; read_index = 0; write_index = 0 }, reset_header s.buffer_header m)

-- On success, where the reserved bytes stand.
unfoldable pub reserve : BufferSlice → ℕ → Result (ℕ × ℕ) × BufferSlice
reserve s n =
    if leb n (remain s)
    then (ok (s.write_index, n), record s { write_index = s.write_index + n })
    else (err no_more_buffer, s)

-- The bytes at index `i` of the slice.
abbrev pub bytes_at : Place → Shm → ℕ → ℕ → List ℕ
bytes_at (in_shm a) m i n = read_span m (a + i) n
bytes_at (on_heap st) m i n = read_span st i n

abbrev pub write_at : Place → Shm → ℕ → List ℕ → Place × Shm
write_at (in_shm a) m i bs = (in_shm a, write_span m (a + i) bs)
write_at (on_heap st) m i bs = (on_heap (write_span st i bs), m)

unfoldable pub append : BufferSlice → List ℕ → Shm → ℕ × BufferSlice × Shm
append s [] m = (0, s, m)
append s (b ∷ bs) m =
    let n = min (length (b ∷ bs)) (remain s) in
    let (p, m') = write_at s.place m s.write_index (take n (b ∷ bs)) in
    (n, record s { place = p; write_index = s.write_index + n }, m')

unfoldable pub read : BufferSlice → ℕ → Shm → List ℕ × BufferSlice
read s n m =
    let k = min n (size s) in
    (bytes_at s.place m s.read_index k, record s { read_index = s.read_index + k })

unfoldable pub peek : BufferSlice → ℕ → Shm → List ℕ
peek s n m = bytes_at s.place m s.read_index (min n (size s))

unfoldable pub skip : BufferSlice → ℕ → ℕ × BufferSlice
skip s n =
    let un_read = size s in
    if ltb n un_read
    then (n, record s { read_index = s.read_index + n })
    else (un_read, record s { read_index = s.read_index + un_read })
