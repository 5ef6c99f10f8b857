-- ===== src/Buffer/Slice/Window.antt =====
-- A slice is a queue of bytes: `append` adds at its end, `read`, `peek` and `skip` take from its
-- front.
use shmipc_cpp.Common.{
  ℕ, ◌+◌, ◌-◌, ◌≤◌, ◌<◌, ◌^◌, ◌≡◌, ap, ap₂, ◌∙◌, sym, List, [], ◌∷◌, ◌++◌, length, take, drop, min,
  arith, length-take,
}
use shmipc_cpp.Shm.{Shm}
use mathlib.Core.List.{append-nil}
use shmipc_cpp.Shm.Span.{
  read_span, write_span, AreBytes, AreBytes-take, length-read_span, read_span-write_span_ne,
  read_span-write_span_self, read_span_split, take-read_span, drop-read_span,
}
use shmipc_cpp.Buffer.Slice.{
  Place, in_shm, on_heap, BufferSlice, size, remain, append, read, peek, skip, bytes_at, write_at,
}

-- Read up to the write index, written up to the capacity, which is an std::uint32_t.
pub record IsValid (s : BufferSlice) : Type 0 where
  pub read_le : s.read_index ≤ s.write_index
  pub write_le : s.write_index ≤ s.cap
  pub cap_fits : s.cap < 2 ^ 32

-- The unread bytes.
abbrev pub pending : BufferSlice → Shm → List ℕ
pending s m = bytes_at s.place m s.read_index (s.write_index - s.read_index)

pub length-bytes_at : (p : Place) (m : Shm) (i n : ℕ) → length (bytes_at p m i n) ≡ n
length-bytes_at (in_shm a) m i n = length-read_span m (a + i) n
length-bytes_at (on_heap st) m i n = length-read_span st i n

pub take-bytes_at :
    (p : Place) (m : Shm) (i k n : ℕ) → take k (bytes_at p m i n) ≡ bytes_at p m i (min k n)
take-bytes_at (in_shm a) m i k n = take-read_span m (a + i) k n
take-bytes_at (on_heap st) m i k n = take-read_span st i k n

pub drop-bytes_at :
    (p : Place) (m : Shm) (i k n : ℕ)
    → drop k (bytes_at p m i n) ≡ bytes_at p m (i + min k n) (n - k)
drop-bytes_at (in_shm a) m i k n =
    drop-read_span m (a + i) k n ∙ ap (λ (b : ℕ). read_span m b (n - k)) (omega arith)
drop-bytes_at (on_heap st) m i k n = drop-read_span st i k n

read_span-snoc :
    (m : Shm) (a n b : ℕ) (bs : List ℕ)
    → AreBytes bs
    → b ≡ a + n
    → read_span (write_span m b bs) a (n + length bs) ≡ read_span m a n ++ bs
read_span-snoc m a n b bs h e =
    read_span_split (write_span m b bs) a n (n + length bs) (omega arith)
    ∙ ap₂ ◌++◌ (read_span-write_span_ne m a n b bs (omega arith)) (
        ap₂ (read_span (write_span m b bs)) (omega arith) (omega arith)
        ∙ read_span-write_span_self m b bs h)

-- Writing behind a run extends it.
bytes_at-write_at :
    (p : Place) (m : Shm) (i n j : ℕ) (bs : List ℕ)
    → AreBytes bs
    → j ≡ i + n
    → let (p', m') = write_at p m j bs in bytes_at p' m' i (n + length bs) ≡ bytes_at p m i n ++ bs
bytes_at-write_at (in_shm a) m i n j bs h e = read_span-snoc m (a + i) n (a + j) bs h (omega arith)
bytes_at-write_at (on_heap st) m i n j bs h e = read_span-snoc st i n j bs h e

pub size_lem : (s : BufferSlice) → IsValid s → size s ≡ s.write_index - s.read_index
unfolding size
size_lem s v = omega (arith, v)

pub remain_lem : (s : BufferSlice) → IsValid s → remain s ≡ s.cap - s.write_index
unfolding remain
remain_lem s v = omega (arith, v)

-- `append` takes as many bytes as there is room for and adds exactly those, in order, behind the
-- unread bytes; the slice stays valid.
pub append_lem :
    (s : BufferSlice) (bs : List ℕ) (m : Shm)
    → IsValid s
    → AreBytes bs
    → let (n, s', m') = append s bs m in
      (n ≡ min (length bs) (s.cap - s.write_index))
      × (pending s' m' ≡ pending s m ++ take n bs)
      × IsValid s'
unfolding append
append_lem s [] m v h = (omega arith, sym (append-nil _), v)
append_lem s (b ∷ bs) m v h =
    let n = min (length (b ∷ bs)) (remain s) in
    let part = take n (b ∷ bs) in
    let k : length part ≡ n = length-take n (b ∷ bs) ∙ omega arith in
    let count : s.write_index + n - s.read_index ≡ s.write_index - s.read_index + length part =
      omega (arith, v, k) in
    (
      ap (min (length (b ∷ bs))) (remain_lem s v),
      rw count (
          bytes_at-write_at s.place m s.read_index (s.write_index - s.read_index) s.write_index part
            (AreBytes-take n (b ∷ bs) h) (omega (arith, v))),
      record {
        read_le = omega (arith, v);
        write_le = omega (arith, v, remain_lem s v);
        cap_fits = v.cap_fits;
      },
    )

pub skip_lem :
    (s : BufferSlice) (n : ℕ)
    → skip s n ≡ (min n (size s), record s { read_index = s.read_index + min n (size s) })
unfolding skip
skip_lem s n = ground arith

-- The unread bytes after reading `k` of them.
pending_after :
    (s : BufferSlice) (n : ℕ) (m : Shm)
    → IsValid s
    → pending (record s { read_index = s.read_index + min n (size s) }) m ≡ drop n (pending s m)
pending_after s n m v =
    let held = s.write_index - s.read_index in
    ap₂ (bytes_at s.place m) (omega (arith, size_lem s v)) (omega (arith, v, size_lem s v))
    ∙ sym (drop-bytes_at s.place m s.read_index n held)

read-IsValid :
    (s : BufferSlice) (n : ℕ)
    → IsValid s
    → IsValid (record s { read_index = s.read_index + min n (size s) })
read-IsValid s n v = omega (arith, v, size_lem s v)

-- `read` returns the first `n` unread bytes, or all of them if there are fewer, and leaves the
-- others; `peek` returns the same and `skip` drops the same and returns their number. The slice
-- stays valid.
pub read_lem :
    (s : BufferSlice) (n : ℕ) (m : Shm)
    → IsValid s
    → let (out, s') = read s n m in
      let (k, s'') = skip s n in
      (out ≡ take n (pending s m))
      × (pending s' m ≡ drop n (pending s m))
      × (peek s n m ≡ take n (pending s m))
      × (k ≡ min n (length (pending s m)))
      × (pending s'' m ≡ drop n (pending s m))
      × IsValid s'
      × IsValid s''
unfolding read peek
read_lem s n m v =
    let held = s.write_index - s.read_index in
    let front : bytes_at s.place m s.read_index (min n (size s)) ≡ take n (pending s m) =
      ap (λ (k : ℕ). bytes_at s.place m s.read_index (min n k)) (size_lem s v)
      ∙ sym (take-bytes_at s.place m s.read_index n held) in
    rw (skip_lem s n) (
      front,
      pending_after s n m v,
      front,
      ap (min n) (size_lem s v ∙ sym (length-bytes_at s.place m s.read_index held)),
      pending_after s n m v,
      read-IsValid s n v,
      read-IsValid s n v,
    )
