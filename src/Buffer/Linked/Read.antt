-- ===== src/Buffer/Linked/Read.antt =====
-- LinkedBuffer as a BufferReader (src/buffer/linked.cpp): read_bytes, peek and discard.
use shmipc_cpp.Common.{
  ℕ, zero, suc, ◌+◌, ◌-◌, true, ltb, leb, ◌==◌, if◌then◌else◌, sub_u64, Option, none, some, ◌>>=◌,
  List, [], ◌∷◌, ◌++◌, length,
}
use shmipc_cpp.Shm.{Shm}
use shmipc_cpp.Error.{Result, ok, err, not_enough_data}
use shmipc_cpp.Buffer.Slice.{BufferSlice, read, skip}
use shmipc_cpp.Buffer.Slice
use shmipc_cpp.Buffer.Manager.{BufferManager}
use shmipc_cpp.Buffer.Linked.{LinkedBuffer, read_next_slice}

-- class Buf (include/shmipc/buffer/buf.hpp): a view of shared memory, or bytes of its own. A view
-- is the bytes that it shows when it is handed out.
pub data Buf : Type 0 where
  shm : List ℕ → Buf
  exm : List ℕ → Buf

unfoldable pub span : Buf → List ℕ
span (shm bs) = bs
span (exm bs) = bs

abbrev pub with_front : LinkedBuffer → BufferSlice → List BufferSlice → LinkedBuffer
with_front b s ss = record b { slice_list = record b.slice_list { slices = s ∷ ss } }

-- What an operation of the reader leaves: its answer, the buffer and the memory. `none` is a loop
-- that has not ended within its fuel.
abbrev pub Reads : Type 0 → Type 0
Reads A = Option (A × LinkedBuffer × Shm)

-- One round of the loop of read_bytes on the slice in front.
abbrev pub read_front :
    BufferManager
    → BufferSlice
    → List BufferSlice
    → ℕ
    → LinkedBuffer
    → Shm
    → List ℕ × LinkedBuffer × Shm
read_front bm s ss size b m =
    let (data_read, s') = read s size m in
    let b₁ = with_front b s' ss in
    let (b₂, m₂) = read_next_slice bm b₁ m in
    if length data_read == size then (data_read, b₁, m) else (data_read, b₂, m₂)

-- while (size > 0)
unfoldable pub read_loop : ℕ → BufferManager → ℕ → List ℕ → LinkedBuffer → Shm → Reads (List ℕ)
read_loop zero bm size result b m = none
read_loop (suc fuel) bm size result b m =
    if size == 0 then some (result, b, m) else elim b.slice_list.slices [
      | [] ↦ some (result, b, m)
      | s ∷ ss ↦
          let (data_read, b₁, m₁) = read_front bm s ss size b m in
          read_loop fuel bm (size - length data_read) (result ++ data_read) b₁ m₁
    ]

-- The loop ends after one round for each slice and one more.
abbrev pub rounds : LinkedBuffer → ℕ
rounds b = length b.slice_list.slices + 1

abbrev pub as_copy : List ℕ × LinkedBuffer × Shm → Reads (Result Buf)
as_copy (bs, b, m) = some (ok (exm bs), b, m)

unfoldable pub slow_read : BufferManager → ℕ → LinkedBuffer → Shm → Reads (Result Buf)
slow_read bm size b m =
    read_loop (rounds b) bm size [] (record b { len = sub_u64 b.len size }) m >>= as_copy

-- Behind the guards: from the slice in front, or piece by piece.
unfoldable pub read_from : BufferManager → ℕ → LinkedBuffer → Shm → Reads (Result Buf)
read_from bm size b m =
    let slow = slow_read bm size b m in
    elim b.slice_list.slices [
      | [] ↦ slow
      | s ∷ ss ↦
          let (data_read, s') = read s size m in
          if leb size (Slice.size s)
          then some (
            ok (shm data_read),
            record (with_front b s' ss) { current_pinned = true; len = sub_u64 b.len size },
            m,
          )
          else slow
    ]

-- A spent slice in front leaves first.
unfoldable pub skip_spent : BufferManager → LinkedBuffer → Shm → LinkedBuffer × Shm
skip_spent bm b m = elim b.slice_list.slices [
  | [] ↦ (b, m)
  | s ∷ ss ↦ if Slice.size s == 0 then read_next_slice bm b m else (b, m)
]

unfoldable pub read_bytes : BufferManager → ℕ → LinkedBuffer → Shm → Reads (Result Buf)
read_bytes bm size b m =
    let (b₁, m₁) = skip_spent bm b m in
    let found = read_from bm size b₁ m₁ in
    if size == 0
    then some (ok (exm []), b, m)
    else if ltb b.len size
    then some (err not_enough_data, b, m)
    else found

-- The slow path of peek: the loop over the slices.
unfoldable pub peek_slices : List BufferSlice → ℕ → Shm → List ℕ
peek_slices [] size m = []
peek_slices (s ∷ ss) size m =
    let data_read = Slice.peek s size m in
    let rest = peek_slices ss (size - length data_read) m in
    if size == 0 then [] else data_read ++ rest

unfoldable pub peek_from : ℕ → LinkedBuffer → Shm → Result Buf × LinkedBuffer
peek_from size b m =
    let slow : Result Buf × LinkedBuffer = (ok (exm (peek_slices b.slice_list.slices size m)), b) in
    elim b.slice_list.slices [
      | [] ↦ slow
      | s ∷ ss ↦
          let data_read = Slice.peek s size m in
          if length data_read == size
          then (ok (shm data_read), record b { current_pinned = true })
          else slow
    ]

unfoldable pub peek : ℕ → LinkedBuffer → Shm → Result Buf × LinkedBuffer
peek size b m =
    let found = peek_from size b m in
    if size == 0
    then (ok (exm []), b)
    else if ltb b.len size
    then (err not_enough_data, b)
    else found

-- while (true), `n` bytes dropped so far.
unfoldable pub discard_loop : ℕ → BufferManager → ℕ → ℕ → LinkedBuffer → Shm → Reads ℕ
discard_loop zero bm size n b m = none
discard_loop (suc fuel) bm size n b m = elim b.slice_list.slices [
  | [] ↦ some (n, b, m)
  | s ∷ ss ↦
      let (skipped, s') = skip s size in
      let b₁ = with_front b s' ss in
      let (b₂, m₂) = read_next_slice bm b₁ m in
      let rest = discard_loop fuel bm (size - skipped) (n + skipped) b₂ m₂ in
      if size - skipped == 0 then some (n + skipped, b₁, m) else rest
]

abbrev pub as_dropped : ℕ × LinkedBuffer × Shm → Reads (Result ℕ)
as_dropped (n, b, m) = some (ok n, record b { len = sub_u64 b.len n }, m)

unfoldable pub discard : BufferManager → ℕ → LinkedBuffer → Shm → Reads (Result ℕ)
discard bm size b m =
    let found = discard_loop (rounds b) bm size 0 b m >>= as_dropped in
    if ltb b.len size then some (err not_enough_data, b, m) else found
