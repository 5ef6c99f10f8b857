-- ===== src/Buffer/Manager/Lookup.antt =====
-- What read_buffer_slice accepts, and what check_buffer_returned says of the lists.
use shmipc_cpp.Common.{
  ℕ, ◌+◌, ◌^◌, ◌≤◌, ◌<◌, ◌≡◌, ◌↔◌, ◌⊎◌, inl, inr, refl, arith, true, some, List, [], ◌∷◌, All, ◌%◌,
  none,
}
use native.Mathlib.Decide.{dec_lt}
use shmipc_cpp.Shm.{Shm}
use shmipc_cpp.Error.{ok, err, other}
use shmipc_cpp.Buffer.Header
use shmipc_cpp.Buffer.Slice.{BufferSlice, in_shm, new_slice}
use shmipc_cpp.Buffer.FreeList.{BufferList}
use shmipc_cpp.Buffer.FreeList.State.{Holds}
use shmipc_cpp.Buffer.Manager.{
  BufferManager, read_buffer_slice, check_buffer_returned, list_returned, all_returned,
}

-- The slice that a header describes: it starts where the header says, and has as many bytes to
-- read as the header says, counted in 32 bits.
abbrev pub described : Shm → ℕ → BufferSlice
described m offset = record {
  buffer_header = some offset;
  place = in_shm (offset + 20);
  cap = Header.cap m offset;
  start = Header.start m offset;
  offset_in_shm = offset;
  read_index = Header.start m offset;
  write_index = (Header.start m offset + Header.size m offset) % 2 ^ 32;
  is_from_shm = true;
}

-- `read_buffer_slice` at an offset whose end, in whole numbers, is below 2 ^ 32: when the header
-- and the capacity that it says lie inside the mapping, the header not at its very end, and the
-- capacity is not 0, the result is the slice that the header describes, of that capacity, with all
-- its indices; with capacity 0 an assertion fails; in every other case it is an error.
pub read_buffer_slice_lem :
    (bm : BufferManager) (offset : ℕ) (m : Shm)
    → offset + 20 + Header.cap m offset < 2 ^ 32
    → ((offset + 20 < bm.mem_size)
        × (offset + 20 + Header.cap m offset ≤ bm.mem_size)
        × (0 < Header.cap m offset)
        × (read_buffer_slice bm offset m ≡ some (ok (described m offset))))
      ⊎ (((offset + 20 < bm.mem_size)
            × (Header.cap m offset ≡ 0)
            × (read_buffer_slice bm offset m ≡ none))
          ⊎ (((bm.mem_size ≤ offset + 20) ⊎ (bm.mem_size < offset + 20 + Header.cap m offset))
              × (read_buffer_slice bm offset m ≡ some (err other))))
unfolding read_buffer_slice Header.cap new_slice
read_buffer_slice_lem bm offset m fits = elim (dec_lt (offset + 20) bm.mem_size) [
  | no h ↦ inr (inr (inl (omega arith), ground arith))
  | yes h ↦ elim (dec_lt bm.mem_size (offset + 20 + Header.cap m offset)) [
    | yes k ↦ inr (inr (inr k, ground arith))
    | no k ↦ elim (dec_lt 0 (Header.cap m offset)) [
      | yes p ↦ inl (h, omega arith, p, ground arith)
      | no p ↦ inr (inl (h, omega arith, ground arith))
    ]
  ]
]

-- The buffers that are out of each list.
abbrev pub AllHeld : List BufferList → List ℕ → Shm → Type 0
AllHeld [] [] m = Unit {0}
AllHeld (l ∷ ls) (u ∷ us) m =
    ((n : ℕ) × (c : ℕ) × (ks : List ℕ) × (t : ℕ) × Holds l n c ks t u m) × AllHeld ls us m
AllHeld [] (u ∷ us) m = ⊥
AllHeld (l ∷ ls) [] m = ⊥

list_returned_iff :
    (l : BufferList) (n c : ℕ) (ks : List ℕ) (t u : ℕ) (m : Shm)
    → Holds l n c ks t u m
    → (list_returned l m ≡ true) ↔ (u ≡ 0)
unfolding list_returned
list_returned_iff l n c ks t u m held =
    ground (arith, held.size_is, held.cap_is, held.counter_is, held.whole)

returned_iff :
    (ls : List BufferList) (us : List ℕ) (m : Shm)
    → AllHeld ls us m
    → (all_returned ls m ≡ true) ↔ All (λ u. u ≡ 0) us
unfolding all_returned
returned_iff [] [] m h = (λ e. tt, λ e. refl)
returned_iff (l ∷ ls) (u ∷ us) m ((n, c, ks, t, held), h) =
    let one = list_returned_iff l n c ks t u m held in
    let rest = returned_iff ls us m h in ground (arith, one, rest)
returned_iff [] (u ∷ us) m h = absurd h
returned_iff (l ∷ ls) [] m h = absurd h

-- `check_buffer_returned` on lists that hold their free buffers is true exactly when no buffer of
-- any of them is out.
pub check_buffer_returned_lem :
    (bm : BufferManager) (us : List ℕ) (m : Shm)
    → AllHeld bm.lists us m
    → (check_buffer_returned bm m ≡ true) ↔ All (λ u. u ≡ 0) us
unfolding check_buffer_returned
check_buffer_returned_lem bm us m held = returned_iff bm.lists us m held
