-- ===== src/Buffer/Linked/FromHeap.antt =====
-- Slices with storage of their own.
use shmipc_cpp.Common.{
  ℕ, zero, suc, ◌<◌, ◌^◌, ◌≡◌, refl, ap, arith, max, List, [], ◌∷◌, length, take, min,
}
use shmipc_cpp.Shm.{Shm}
use shmipc_cpp.Shm.Span.{AreBytes, write_span}
use shmipc_cpp.Buffer.Slice.{BufferSlice, on_heap, append, from_heap, remain, storage_of}
use shmipc_cpp.Buffer.Slice.Window.{IsValid, append_lem}
use shmipc_cpp.Buffer.Linked.Write.{zeros, default_single_buffer_size}
use shmipc_cpp.Buffer.Linked.Supply.{IsBlank}

-- A valid slice with storage of its own.
pub record IsOwn (s : BufferSlice) : Type 0 where
  pub storage : Shm
  pub place_is : s.place ≡ on_heap storage
  pub valid : IsValid s

pub length-zeros : (n : ℕ) → length (zeros n) ≡ n
length-zeros zero = refl
length-zeros (suc n) = ap suc (length-zeros n)

append-place :
    (s : BufferSlice) (bs : List ℕ) (m st : Shm)
    → s.place ≡ on_heap st
    → (st' : Shm) × ((append s bs m).1.place ≡ on_heap st')
unfolding append
append-place s [] m st h = (st, h)
append-place s (b ∷ bs) m st h =
    let part = take (min (length (b ∷ bs)) (remain s)) (b ∷ bs) in
    simp h (write_span st s.write_index part, refl)

pub append-IsOwn :
    (s : BufferSlice) (bs : List ℕ) (m : Shm) → AreBytes bs → IsOwn s → IsOwn (append s bs m).1
append-IsOwn s bs m h own =
    let (st, at) = append-place s bs m own.storage own.place_is in
    record { storage = st; place_is = at; valid = (append_lem s bs m own.valid h).2 }

-- Storage for what could not be allocated.
abbrev pub heap_of : ℕ → BufferSlice
heap_of size = from_heap (zeros (max size default_single_buffer_size))

pub heap_of-IsBlank : (size : ℕ) → size < 2 ^ 32 → IsBlank (heap_of size)
unfolding from_heap
heap_of-IsBlank size small = record {
  nothing_unread = refl;
  has_room = omega (arith, length-zeros (max size default_single_buffer_size));
}

pub heap_of-IsOwn : (size : ℕ) → size < 2 ^ 32 → IsOwn (heap_of size)
unfolding from_heap
heap_of-IsOwn size small = record {
  storage = storage_of (zeros (max size default_single_buffer_size));
  place_is = refl;
  valid = record {
    read_le = omega arith;
    write_le = omega arith;
    cap_fits = omega (arith, length-zeros (max size default_single_buffer_size));
  };
}
