-- ===== src/Buffer/Linked/OneList.antt =====
-- A manager of one list as the place that spent slices go back to.
use shmipc_cpp.Common.{
  ℕ, ◌+◌, ◌-◌, ◌≡◌, ◌⊎◌, inl, inr, refl, ap, ◌∙◌, sym, arith, Bool-cases, true, false, [], ◌∷◌,
  some, ◌==◌,
}
use shmipc_cpp.Shm.{Shm}
use shmipc_cpp.Shm.Span.{read_span_ext}
use shmipc_cpp.Buffer.Header
use shmipc_cpp.Buffer.Slice.{BufferSlice, Place, on_heap, bytes_at}
use shmipc_cpp.Buffer.Slice.Window.{IsValid, pending}
use shmipc_cpp.Buffer.FreeList.{BufferList, cap_per_buffer}
use shmipc_cpp.Buffer.FreeList.Chain.{header_at}
use shmipc_cpp.Buffer.FreeList.State.{IsLaid}
use shmipc_cpp.Buffer.Manager.{BufferManager, recycle_buffer, recycle_used, recycle_to}
use shmipc_cpp.Buffer.Linked.{recycled}
use shmipc_cpp.Buffer.Linked.Reclaim.{Reclaim}
use shmipc_cpp.Buffer.Linked.PushFrame.{HasTail, IsBuffer, Frames, push-Frames}

module _ (l : BufferList) (n c : ℕ) (laid : IsLaid l n c) where
  -- A slice of the list, or one with storage of its own.
  abbrev pub Owned : BufferSlice → Type 0
  Owned s = ((st : Shm) × (s.place ≡ on_heap st) × (s.is_from_shm ≡ false)) ⊎ IsBuffer l n c laid s

  pub Owned-read : (s : BufferSlice) (i : ℕ) → Owned s → Owned (record s { read_index = i })
  Owned-read s i (inl h) = inl h
  Owned-read s i (inr b) = inr (record {
    index = b.index;
    index_in = b.index_in;
    header_is = b.header_is;
    place_is = b.place_is;
    offset_is = b.offset_is;
    cap_is = b.cap_is;
  })

  module _ (bm : BufferManager) (only : bm.lists ≡ l ∷ []) where
    recycle_to-Frames :
        (s : BufferSlice) (m : Shm)
        → IsBuffer l n c laid s
        → HasTail l n c laid m
        → (m' : Shm) × (recycle_to (l ∷ []) s m ≡ some m') × Frames l n c laid m m'
    unfolding recycle_to
    recycle_to-Frames s m b h =
        let same : (s.cap == cap_per_buffer l m) ≡ true =
          ground (arith, b.cap_is, h.cap_per_buffer_is) in
        simp same (push-Frames l n c laid s m b h)

    recycle_used-Frames :
        (s : BufferSlice) (m : Shm) (h : ℕ)
        → IsBuffer l n c laid s
        → HasTail l n c laid m
        → (m' : Shm) × (recycle_used (l ∷ []) s (some h) m ≡ some m') × Frames l n c laid m m'
    unfolding recycle_used
    recycle_used-Frames s m h b t = elim (Bool-cases (Header.is_in_used m h)) [
      | inl used ↦ simp used (recycle_to-Frames s m b t)
      | inr idle ↦ simp idle (m, refl, (t, λ x p. refl))
    ]

    -- Recycling a slice returns, and writes in no payload.
    recycle_buffer-Frames :
        (s : BufferSlice) (m : Shm)
        → Owned s
        → HasTail l n c laid m
        → (m' : Shm) × (recycle_buffer bm s m ≡ some m') × Frames l n c laid m m'
    unfolding recycle_buffer recycle_used
    recycle_buffer-Frames s m (inl (st, at_heap, heap)) t = simp heap (m, refl, (t, λ x p. refl))
    recycle_buffer-Frames s m (inr b) t = elim (Bool-cases s.is_from_shm) [
      | inr heap ↦ simp heap (m, refl, (t, λ x p. refl))
      | inl shm ↦
          let (m', e, f) = recycle_used-Frames s m (header_at l.buffer_region c b.index) b t in
          simp (shm, only, b.header_is) (m', e, f)
    ]

    pub recycled-Frames :
        (s : BufferSlice) (m : Shm)
        → Owned s
        → HasTail l n c laid m
        → Frames l n c laid m (recycled bm s m)
    unfolding recycled
    recycled-Frames s m o t = let (m', e, f) = recycle_buffer-Frames s m o t in simp e f

    pub pending-Frames :
        (s : BufferSlice) (m m' : Shm)
        → Owned s
        → IsValid s
        → Frames l n c laid m m'
        → pending s m' ≡ pending s m
    pending-Frames s m m' (inl (st, at_heap, heap)) v f =
        let k = s.write_index - s.read_index in
        ap (λ (p : Place). bytes_at p m' s.read_index k) at_heap
        ∙ sym (ap (λ (p : Place). bytes_at p m s.read_index k) at_heap)
    pending-Frames s m m' (inr b) v f =
        let k = s.write_index - s.read_index in
        let a = header_at l.buffer_region c b.index + 20 in
        ap (λ (p : Place). bytes_at p m' s.read_index k) b.place_is
        ∙ read_span_ext m' m (a + s.read_index) k (λ x from to.
          f.1 x
            (record { index = b.index; behind = omega arith; inside = omega (arith, v, b.cap_is) }))
        ∙ sym (ap (λ (p : Place). bytes_at p m s.read_index k) b.place_is)

    -- What the reader needs, for the slices of this list and slices with storage of their own.
    abbrev pub reclaim : Reclaim bm
    reclaim = record {
      Ready = HasTail l n c laid;
      Own = Owned;
      own_read = Owned-read;
      ready_kept = λ s m o t. (recycled-Frames s m o t).0;
      bytes_kept =
          λ s s' m o o' v t. pending-Frames s' m (recycled bm s m) o' v (recycled-Frames s m o t);
    }
