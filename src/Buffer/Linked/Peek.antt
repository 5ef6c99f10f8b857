-- ===== src/Buffer/Linked/Peek.antt =====
-- LinkedBuffer::peek (src/buffer/linked.cpp) on the unread bytes.
use shmipc_cpp.Common.{
  ℕ, zero, suc, ◌-◌, ◌≤◌, ◌≡◌, refl, ap, ap₂, ◌∙◌, sym, arith, false, Bool-cases, ◌==◌, ltb, inl,
  inr, List, [], ◌∷◌, ◌++◌, length, take, min, length-take, take-append_le, take-append, take_all,
}
use shmipc_cpp.Shm.{Shm}
use shmipc_cpp.Error.{Result, ok}
use shmipc_cpp.Buffer.Slice
use shmipc_cpp.Buffer.Slice.{BufferSlice, skip}
use shmipc_cpp.Buffer.Slice.Window.{pending, read_lem}
use shmipc_cpp.Buffer.SliceList.{Cursor}
use shmipc_cpp.Buffer.Manager.{BufferManager}
use shmipc_cpp.Buffer.Linked.{LinkedBuffer}
use shmipc_cpp.Buffer.Linked.Reclaim.{Reclaim, CanRead, unread, with_list}
use shmipc_cpp.Buffer.Linked.Read.{Buf, shm, exm, span, peek, peek_from, peek_slices}
use shmipc_cpp.Buffer.Linked.Bytes.{IsSound}

module _ (bm : BufferManager) (r : Reclaim bm) where
  -- The slow path sees the next `size` bytes.
  peek_slices_lem :
      (ss : List BufferSlice) (size : ℕ) (m : Shm)
      → CanRead bm r ss m
      → peek_slices ss size m ≡ take size (unread ss m)
  unfolding peek_slices
  peek_slices_lem [] size m can = sym (take_all size [] (omega arith))
  peek_slices_lem (s ∷ ss) size m can = elim (Bool-cases (size == 0)) [
    | inl at_end ↦ let none_left : size ≡ 0 = ground (arith, at_end) in simp none_left refl
    | inr more ↦
        let held = pending s m in
        let (_, _, out_is, _, _, _, _) = read_lem s size m can.valid.0 in
        let others : CanRead bm r ss m = record {
          ready = can.ready;
          owned = can.owned.1;
          valid = can.valid.1;
        } in
        let rest = peek_slices_lem ss (size - length (Slice.peek s size m)) m others in
        let count : length (Slice.peek s size m) ≡ min size (length held) =
          ap length out_is ∙ length-take size held in
        simp more (
          ap₂ ◌++◌ out_is (rest ∙ ap (λ (k : ℕ). take k (unread ss m)) (omega (arith, count)))
          ∙ sym (take-append size held (unread ss m)))
  ]

  -- What a peek promises: the next bytes, the memory and the slices as they were.
  abbrev pub Peeking : LinkedBuffer → ℕ → List ℕ → Result Buf × LinkedBuffer → Type 0
  Peeking b size bs (res, b') =
      (buf : Buf) × (res ≡ ok buf)
      × (span buf ≡ take size bs)
      × (b'.slice_list ≡ b.slice_list)
      × (b'.len ≡ b.len)

  peek_from_lem :
      (b : LinkedBuffer) (ss : List BufferSlice) (w : Cursor) (size : ℕ) (m : Shm)
      → CanRead bm r ss m
      → size ≤ length (unread ss m)
      → Peeking (with_list b ss w) size (unread ss m) (peek_from size (with_list b ss w) m)
  unfolding peek_from span
  peek_from_lem b [] w size m can there =
      (exm (peek_slices [] size m), refl, peek_slices_lem [] size m can, refl, refl)
  peek_from_lem b (s ∷ ss) w size m can there =
      let out = Slice.peek s size m in
      let held = pending s m in
      let (_, _, out_is, _, _, _, _) = read_lem s size m can.valid.0 in
      let count : length out ≡ min size (length held) = ap length out_is ∙ length-take size held in
      elim (Bool-cases (length out == size)) [
        | inr short ↦ simp short (
          exm (peek_slices (s ∷ ss) size m),
          refl,
          peek_slices_lem (s ∷ ss) size m can,
          refl,
          refl,
        )
        | inl full ↦
            let fits : size ≤ length held = ground (arith, full, count) in
            simp full (
              shm out,
              refl,
              out_is ∙ sym (take-append_le size held (unread ss m) fits),
              refl,
              refl,
            )
      ]

  pub peek_enough :
      (b : LinkedBuffer) (size : ℕ) (m : Shm)
      → IsSound bm r b m
      → size ≤ b.len
      → Peeking b size (unread b.slice_list.slices m) (peek size b m)
  unfolding peek span
  peek_enough b zero m sound enough = (exm [], refl, refl, refl, refl)
  peek_enough b (suc k) m sound enough =
      let not_zero : (suc k == 0) ≡ false = ground arith in
      let not_short : ltb b.len (suc k) ≡ false = ground arith in
      simp (not_zero, not_short)
        (peek_from_lem b b.slice_list.slices b.slice_list.write (suc k) m sound.can_read
          (omega (arith, sound.len_is)))
