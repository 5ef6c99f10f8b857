-- ===== src/Buffer/Linked/Bytes.antt =====
-- LinkedBuffer::read_bytes on a buffer whose length is that of its unread bytes.
use shmipc_cpp.Common.{
  nil_of_length, ℕ, zero, suc, ◌+◌, ◌-◌, ◌%◌, ◌^◌, ◌≤◌, ◌<◌, ◌≡◌, ◌⊎◌, refl, ap, subst, ◌∙◌, sym,
  arith, true, false, Bool-cases, ◌==◌, leb, ltb, inl, inr, List, [], ◌∷◌, ◌++◌, length, take, drop,
  Option, some, ◌>>=◌, length-drop, take-append_le, drop-append_le,
}
use native.Mathlib.Decide.{dec_lt}
use shmipc_cpp.Shm.{Shm}
use shmipc_cpp.Error.{Result, ok, err, not_enough_data}
use shmipc_cpp.Buffer.Slice
use shmipc_cpp.Buffer.Slice.{BufferSlice, read}
use shmipc_cpp.Buffer.Slice.Window.{IsValid, pending, read_lem, size_lem, length-bytes_at}
use shmipc_cpp.Buffer.SliceList.{Cursor}
use shmipc_cpp.Buffer.Manager.{BufferManager}
use shmipc_cpp.Buffer.Linked.{LinkedBuffer}
use shmipc_cpp.Buffer.Linked.Reclaim.{Reclaim, CanRead, unread, with_list, read_next_slice-Leaves}
use shmipc_cpp.Buffer.Linked.Read.{
  Buf, shm, exm, span, read_bytes, read_from, slow_read, skip_spent, as_copy,
}
use shmipc_cpp.Buffer.Linked.ReadLoop.{Left, CanRead-front, loop_lem}

-- The length of what is pending in a slice.
pub size-pending : (s : BufferSlice) (m : Shm) → IsValid s → Slice.size s ≡ length (pending s m)
size-pending s m v =
    size_lem s v ∙ sym (length-bytes_at s.place m s.read_index (s.write_index - s.read_index))

module _ (bm : BufferManager) (r : Reclaim bm) where
  pub record IsSound (b : LinkedBuffer) (m : Shm) : Type 0 where
    pub can_read : CanRead bm r b.slice_list.slices m
    pub len_is : b.len ≡ length (unread b.slice_list.slices m)
    pub len_fits : b.len < 2 ^ 64

  skip_spent_lem :
      (b : LinkedBuffer) (ss : List BufferSlice) (w : Cursor) (m : Shm)
      → CanRead bm r ss m
      → let (b', m') = skip_spent bm (with_list b ss w) m in Left bm r b b' m' (unread ss m)
  unfolding skip_spent
  skip_spent_lem b [] w m can = record { can_read = can; unread_is = refl; len_is = refl }
  skip_spent_lem b (s ∷ ss) w m can = elim (Bool-cases (Slice.size s == 0)) [
    | inr more ↦ simp more (record { can_read = can; unread_is = refl; len_is = refl })
    | inl spent ↦
        let (b', m', eq, leaves) = read_next_slice-Leaves bm r b s ss w m can in
        let empty : pending s m ≡ [] =
          nil_of_length (pending s m) (ground (arith, spent, size-pending s m can.valid.0)) in
        simp (spent, eq)
          (record {
            can_read = leaves.can_read;
            unread_is = leaves.unread_is ∙ ap (λ (l : List ℕ). l ++ unread ss m) (sym empty);
            len_is = leaves.len_is;
          })
  ]

  -- What read_bytes promises of the next `size` of the bytes `bs`.
  abbrev pub Reading : LinkedBuffer → ℕ → List ℕ → Option (Result Buf × LinkedBuffer × Shm) → Type 0
  Reading b size bs o =
      (buf : Buf) × (b' : LinkedBuffer) × (m' : Shm) × (o ≡ some (ok buf, b', m'))
      × (span buf ≡ take size bs)
      × IsSound b' m'
      × (unread b'.slice_list.slices m' ≡ drop size bs)

  slow_read_lem :
      (b : LinkedBuffer) (size : ℕ) (m : Shm)
      → IsSound b m
      → size ≤ b.len
      → Reading b size (unread b.slice_list.slices m) (slow_read bm size b m)
  unfolding slow_read span
  slow_read_lem b size m sound enough =
      let bs = unread b.slice_list.slices m in
      let b₁ = record b { len = (b.len + 2 ^ 64 - size) % 2 ^ 64 } in
      let (b', m', eq, left) =
        loop_lem bm r (length b.slice_list.slices + 1) b₁ b.slice_list.slices b.slice_list.write
          size [] m (omega arith) (inr (omega arith)) sound.can_read
          (omega (arith, sound.len_is)) in
      (
        exm (take size bs),
        b',
        m',
        ap (λ o. o >>= as_copy) eq,
        refl,
        record {
          can_read = left.can_read;
          len_is = omega (
            arith,
            left.len_is,
            ap length left.unread_is,
            length-drop size bs,
            sound.len_is,
            sound.len_fits,
          );
          len_fits = omega (arith, left.len_is, sound.len_fits);
        },
        left.unread_is,
      )

  read_from_lem :
      (b : LinkedBuffer) (ss : List BufferSlice) (w : Cursor) (size : ℕ) (m : Shm)
      → IsSound (with_list b ss w) m
      → size ≤ b.len
      → Reading (with_list b ss w) size (unread ss m) (read_from bm size (with_list b ss w) m)
  unfolding read_from span
  read_from_lem b [] w size m sound enough = slow_read_lem (with_list b [] w) size m sound enough
  read_from_lem b (s ∷ ss) w size m sound enough = elim (Bool-cases (leb size (Slice.size s))) [
    | inr short ↦ simp short (slow_read_lem (with_list b (s ∷ ss) w) size m sound enough)
    | inl full ↦
        let (out, s') = read s size m in
        let held = pending s m in
        let (out_is, held', _, _, _, _, _) = read_lem s size m sound.can_read.valid.0 in
        let fits : size ≤ length held =
          ground (arith, full, size-pending s m sound.can_read.valid.0) in
        let left : unread (s' ∷ ss) m ≡ drop size (held ++ unread ss m) =
          ap (λ (l : List ℕ). l ++ unread ss m) held'
          ∙ sym (drop-append_le size held (unread ss m) fits) in
        simp full (
          shm out,
          record (with_list b (s' ∷ ss) w) {
            current_pinned = true;
            len = (b.len + 2 ^ 64 - size) % 2 ^ 64;
          },
          m,
          refl,
          out_is ∙ sym (take-append_le size held (unread ss m) fits),
          record {
            can_read = CanRead-front bm r s ss size m sound.can_read;
            len_is = omega (
              arith,
              ap length left,
              length-drop size (held ++ unread ss m),
              sound.len_is,
              sound.len_fits,
              enough,
            );
            len_fits = omega arith;
          },
          left,
        )
  ]

  read_behind :
      (b b' : LinkedBuffer) (size : ℕ) (m m' : Shm)
      → IsSound b m
      → Left bm r b b' m' (unread b.slice_list.slices m)
      → size ≤ b.len
      → Reading b size (unread b.slice_list.slices m) (read_from bm size b' m')
  read_behind b b' size m m' sound left enough =
      let sound' : IsSound b' m' = record {
        can_read = left.can_read;
        len_is = omega (arith, left.len_is, ap length left.unread_is, sound.len_is);
        len_fits = omega (arith, left.len_is, sound.len_fits);
      } in
      subst (λ (l : List ℕ). Reading b size l (read_from bm size b' m')) left.unread_is
        (read_from_lem b' b'.slice_list.slices b'.slice_list.write size m' sound'
          (omega (arith, left.len_is, enough)))

  -- Reading `size` bytes from a buffer whose length is that of its unread bytes, from a manager
  -- whose recycling keeps the bytes of other slices: with enough of them it returns the next
  -- `size`, from one slice or across several, its loop ends, and the buffer holds the others and
  -- counts them; with fewer it is an error and changes nothing.
  pub read_bytes_lem :
      (b : LinkedBuffer) (size : ℕ) (m : Shm)
      → IsSound b m
      → ((size ≤ b.len) × Reading b size (unread b.slice_list.slices m) (read_bytes bm size b m))
        ⊎ ((b.len < size) × (read_bytes bm size b m ≡ some (err not_enough_data, b, m)))
  unfolding read_bytes span
  read_bytes_lem b zero m sound = inl (omega arith, (exm [], b, m, refl, refl, sound, refl))
  read_bytes_lem b (suc k) m sound = elim (dec_lt b.len (suc k)) [
    | yes h ↦ inr (h, ground arith)
    | no h ↦
        let (b', m') = skip_spent bm b m in
        let left = skip_spent_lem b b.slice_list.slices b.slice_list.write m sound.can_read in
        let not_zero : (suc k == 0) ≡ false = ground arith in
        let not_short : ltb b.len (suc k) ≡ false = ground arith in
        inl (
          omega arith,
          simp (not_zero, not_short) (read_behind b b' (suc k) m m' sound left (omega arith)),
        )
  ]
