-- ===== src/Buffer/Linked/ReadLoop.antt =====
-- The loop of LinkedBuffer::read_bytes.
use shmipc_cpp.Common.{
  ℕ, zero, suc, ◌-◌, ◌≤◌, ◌<◌, ◌≡◌, ◌≢◌, ◌⊎◌, refl, ap, ap₂, ◌∙◌, sym, arith, Bool-cases, ◌==◌, inl,
  inr, List, [], ◌∷◌, ◌++◌, length, take, drop, min, some, length-take, take-append_le,
  drop-append_le, drop-append_ge, take_all, take_split, drop_split, length-drop,
}
use mathlib.Core.List.{append-nil, append_assoc}
use shmipc_cpp.Shm.{Shm}
use shmipc_cpp.Buffer.Slice.{BufferSlice, read}
use shmipc_cpp.Buffer.Slice.Window.{pending, read_lem}
use shmipc_cpp.Buffer.SliceList.{Cursor}
use shmipc_cpp.Buffer.Manager.{BufferManager}
use shmipc_cpp.Buffer.Linked.{LinkedBuffer}
use shmipc_cpp.Buffer.Linked.Reclaim.{Reclaim, CanRead, unread, with_list, read_next_slice-Leaves}
use shmipc_cpp.Buffer.Linked.Read.{read_loop, read_front}

module _ (bm : BufferManager) (r : Reclaim bm) where
  -- What is left of the bytes `bs`, behind an operation on `b`.
  pub record Left (b b' : LinkedBuffer) (m' : Shm) (bs : List ℕ) : Type 0 where
    pub can_read : CanRead bm r b'.slice_list.slices m'
    pub unread_is : unread b'.slice_list.slices m' ≡ bs
    pub len_is : b'.len ≡ b.len

  -- Reading in the slice in front keeps what the others hold.
  pub CanRead-front :
      (s : BufferSlice) (ss : List BufferSlice) (size : ℕ) (m : Shm)
      → CanRead bm r (s ∷ ss) m
      → CanRead bm r ((read s size m).1 ∷ ss) m
  unfolding read
  CanRead-front s ss size m can =
      let (_, _, _, _, _, valid, _) = read_lem s size m can.valid.0 in
      record {
        ready = can.ready;
        owned = (r.own_read s _ can.owned.0, can.owned.1);
        valid = (valid, can.valid.1);
      }

  -- One round reads what the slice in front has of the next `size` bytes; a slice that has fewer
  -- leaves.
  abbrev pub Round :
      LinkedBuffer → BufferSlice → List BufferSlice → ℕ → Shm → List ℕ × LinkedBuffer × Shm → Type 0
  Round b s ss size m (bs, b', m') =
      (bs ≡ take (length bs) (unread (s ∷ ss) m))
      × (length bs ≤ size)
      × Left b b' m' (drop (length bs) (unread (s ∷ ss) m))
      × ((size ≤ length bs) ⊎ (b'.slice_list.slices ≡ ss))

  read_front_lem :
      (b : LinkedBuffer) (s : BufferSlice) (ss : List BufferSlice) (w : Cursor) (size : ℕ) (m : Shm)
      → CanRead bm r (s ∷ ss) m
      → Round b s ss size m (read_front bm s ss size (with_list b (s ∷ ss) w) m)
  read_front_lem b s ss w size m can =
      let held = pending s m in
      let (out, s') = read s size m in
      let (out_is, held', _, _, _, _, _) = read_lem s size m can.valid.0 in
      let count : length out ≡ min size (length held) = ap length out_is ∙ length-take size held in
      let can' = CanRead-front s ss size m can in
      elim (Bool-cases (length out == size)) [
        | inl full ↦
            let fits : size ≡ length out = ground (arith, full) in
            simp full (
              out_is
                  ∙ ap (λ (k : ℕ). take k held) fits
                  ∙ sym (take-append_le (length out) held (unread ss m) (omega (arith, count))),
              omega (arith, count),
              record {
                can_read = can';
                unread_is =
                    ap (λ (l : List ℕ). l ++ unread ss m) (held' ∙ ap (λ (k : ℕ). drop k held) fits)
                    ∙ sym (drop-append_le (length out) held (unread ss m) (omega (arith, count)));
                len_is = refl;
              },
              inl (omega (arith, fits)),
            )
        | inr short ↦
            let all : length out ≡ length held = ground (arith, short, count) in
            let none_left : length out - length held ≡ 0 = omega (arith, all) in
            let (b', m', eq, leaves) = read_next_slice-Leaves bm r b s' ss w m can' in
            simp (short, eq)
              (
                out_is
                    ∙ take_all size held (omega (arith, count, all))
                    ∙ sym (take_all (length out) held (omega (arith, all)))
                    ∙ sym (take-append_le (length out) held (unread ss m) (omega (arith, all))),
                omega (arith, count),
                record {
                  can_read = leaves.can_read;
                  unread_is =
                      leaves.unread_is
                      ∙ sym (
                          drop-append_ge (length out) held (unread ss m) (omega (arith, all))
                          ∙ ap (λ (k : ℕ). drop k (unread ss m)) none_left);
                  len_is = leaves.len_is;
                },
                inr refl,
              )
      ]

  -- What the loop promises of `size` bytes behind `result`.
  abbrev pub Loop : ℕ → LinkedBuffer → ℕ → List ℕ → List ℕ → Shm → Type 0
  Loop fuel b size result bs m =
      (b' : LinkedBuffer) × (m' : Shm) × (read_loop fuel bm size result b m
        ≡ some (result ++ take size bs, b', m'))
      × Left b b' m' (drop size bs)

  Loop-at_end :
      (fuel : ℕ) (b : LinkedBuffer) (size : ℕ) (result : List ℕ) (m : Shm)
      → 0 < fuel
      → size ≡ 0
      → CanRead bm r b.slice_list.slices m
      → Loop fuel b size result (unread b.slice_list.slices m) m
  unfolding read_loop
  Loop-at_end zero b size result m enough none_left can = absurd (omega arith)
  Loop-at_end (suc fuel) b size result m enough none_left can = simp none_left (
    b,
    m,
    ap (λ (l : List ℕ). some (l, b, m)) (sym (append-nil result)),
    record { can_read = can; unread_is = refl; len_is = refl },
  )

  -- Enough rounds for the slices: the loop ends, with the next `size` bytes behind the result.
  pub loop_lem :
      (fuel : ℕ) (b : LinkedBuffer) (ss : List BufferSlice) (w : Cursor) (size : ℕ)
      (result : List ℕ) (m : Shm)
      → 0 < fuel
      → (size ≡ 0) ⊎ (length ss < fuel)
      → CanRead bm r ss m
      → size ≤ length (unread ss m)
      → Loop fuel (with_list b ss w) size result (unread ss m) m
  unfolding read_loop
  loop_lem zero b ss w size result m some_fuel enough can there = absurd (omega arith)
  loop_lem (suc fuel) b [] w size result m some_fuel enough can there =
      Loop-at_end (suc fuel) (with_list b [] w) size result m some_fuel (omega (arith, there)) can
  loop_lem (suc fuel) b (s ∷ ss) w size result m some_fuel enough can there =
      elim (Bool-cases (size == 0)) [
        | inl at_end ↦
            Loop-at_end (suc fuel) (with_list b (s ∷ ss) w) size result m some_fuel
              (ground (arith, at_end)) can
        | inr more ↦
            let bs = unread (s ∷ ss) m in
            let (out, b₁, m₁) = read_front bm s ss size (with_list b (s ∷ ss) w) m in
            let (out_is, small, left, progress) = read_front_lem b s ss w size m can in
            let some_left : size ≢ 0 = ground (arith, more) in
            let room = nonempty some_left in
            let (b', m', eq, left') =
              loop_lem fuel b₁ b₁.slice_list.slices b₁.slice_list.write (size - length out)
                (result ++ out) m₁ (omega arith) (progress_on out room progress) left.can_read
                (omega
                  (arith, there, ap length left.unread_is, length-drop (length out) bs, small)) in
            simp more (
              b',
              m',
              eq
                  ∙ ap (λ (l : List ℕ). some (l, b', m'))
                      (append_assoc result out
                          (take (size - length out) (unread b₁.slice_list.slices m₁))
                        ∙ ap (λ (l : List ℕ). result ++ l)
                            (ap₂ ◌++◌ out_is
                                (ap (λ (l : List ℕ). take (size - length out) l) left.unread_is)
                              ∙ take_split (length out) size bs small)),
              record {
                can_read = left'.can_read;
                unread_is =
                    left'.unread_is
                    ∙ ap (λ (l : List ℕ). drop (size - length out) l) left.unread_is
                    ∙ drop_split (length out) size bs small;
                len_is = left'.len_is ∙ left.len_is;
              },
            )
      ]
    where
      nonempty : size ≢ 0 → length (s ∷ ss) < suc fuel
      nonempty h = ground (arith, enough)

      progress_on :
          (out : List ℕ) {ss₁ : List BufferSlice}
          → length (s ∷ ss) < suc fuel
          → (size ≤ length out) ⊎ (ss₁ ≡ ss)
          → (size - length out ≡ 0) ⊎ (length ss₁ < fuel)
      progress_on out h (inl full) = inl (omega arith)
      progress_on out h (inr same) = inr (omega (arith, ap length same))
