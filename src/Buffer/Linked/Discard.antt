-- ===== src/Buffer/Linked/Discard.antt =====
-- LinkedBuffer::discard (src/buffer/linked.cpp) on the unread bytes.
use shmipc_cpp.Common.{
  ℕ, zero, suc, ◌+◌, ◌-◌, ◌%◌, ◌^◌, ◌≤◌, ◌<◌, ◌≡◌, refl, ap, subst, ◌∙◌, sym, arith, false,
  Bool-cases, ◌==◌, ltb, inl, inr, List, [], ◌∷◌, ◌++◌, length, drop, Option, some, ◌>>=◌,
  length-append, length-drop, drop-append_le, drop-append_ge,
}
use shmipc_cpp.Shm.{Shm}
use shmipc_cpp.Error.{Result, ok}
use shmipc_cpp.Buffer.Slice.{BufferSlice, skip}
use shmipc_cpp.Buffer.Slice.Window.{pending, read_lem, skip_lem}
use shmipc_cpp.Buffer.SliceList.{Cursor, behind_front}
use shmipc_cpp.Buffer.Manager.{BufferManager}
use shmipc_cpp.Buffer.Linked.{LinkedBuffer}
use shmipc_cpp.Buffer.Linked.Reclaim.{Reclaim, CanRead, unread, with_list, read_next_slice-Leaves}
use shmipc_cpp.Buffer.Linked.Read.{discard, discard_loop, as_dropped}
use shmipc_cpp.Buffer.Linked.ReadLoop.{Left}
use shmipc_cpp.Buffer.Linked.Bytes.{IsSound}

module _ (bm : BufferManager) (r : Reclaim bm) where
  -- The loop of discard ends, and drops what it is asked to.
  abbrev Dropped : ℕ → LinkedBuffer → ℕ → ℕ → List ℕ → Shm → Type 0
  Dropped fuel b size n bs m =
      (b' : LinkedBuffer) × (m' : Shm) × (discard_loop fuel bm size n b m ≡ some (n + size, b', m'))
      × Left bm r b b' m' (drop size bs)

  CanRead-skip :
      (s : BufferSlice) (ss : List BufferSlice) (size : ℕ) (m : Shm)
      → CanRead bm r (s ∷ ss) m
      → CanRead bm r ((skip s size).1 ∷ ss) m
  CanRead-skip s ss size m can =
      let (_, _, _, _, _, _, valid) = read_lem s size m can.valid.0 in
      record {
        ready = can.ready;
        owned = (
          subst (λ (x : ℕ × BufferSlice). r.Own x.1) (sym (skip_lem s size))
              (r.own_read s _ can.owned.0),
          can.owned.1,
        );
        valid = (valid, can.valid.1);
      }

  discard_loop_lem :
      (fuel : ℕ) (b : LinkedBuffer) (ss : List BufferSlice) (w : Cursor) (size n : ℕ) (m : Shm)
      → length ss < fuel
      → CanRead bm r ss m
      → size ≤ length (unread ss m)
      → Dropped fuel (with_list b ss w) size n (unread ss m) m
  unfolding discard_loop
  discard_loop_lem zero b ss w size n m enough can there = absurd (omega arith)
  discard_loop_lem (suc fuel) b [] w size n m enough can there =
      let none_left : size ≡ 0 = omega (arith, there) in
      simp none_left (
        with_list b [] w,
        m,
        ap (λ (k : ℕ). some (k, with_list b [] w, m)) (omega arith),
        record { can_read = can; unread_is = refl; len_is = refl },
      )
  discard_loop_lem (suc fuel) b (s ∷ ss) w size n m enough can there =
      let held = pending s m in
      let (k, s') = skip s size in
      let (_, _, _, k_is, held', _, _) = read_lem s size m can.valid.0 in
      let can' = CanRead-skip s ss size m can in
      let left : unread (s' ∷ ss) m ≡ drop size held ++ unread ss m =
        ap (λ (l : List ℕ). l ++ unread ss m) held' in
      elim (Bool-cases (size - k == 0)) [
        | inl enough_here ↦
            let fits : size ≤ length held = ground (arith, enough_here, k_is) in
            simp enough_here (
              with_list b (s' ∷ ss) w,
              m,
              ap (λ (i : ℕ). some (n + i, with_list b (s' ∷ ss) w, m)) (omega (arith, k_is)),
              record {
                can_read = can';
                unread_is = left ∙ sym (drop-append_le size held (unread ss m) fits);
                len_is = refl;
              },
            )
        | inr more ↦
            let all : k ≡ length held = ground (arith, more, k_is) in
            let (b₁, m₁, eq₁, leaves) = read_next_slice-Leaves bm r b s' ss w m can' in
            let (b', m', eq, left') =
              discard_loop_lem fuel b₁ ss (behind_front w) (size - k) (n + k) m₁ (omega arith)
                leaves.can_read
                (omega (
                  arith,
                  there,
                  length-append held (unread ss m),
                  ap length leaves.unread_is,
                  all,
                )) in
            let rest_is : drop (size - k) (unread ss m) ≡ drop size (held ++ unread ss m) =
              ap (λ (i : ℕ). drop (size - i) (unread ss m)) all
              ∙ sym (drop-append_ge size held (unread ss m) (omega (arith, all, k_is))) in
            simp (more, eq₁)
              (
                b',
                m',
                eq ∙ ap (λ (i : ℕ). some (i, b', m')) (omega (arith, k_is)),
                record {
                  can_read = left'.can_read;
                  unread_is =
                      left'.unread_is
                      ∙ ap (λ (l : List ℕ). drop (size - k) l) leaves.unread_is
                      ∙ rest_is;
                  len_is = left'.len_is ∙ leaves.len_is;
                },
              )
      ]

  -- What discard promises.
  abbrev pub Discarding :
      LinkedBuffer → ℕ → List ℕ → Option (Result ℕ × LinkedBuffer × Shm) → Type 0
  Discarding b size bs o =
      (b' : LinkedBuffer) × (m' : Shm) × (o ≡ some (ok size, b', m'))
      × IsSound bm r b' m'
      × (unread b'.slice_list.slices m' ≡ drop size bs)

  pub discard_enough :
      (b : LinkedBuffer) (size : ℕ) (m : Shm)
      → IsSound bm r b m
      → size ≤ b.len
      → Discarding b size (unread b.slice_list.slices m) (discard bm size b m)
  unfolding discard
  discard_enough b size m sound enough =
      let bs = unread b.slice_list.slices m in
      let (b', m', eq, left) =
        discard_loop_lem (length b.slice_list.slices + 1) b b.slice_list.slices b.slice_list.write
          size 0 m (omega arith) sound.can_read (omega (arith, sound.len_is)) in
      let not_short : ltb b.len size ≡ false = ground arith in
      let none_before : 0 + size ≡ size = omega arith in
      let b'' = record b' { len = (b'.len + 2 ^ 64 - size) % 2 ^ 64 } in
      simp not_short (
        b'',
        m',
        ap (λ o. o >>= as_dropped) (eq ∙ ap (λ (k : ℕ). some (k, b', m')) none_before),
        record {
          can_read = left.can_read;
          len_is = omega (
            arith,
            left.len_is,
            ap length left.unread_is,
            length-drop size bs,
            sound.len_is,
            sound.len_fits,
          );
          len_fits = omega arith;
        },
        left.unread_is,
      )
