-- ===== src/Buffer/Linked/FromList.antt =====
-- A manager of one list: slices in its buffers, and with storage of their own when it refuses.
use shmipc_cpp.Common.{
  ℕ, ◌+◌, ◌-◌, ◌≤◌, ◌<◌, ◌^◌, ◌≡◌, inl, inr, refl, ap, subst, ◌∙◌, sym, arith, List, [], ◌∷◌, ◌++◌,
  length, length-append, All, All-append, Option, some, none, Bool-cases, ◌==◌, leb, false,
}
use mathlib.Core.List.{append_assoc}
use shmipc_cpp.Shm.{Shm}
use shmipc_cpp.Error.{Result, ok, err, no_more_buffer}
use shmipc_cpp.Buffer.Slice.{BufferSlice}
use shmipc_cpp.Buffer.FreeList.{BufferList, pop, cap_per_buffer, load_size}
use shmipc_cpp.Buffer.Manager.{BufferManager, alloc_shm_buffer, alloc_from}
use shmipc_cpp.Buffer.Manager.Chains.{Allocation, alloc_lists, alloc_shm_buffers}
use shmipc_cpp.Buffer.SliceList.{Cursor, push_back}
use shmipc_cpp.Buffer.Linked.{LinkedBuffer}
use shmipc_cpp.Buffer.Linked.Reclaim.{unread, with_list}
use shmipc_cpp.Buffer.Linked.Write.{alloc, alloc_behind, alloc_rest, push_heap}
use shmipc_cpp.Buffer.Linked.Supply.{Supply, IsBlank}
use shmipc_cpp.Buffer.Linked.FromHeap.{heap_of, heap_of-IsBlank, heap_of-IsOwn}
use shmipc_cpp.Buffer.Linked.Shared.{Shares, Differ, Out, All-IsValid}
use shmipc_cpp.Buffer.Linked.Filling.{fills-Shares}
use shmipc_cpp.Buffer.Linked.Allotted.{LieAll-snoc, Spread-snoc, PopsNext, pop-PopsNext}
use shmipc_cpp.Buffer.Linked.Several.{Adds, alloc_list-Adds}

module _ (l : BufferList) (n c : ℕ) (some_cap : 0 < c) where
  -- The free buffers, and where the slices lie.
  abbrev pub Sharing : List BufferSlice → Shm → Type 0
  Sharing ss m =
      (ks : List ℕ) × (t : ℕ) × (used : ℕ) × (os : List (Option ℕ)) × Shares l n c ks t used os ss m

  heap-Shares :
      (ks : List ℕ) (t used : ℕ) (os : List (Option ℕ)) (ss : List BufferSlice) (m : Shm) (size : ℕ)
      → size < 2 ^ 32
      → Shares l n c ks t used os ss m
      → Shares l n c ks t used (os ++ (none ∷ [])) (ss ++ (heap_of size ∷ [])) m
  heap-Shares ks t used os ss m size small r = record {
    held = r.held;
    lie = LieAll-snoc l n c some_cap os ss none (heap_of size) r.lie (heap_of-IsOwn size small);
    spread = Spread-snoc l n c some_cap os none r.spread (all_differ os);
    out = All-append (Out l n c ks t) os (none ∷ []) r.out (tt, tt);
  }
    where
      all_differ : (os : List (Option ℕ)) → All (λ p. Differ l n c p none) os
      all_differ [] = tt
      all_differ (none ∷ os) = (tt, all_differ os)
      all_differ (some i ∷ os) = (tt, all_differ os)

  module _ (bm : BufferManager) (only : bm.lists ≡ l ∷ []) where
    -- What allocating adds to a buffer with the slices `ss`.
    abbrev pub Grows :
        LinkedBuffer → List BufferSlice → Cursor → Shm → Option (LinkedBuffer × Shm) → Type 0
    Grows b ss w m o =
        (b' : LinkedBuffer) × (s : BufferSlice) × (news : List BufferSlice) × (m' : Shm) × (o
          ≡ some (with_list b' (ss ++ (s ∷ news)) w, m'))
        × (b'.len ≡ b.len)
        × Sharing (ss ++ (s ∷ news)) m'
        × All IsBlank (s ∷ news)
        × (unread ss m' ≡ unread ss m)

    grown :
        (b b' : LinkedBuffer) (ss : List BufferSlice) (w : Cursor) (m m' : Shm)
        (news : List BufferSlice) (o : Option (LinkedBuffer × Shm))
        → 0 < length news
        → o ≡ some (with_list b' (ss ++ news) w, m')
        → b'.len ≡ b.len
        → Sharing (ss ++ news) m'
        → All IsBlank news
        → unread ss m' ≡ unread ss m
        → Grows b ss w m o
    grown b b' ss w m m' [] o some_new e len_is r blank kept = absurd (omega arith)
    grown b b' ss w m m' (s ∷ news) o some_new e len_is r blank kept =
        (b', s, news, m', e, len_is, r, blank, kept)

    -- Behind the loop of alloc_shm_buffers.
    rest-Grows :
        (t : ℕ) (b : LinkedBuffer) (ss : List BufferSlice) (w : Cursor) (size : ℕ) (m : Shm)
        (o : Option (Allocation × Shm))
        → 0 < size
        → size < 2 ^ 32
        → (a : Adds l n c some_cap t ss w 0 m o)
        → Grows b ss w m (
            some (
              alloc_rest size
                (with_list b ss w)
                (a.alloc_size, record { slices = ss ++ a.news; write = w }, a.shm)))
    unfolding alloc_rest push_heap push_back
    rest-Grows t b ss w size m o some_left small a = elim (Bool-cases (size - a.alloc_size == 0)) [
      | inl enough ↦
          let done : size ≤ a.alloc_size = ground (arith, enough) in
          grown b b ss w m a.shm a.news _ (omega (arith, a.counted, done)) (simp enough refl) refl
            (a.ks, t, a.used, a.os, a.shares) a.blank a.kept
      | inr more ↦
          let left : size - a.alloc_size < 2 ^ 32 = omega arith in
          let h = heap_of (size - a.alloc_size) in
          grown b (record b { is_from_shm = false }) ss w m a.shm (a.news ++ (h ∷ [])) _
            (omega (arith, length-append a.news (h ∷ [])))
            (simp more (
              ap
                (λ (xs : List BufferSlice).
                  some (with_list (record b { is_from_shm = false }) xs w, a.shm))
                (append_assoc ss a.news (h ∷ []))))
            refl
            (
              a.ks,
              t,
              a.used,
              a.os ++ (none ∷ []),
              subst
                  (λ (xs : List BufferSlice).
                    Shares l n c a.ks t a.used (a.os ++ (none ∷ [])) xs a.shm)
                  (append_assoc ss a.news (h ∷ []))
                  (heap-Shares a.ks t a.used a.os (ss ++ a.news) a.shm (size - a.alloc_size) left
                    a.shares),
            )
            (All-append IsBlank a.news (h ∷ []) a.blank (heap_of-IsBlank _ left, tt)) a.kept
    ]

    -- When no single buffer serves.
    several-Grows :
        (ks : List ℕ) (t used : ℕ) (os : List (Option ℕ)) (b : LinkedBuffer) (ss : List BufferSlice)
        (w : Cursor) (size : ℕ) (m : Shm)
        → 0 < size
        → size < 2 ^ 32
        → Shares l n c ks t used os ss m
        → Grows b ss w m (alloc_behind bm size (with_list b ss w) (err no_more_buffer, m))
    unfolding alloc_shm_buffers alloc_lists
    several-Grows ks t used os b ss w size m some_left small r =
        let a =
          alloc_list-Adds l n c some_cap (load_size l m + 1) ks t used os ss w size 0 m
            (omega (arith, r.held.size_is)) r in
        simp (only, a.result_is) (rest-Grows t b ss w size m _ some_left small a)

    moved :
        (b : LinkedBuffer) (ss : List BufferSlice) (w : Cursor) (m m₁ : Shm)
        (o : Option (LinkedBuffer × Shm))
        → unread ss m₁ ≡ unread ss m
        → Grows b ss w m₁ o
        → Grows b ss w m o
    moved b ss w m m₁ o kept (b', s, news, m', e, len_is, r, blank, kept') =
        (b', s, news, m', e, len_is, r, blank, kept' ∙ kept)

    -- Behind one pop.
    one-Grows :
        (ks : List ℕ) (t used : ℕ) (os : List (Option ℕ)) (b : LinkedBuffer) (ss : List BufferSlice)
        (w : Cursor) (size : ℕ) (m : Shm) (p : Result BufferSlice × Shm)
        → 0 < size
        → size < 2 ^ 32
        → PopsNext l n c some_cap ks t used os ss m p
        → Grows b ss w m (alloc_behind bm size (with_list b ss w) p)
    one-Grows [] t used os b ss w size m (r, m₁) some_left small (refused, r', kept) =
        subst
          (λ (x : Result BufferSlice).
            Grows b ss w m (alloc_behind bm size (with_list b ss w) (x, m₁)))
          (sym refused)
          (moved b ss w m m₁ _ kept (several-Grows [] t used os b ss w size m₁ some_left small r'))
    one-Grows (k ∷ ks) t used os b ss w size m (r, m₁) some_left small
          (s, popped, cap_is, blank, r', kept) =
        subst
          (λ (x : Result BufferSlice).
            Grows b ss w m (alloc_behind bm size (with_list b ss w) (x, m₁)))
          (sym popped) (served ks t used (os ++ (some k ∷ [])) b ss w size m m₁ s r' blank kept)
      where
        served :
            (ks : List ℕ) (t used : ℕ) (os : List (Option ℕ)) (b : LinkedBuffer)
            (ss : List BufferSlice) (w : Cursor) (size : ℕ) (m m₁ : Shm) (s : BufferSlice)
            → Shares l n c ks t (used + 1) os (ss ++ (s ∷ [])) m₁
            → IsBlank s
            → unread ss m₁ ≡ unread ss m
            → Grows b ss w m (alloc_behind bm size (with_list b ss w) (ok s, m₁))
        served ks t used os b ss w size m m₁ s r' blank kept = (
          b,
          s,
          [],
          m₁,
          unfold push_back in refl,
          refl,
          (ks, t, used + 1, os, r'),
          (blank, tt),
          kept,
        )

    pub alloc-Grows :
        (b : LinkedBuffer) (ss : List BufferSlice) (w : Cursor) (size : ℕ) (m : Shm)
        → 0 < size
        → size < 2 ^ 32
        → Sharing ss m
        → Grows b ss w m (alloc bm size (with_list b ss w) m)
    unfolding alloc alloc_shm_buffer alloc_from
    alloc-Grows b ss w size m some_left small (ks, t, used, os, r) =
        let several = several-Grows ks t used os b ss w size m some_left small r in
        elim (Bool-cases (leb size bm.max_slice_size)) [
          | inr large ↦ simp large several
          | inl allowed ↦ elim (Bool-cases (leb size (cap_per_buffer l m))) [
            | inr short ↦ simp (allowed, only, short) several
            | inl covers ↦
                simp (allowed, only, covers)
                  (one-Grows ks t used os b ss w size m (pop l m) some_left small
                    (pop-PopsNext l n c some_cap ks t used os ss m r))
          ]
        ]

    -- What a writer needs, from the buffers of this list and from storage of their own.
    abbrev pub supply : Supply bm
    supply = record {
      Ready = Sharing;
      valid = λ ss m r. let (ks, t, used, os, h) = r in All-IsValid l n c os ss h.lie;
      grows = alloc-Grows;
      fills = λ pre s post bs m h r.
          let (ks, t, used, os, shares) = r in
          let (shares', kept) = fills-Shares l n c ks t used os pre s post bs m h shares in
          ((ks, t, used, os, shares'), kept);
    }
