-- ===== src/Buffer/Linked/Filling.antt =====
-- Writing in one of the slices that share a list.
use shmipc_cpp.Common.{
  ℕ, ◌+◌, ◌≤◌, ◌≡◌, ◌≢◌, inl, inr, refl, ap, subst, ◌∙◌, sym, arith, List, [], ◌∷◌, ◌++◌, length,
  take, min, length-take, All, Option, some, none,
}
use native.Mathlib.Decide.{dec_lt}
use shmipc_cpp.Shm.{Shm, store_le}
use shmipc_cpp.Shm.Span.{AreBytes, write_span, write_span-frame}
use shmipc_cpp.Buffer.Slice.{BufferSlice, in_shm, on_heap, append, remain}
use shmipc_cpp.Buffer.Slice.Window.{append_lem, remain_lem}
use shmipc_cpp.Buffer.FreeList.{BufferList}
use shmipc_cpp.Buffer.FreeList.Chain.{header_at, Avoids, stride_le}
use shmipc_cpp.Buffer.FreeList.State.{Holds}
use shmipc_cpp.Buffer.FreeList.State.Push.{Holds-store}
use shmipc_cpp.Buffer.Linked.Reclaim.{unread}
use shmipc_cpp.Buffer.Linked.FromHeap.{append-IsOwn}
use shmipc_cpp.Buffer.Linked.Shared.{
  Lies, LieAll, Differ, Spread, Out, Shares, AgreeIn, unread-AgreeIn,
}

-- What append does in shared memory, and that it leaves it alone on the heap.
append-shm :
    (s : BufferSlice) (bs : List ℕ) (m : Shm) (a : ℕ)
    → s.place ≡ in_shm a
    → (part : List ℕ) × ((append s bs m).2 ≡ write_span m (a + s.write_index) part)
      × ((append s bs m).1.place ≡ in_shm a)
      × ((append s bs m).1.cap ≡ s.cap)
      × (length part ≤ remain s)
unfolding append write_span
append-shm s [] m a h = ([], refl, h, refl, omega arith)
append-shm s (b ∷ bs) m a h =
    let k = min (length (b ∷ bs)) (remain s) in
    simp h (take k (b ∷ bs), refl, refl, refl, omega (arith, length-take k (b ∷ bs)))

append-heap :
    (s : BufferSlice) (bs : List ℕ) (m st : Shm) → s.place ≡ on_heap st → (append s bs m).2 ≡ m
unfolding append
append-heap s [] m st h = refl
append-heap s (b ∷ bs) m st h = simp h refl

module _ (l : BufferList) (n c : ℕ) where
  -- The place of one slice among the others.
  abbrev Located : List (Option ℕ) → List BufferSlice → BufferSlice → List BufferSlice → Type 0
  Located os pre s post =
      (front : List (Option ℕ)) × (o : Option ℕ) × (back : List (Option ℕ)) × (os
        ≡ front ++ (o ∷ back))
      × LieAll l n c front pre
      × Lies l n c o s
      × ((s' : BufferSlice) → Lies l n c o s' → LieAll l n c os (pre ++ (s' ∷ post)))

  located :
      (os : List (Option ℕ)) (pre : List BufferSlice) (s : BufferSlice) (post : List BufferSlice)
      → LieAll l n c os (pre ++ (s ∷ post))
      → Located os pre s post
  located [] [] s post h = absurd h
  located [] (x ∷ pre) s post h = absurd h
  located (o ∷ os) [] s post h = ([], o, os, refl, tt, h.0, λ s' h'. (h', h.1))
  located (o ∷ os) (x ∷ pre) s post h =
      let (front, p, back, e, lie, here, swap) = located os pre s post h.1 in
      (
        o ∷ front,
        p,
        back,
        ap (λ (l : List (Option ℕ)). o ∷ l) e,
        (h.0, lie),
        here,
        λ s' h'. (h.0, swap s' h'),
      )

  at_middle :
      (P : Option ℕ → Type 0) (front : List (Option ℕ)) (o : Option ℕ) (back : List (Option ℕ))
      → All P (front ++ (o ∷ back))
      → P o
  at_middle P [] o back h = h.0
  at_middle P (x ∷ front) o back h = at_middle P front o back h.1

  Spread-front :
      (front : List (Option ℕ)) (o : Option ℕ) (back : List (Option ℕ))
      → Spread l n c (front ++ (o ∷ back))
      → All (λ p. Differ l n c p o) front
  Spread-front [] o back h = tt
  Spread-front (p ∷ front) o back h =
      (at_middle (Differ l n c p) front o back h.0, Spread-front front o back h.1)

  -- Writing in the bytes of buffer `j`.
  module _ (j : ℕ) where
    Holds-write_span :
        (ks : List ℕ) (t used : ℕ) (bs : List ℕ) (m : Shm) (a d : ℕ)
        → a ≡ header_at l.buffer_region c j + d
        → d + length bs ≤ c + 20
        → Avoids j ks
        → j ≢ t
        → Holds l n c ks t used m
        → Holds l n c ks t used (write_span m a bs)
    unfolding write_span
    Holds-write_span ks t used [] m a d is_a fits apart not_last held = held
    Holds-write_span ks t used (b ∷ bs) m a d is_a fits apart not_last held =
        Holds-write_span ks t used bs _ (a + 1) (d + 1) (omega arith) (omega arith) apart not_last (
          subst (λ (x : ℕ). Holds l n c ks t used (store_le 1 m x b)) (sym is_a)
            (Holds-store l n c ks t used m j d 1 b (omega arith) apart not_last held))

    AgreeIn-write_span :
        (m : Shm) (a : ℕ) (bs : List ℕ) (o : Option ℕ)
        → header_at l.buffer_region c j + 20 ≤ a
        → a + length bs ≤ header_at l.buffer_region c j + 20 + c
        → Differ l n c o (some j)
        → AgreeIn l n c m (write_span m a bs) o
    AgreeIn-write_span m a bs none low high ne = tt
    AgreeIn-write_span m a bs (some i) low high ne = λ x from to.
        write_span-frame m a bs x (elim (dec_lt i j) [
          | yes h ↦ inl (omega (arith, stride_le i j (c + 20) h))
          | no h ↦ elim (dec_lt j i) [
            | yes k ↦ inr (omega (arith, stride_le j i (c + 20) k))
            | no k ↦ absurd (ne (omega arith))
          ]
        ])

  -- Writing in one slice.
  AgreeIn-same : (m m' : Shm) (os : List (Option ℕ)) → m' ≡ m → All (AgreeIn l n c m m') os
  AgreeIn-same m m' [] e = tt
  AgreeIn-same m m' (none ∷ os) e = (tt, AgreeIn-same m m' os e)
  AgreeIn-same m m' (some i ∷ os) e =
      ((λ x from to. ap (λ (f : Shm). f x) e), AgreeIn-same m m' os e)

  AgreeIn-others :
      (j : ℕ) (m : Shm) (a : ℕ) (bs : List ℕ) (os : List (Option ℕ))
      → header_at l.buffer_region c j + 20 ≤ a
      → a + length bs ≤ header_at l.buffer_region c j + 20 + c
      → All (λ o. Differ l n c o (some j)) os
      → All (AgreeIn l n c m (write_span m a bs)) os
  AgreeIn-others j m a bs [] low high h = tt
  AgreeIn-others j m a bs (o ∷ os) low high h =
      (AgreeIn-write_span j m a bs o low high h.0, AgreeIn-others j m a bs os low high h.1)

  -- What writing in slice `s`, which lies in `o`, keeps: where it lies, the free buffers, and the
  -- bytes of slices that lie elsewhere.
  append-Lies :
      (ks : List ℕ) (t used : ℕ) (o : Option ℕ) (s : BufferSlice) (bs : List ℕ) (m : Shm)
      (front : List (Option ℕ))
      → AreBytes bs
      → Lies l n c o s
      → Out l n c ks t o
      → All (λ p. Differ l n c p o) front
      → Holds l n c ks t used m
      → Lies l n c o (append s bs m).1
        × Holds l n c ks t used (append s bs m).2
        × All (AgreeIn l n c m (append s bs m).2) front
  append-Lies ks t used none s bs m front h own out apart held =
      let same = append-heap s bs m own.storage own.place_is in
      (
        append-IsOwn s bs m h own,
        subst (Holds l n c ks t used) (sym same) held,
        AgreeIn-same m (append s bs m).2 front same,
      )
  append-Lies ks t used (some j) s bs m front h (at, cap_is, v) out apart held =
      let a = header_at l.buffer_region c j + 20 in
      let (part, is_m, place_is, cap_kept, fits) = append-shm s bs m a at in
      let inside : s.write_index + length part ≤ c =
        omega (arith, fits, remain_lem s v, v, cap_is) in
      (
        (place_is, cap_kept ∙ cap_is, (append_lem s bs m v h).2),
        subst (Holds l n c ks t used) (sym is_m) (
            Holds-write_span j ks t used part m (a + s.write_index) (20 + s.write_index)
              (omega arith) (omega (arith, inside)) out.0 out.1 held),
        subst (λ (m' : Shm). All (AgreeIn l n c m m') front) (sym is_m)
            (AgreeIn-others j m (a + s.write_index) part front (omega arith) (omega (arith, inside))
              apart),
      )

  pub fills-Shares :
      (ks : List ℕ) (t used : ℕ) (os : List (Option ℕ)) (pre : List BufferSlice) (s : BufferSlice)
      (post : List BufferSlice) (bs : List ℕ) (m : Shm)
      → AreBytes bs
      → Shares l n c ks t used os (pre ++ (s ∷ post)) m
      → Shares l n c ks t used os (pre ++ ((append s bs m).1 ∷ post)) (append s bs m).2
        × (unread pre (append s bs m).2 ≡ unread pre m)
  fills-Shares ks t used os pre s post bs m h r =
      let (front, o, back, e, lie, here, swap) = located os pre s post r.lie in
      let out : Out l n c ks t o =
        at_middle (Out l n c ks t) front o back
          (subst (λ (xs : List (Option ℕ)). All (Out l n c ks t) xs) e r.out) in
      let apart = Spread-front front o back (subst (Spread l n c) e r.spread) in
      let (here', held, agree) = append-Lies ks t used o s bs m front h here out apart r.held in
      (
        record { held = held; lie = swap _ here'; spread = r.spread; out = r.out },
        unread-AgreeIn l n c front pre m (append s bs m).2 lie agree,
      )
