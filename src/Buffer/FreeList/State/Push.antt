-- ===== src/Buffer/FreeList/State/Push.antt =====
-- BufferList::push.
use shmipc_cpp.Common.{
  ℕ, suc, ◌+◌, ◌-◌, ◌*◌, ◌%◌, ◌≤◌, ◌<◌, ◌^◌, ◌≡◌, ◌≢◌, ap, ap₂, ◌∙◌, sym, arith, List, [], ◌∷◌,
  ◌++◌, All-append, true, length, length-append, Option, some, some-injective, sub_u32, ◌==◌,
}
use shmipc_cpp.Shm.{Shm, store_le, load_le}
use shmipc_cpp.Shm.Laws.{Disjoint, load_le-store_le_ne, load_le-store_le_self}
use shmipc_cpp.Buffer.Header
use shmipc_cpp.Buffer.Header.Laws.{
  has_next-clear_flag, has_next-link_next, next_buffer_offset-link_next,
}
use shmipc_cpp.Buffer.Slice.{BufferSlice, reset, reset_header}
use shmipc_cpp.Buffer.FreeList.{
  BufferList, load_size, load_tail, load_counter, add_one, sub_one, push, push_loop,
}
use shmipc_cpp.Buffer.FreeList.Chain.{
  Avoids, IsPath, Ended, Linked, header_at, stride_le, IsPath-store_below, IsPath-store_header,
  IsPath-snoc, Ended-store, header_at-Disjoint, cap-Disjoint, IsBlank, first_of-snoc, Avoids-snoc,
  Distinct-snoc,
}
use shmipc_cpp.Buffer.FreeList.State.{Holds}

-- Stores in the bytes of a buffer outside the list leave the list alone.
pub Holds-store :
    (l : BufferList) (n c : ℕ) (ks : List ℕ) (t used : ℕ) (m : Shm) (j d w v : ℕ)
    → d + w ≤ c + 20
    → Avoids j ks
    → j ≢ t
    → Holds l n c ks t used m
    → Holds l n c ks t used (store_le w m (header_at l.buffer_region c j + d) v)
Holds-store l n c ks t used m j d w v fits apart not_last held = record {
  laid = held.laid;
  cap_per_buffer_is = word l.cap_per_buffer_at (omega (arith, held.laid)) ∙ held.cap_per_buffer_is;
  cap_is = word l.cap_at (omega (arith, held.laid)) ∙ held.cap_is;
  size_is = word l.size_at (omega (arith, held.laid)) ∙ held.size_is;
  head_is = word l.head_at (omega (arith, held.laid)) ∙ held.head_is;
  tail_is = word l.tail_at (omega (arith, held.laid)) ∙ held.tail_is;
  counter_is = word l.counter_at (omega (arith, held.laid)) ∙ held.counter_is;
  whole = held.whole;
  path = IsPath-store_header l.buffer_region c m ks t j d w v fits apart held.path;
  ended =
      Ended-store l.buffer_region c m w (header_at l.buffer_region c j + d) v t
        (header_at-Disjoint l.buffer_region c j t d w not_last fits) held.ended;
  inside = held.inside;
  last_inside = held.last_inside;
  distinct = held.distinct;
  last_apart = held.last_apart;
}
  where
    word :
        (a : ℕ)
        → a + 4 ≤ l.buffer_region
        → load_le 4 (store_le w m (header_at l.buffer_region c j + d) v) a ≡ load_le 4 m a
    word a below = load_le-store_le_ne 4 w m a (header_at l.buffer_region c j + d) v (omega arith)

-- Resetting the header of buffer `j`.
module _ (l : BufferList) (n c : ℕ) (ks : List ℕ) (t used j : ℕ) (m : Shm) where
  abbrev cleaned : Shm
  cleaned = reset_header (some (header_at l.buffer_region c j)) m

  cleaned-Holds : Avoids j ks → j ≢ t → Holds l n c ks t used m → Holds l n c ks t used cleaned
  unfolding reset_header Header.set_size Header.set_start Header.clear_flag
  cleaned-Holds apart not_last held =
      Holds-store l n c ks t used _ j 16 1 0 (omega arith) apart not_last (
        Holds-store l n c ks t used _ j 8 4 0 (omega arith) apart not_last
          (Holds-store l n c ks t used m j 4 4 0 (omega arith) apart not_last held))

  cleaned-Ended :
      Header.cap m (header_at l.buffer_region c j) ≡ c → Ended l.buffer_region c cleaned j
  unfolding reset_header Header.set_size Header.set_start Header.clear_flag Header.cap Header.size
      Header.start Header.has_next
  cleaned-Ended e =
      let h = header_at l.buffer_region c j in
      let m₁ = store_le 4 m (h + 4) 0 in
      let m₂ = store_le 4 m₁ (h + 8) 0 in
      (
        unfold Header.has_next Header.clear_flag in has_next-clear_flag m₂ h,
        (
          load_le-store_le_ne 4 1 m₂ (h + 0) (h + 16) 0 (omega arith)
              ∙ load_le-store_le_ne 4 4 m₁ (h + 0) (h + 8) 0 (omega arith)
              ∙ load_le-store_le_ne 4 4 m (h + 0) (h + 4) 0 (omega arith)
              ∙ e,
          load_le-store_le_ne 4 1 m₂ (h + 4) (h + 16) 0 (omega arith)
              ∙ load_le-store_le_ne 4 4 m₁ (h + 4) (h + 8) 0 (omega arith)
              ∙ load_le-store_le_self 4 m (h + 4) 0 (omega arith),
          load_le-store_le_ne 4 1 m₂ (h + 8) (h + 16) 0 (omega arith)
              ∙ load_le-store_le_self 4 m₁ (h + 8) 0 (omega arith),
        ),
      )

-- Linking buffer `j` behind the last one, `t`.
module _ (l : BufferList) (n c : ℕ) (ks : List ℕ) (t u j : ℕ) (m : Shm)
    (held : Holds l n c ks t (suc u) m) (blank : Ended l.buffer_region c m j) (j_inside : j < n)
    (apart : Avoids j ks) (not_last : j ≢ t) where
  abbrev moved : Shm
  moved = store_le 4 m l.tail_at (j * (c + 20))

  abbrev linked : Shm
  linked = Header.link_next moved (header_at l.buffer_region c t) (j * (c + 20))

  abbrev pushed : Shm
  pushed = sub_one (add_one linked l.size_at) l.counter_at

  j_fits : j * (c + 20) + (c + 20) ≤ n * (c + 20)
  j_fits = stride_le j n (c + 20) j_inside

  -- The list's own words, but for the three that change.
  kept :
      (a : ℕ)
      → a + 4 ≤ l.buffer_region
      → Disjoint a 4 l.tail_at 4
      → Disjoint a 4 l.size_at 4
      → Disjoint a 4 l.counter_at 4
      → load_le 4 pushed a ≡ load_le 4 m a
  unfolding Header.link_next
  kept a below d₀ d₁ d₂ =
      load_le-store_le_ne 4 4 _ a l.counter_at _ d₂
      ∙ load_le-store_le_ne 4 4 _ a l.size_at _ d₁
      ∙ load_le-store_le_ne 4 1 _ a (header_at l.buffer_region c t + 16) _ (omega arith)
      ∙ load_le-store_le_ne 4 4 moved a (header_at l.buffer_region c t + 12) _ (omega arith)
      ∙ load_le-store_le_ne 4 4 m a l.tail_at _ d₀

  word-linked :
      (a : ℕ)
      → a + 4 ≤ l.buffer_region
      → Disjoint a 4 l.tail_at 4
      → load_le 4 linked a ≡ load_le 4 m a
  unfolding Header.link_next
  word-linked a below d =
      load_le-store_le_ne 4 1 _ a (header_at l.buffer_region c t + 16) _ (omega arith)
      ∙ load_le-store_le_ne 4 4 moved a (header_at l.buffer_region c t + 12) _ (omega arith)
      ∙ load_le-store_le_ne 4 4 m a l.tail_at _ d

  tail-pushed : load_tail l pushed ≡ j * (c + 20)
  unfolding Header.link_next
  tail-pushed =
      load_le-store_le_ne 4 4 _ l.tail_at l.counter_at _ (omega (arith, held.laid))
      ∙ load_le-store_le_ne 4 4 _ l.tail_at l.size_at _ (omega (arith, held.laid))
      ∙ load_le-store_le_ne 4 1 _ l.tail_at (header_at l.buffer_region c t + 16) _
          (omega (arith, held.laid))
      ∙ load_le-store_le_ne 4 4 moved l.tail_at (header_at l.buffer_region c t + 12) _
          (omega (arith, held.laid))
      ∙ load_le-store_le_self 4 m l.tail_at _ (omega (arith, held.laid, j_fits))

  size-pushed : load_size l pushed ≡ length (ks ++ (t ∷ [])) + 1
  size-pushed =
      load_le-store_le_ne 4 4 _ l.size_at l.counter_at _ (omega (arith, held.laid))
      ∙ load_le-store_le_self 4 linked l.size_at _ (omega arith)
      ∙ ap (λ (x : ℕ). (x + 1) % 2 ^ 32)
          (word-linked l.size_at (omega (arith, held.laid)) (omega (arith, held.laid))
            ∙ held.size_is)
      ∙ omega (arith, held.laid, held.whole, length-append ks (t ∷ []))

  counter-pushed : load_counter l pushed ≡ u
  counter-pushed =
      load_le-store_le_self 4 _ l.counter_at _ (omega arith)
      ∙ ap (λ (x : ℕ). (x + (2 ^ 32 - 1)) % 2 ^ 32)
          (load_le-store_le_ne 4 4 linked l.counter_at l.size_at _ (omega (arith, held.laid))
            ∙ word-linked l.counter_at (omega (arith, held.laid)) (omega (arith, held.laid))
            ∙ held.counter_is)
      ∙ omega (arith, held.laid, held.whole)

  -- `link_next` leaves the first twelve bytes of the header alone.
  IsBlank-linked : IsBlank linked (header_at l.buffer_region c t) c
  unfolding Header.link_next Header.cap Header.size Header.start
  IsBlank-linked =
      let (e₀, e₁, e₂) = held.ended.1 in
      (field 0 (omega arith) ∙ e₀, field 4 (omega arith) ∙ e₁, field 8 (omega arith) ∙ e₂)
    where
      field :
          (d : ℕ)
          → d + 4 ≤ 12
          → load_le 4 linked (header_at l.buffer_region c t + d)
            ≡ load_le 4 m (header_at l.buffer_region c t + d)
      field d fits =
          let h = header_at l.buffer_region c t in
          load_le-store_le_ne 4 1 _ (h + d) (h + 16) _ (omega arith)
          ∙ load_le-store_le_ne 4 4 moved (h + d) (h + 12) _ (omega arith)
          ∙ load_le-store_le_ne 4 4 m (h + d) l.tail_at _ (omega (arith, held.laid))

  linked-Linked : Linked l.buffer_region c linked t j
  linked-Linked = (
    has_next-link_next moved (header_at l.buffer_region c t) (j * (c + 20)),
    next_buffer_offset-link_next moved (header_at l.buffer_region c t) (j * (c + 20))
        (omega (arith, held.laid, j_fits)),
    IsBlank-linked,
  )

  IsPath-linked : IsPath l.buffer_region c linked ks t
  unfolding Header.link_next
  IsPath-linked =
      IsPath-store_header l.buffer_region c _ ks t t 16 1 _ (omega arith) held.last_apart (
        IsPath-store_header l.buffer_region c moved ks t t 12 4 _ (omega arith) held.last_apart (
          IsPath-store_below l.buffer_region c m 4 l.tail_at _ ks t (omega (arith, held.laid))
            held.path))

  IsPath-pushed : IsPath l.buffer_region c pushed (ks ++ (t ∷ [])) j
  IsPath-pushed =
      let below₀ : l.size_at + 4 ≤ l.buffer_region = omega (arith, held.laid) in
      let below₁ : l.counter_at + 4 ≤ l.buffer_region = omega (arith, held.laid) in
      IsPath-store_below l.buffer_region c _ 4 l.counter_at _ (ks ++ (t ∷ [])) j below₁ (
        IsPath-store_below l.buffer_region c linked 4 l.size_at _ (ks ++ (t ∷ [])) j below₀
          (IsPath-snoc l.buffer_region c linked ks t j IsPath-linked linked-Linked))

  Ended-pushed : Ended l.buffer_region c pushed j
  unfolding Header.link_next
  Ended-pushed =
      let not_t : t ≢ j = λ e. not_last (sym e) in
      Ended-store l.buffer_region c _ 4 l.counter_at _ j (omega (arith, held.laid)) (
        Ended-store l.buffer_region c _ 4 l.size_at _ j (omega (arith, held.laid)) (
          Ended-store l.buffer_region c _ 1 (header_at l.buffer_region c t + 16) _ j
            (header_at-Disjoint l.buffer_region c t j 16 1 not_t (omega arith))
            (Ended-store l.buffer_region c moved 4 (header_at l.buffer_region c t + 12) _ j
              (header_at-Disjoint l.buffer_region c t j 12 4 not_t (omega arith))
              (Ended-store l.buffer_region c m 4 l.tail_at _ j (omega (arith, held.laid)) blank))))

  pushed-Holds : Holds l n c (ks ++ (t ∷ [])) j u pushed
  pushed-Holds = record {
    laid = held.laid;
    cap_per_buffer_is =
        kept l.cap_per_buffer_at (omega (arith, held.laid)) (omega (arith, held.laid))
          (omega (arith, held.laid)) (omega (arith, held.laid))
        ∙ held.cap_per_buffer_is;
    cap_is =
        kept l.cap_at (omega (arith, held.laid)) (omega (arith, held.laid))
          (omega (arith, held.laid)) (omega (arith, held.laid))
        ∙ held.cap_is;
    size_is = size-pushed;
    head_is =
        kept l.head_at (omega (arith, held.laid)) (omega (arith, held.laid))
          (omega (arith, held.laid)) (omega (arith, held.laid))
        ∙ held.head_is
        ∙ ap (λ (k : ℕ). k * (c + 20)) (sym (first_of-snoc ks t j));
    tail_is = tail-pushed;
    counter_is = counter-pushed;
    whole = omega (arith, held.whole, length-append ks (t ∷ []));
    path = IsPath-pushed;
    ended = Ended-pushed;
    inside = All-append (λ k. k < n) ks (t ∷ []) held.inside (held.last_inside, tt);
    last_inside = j_inside;
    distinct = Distinct-snoc ks t held.distinct held.last_apart;
    last_apart = Avoids-snoc j ks t apart not_last;
  }

  push_loop_once : (fuel : ℕ) → push_loop (suc fuel) l (j * (c + 20)) m ≡ some pushed
  unfolding push_loop
  push_loop_once fuel =
      let same : (load_tail l m == load_tail l m) ≡ true = ground arith in rw (same, held.tail_is)

-- What `push` leaves.
module _ (l : BufferList) (n c : ℕ) (ks : List ℕ) (t u j : ℕ) (b : BufferSlice) (m : Shm)
    (held : Holds l n c ks t (suc u) m) (j_inside : j < n) (apart : Avoids j ks) (not_last : j ≢ t)
    (at_header : b.buffer_header ≡ some (header_at l.buffer_region c j))
    (at_offset : b.offset_in_shm ≡ header_at l.buffer_region c j)
    (cap_is : Header.cap m (header_at l.buffer_region c j) ≡ c) where
  v₀ : Holds l n c ks t (suc u) (cleaned l n c ks t (suc u) j m)
  v₀ = cleaned-Holds l n c ks t (suc u) j m apart not_last held

  e₀ : Ended l.buffer_region c (cleaned l n c ks t (suc u) j m) j
  e₀ = cleaned-Ended l n c ks t (suc u) j m cap_is

  abbrev returned : Shm
  returned = pushed l n c ks t u j (cleaned l n c ks t (suc u) j m) v₀ e₀ j_inside apart not_last

  push-returned : push l b m ≡ some returned
  unfolding push reset
  push-returned =
      let back : sub_u32 b.offset_in_shm l.buffer_region_offset_in_shm ≡ j * (c + 20) =
        omega (arith, held.laid, stride_le j n (c + 20) j_inside) in
      ap₂ (λ (a : ℕ) (h : Option ℕ). push_loop 1 l a (reset_header h m)) back at_header
      ∙ push_loop_once l n c ks t u j _ v₀ e₀ j_inside apart not_last 0

  -- The capacities in the other headers stay.
  cap-returned :
      (i : ℕ)
      → Header.cap returned (header_at l.buffer_region c i)
        ≡ Header.cap m (header_at l.buffer_region c i)
  unfolding Header.cap Header.link_next reset_header Header.set_size Header.set_start
      Header.clear_flag
  cap-returned i =
      let r = l.buffer_region in
      let a = header_at r c i + 0 in
      let hj = header_at r c j in
      load_le-store_le_ne 4 4 _ a l.counter_at _ (omega (arith, held.laid))
      ∙ load_le-store_le_ne 4 4 _ a l.size_at _ (omega (arith, held.laid))
      ∙ load_le-store_le_ne 4 1 _ a (header_at r c t + 16) _
          (cap-Disjoint r c i t 16 1 (omega arith) (omega arith))
      ∙ load_le-store_le_ne 4 4 _ a (header_at r c t + 12) _
          (cap-Disjoint r c i t 12 4 (omega arith) (omega arith))
      ∙ load_le-store_le_ne 4 4 _ a l.tail_at _ (omega (arith, held.laid))
      ∙ load_le-store_le_ne 4 1 _ a (hj + 16) 0
          (cap-Disjoint r c i j 16 1 (omega arith) (omega arith))
      ∙ load_le-store_le_ne 4 4 _ a (hj + 8) 0
          (cap-Disjoint r c i j 8 4 (omega arith) (omega arith))
      ∙ load_le-store_le_ne 4 4 m a (hj + 4) 0
          (cap-Disjoint r c i j 4 4 (omega arith) (omega arith))

  -- The same of whatever `push` returns.
  pub cap-push :
      (m' : Shm) (i : ℕ)
      → push l b m ≡ some m'
      → Header.cap m' (header_at l.buffer_region c i) ≡ Header.cap m (header_at l.buffer_region c i)
  cap-push m' i e =
      let same : m' ≡ returned = some-injective m' returned (sym e ∙ push-returned) in
      ap (λ (x : Shm). Header.cap x (header_at l.buffer_region c i)) same ∙ cap-returned i

-- On the memory of a free list, with no other process between its accesses, `push` of a buffer
-- that is out ends after one round. It leaves the list with the buffers that were free, in their
-- order, the returned one last and empty, and one buffer fewer out.
pub push_lem :
    (l : BufferList) (n c : ℕ) (ks : List ℕ) (t u j : ℕ) (b : BufferSlice) (m : Shm)
    → Holds l n c ks t (suc u) m
    → j < n
    → Avoids j ks
    → j ≢ t
    → b.buffer_header ≡ some (header_at l.buffer_region c j)
    → b.offset_in_shm ≡ header_at l.buffer_region c j
    → Header.cap m (header_at l.buffer_region c j) ≡ c
    → (m' : Shm) × (push l b m ≡ some m') × Holds l n c (ks ++ (t ∷ [])) j u m'
push_lem l n c ks t u j b m held j_inside apart not_last at_header at_offset cap_is = (
  returned l n c ks t u j b m held j_inside apart not_last at_header at_offset cap_is,
  push-returned l n c ks t u j b m held j_inside apart not_last at_header at_offset cap_is,
  pushed-Holds l n c ks t u j _
      (v₀ l n c ks t u j b m held j_inside apart not_last at_header at_offset cap_is)
      (e₀ l n c ks t u j b m held j_inside apart not_last at_header at_offset cap_is) j_inside apart
      not_last,
)
