-- ===== src/Buffer/FreeList/State/Pop.antt =====
-- BufferList::pop.
use shmipc_cpp.Common.{
  ℕ, suc, ◌+◌, ◌*◌, ◌%◌, ◌≤◌, ◌<◌, ◌^◌, ◌≡◌, refl, ap, ◌∙◌, sym, arith, List, [], ◌∷◌, true, false,
  length, some, add_u32, le_i32, ltb,
}
use shmipc_cpp.Shm.{Shm, store_le, load_le}
use shmipc_cpp.Shm.Laws.{Disjoint, load_le-lt, load_le-store_le_ne, load_le-store_le_self}
use shmipc_cpp.Error.{Result, ok, err, no_more_buffer}
use shmipc_cpp.Buffer.Header
use shmipc_cpp.Buffer.Header.{buffer_header_size}
use shmipc_cpp.Buffer.Header.Laws.{flags_of_popped, is_in_used-store}
use shmipc_cpp.Buffer.Slice.{BufferSlice, in_shm, new_slice}
use shmipc_cpp.Buffer.FreeList.{
  BufferList, load_size, load_head, load_counter, cap_per_buffer, add_one, sub_one, pop, pop_loop,
  give_up,
}
use shmipc_cpp.Buffer.FreeList.Chain.{
  IsPath, Ended, first_of, header_at, stride_le, IsPath-store_below, IsPath-store_header,
  Ended-store, header_at-Disjoint, cap-Disjoint, IsBlank,
}
use shmipc_cpp.Buffer.FreeList.State.{Holds}

-- The memory that a successful round leaves.
abbrev pub unlinked : BufferList → ℕ → Shm → Shm
unlinked l h m =
    add_one
      (Header.set_in_used
        (Header.clear_flag (store_le 4 m l.head_at (Header.next_buffer_offset m h)) h) h)
      l.counter_at

abbrev handed : BufferList → ℕ → Shm → BufferSlice
handed l old_head m =
    new_slice m (some (l.buffer_region + old_head))
      (l.buffer_region + old_head + buffer_header_size) (cap_per_buffer l m)
      (add_u32 old_head l.buffer_region_offset_in_shm) true

-- One round suffices when the head has a successor and no other process moved it.
pop_loop_taken :
    (retries : ℕ) (l : BufferList) (old_head : ℕ) (m : Shm)
    → Header.has_next m (l.buffer_region + old_head) ≡ true
    → load_head l m ≡ old_head
    → let m' = unlinked l (l.buffer_region + old_head) m in
      pop_loop (suc retries) l old_head m ≡ (ok (handed l old_head m'), m')
unfolding pop_loop
pop_loop_taken retries l old_head m linked same = ground arith

module _ (l : BufferList) (n c k : ℕ) (ks : List ℕ) (t used : ℕ) (m : Shm)
    (held : Holds l n c (k ∷ ks) t used m) where
  abbrev hdr : ℕ
  hdr = header_at l.buffer_region c k

  abbrev m₀ : Shm
  m₀ = sub_one m l.size_at

  abbrev popped : Shm
  popped = unlinked l (l.buffer_region + k * (c + 20)) m₀

  -- The header of `k` ends inside the region.
  k_inside : hdr + 20 + c ≤ l.buffer_region + n * (c + 20)
  k_inside = omega (arith, stride_le k n (c + 20) held.inside.0)

  path₀ : IsPath l.buffer_region c m₀ (k ∷ ks) t
  path₀ =
      IsPath-store_below l.buffer_region c m 4 l.size_at _ (k ∷ ks) t (omega (arith, held.laid))
        held.path

  next₀ : Header.next_buffer_offset m₀ hdr ≡ first_of ks t * (c + 20)
  next₀ = path₀.0.1

  -- The list's own words, but for the three that change.
  kept :
      (a : ℕ)
      → a + 4 ≤ l.buffer_region
      → Disjoint a 4 l.size_at 4
      → Disjoint a 4 l.head_at 4
      → Disjoint a 4 l.counter_at 4
      → load_le 4 popped a ≡ load_le 4 m a
  unfolding Header.clear_flag Header.set_in_used
  kept a below d₀ d₁ d₂ =
      load_le-store_le_ne 4 4 _ a l.counter_at _ d₂
      ∙ load_le-store_le_ne 4 1 _ a (hdr + 16) _ (omega arith)
      ∙ load_le-store_le_ne 4 1 _ a (hdr + 16) _ (omega arith)
      ∙ load_le-store_le_ne 4 4 _ a l.head_at _ d₁
      ∙ load_le-store_le_ne 4 4 m a l.size_at _ d₀

  size-popped : load_size l popped ≡ length ks + 1
  unfolding Header.clear_flag Header.set_in_used
  size-popped =
      load_le-store_le_ne 4 4 _ l.size_at l.counter_at _ (omega (arith, held.laid))
      ∙ load_le-store_le_ne 4 1 _ l.size_at (hdr + 16) _ (omega (arith, held.laid))
      ∙ load_le-store_le_ne 4 1 _ l.size_at (hdr + 16) _ (omega (arith, held.laid))
      ∙ load_le-store_le_ne 4 4 _ l.size_at l.head_at _ (omega (arith, held.laid))
      ∙ load_le-store_le_self 4 m l.size_at _ (omega arith)
      ∙ omega (arith, held, held.laid)

  head-popped : load_head l popped ≡ first_of ks t * (c + 20)
  unfolding Header.clear_flag Header.set_in_used Header.next_buffer_offset
  head-popped =
      load_le-store_le_ne 4 4 _ l.head_at l.counter_at _ (omega (arith, held.laid))
      ∙ load_le-store_le_ne 4 1 _ l.head_at (hdr + 16) _ (omega (arith, held.laid))
      ∙ load_le-store_le_ne 4 1 _ l.head_at (hdr + 16) _ (omega (arith, held.laid))
      ∙ load_le-store_le_self 4 _ l.head_at _ (load_le-lt 4 m₀ (hdr + 12))
      ∙ next₀

  counter-popped : load_counter l popped ≡ used + 1
  unfolding Header.clear_flag Header.set_in_used
  counter-popped =
      load_le-store_le_self 4 _ l.counter_at _ (omega arith)
      ∙ ap (λ (x : ℕ). (x + 1) % 2 ^ 32)
          (load_le-store_le_ne 4 1 _ l.counter_at (hdr + 16) _ (omega (arith, held.laid))
            ∙ load_le-store_le_ne 4 1 _ l.counter_at (hdr + 16) _ (omega (arith, held.laid))
            ∙ load_le-store_le_ne 4 4 _ l.counter_at l.head_at _ (omega (arith, held.laid))
            ∙ load_le-store_le_ne 4 4 m l.counter_at l.size_at _ (omega (arith, held.laid))
            ∙ held.counter_is)
      ∙ omega (arith, held, held.laid)

  -- The rest of the chain, and its end.
  IsPath-popped : IsPath l.buffer_region c popped ks t
  unfolding Header.clear_flag Header.set_in_used
  IsPath-popped =
      IsPath-store_below l.buffer_region c _ 4 l.counter_at _ ks t (omega (arith, held.laid)) (
        IsPath-store_header l.buffer_region c _ ks t k 16 1 _ (omega arith) held.distinct.0 (
          IsPath-store_header l.buffer_region c _ ks t k 16 1 _ (omega arith) held.distinct.0 (
            IsPath-store_below l.buffer_region c _ 4 l.head_at _ ks t (omega (arith, held.laid))
              path₀.1)))

  Ended-popped : Ended l.buffer_region c popped t
  unfolding Header.clear_flag Header.set_in_used
  Ended-popped =
      let apart =
        header_at-Disjoint l.buffer_region c k t 16 1 (λ e. held.last_apart.0 (sym e))
          (omega arith) in
      Ended-store l.buffer_region c _ 4 l.counter_at _ t (omega (arith, held.laid)) (
        Ended-store l.buffer_region c _ 1 (hdr + 16) _ t apart (
          Ended-store l.buffer_region c _ 1 (hdr + 16) _ t apart (
            Ended-store l.buffer_region c _ 4 l.head_at _ t (omega (arith, held.laid)) (
              Ended-store l.buffer_region c m 4 l.size_at _ t (omega (arith, held.laid))
                held.ended))))

  popped-Holds : Holds l n c ks t (used + 1) popped
  popped-Holds = record {
    laid = held.laid;
    cap_per_buffer_is =
        kept l.cap_per_buffer_at (omega (arith, held.laid)) (omega (arith, held.laid))
          (omega (arith, held.laid)) (omega (arith, held.laid))
        ∙ held.cap_per_buffer_is;
    cap_is =
        kept l.cap_at (omega (arith, held.laid)) (omega (arith, held.laid))
          (omega (arith, held.laid)) (omega (arith, held.laid))
        ∙ held.cap_is;
    size_is = size-popped;
    head_is = head-popped;
    tail_is =
        kept l.tail_at (omega (arith, held.laid)) (omega (arith, held.laid))
          (omega (arith, held.laid)) (omega (arith, held.laid))
        ∙ held.tail_is;
    counter_is = counter-popped;
    whole = omega (arith, held);
    path = IsPath-popped;
    ended = Ended-popped;
    inside = held.inside.1;
    last_inside = held.last_inside;
    distinct = held.distinct.1;
    last_apart = held.last_apart.1;
  }

  -- The header of the buffer that is handed out.
  flags-popped : Header.is_in_used popped hdr ≡ true
  flags-popped =
      is_in_used-store _ hdr 4 l.counter_at _ (omega (arith, held.laid))
      ∙ (flags_of_popped (store_le 4 m₀ l.head_at (Header.next_buffer_offset m₀ hdr)) hdr).0

  IsBlank-popped : IsBlank popped hdr c
  unfolding Header.clear_flag Header.set_in_used Header.cap Header.size Header.start
  IsBlank-popped = (
    field 0 (omega arith) ∙ path₀.0.2.0,
    field 4 (omega arith) ∙ path₀.0.2.1,
    field 8 (omega arith) ∙ path₀.0.2.2,
  )
    where
      field : (d : ℕ) → d + 4 ≤ 16 → load_le 4 popped (hdr + d) ≡ load_le 4 m₀ (hdr + d)
      field d fits =
          load_le-store_le_ne 4 4 _ (hdr + d) l.counter_at _ (omega (arith, held.laid))
          ∙ load_le-store_le_ne 4 1 _ (hdr + d) (hdr + 16) _ (omega arith)
          ∙ load_le-store_le_ne 4 1 _ (hdr + d) (hdr + 16) _ (omega arith)
          ∙ load_le-store_le_ne 4 4 m₀ (hdr + d) l.head_at _ (omega (arith, held.laid))

more_than_one : (x : ℕ) → 1 < x → x < 2 ^ 31 → le_i32 x 1 ≡ false
more_than_one x h f = ground arith

no_overrun :
    (off c len : ℕ)
    → off + 20 + c ≤ len
    → len < 2 ^ 32
    → ltb len (add_u32 (add_u32 off 20) c) ≡ false
no_overrun off c len h f = ground arith

-- A slice as `pop` hands it out: buffer `k`, empty, of the list's capacity, at its offset in the
-- mapping, and marked in use.
pub record IsFresh (l : BufferList) (c k : ℕ) (b : BufferSlice) (m : Shm) : Type 0 where
  pub header_is : b.buffer_header ≡ some (header_at l.buffer_region c k)
  pub place_is : b.place ≡ in_shm (header_at l.buffer_region c k + 20)
  pub cap_is : b.cap ≡ c
  pub offset_is : b.offset_in_shm ≡ header_at l.buffer_region c k
  pub start_is : b.start ≡ 0
  pub read_is : b.read_index ≡ 0
  pub write_is : b.write_index ≡ 0
  pub from_shm : b.is_from_shm ≡ true
  pub header_cap_is : Header.cap m (header_at l.buffer_region c k) ≡ c
  pub in_use : Header.is_in_used m (header_at l.buffer_region c k) ≡ true

-- What `pop` promises, by the free buffers in front of the last.
abbrev pub PopResult : BufferList → ℕ → ℕ → List ℕ → ℕ → ℕ → Result BufferSlice × Shm → Type 0
PopResult l n c [] t used (r, m') = (r ≡ err no_more_buffer) × Holds l n c [] t used m'
PopResult l n c (k ∷ ks) t used (r, m') =
    (b : BufferSlice) × (r ≡ ok b) × IsFresh l c k b m' × Holds l n c ks t (used + 1) m'

module _ (l : BufferList) (n c k : ℕ) (ks : List ℕ) (t used : ℕ) (m : Shm)
    (held : Holds l n c (k ∷ ks) t used m) where
  abbrev pub after : Shm
  after = unlinked l (l.buffer_region + k * (c + 20)) (sub_one m l.size_at)

  handed-IsFresh : IsFresh l c k (handed l (k * (c + 20)) after) after
  unfolding new_slice
  handed-IsFresh =
      let blank = IsBlank-popped l n c k ks t used m held in
      record {
        header_is = refl;
        place_is = refl;
        cap_is = blank.0;
        offset_is = omega (arith, held.laid, k_inside l n c k ks t used m held);
        start_is = blank.2;
        read_is = blank.2;
        write_is = omega (arith, blank.1, blank.2);
        from_shm = refl;
        header_cap_is = blank.0;
        in_use = flags-popped l n c k ks t used m held;
      }

  pub pop_taken : pop l m ≡ (ok (handed l (k * (c + 20)) after), after)
  unfolding pop
  pop_taken =
      let m₁ = sub_one m l.size_at in
      let head₁ : load_head l m₁ ≡ k * (c + 20) =
        load_le-store_le_ne 4 4 m l.head_at l.size_at _ (omega (arith, held.laid)) ∙ held.head_is in
      let cap₁ : cap_per_buffer l m₁ ≡ c =
        load_le-store_le_ne 4 4 m l.cap_per_buffer_at l.size_at _ (omega (arith, held.laid))
        ∙ held.cap_per_buffer_is in
      let found : pop_loop 200 l (load_head l m) m₁ ≡ (ok (handed l (k * (c + 20)) after), after) =
        rw held.head_is
          (pop_loop_taken 199 l (k * (c + 20)) m₁ (path₀ l n c k ks t used m held).0.0 head₁) in
      let many : le_i32 (load_size l m) 1 ≡ false =
        more_than_one (load_size l m) (omega (arith, held)) (omega (arith, held, held.laid)) in
      let fits : ltb l.buffer_region_len
            (add_u32 (add_u32 (load_head l m) buffer_header_size) (cap_per_buffer l m₁))
          ≡ false =
        rw (held.head_is, cap₁)
          (no_overrun (k * (c + 20)) c l.buffer_region_len
            (omega (arith, held.laid, k_inside l n c k ks t used m held))
            (omega (arith, held.laid))) in
      rw (many, fits) found

pub pop_exhausted :
    (l : BufferList) (n c t used : ℕ) (m : Shm)
    → Holds l n c [] t used m
    → pop l m ≡ give_up l (sub_one m l.size_at)
unfolding pop
pop_exhausted l n c t used m held = ground (arith, held)

-- Giving up restores the count that was taken before the test.
module _ (l : BufferList) (n c t used : ℕ) (m : Shm) (held : Holds l n c [] t used m) where
  abbrev restored : Shm
  restored = add_one (sub_one m l.size_at) l.size_at

  kept_restored : (a : ℕ) → Disjoint a 4 l.size_at 4 → load_le 4 restored a ≡ load_le 4 m a
  kept_restored a d =
      load_le-store_le_ne 4 4 _ a l.size_at _ d ∙ load_le-store_le_ne 4 4 m a l.size_at _ d

  restored-Holds : Holds l n c [] t used restored
  restored-Holds = record {
    laid = held.laid;
    cap_per_buffer_is =
        kept_restored l.cap_per_buffer_at (omega (arith, held.laid)) ∙ held.cap_per_buffer_is;
    cap_is = kept_restored l.cap_at (omega (arith, held.laid)) ∙ held.cap_is;
    size_is =
        load_le-store_le_self 4 _ l.size_at _ (omega arith)
        ∙ ap (λ (x : ℕ). (x + 1) % 2 ^ 32) (load_le-store_le_self 4 m l.size_at _ (omega arith))
        ∙ omega (arith, held);
    head_is = kept_restored l.head_at (omega (arith, held.laid)) ∙ held.head_is;
    tail_is = kept_restored l.tail_at (omega (arith, held.laid)) ∙ held.tail_is;
    counter_is = kept_restored l.counter_at (omega (arith, held.laid)) ∙ held.counter_is;
    whole = held.whole;
    path = tt;
    ended =
        Ended-store l.buffer_region c _ 4 l.size_at _ t (omega (arith, held.laid))
          (Ended-store l.buffer_region c m 4 l.size_at _ t (omega (arith, held.laid)) held.ended);
    inside = tt;
    last_inside = held.last_inside;
    distinct = tt;
    last_apart = tt;
  }

-- `pop` leaves the capacities in the headers alone.
pub cap-pop :
    (l : BufferList) (n c : ℕ) (ks : List ℕ) (t used : ℕ) (m : Shm) (i : ℕ)
    → Holds l n c ks t used m
    → Header.cap (pop l m).1 (header_at l.buffer_region c i)
      ≡ Header.cap m (header_at l.buffer_region c i)
unfolding Header.cap Header.clear_flag Header.set_in_used
cap-pop l n c [] t used m i held =
    let a = header_at l.buffer_region c i + 0 in
    rw (pop_exhausted l n c t used m held) (
      load_le-store_le_ne 4 4 _ a l.size_at _ (omega (arith, held.laid))
      ∙ load_le-store_le_ne 4 4 m a l.size_at _ (omega (arith, held.laid)))
cap-pop l n c (k ∷ ks) t used m i held =
    let r = l.buffer_region in
    let a = header_at r c i + 0 in
    let h = header_at r c k in
    rw (pop_taken l n c k ks t used m held) (
      load_le-store_le_ne 4 4 _ a l.counter_at _ (omega (arith, held.laid))
      ∙ load_le-store_le_ne 4 1 _ a (h + 16) _
          (cap-Disjoint r c i k 16 1 (omega arith) (omega arith))
      ∙ load_le-store_le_ne 4 1 _ a (h + 16) _
          (cap-Disjoint r c i k 16 1 (omega arith) (omega arith))
      ∙ load_le-store_le_ne 4 4 _ a l.head_at _ (omega (arith, held.laid))
      ∙ load_le-store_le_ne 4 4 m a l.size_at _ (omega (arith, held.laid)))

-- On the memory of a free list, with no other process between its accesses, `pop` hands out the
-- first buffer of the chain, empty, at its own place, marked in use, and leaves the list with the
-- others and one more buffer out; when only the last buffer is free it returns NoMoreBuffer and
-- the list is as it was.
pub pop_lem :
    (l : BufferList) (n c : ℕ) (ks : List ℕ) (t used : ℕ) (m : Shm)
    → Holds l n c ks t used m
    → PopResult l n c ks t used (pop l m)
pop_lem l n c [] t used m held =
    rw (pop_exhausted l n c t used m held) (refl, restored-Holds l n c t used m held)
pop_lem l n c (k ∷ ks) t used m held =
    rw (pop_taken l n c k ks t used m held)
      (_, refl, handed-IsFresh l n c k ks t used m held, popped-Holds l n c k ks t used m held)
