-- ===== src/Buffer/Linked/PushFrame.antt =====
-- What BufferList::push writes lies in the list's header and in the headers of its buffers.
use shmipc_cpp.Common.{
  ℕ, suc, ◌+◌, ◌*◌, ◌≤◌, ◌<◌, ◌≡◌, inl, inr, ap₂, ◌∙◌, arith, true, Option, some, ◌==◌, sub_u32,
}
use native.Mathlib.Decide.{dec_lt}
use shmipc_cpp.Shm.{Shm, store_le, load_le}
use shmipc_cpp.Shm.Laws.{Disjoint, store_le-frame, load_le-store_le_ne, load_le-store_le_self}
use shmipc_cpp.Buffer.Header
use shmipc_cpp.Buffer.Slice.{BufferSlice, in_shm, reset, reset_header}
use shmipc_cpp.Buffer.FreeList.{
  BufferList, cap_per_buffer, load_tail, add_one, sub_one, push, push_loop,
}
use shmipc_cpp.Buffer.FreeList.Chain.{header_at, stride_le}
use shmipc_cpp.Buffer.FreeList.State.{IsLaid}

module _ (l : BufferList) (n c : ℕ) (laid : IsLaid l n c) where
  -- The list's words that push relies on: the capacity, and a tail at one of the buffers.
  pub record HasTail (m : Shm) : Type 0 where
    pub cap_per_buffer_is : cap_per_buffer l m ≡ c
    pub tail_in : (t : ℕ) × (t < n) × (load_tail l m ≡ t * (c + 20))

  -- An address of the bytes behind the headers.
  pub record IsPayload (x : ℕ) : Type 0 where
    pub index : ℕ
    pub behind : header_at l.buffer_region c index + 20 ≤ x
    pub inside : x < header_at l.buffer_region c index + 20 + c

  pub in_header :
      (x j d w : ℕ) → IsPayload x → d + w ≤ 20 → Disjoint x 1 (header_at l.buffer_region c j + d) w
  in_header x j d w p fits = elim (dec_lt j p.index) [
    | yes h ↦ inr (omega (arith, stride_le j p.index (c + 20) h, p))
    | no h ↦ elim (dec_lt p.index j) [
      | yes k ↦ inl (omega (arith, stride_le p.index j (c + 20) k, p))
      | no k ↦ let same : j ≡ p.index = omega arith in inr (rw same (omega (arith, p)))
    ]
  ]

  pub below : (x a w : ℕ) → IsPayload x → a + w ≤ l.buffer_region → Disjoint x 1 a w
  below x a w p h = inr (omega (arith, p))

  -- Linking buffer `j` behind buffer `t`.
  module _ (j t : ℕ) (m : Shm) where
    abbrev linked : Shm
    linked =
        Header.link_next (store_le 4 m l.tail_at (j * (c + 20))) (header_at l.buffer_region c t)
          (j * (c + 20))

    abbrev pub after_push : Shm
    after_push = sub_one (add_one linked l.size_at) l.counter_at

    after_push-frame : (x : ℕ) → IsPayload x → after_push x ≡ m x
    unfolding Header.link_next
    after_push-frame x p =
        store_le-frame 4 _ l.counter_at _ x (below x l.counter_at 4 p (omega (arith, laid)))
        ∙ store_le-frame 4 _ l.size_at _ x (below x l.size_at 4 p (omega (arith, laid)))
        ∙ store_le-frame 1 _ (header_at l.buffer_region c t + 16) _ x
            (in_header x t 16 1 p (omega arith))
        ∙ store_le-frame 4 _ (header_at l.buffer_region c t + 12) _ x
            (in_header x t 12 4 p (omega arith))
        ∙ store_le-frame 4 m l.tail_at _ x (below x l.tail_at 4 p (omega (arith, laid)))

    after_push-HasTail : j < n → HasTail m → HasTail after_push
    unfolding Header.link_next
    after_push-HasTail j_in h =
        let h_t = header_at l.buffer_region c t in
        record {
          cap_per_buffer_is =
              load_le-store_le_ne 4 4 _ l.cap_per_buffer_at l.counter_at _ (omega (arith, laid))
              ∙ load_le-store_le_ne 4 4 _ l.cap_per_buffer_at l.size_at _ (omega (arith, laid))
              ∙ load_le-store_le_ne 4 1 _ l.cap_per_buffer_at (h_t + 16) _ (omega (arith, laid))
              ∙ load_le-store_le_ne 4 4 _ l.cap_per_buffer_at (h_t + 12) _ (omega (arith, laid))
              ∙ load_le-store_le_ne 4 4 m l.cap_per_buffer_at l.tail_at _ (omega (arith, laid))
              ∙ h.cap_per_buffer_is;
          tail_in = (
            j,
            j_in,
            load_le-store_le_ne 4 4 _ l.tail_at l.counter_at _ (omega (arith, laid))
                ∙ load_le-store_le_ne 4 4 _ l.tail_at l.size_at _ (omega (arith, laid))
                ∙ load_le-store_le_ne 4 1 _ l.tail_at (h_t + 16) _ (omega (arith, laid))
                ∙ load_le-store_le_ne 4 4 _ l.tail_at (h_t + 12) _ (omega (arith, laid))
                ∙ load_le-store_le_self 4 m l.tail_at _
                    (omega (arith, laid, stride_le j n (c + 20) j_in)),
          );
        }

    push_loop-after_push :
        (fuel : ℕ)
        → load_tail l m ≡ t * (c + 20)
        → push_loop (suc fuel) l (j * (c + 20)) m ≡ some after_push
    unfolding push_loop
    push_loop-after_push fuel at_tail =
        let same : (load_tail l m == load_tail l m) ≡ true = ground arith in rw (same, at_tail)

  -- Clearing the header of buffer `j`.
  abbrev cleared : ℕ → Shm → Shm
  cleared j m = reset_header (some (header_at l.buffer_region c j)) m

  cleared-frame : (j : ℕ) (m : Shm) (x : ℕ) → IsPayload x → cleared j m x ≡ m x
  unfolding reset_header Header.set_size Header.set_start Header.clear_flag
  cleared-frame j m x p =
      let h = header_at l.buffer_region c j in
      store_le-frame 1 _ (h + 16) 0 x (in_header x j 16 1 p (omega arith))
      ∙ store_le-frame 4 _ (h + 8) 0 x (in_header x j 8 4 p (omega arith))
      ∙ store_le-frame 4 m (h + 4) 0 x (in_header x j 4 4 p (omega arith))

  cleared-word :
      (j : ℕ) (m : Shm) (a : ℕ)
      → a + 4 ≤ l.buffer_region
      → load_le 4 (cleared j m) a ≡ load_le 4 m a
  unfolding reset_header Header.set_size Header.set_start Header.clear_flag
  cleared-word j m a d =
      let h = header_at l.buffer_region c j in
      load_le-store_le_ne 4 1 _ a (h + 16) 0 (omega arith)
      ∙ load_le-store_le_ne 4 4 _ a (h + 8) 0 (omega arith)
      ∙ load_le-store_le_ne 4 4 m a (h + 4) 0 (omega arith)

  cleared-HasTail : (j : ℕ) (m : Shm) → HasTail m → HasTail (cleared j m)
  cleared-HasTail j m h =
      let (t, t_in, at_tail) = h.tail_in in
      record {
        cap_per_buffer_is =
            cleared-word j m l.cap_per_buffer_at (omega (arith, laid)) ∙ h.cap_per_buffer_is;
        tail_in = (t, t_in, cleared-word j m l.tail_at (omega (arith, laid)) ∙ at_tail);
      }

  -- A buffer of the list, with its header and its bytes.
  pub record IsBuffer (s : BufferSlice) : Type 0 where
    pub index : ℕ
    pub index_in : index < n
    pub header_is : s.buffer_header ≡ some (header_at l.buffer_region c index)
    pub place_is : s.place ≡ in_shm (header_at l.buffer_region c index + 20)
    pub offset_is : s.offset_in_shm ≡ header_at l.buffer_region c index
    pub cap_is : s.cap ≡ c

  -- Pushing a buffer of the list ends, and writes in no payload.
  abbrev pub Frames : Shm → Shm → Type 0
  Frames m m' = HasTail m' × ((x : ℕ) → IsPayload x → m' x ≡ m x)

  pub push-Frames :
      (s : BufferSlice) (m : Shm)
      → IsBuffer s
      → HasTail m
      → (m' : Shm) × (push l s m ≡ some m') × Frames m m'
  unfolding push reset
  push-Frames s m b h =
      let j = b.index in
      let m₁ = cleared j m in
      let h₁ = cleared-HasTail j m h in
      let (t, t_in, at_tail) = h₁.tail_in in
      let back : sub_u32 s.offset_in_shm l.buffer_region_offset_in_shm ≡ j * (c + 20) =
        omega (arith, laid, b.offset_is, stride_le j n (c + 20) b.index_in) in
      (
        after_push j t m₁,
        ap₂ (λ (a : ℕ) (o : Option ℕ). push_loop 1 l a (reset_header o m)) back b.header_is
            ∙ push_loop-after_push j t m₁ 0 at_tail,
        (
          after_push-HasTail j t m₁ b.index_in h₁,
          λ x p. after_push-frame j t m₁ x p ∙ cleared-frame j m x p,
        ),
      )
