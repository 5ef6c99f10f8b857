-- ===== src/Buffer/Pool/Safety.antt =====
-- What holds of a pool however it is used.
use shmipc_cpp.Common.{
  ℕ, suc, ◌+◌, ◌-◌, ◌*◌, ◌≤◌, ◌<◌, ◌^◌, ◌≡◌, ◌≢◌, ◌⊎◌, inl, inr, refl, ap, ◌∙◌, sym, arith, List,
  [], ◌∷◌, get_elem?, length, map, some, All,
}
use native.Mathlib.Decide.{dec_lt}
use shmipc_cpp.Shm.{Shm}
use shmipc_cpp.Shm.Laws.{Disjoint}
use shmipc_cpp.Error.{Result, ok, err, no_more_buffer, ok_injective}
use shmipc_cpp.Buffer.Slice.{BufferSlice}
use shmipc_cpp.Buffer.FreeList.{BufferList, list_at, create, pop, push, load_counter, load_size}
use shmipc_cpp.Buffer.FreeList.Chain.{Distinct, header_at, stride_le}
use shmipc_cpp.Buffer.FreeList.Create.{upto}
use shmipc_cpp.Buffer.FreeList.Initial.{create_list_lem}
use shmipc_cpp.Buffer.FreeList.State.Pop.{pop_lem}
use shmipc_cpp.Buffer.Pool.{Pool, Uses}
use shmipc_cpp.Buffer.Pool.Removal.{All_map}
use shmipc_cpp.Buffer.Pool.Steps.{IsOut, Splits, Inv, Uses-Inv, returned}

-- Spans of `w` bytes from each of the addresses, no two of which overlap.
abbrev pub NoOverlap : ℕ → List ℕ → Type 0
NoOverlap w [] = Unit {0}
NoOverlap w (o ∷ os) = All (λ p. Disjoint o w p w) os × NoOverlap w os

-- A span inside the region.
abbrev pub Inside : BufferList → ℕ → ℕ → ℕ → Type 0
Inside l n c o = (l.buffer_region ≤ o) × (o + 20 + c ≤ l.buffer_region + n * (c + 20))

headers-Disjoint :
    (r c j k : ℕ) → j ≢ k → Disjoint (header_at r c j) (c + 20) (header_at r c k) (c + 20)
headers-Disjoint r c j k ne = elim (dec_lt j k) [
  | yes h ↦ omega (arith, stride_le j k (c + 20) h)
  | no h ↦ omega (arith, stride_le k j (c + 20) (omega arith))
]

All_at :
    (r c : ℕ) (P : ℕ → Type 0) (js : List ℕ)
    → All (λ j. P (header_at r c j)) js
    → All P (map (header_at r c) js)
All_at r c P [] h = tt
All_at r c P (j ∷ js) h = (h.0, All_at r c P js h.1)

NoOverlap-map : (r c : ℕ) (js : List ℕ) → Distinct js → NoOverlap (c + 20) (map (header_at r c) js)
NoOverlap-map r c [] d = tt
NoOverlap-map r c (j ∷ js) d = (
  All_at r c (λ p. Disjoint (header_at r c j) (c + 20) p (c + 20)) js
      (All_map (λ k. j ≢ k) (λ k. Disjoint (header_at r c j) (c + 20) (header_at r c k) (c + 20))
        (headers-Disjoint r c j) js d.0),
  NoOverlap-map r c js d.1,
)

length-map : (f : ℕ → ℕ) (js : List ℕ) → length (map f js) ≡ length js
length-map f [] = refl
length-map f (j ∷ js) = ap suc (length-map f js)

created-Inv :
    (n c mem_len offset : ℕ) (m m₀ : Shm) (l : BufferList)
    → mem_len < 2 ^ 32
    → create n c mem_len offset m ≡ (ok l, m₀)
    → Inv l n c (record { shm = m₀; out = [] })
created-Inv n c mem_len offset m m₀ l small e = elim (create_list_lem n c mem_len offset m small) [
  | inl (_, bad) ↦ absurd (ground (arith, e, bad))
  | inr (_, _, _, m', good, held, _) ↦
      let both = sym e ∙ good in
      let is_l : l ≡ list_at offset (n * (c + 20)) =
        ok_injective (ap (λ (r : Result BufferList × Shm). r.0) both) in
      let is_m : m₀ ≡ m' = ap (λ (r : Result BufferList × Shm). r.1) both in
      (
        upto (n - 1),
        n - 1,
        [],
        record { held = rw (is_l, is_m) held; out_is = refl; js_distinct = tt; js_out = tt },
      )
]

-- A list that `create` made in a mapping of less than 2 ^ 32 bytes, used in any way by taking,
-- writing in and returning buffers, one whole operation after another: the buffers that are out are
-- whole buffers of the region and do not overlap, the list counts them, and they and the free ones
-- are all there are.
pub pool_safety :
    (n c mem_len offset : ℕ) (m m₀ : Shm) (l : BufferList) (s : Pool)
    → mem_len < 2 ^ 32
    → create n c mem_len offset m ≡ (ok l, m₀)
    → Uses l (record { shm = m₀; out = [] }) s
    → NoOverlap (c + 20) s.out
      × All (Inside l n c) s.out
      × (load_counter l s.shm ≡ length s.out)
      × (load_size l s.shm + length s.out ≡ n)
pool_safety n c mem_len offset m m₀ l s small e us =
    let (ks, t, js, v) = Uses-Inv l n c (created-Inv n c mem_len offset m m₀ l small e) us in
    let r = l.buffer_region in
    rw (v.out_is) (
      NoOverlap-map r c js v.js_distinct,
      All_at r c (Inside l n c) js (
          All_map (IsOut l n c ks t s.shm) (λ j. Inside l n c (header_at r c j))
            (λ j j_out. (omega arith, omega (arith, stride_le j n (c + 20) j_out.0))) js v.js_out),
      v.held.counter_is ∙ sym (length-map (header_at r c) js),
      omega (arith, v.held.size_is, v.held.whole, length-map (header_at r c) js),
    )

-- What `pop` does.
popped :
    (l : BufferList) (n c : ℕ) (ks : List ℕ) (t : ℕ) (js : List ℕ) (s : Pool)
    → Splits l n c ks t js s
    → ((length s.out + 1 ≡ n) × ((pop l s.shm).0 ≡ err no_more_buffer))
      ⊎ ((length s.out + 1 < n)
          × (b' : BufferSlice) × ((pop l s.shm).0 ≡ ok b')
          × All (λ p. Disjoint b'.offset_in_shm (c + 20) p (c + 20)) s.out)
popped l n c [] t js s v =
    let (no_buffer, _) = pop_lem l n c [] t (length js) s.shm v.held in
    rw (v.out_is)
      (inl (omega (arith, v.held.whole, length-map (header_at l.buffer_region c) js), no_buffer))
popped l n c (k ∷ ks) t js s v =
    let r = l.buffer_region in
    let (b, is_ok, fresh, _) = pop_lem l n c (k ∷ ks) t (length js) s.shm v.held in
    rw (v.out_is) (
      inr (
        omega (arith, v.held.whole, length-map (header_at r c) js),
        b,
        is_ok,
        rw (fresh.offset_is) (
            All_at r c (λ p. Disjoint (header_at r c k) (c + 20) p (c + 20)) js
              (All_map (IsOut l n c (k ∷ ks) t s.shm)
                (λ j. Disjoint (header_at r c k) (c + 20) (header_at r c j) (c + 20))
                (λ j j_out. headers-Disjoint r c k j (λ q. j_out.1.0 (sym q))) js v.js_out)),
      ))

-- On the same lists, and for every buffer that is out: `push` of it ends and gives a memory. `pop`
-- fails exactly when all buffers but one are out, and the buffer that it hands out otherwise does
-- not overlap those that are out.
pub pool_progress :
    (n c mem_len offset : ℕ) (m m₀ : Shm) (l : BufferList) (s : Pool)
    → mem_len < 2 ^ 32
    → create n c mem_len offset m ≡ (ok l, m₀)
    → Uses l (record { shm = m₀; out = [] }) s
    → (i o : ℕ) (b : BufferSlice) → get_elem? s.out i ≡ some o
    → b.buffer_header ≡ some o
    → b.offset_in_shm ≡ o
    → ((m' : Shm) × (push l b s.shm ≡ some m'))
      × (((length s.out + 1 ≡ n) × ((pop l s.shm).0 ≡ err no_more_buffer))
          ⊎ ((length s.out + 1 < n)
              × (b' : BufferSlice) × ((pop l s.shm).0 ≡ ok b')
              × All (λ p. Disjoint b'.offset_in_shm (c + 20) p (c + 20)) s.out))
pool_progress n c mem_len offset m m₀ l s small e us i o b got at_header at_offset =
    let (ks, t, js, v) = Uses-Inv l n c (created-Inv n c mem_len offset m m₀ l small e) us in
    let (m', pushed, _) = returned l n c ks t js s i o b v got at_header at_offset in
    ((m', pushed), popped l n c ks t js s v)
