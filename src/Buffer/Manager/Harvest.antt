-- ===== src/Buffer/Manager/Harvest.antt =====
-- How many buffers the inner loop of alloc_shm_buffers takes from one list.
use shmipc_cpp.Common.{
  ℕ, zero, suc, ◌+◌, ◌-◌, ◌*◌, ◌≤◌, ◌<◌, ◌≡◌, ◌⊎◌, inl, inr, refl, ap, ap₂, subst, ◌∙◌, sym, arith,
  Bool-cases, ◌==◌, List, [], ◌∷◌, ◌++◌, length, take, drop, map, some,
}
use mathlib.Core.List.{append-nil, append_assoc}
use shmipc_cpp.Shm.{Shm}
use shmipc_cpp.Error.{Result}
use shmipc_cpp.Buffer.Slice.{BufferSlice}
use shmipc_cpp.Buffer.FreeList.{BufferList, load_size, pop}
use shmipc_cpp.Buffer.FreeList.Chain.{header_at}
use shmipc_cpp.Buffer.FreeList.State.{Holds}
use shmipc_cpp.Buffer.FreeList.State.Pop.{PopResult, IsFresh, pop_lem}
use shmipc_cpp.Buffer.Manager.Chains.{Allocation, taken, alloc_list, after_pop}
use shmipc_cpp.Buffer.SliceList.{push_back}

abbrev pub offsets : List BufferSlice → List ℕ
offsets ss = map (λ (s : BufferSlice). s.offset_in_shm) ss

-- What the loop does: it takes the first `k` free buffers, of capacity `c`, in their order.
pub record Takes (l : BufferList) (n c : ℕ) (ks : List ℕ) (t used : ℕ) (a a' : Allocation)
    (m' : Shm) (k : ℕ) (news : List BufferSlice) : Type 0 where
  pub within : k ≤ length ks
  pub slices_are : a'.slices.slices ≡ a.slices.slices ++ news
  pub cursor_is : a'.slices.write ≡ a.slices.write
  pub news_are : offsets news ≡ map (header_at l.buffer_region c) (take k ks)
  pub size_is : a'.alloc_size ≡ a.alloc_size + k * c
  pub remain_is : a'.remain ≡ a.remain - k * c
  pub needed : (k ≡ 0) ⊎ ((k - 1) * c < a.remain)
  pub stops : (a'.remain ≡ 0) ⊎ (k ≡ length ks)
  pub held : Holds l n c (drop k ks) t (used + k) m'

one_times : (k c : ℕ) → suc k * c ≡ c + k * c
one_times k c = grind arith

-- What was needed before the last of `suc k`.
needed_more : (k c r : ℕ) → 0 < r → (k ≡ 0) ⊎ ((k - 1) * c < r - c) → k * c < r
needed_more zero c r some_left h = grind arith
needed_more (suc k) c r some_left (inl h) = absurd (omega arith)
needed_more (suc k) c r some_left (inr h) =
    let e : suc k - 1 ≡ k = omega arith in
    let h' : k * c < r - c = subst (λ (i : ℕ). i * c < r - c) e h in
    omega (arith, one_times k c, h')

module _ (l : BufferList) (n c t : ℕ) where
  abbrev Harvest : ℕ → List ℕ → ℕ → Allocation → Shm → Type 0
  Harvest fuel ks used a m =
      (k : ℕ) × (news : List BufferSlice) × (a' : Allocation) × (m' : Shm) × (alloc_list fuel l a m
        ≡ some (a', m'))
      × Takes l n c ks t used a a' m' k news

  nothing_taken :
      (ks : List ℕ) (used : ℕ) (a : Allocation) (m' : Shm)
      → (a.remain ≡ 0) ⊎ (0 ≡ length ks)
      → Holds l n c ks t used m'
      → Takes l n c ks t used a a m' 0 []
  nothing_taken ks used a m' why held = record {
    within = omega arith;
    slices_are = sym (append-nil a.slices.slices);
    cursor_is = refl;
    news_are = refl;
    size_is = omega arith;
    remain_is = omega arith;
    needed = inl refl;
    stops = why;
    held = subst (λ (u : ℕ). Holds l n c ks t u m') (omega arith) held;
  }

  one_more :
      (k₀ : ℕ) (ks : List ℕ) (used : ℕ) (a a' : Allocation) (m₁ m' : Shm) (b : BufferSlice) (k : ℕ)
      (news : List BufferSlice)
      → 0 < a.remain
      → IsFresh l c k₀ b m₁
      → Takes l n c ks t (used + 1) (taken a b) a' m' k news
      → Takes l n c (k₀ ∷ ks) t used a a' m' (suc k) (b ∷ news)
  unfolding push_back
  one_more k₀ ks used a a' m₁ m' b k news some_left fresh rest = record {
    within = omega (arith, rest.within);
    slices_are = rest.slices_are ∙ append_assoc a.slices.slices (b ∷ []) news;
    cursor_is = rest.cursor_is;
    news_are = ap₂ ◌∷◌ fresh.offset_is rest.news_are;
    size_is = omega (arith, rest.size_is, fresh.cap_is, one_times k c);
    remain_is = omega (arith, rest.remain_is, fresh.cap_is, one_times k c);
    needed =
        let e : suc k - 1 ≡ k = omega arith in
        inr (
          subst (λ (i : ℕ). i * c < a.remain) (sym e)
            (needed_more k c a.remain some_left (
              subst (λ (x : ℕ). (k ≡ 0) ⊎ ((k - 1) * c < a.remain - x)) fresh.cap_is rest.needed)));
    stops = later rest.stops;
    held = subst (λ (u : ℕ). Holds l n c (drop k ks) t u m') (omega arith) rest.held;
  }
    where
      later : (a'.remain ≡ 0) ⊎ (k ≡ length ks) → (a'.remain ≡ 0) ⊎ (suc k ≡ suc (length ks))
      later (inl h) = inl h
      later (inr h) = inr (omega arith)

  -- Behind a pop, when the loop does as it should on what is left.
  from_pop :
      (fuel : ℕ) (ks : List ℕ) (used : ℕ) (a : Allocation) (r : Result BufferSlice × Shm)
      → ((ks' : List ℕ) (used' : ℕ) (a' : Allocation) (m' : Shm)
          → length ks' < fuel
          → Holds l n c ks' t used' m'
          → Harvest fuel ks' used' a' m')
      → length ks < suc fuel
      → 0 < a.remain
      → PopResult l n c ks t used r
      → (k : ℕ) × (news : List BufferSlice) × (a' : Allocation) × (m' : Shm) × (after_pop
            (alloc_list fuel l)
            a
            r
          ≡ some (a', m'))
        × Takes l n c ks t used a a' m' k news
  from_pop fuel [] used a (r, m₁) recur enough some_left (refused, held) = (
    0,
    [],
    a,
    m₁,
    ap (λ (x : Result BufferSlice). after_pop (alloc_list fuel l) a (x, m₁)) refused,
    nothing_taken [] used a m₁ (inr refl) held,
  )
  from_pop fuel (k₀ ∷ ks) used a (r, m₁) recur enough some_left (b, popped, fresh, held) =
      let (k, news, a', m', eq, rest) = recur ks (used + 1) (taken a b) m₁ (omega arith) held in
      (
        suc k,
        b ∷ news,
        a',
        m',
        ap (λ (x : Result BufferSlice). after_pop (alloc_list fuel l) a (x, m₁)) popped ∙ eq,
        one_more k₀ ks used a a' m₁ m' b k news some_left fresh rest,
      )

  harvest :
      (fuel : ℕ) (ks : List ℕ) (used : ℕ) (a : Allocation) (m : Shm)
      → length ks < fuel
      → Holds l n c ks t used m
      → Harvest fuel ks used a m
  unfolding alloc_list
  harvest zero ks used a m enough held = absurd (omega arith)
  harvest (suc fuel) ks used a m enough held = elim (Bool-cases (a.remain == 0)) [
    | inl at_end ↦
        simp at_end
          (0, [], a, m, refl, nothing_taken ks used a m (inl (ground (arith, at_end))) held)
    | inr more ↦
        let some_left : 0 < a.remain = ground (arith, more) in
        simp more (
          from_pop fuel ks used a (pop l m) (λ ks' used' a' m'. harvest fuel ks' used' a' m') enough
            some_left (pop_lem l n c ks t used m held))
  ]

-- The inner loop of alloc_shm_buffers, on the memory of a free list and with the rounds that it is
-- given, ends. It takes the first `k` free buffers in their order, appends their slices without
-- moving the cursor, and counts `k` capacities as allocated and as no longer remaining. It takes no
-- more buffers than are needed, and it stops only when nothing remains or the list has no more.
pub alloc_list_lem :
    (l : BufferList) (n c t : ℕ) (ks : List ℕ) (used : ℕ) (a : Allocation) (m : Shm)
    → Holds l n c ks t used m
    → (k : ℕ) × (news : List BufferSlice) × (a' : Allocation) × (m' : Shm) × (alloc_list
          (load_size l m + 1)
          l
          a
          m
        ≡ some (a', m'))
      × Takes l n c ks t used a a' m' k news
alloc_list_lem l n c t ks used a m held =
    harvest l n c t (load_size l m + 1) ks used a m (omega (arith, held.size_is)) held
