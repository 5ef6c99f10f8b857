-- ===== src/Queue/Region.antt =====
-- The bytes of a mapped queue: what an operation may change, and what another queue sees of it.
use shmipc_cpp.Common.{
  ℕ, zero, suc, ◌+◌, ◌*◌, ◌^◌, ◌≤◌, ◌<◌, ◌≡◌, refl, ap₂, ◌∙◌, arith, ◌⊎◌, inl, inr, List, ◌∷◌,
  Bool-cases, le_i64, sub_i64, ◌==◌,
}
use native.Mathlib.Nat.{mod-lt}
use shmipc_cpp.Shm.{Shm, load_le, store_le}
use shmipc_cpp.Shm.Laws.{Disjoint, load_le_ext, store_le-frame}
use shmipc_cpp.Queue.{
  Queue, QueueElement, load_head, load_tail, load_flag, load_element, store_element, queue_offset,
  put, pop, mark_working, mark_not_working, clear_flag, set_flag, size,
}
use shmipc_cpp.Queue.Layout.{IsValid, element_at, queue_offset_lem}
use shmipc_cpp.Queue.Fifo.{window, contents}

-- Address `x` is one of the counters, the flag or the elements.
abbrev pub InQueue : Queue → ℕ → Type 0
InQueue q x = (q.head_at ≤ x) × (x < q.head_at + 20 + q.cap * 12)

-- `m'` differs from `m` in bytes of `q` only.
abbrev pub Touches : Queue → Shm → Shm → Type 0
Touches q m m' = (x : ℕ) → (x < q.head_at) ⊎ (q.head_at + 20 + q.cap * 12 ≤ x) → m' x ≡ m x

-- The bytes of `q` are the same.
abbrev pub Agrees : Queue → Shm → Shm → Type 0
Agrees q m m' = (x : ℕ) → q.head_at ≤ x → x < q.head_at + 20 + q.cap * 12 → m' x ≡ m x

-- The bytes of two queues do not overlap.
abbrev pub IsApart : Queue → Queue → Type 0
IsApart q r = Disjoint q.head_at (20 + q.cap * 12) r.head_at (20 + r.cap * 12)

module _ (q : Queue) (m m' : Shm) (v : IsValid q m) (same : Agrees q m m') where
  head-Agrees : load_head q m' ≡ load_head q m
  head-Agrees = load_le_ext 8 m' m q.head_at (λ x lo hi. same x (omega arith) (omega arith))

  tail-Agrees : load_tail q m' ≡ load_tail q m
  tail-Agrees =
      load_le_ext 8 m' m q.tail_at (λ x lo hi. same x (omega (arith, v)) (omega (arith, v)))

  pub flag-Agrees : load_flag q m' ≡ load_flag q m
  flag-Agrees =
      load_le_ext 4 m' m q.flag_at (λ x lo hi. same x (omega (arith, v)) (omega (arith, v)))

  offset-inside : (i : ℕ) → i < 2 ^ 63 → queue_offset q i + 12 ≤ q.cap * 12
  offset-inside i h =
      let e = queue_offset_lem q i v.cap_pos v.cap_fits h in omega (arith, e, mod-lt i v.cap_pos)

  element-Agrees :
      (i : ℕ) → i < 2 ^ 63 → load_element m' (element_at q i) ≡ load_element m (element_at q i)
  unfolding load_element
  element-Agrees i h =
      let a = element_at q i in
      rw
        (
          word a (omega arith) (omega arith),
          word (a + 4) (omega arith) (omega arith),
          word (a + 8) (omega arith) (omega arith),
        )
        refl
    where
      word :
          (b : ℕ)
          → element_at q i ≤ b
          → b + 4 ≤ element_at q i + 12
          → load_le 4 m' b ≡ load_le 4 m b
      word b from fits = load_le_ext 4 m' m b (λ x lo hi.
          same x (omega (arith, v, offset-inside i h)) (omega (arith, v, offset-inside i h)))

  window-Agrees : (i n : ℕ) → i + n < 2 ^ 63 → window q m' i n ≡ window q m i n
  unfolding window
  window-Agrees i zero h = refl
  window-Agrees i (suc n) h =
      ap₂ (λ (e : QueueElement) (l : List QueueElement). e ∷ l) (element-Agrees i (omega arith))
        (window-Agrees (suc i) n (omega arith))

  pub contents-Agrees : contents q m' ≡ contents q m
  unfolding contents
  contents-Agrees = rw (head-Agrees, tail-Agrees) (window-Agrees _ _ (omega (arith, v)))

  pub IsValid-Agrees : IsValid q m'
  IsValid-Agrees = record {
    tail_laid = v.tail_laid;
    flag_laid = v.flag_laid;
    elements_laid = v.elements_laid;
    cap_pos = v.cap_pos;
    cap_fits = v.cap_fits;
    ordered = omega (arith, v, head-Agrees, tail-Agrees);
    bounded = omega (arith, v, head-Agrees, tail-Agrees);
    no_overflow = omega (arith, v, tail-Agrees);
  }

pub Agrees-Touches : (q r : Queue) (m m' : Shm) → IsApart q r → Touches q m m' → Agrees r m m'
Agrees-Touches q r m m' apart h x lo hi = h x (other apart)
  where
    other : IsApart q r → (x < q.head_at) ⊎ (q.head_at + 20 + q.cap * 12 ≤ x)
    other (inl d) = inr (omega arith)
    other (inr d) = inl (omega arith)

-- A store inside the bytes of a queue.
Touches-store :
    (q : Queue) (m : Shm) (n a v : ℕ)
    → q.head_at ≤ a
    → a + n ≤ q.head_at + 20 + q.cap * 12
    → Touches q m (store_le n m a v)
Touches-store q m n a v lo hi x out = store_le-frame n m a v x (away out)
  where
    away : (x < q.head_at) ⊎ (q.head_at + 20 + q.cap * 12 ≤ x) → Disjoint x 1 a n
    away (inl d) = inl (omega arith)
    away (inr d) = inr (omega arith)

Touches-trans : (q : Queue) (m₁ m₂ m₃ : Shm) → Touches q m₁ m₂ → Touches q m₂ m₃ → Touches q m₁ m₃
Touches-trans q m₁ m₂ m₃ f g x out = g x out ∙ f x out

module _ (q : Queue) (m : Shm) (v : IsValid q m) where
  Touches-store_element :
      (i : ℕ) (e : QueueElement) → i < 2 ^ 63 → Touches q m (store_element m (element_at q i) e)
  unfolding store_element
  Touches-store_element i e h =
      let inside = offset-inside q m m v (λ x lo hi. refl) i h in
      let a = element_at q i in
      let m₁ = store_le 4 m a e.seq_id in
      let m₂ = store_le 4 m₁ (a + 4) e.offset_in_shm_buf in
      Touches-trans q m m₂ _
        (Touches-trans q m m₁ m₂
          (Touches-store q m 4 a _ (omega (arith, v)) (omega (arith, v, inside)))
          (Touches-store q m₁ 4 (a + 4) _ (omega (arith, v)) (omega (arith, v, inside))))
        (Touches-store q m₂ 4 (a + 8) _ (omega (arith, v)) (omega (arith, v, inside)))

  -- Each operation changes bytes of its own queue only.
  pub Touches-put : (e : QueueElement) → Touches q m (put q e m).1
  unfolding put
  Touches-put e = elim (Bool-cases (le_i64 q.cap (sub_i64 (load_tail q m) (load_head q m)))) [
    | inl full ↦ rw full (λ x out. refl)
    | inr room ↦
        let m₁ = store_element m (element_at q (load_tail q m)) e in
        rw room (
          Touches-trans q m m₁ _ (Touches-store_element (load_tail q m) e v.no_overflow)
            (Touches-store q m₁ 8 q.tail_at _ (omega (arith, v)) (omega (arith, v))))
  ]

  pub Touches-pop : Touches q m (pop q m).1
  unfolding pop
  Touches-pop = elim (Bool-cases (le_i64 (load_tail q m) (load_head q m))) [
    | inl empty ↦ rw empty (λ x out. refl)
    | inr some ↦ rw some (Touches-store q m 8 q.head_at _ (omega arith) (omega arith))
  ]

  pub Touches-flag : (w : ℕ) → Touches q m (store_le 4 m q.flag_at w)
  Touches-flag w = Touches-store q m 4 q.flag_at w (omega (arith, v)) (omega (arith, v))

  pub Touches-mark_working : Touches q m (mark_working q m).1
  unfolding mark_working
  Touches-mark_working = elim (Bool-cases (load_flag q m == 0)) [
    | inl idle ↦ rw idle (Touches-flag 1)
    | inr busy ↦ rw busy (λ x out. refl)
  ]

  pub Touches-mark_not_working : Touches q m (mark_not_working q m).1
  unfolding mark_not_working clear_flag set_flag
  Touches-mark_not_working = elim (Bool-cases (size q (clear_flag q m) == 0)) [
    | inl drained ↦ rw drained (Touches-flag 0)
    | inr left ↦ rw left (
        Touches-trans q m (store_le 4 m q.flag_at 0) _ (Touches-flag 0)
          (Touches-store q _ 4 q.flag_at 1 (omega (arith, v)) (omega (arith, v))))
  ]

-- What a queue reads is the same in two memories, and it stays valid.
abbrev pub IsSame : Queue → Shm → Shm → Type 0
IsSame r m m' = (contents r m' ≡ contents r m) × (load_flag r m' ≡ load_flag r m) × IsValid r m'

Agrees-IsSame : (r : Queue) (m m' : Shm) → IsValid r m → Agrees r m m' → IsSame r m m'
Agrees-IsSame r m m' v h =
    (contents-Agrees r m m' v h, flag-Agrees r m m' v h, IsValid-Agrees r m m' v h)

-- Two valid queues whose bytes do not overlap are independent: no operation on one changes what
-- the other holds, its flag or its validity.
pub independent :
    (q r : Queue) (m : Shm) (e : QueueElement)
    → IsValid q m
    → IsValid r m
    → IsApart q r
    → IsSame r m (put q e m).1
      × IsSame r m (pop q m).1
      × IsSame r m (mark_working q m).1
      × IsSame r m (mark_not_working q m).1
independent q r m e v w apart = (
  same (Touches-put q m v e),
  same (Touches-pop q m v),
  same (Touches-mark_working q m v),
  same (Touches-mark_not_working q m v),
)
  where
    same : {m' : Shm} → Touches q m m' → IsSame r m m'
    same {m'} t = Agrees-IsSame r m m' w (Agrees-Touches q r m m' apart t)
