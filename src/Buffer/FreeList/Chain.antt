-- ===== src/Buffer/FreeList/Chain.antt =====
-- Chains of buffer headers: buffer `k` of a region at address `r` stands `k * s` bytes in, `s` the
-- stride from one header to the next. Buffers are named by their index.
use shmipc_cpp.Common.{
  ℕ, ◌+◌, ◌*◌, ◌≤◌, ◌<◌, ◌≡◌, ◌≢◌, refl, ◌∙◌, sym, arith, List, [], ◌∷◌, ◌++◌, All, true, false,
}
use native.Mathlib.Decide.{dec_lt}
use shmipc_cpp.Shm.{Shm, store_le}
use shmipc_cpp.Shm.Laws.{Disjoint}
use shmipc_cpp.Buffer.Header
use shmipc_cpp.Buffer.Header.Laws.{
  has_next-store, next_buffer_offset-store, cap-store, size-store, start-store,
}

-- The first of `ks` followed by `t`.
abbrev pub first_of : List ℕ → ℕ → ℕ
first_of [] t = t
first_of (k ∷ ks) t = k

abbrev pub Avoids : ℕ → List ℕ → Type 0
Avoids j ks = All (λ k. j ≢ k) ks

-- No index twice.
abbrev pub Distinct : List ℕ → Type 0
Distinct [] = Unit {0}
Distinct (k ∷ ks) = Avoids k ks × Distinct ks

pub first_of-snoc : (ks : List ℕ) (t j : ℕ) → first_of (ks ++ (t ∷ [])) j ≡ first_of ks t
first_of-snoc [] t j = refl
first_of-snoc (k ∷ ks) t j = refl

pub Avoids-snoc : (j : ℕ) (ks : List ℕ) (t : ℕ) → Avoids j ks → j ≢ t → Avoids j (ks ++ (t ∷ []))
Avoids-snoc j [] t h ne = (ne, tt)
Avoids-snoc j (k ∷ ks) t h ne = (h.0, Avoids-snoc j ks t h.1 ne)

pub Distinct-snoc : (ks : List ℕ) (t : ℕ) → Distinct ks → Avoids t ks → Distinct (ks ++ (t ∷ []))
Distinct-snoc [] t d a = (tt, tt)
Distinct-snoc (k ∷ ks) t d a =
    (Avoids-snoc k ks t d.0 (λ e. a.0 (sym e)), Distinct-snoc ks t d.1 a.1)

pub stride_le : (j k s : ℕ) → j < k → j * s + s ≤ k * s
stride_le j k s h = grind arith

-- An unused buffer of capacity `c`.
abbrev pub IsBlank : Shm → ℕ → ℕ → Type 0
IsBlank m h c = (Header.cap m h ≡ c) × (Header.size m h ≡ 0) × (Header.start m h ≡ 0)

pub IsBlank-store :
    (m : Shm) (h c n a v : ℕ) → Disjoint h 20 a n → IsBlank m h c → IsBlank (store_le n m a v) h c
IsBlank-store m h c n a v d b =
    (cap-store m h n a v d ∙ b.0, size-store m h n a v d ∙ b.1, start-store m h n a v d ∙ b.2)

module _ (r c : ℕ) where
  abbrev pub header_at : ℕ → ℕ
  header_at k = r + k * (c + 20)

  -- Bytes in the header of one buffer lie outside the headers of the others.
  pub header_at-Disjoint :
      (j k d n : ℕ) → j ≢ k → d + n ≤ c + 20 → Disjoint (header_at k) 20 (header_at j + d) n
  header_at-Disjoint j k d n ne fits = elim (dec_lt j k) [
    | yes h ↦ omega (arith, stride_le j k (c + 20) h)
    | no h ↦ omega (arith, stride_le k j (c + 20) (omega arith))
  ]

  -- Bytes behind the capacity in one buffer lie outside the capacity of every buffer.
  pub cap-Disjoint :
      (i j d n : ℕ) → 4 ≤ d → d + n ≤ c + 20 → Disjoint (header_at i + 0) 4 (header_at j + d) n
  cap-Disjoint i j d n behind fits = elim (dec_lt i j) [
    | yes h ↦ omega (arith, stride_le i j (c + 20) h)
    | no h ↦ elim (dec_lt j i) [
      | yes k ↦ omega (arith, stride_le j i (c + 20) k)
      | no k ↦ let same : i ≡ j = omega arith in rw (same) (omega arith)
    ]
  ]

  -- Buffer `k` is unused and linked to buffer `t`.
  abbrev pub Linked : Shm → ℕ → ℕ → Type 0
  Linked m k t =
      (Header.has_next m (header_at k) ≡ true)
      × (Header.next_buffer_offset m (header_at k) ≡ t * (c + 20))
      × IsBlank m (header_at k) c

  -- Buffer `t` is unused and the end of a chain.
  abbrev pub Ended : Shm → ℕ → Type 0
  Ended m t = (Header.has_next m (header_at t) ≡ false) × IsBlank m (header_at t) c

  -- Each of `ks` is linked to the one behind it, the last to `t`.
  abbrev pub IsPath : Shm → List ℕ → ℕ → Type 0
  IsPath m [] t = Unit {0}
  IsPath m (k ∷ ks) t = Linked m k (first_of ks t) × IsPath m ks t

  module _ (m : Shm) (n a v : ℕ) where
    pub Linked-store :
        (k t : ℕ) → Disjoint (header_at k) 20 a n → Linked m k t → Linked (store_le n m a v) k t
    Linked-store k t d h = (
      has_next-store m (header_at k) n a v d ∙ h.0,
      next_buffer_offset-store m (header_at k) n a v d ∙ h.1,
      IsBlank-store m (header_at k) c n a v d h.2,
    )

    pub Ended-store :
        (t : ℕ) → Disjoint (header_at t) 20 a n → Ended m t → Ended (store_le n m a v) t
    Ended-store t d h =
        (has_next-store m (header_at t) n a v d ∙ h.0, IsBlank-store m (header_at t) c n a v d h.1)

    -- A store below the region leaves a chain alone,
    pub IsPath-store_below :
        (ks : List ℕ) (t : ℕ) → a + n ≤ r → IsPath m ks t → IsPath (store_le n m a v) ks t
    IsPath-store_below [] t d h = tt
    IsPath-store_below (k ∷ ks) t d h =
        (Linked-store k (first_of ks t) (omega arith) h.0, IsPath-store_below ks t d h.1)

  -- and so does one in the header of a buffer outside it.
  pub IsPath-store_header :
      (m : Shm) (ks : List ℕ) (t j d n v : ℕ)
      → d + n ≤ c + 20
      → Avoids j ks
      → IsPath m ks t
      → IsPath (store_le n m (header_at j + d) v) ks t
  IsPath-store_header m [] t j d n v fits a h = tt
  IsPath-store_header m (k ∷ ks) t j d n v fits a h = (
    Linked-store m n (header_at j + d) v k (first_of ks t) (header_at-Disjoint j k d n a.0 fits)
        h.0,
    IsPath-store_header m ks t j d n v fits a.1 h.1,
  )

  -- A chain grows at its end.
  pub IsPath-snoc :
      (m : Shm) (ks : List ℕ) (t j : ℕ) → IsPath m ks t → Linked m t j → IsPath m (ks ++ (t ∷ [])) j
  IsPath-snoc m [] t j h e = (e, tt)
  IsPath-snoc m (k ∷ []) t j h e = (h.0, (e, tt))
  IsPath-snoc m (k ∷ k' ∷ ks) t j h e = (h.0, IsPath-snoc m (k' ∷ ks) t j h.1 e)
