-- ===== src/Buffer/FreeList/Create.antt =====
-- BufferList::create lays the buffers out as one chain, in the order of their addresses.
mod Round
use Prim.Native.Nat.{bit_or}
use shmipc_cpp.Common.{
  ℕ, zero, suc, ◌+◌, ◌-◌, ◌*◌, ◌%◌, ◌≤◌, ◌<◌, ◌^◌, ◌≡◌, ◌≢◌, refl, ap, ap₂, ◌∙◌, sym, arith, List,
  [], ◌∷◌, ◌++◌, All, All-append, true, false, length, length-append, subst, ltb, leb, Bool, ◌||◌,
  ◌==◌, add_u32,
}
use shmipc_cpp.Shm.{Shm, store_le, load_le, load_u8, store_u8, load_byte}
use shmipc_cpp.Shm.Laws.{
  Disjoint, load_le-lt, load_le-store_le_ne, load_le-store_le_self, load_u8-store_le_ne,
}
use shmipc_cpp.Error.{Result, ok, err, other}
use shmipc_cpp.Buffer.Header
use shmipc_cpp.Buffer.Header.Laws.{has_next_or}
use shmipc_cpp.Buffer.FreeList.{
  BufferList, list_at, size_64, create, create_rejects, mapping, mapping_rejects, store_list_header,
  store_buffer_header, store_buffers,
}
use shmipc_cpp.Buffer.FreeList.Chain.{
  Avoids, Avoids-snoc, Distinct, Distinct-snoc, IsPath, Ended, Linked, first_of, first_of-snoc,
  header_at, stride_le, IsPath-store_header, IsPath-snoc, IsBlank,
}
use shmipc_cpp.Buffer.FreeList.Create.Round.{
  plain, zeroed, chained, store_plain, store_chained, plain-IsBlank, chained-IsBlank,
  chained-linked, word-plain, word-chained,
}
use shmipc_cpp.Buffer.FreeList.State.{IsLaid, Holds}

-- The indices below `i`, in order.
abbrev pub upto : ℕ → List ℕ
upto zero = []
upto (suc i) = upto i ++ (i ∷ [])

pub length-upto : (i : ℕ) → length (upto i) ≡ i
length-upto zero = refl
length-upto (suc i) = omega (arith, length-append (upto i) (i ∷ []), length-upto i)

pub Avoids-upto : (j i : ℕ) → i ≤ j → Avoids j (upto i)
Avoids-upto j zero h = tt
Avoids-upto j (suc i) h = Avoids-snoc j (upto i) i (Avoids-upto j i (omega arith)) (omega arith)

pub Distinct-upto : (i : ℕ) → Distinct (upto i)
Distinct-upto zero = tt
Distinct-upto (suc i) = Distinct-snoc (upto i) i (Distinct-upto i) (Avoids-upto i i (omega arith))

pub inside-upto : (i n : ℕ) → i ≤ n → All (λ k. k < n) (upto i)
inside-upto zero n h = tt
inside-upto (suc i) n h =
    All-append (λ k. k < n) (upto i) (i ∷ []) (inside-upto i n (omega arith)) (omega arith, tt)

pub first_of-upto : (i : ℕ) → first_of (upto i) i ≡ 0
first_of-upto zero = refl
first_of-upto (suc i) = first_of-snoc (upto i) i (suc i) ∙ first_of-upto i

-- A round leaves the chain in front of it alone.
module _ (r c next : ℕ) (m : Shm) (ks : List ℕ) (t j : ℕ) (apart : Avoids j ks) where
  IsPath-plain : IsPath r c m ks t → IsPath r c (plain m (header_at r c j) c next) ks t
  IsPath-plain path =
      let start : header_at r c j + 0 ≡ header_at r c j = omega arith in
      let path₁ = IsPath-store_header r c m ks t j 0 4 c (omega arith) apart path in
      let path₂ =
        IsPath-store_header r c _ ks t j 4 4 0 (omega arith) apart
          (subst (λ (a : ℕ). IsPath r c (store_le 4 m a c) ks t) start path₁) in
      IsPath-store_header r c _ ks t j 8 4 0 (omega arith) apart path₂

  IsPath-chained : IsPath r c m ks t → IsPath r c (chained m (header_at r c j) c next) ks t
  IsPath-chained path =
      let path₁ =
        IsPath-store_header r c _ ks t j 12 4 next (omega arith) apart (IsPath-plain path) in
      let path₂ = IsPath-store_header r c _ ks t j 16 4 0 (omega arith) apart path₁ in
      IsPath-store_header r c _ ks t j 16 1 _ (omega arith) apart path₂

-- What the loop has done to `m` when it ends in `m'`.
module _ (r c : ℕ) where
  abbrev pub Chained : ℕ → Shm → Shm → Type 0
  Chained k m m' =
      IsPath r c m' (upto k) k
      × IsBlank m' (header_at r c k) c
      × ((a : ℕ) → a + 4 ≤ r → load_le 4 m' a ≡ load_le 4 m a)

  next_fits : (i k : ℕ) → i < k → (k + 1) * (c + 20) < 2 ^ 32 → suc i * (c + 20) < 2 ^ 32
  next_fits i k lt fits = omega (arith, stride_le i (k + 1) (c + 20) (omega arith), fits)

  store_buffers_more :
      (left i k : ℕ) (m : Shm)
      → i < k
      → (k + 1) * (c + 20) < 2 ^ 32
      → store_buffers (suc left) i r (suc k) c (i * (c + 20)) m
        ≡ store_buffers left
            (suc i)
            r
            (suc k)
            c
            (suc i * (c + 20))
            (chained m (header_at r c i) c (suc i * (c + 20)))
  unfolding store_buffers
  store_buffers_more left i k m lt fits =
      let next : (i * (c + 20) + c + 20) % 2 ^ 32 ≡ suc i * (c + 20) =
        omega (arith, next_fits i k lt fits) in
      let on : ltb i (suc k - 1) ≡ true = ground arith in
      let one : i + 1 ≡ suc i = omega arith in
      rw (next, on, one, store_chained m (header_at r c i) c (suc i * (c + 20))) refl

  store_buffers_last :
      (k : ℕ) (m : Shm)
      → store_buffers 1 k r (suc k) c (k * (c + 20)) m
        ≡ plain m (header_at r c k) c ((k * (c + 20) + c + 20) % 2 ^ 32)
  unfolding store_buffers
  store_buffers_last k m =
      let off : ltb k (suc k - 1) ≡ false = ground arith in
      rw (off) (store_plain m (header_at r c k) c ((k * (c + 20) + c + 20) % 2 ^ 32))

  capacity_fits : (k : ℕ) → (k + 1) * (c + 20) < 2 ^ 32 → c < 2 ^ 32
  capacity_fits k fits = omega (arith, stride_le 0 (k + 1) (c + 20) (omega arith), fits)

  -- `left + 1` rounds remain of `k + 1`, the first of them for buffer `i`.
  pub store_buffers_lem :
      (left i k : ℕ) (m : Shm)
      → i + left ≡ k
      → (k + 1) * (c + 20) < 2 ^ 32
      → IsPath r c m (upto i) i
      → Chained k m (store_buffers (suc left) i r (suc k) c (i * (c + 20)) m)
  store_buffers_lem zero i k m e fits path =
      let here : i ≡ k = omega arith in
      let next = (k * (c + 20) + c + 20) % 2 ^ 32 in
      subst (λ (i : ℕ). Chained k m (store_buffers 1 i r (suc k) c (i * (c + 20)) m)) (sym here)
        (subst (Chained k m) (sym (store_buffers_last k m)) (
          IsPath-plain r c next m (upto k) k k (Avoids-upto k k (omega arith))
              (subst (λ (i : ℕ). IsPath r c m (upto i) i) here path),
          plain-IsBlank m (header_at r c k) c next (capacity_fits k fits),
          λ a h. word-plain m (header_at r c k) c next a (omega arith),
        ))
  store_buffers_lem (suc left) i k m e fits path =
      let next = suc i * (c + 20) in
      let m₁ = chained m (header_at r c i) c next in
      let bound = next_fits i k (omega arith) fits in
      let link : Linked r c m₁ i (suc i) =
        let (on, to) = chained-linked m (header_at r c i) c next bound in
        (on, to, chained-IsBlank m (header_at r c i) c next (capacity_fits k fits)) in
      let path₁ : IsPath r c m₁ (upto (suc i)) (suc i) =
        IsPath-snoc r c m₁ (upto i) i (suc i)
          (IsPath-chained r c next m (upto i) i i (Avoids-upto i i (omega arith)) path) link in
      let (p, b, words) = store_buffers_lem left (suc i) k m₁ (omega arith) fits path₁ in
      subst (Chained k m) (sym (store_buffers_more (suc left) i k m (omega arith) fits))
        (p, b, λ a h. words a h ∙ word-chained m (header_at r c i) c next a (omega arith))
