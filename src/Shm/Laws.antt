-- ===== src/Shm/Laws.antt =====
-- Laws of loads and stores: what is stored is read back, and a store changes only its own bytes.
use shmipc_cpp.Common.{
  ℕ, zero, suc, ◌+◌, ◌/◌, ◌%◌, ◌^◌, ◌≤◌, ◌<◌, ◌≡◌, refl, ap, ◌∙◌, ◌⊎◌, inl, inr, arith,
}
use shmipc_cpp.Shm.{Shm, load_u8, store_u8, load_le, store_le}
use native.Mathlib.Nat.{pow-suc}

-- `k` bytes from `b` on and `n` bytes from `a` on do not overlap.
abbrev pub Disjoint : ℕ → ℕ → ℕ → ℕ → Type 0
Disjoint b k a n = (b + k ≤ a) ⊎ (a + n ≤ b)

pub store_le-frame : (n : ℕ) (m : Shm) (a v x : ℕ) → Disjoint x 1 a n → store_le n m a v x ≡ m x
unfolding store_le
store_le-frame zero m a v x d = refl
store_le-frame (suc n) m a v x d = ground (arith, store_le-frame n m (a + 1) (v / 256) x)

pub load_le-lt : (n : ℕ) (m : Shm) (a : ℕ) → load_le n m a < 256 ^ n
unfolding load_le
load_le-lt zero m a = omega arith
load_le-lt (suc n) m a = omega (arith, load_le-lt n m (a + 1), pow-suc 256 n)

-- A load reads its own bytes only.
pub load_le_ext :
    (n : ℕ) (m m' : Shm) (a : ℕ)
    → ((x : ℕ) → a ≤ x → x < a + n → m x ≡ m' x)
    → load_le n m a ≡ load_le n m' a
unfolding load_le
load_le_ext zero m m' a h = refl
load_le_ext (suc n) m m' a h =
    let e : m a ≡ m' a = h a (omega arith) (omega arith) in
    let r : load_le n m (a + 1) ≡ load_le n m' (a + 1) =
      load_le_ext n m m' (a + 1) (λ x p q. h x (omega arith) (omega arith)) in
    cc

pub load_le-store_le_ne :
    (k n : ℕ) (m : Shm) (b a v : ℕ)
    → Disjoint b k a n
    → load_le k (store_le n m a v) b ≡ load_le k m b
load_le-store_le_ne k n m b a v d =
    load_le_ext k (store_le n m a v) m b (λ x p q. store_le-frame n m a v x (split d x p q))
  where
    split : Disjoint b k a n → (x : ℕ) → b ≤ x → x < b + k → Disjoint x 1 a n
    split (inl h) x p q = inl (omega arith)
    split (inr h) x p q = inr (omega arith)

pub load_le-store_u8_ne :
    (k : ℕ) (m : Shm) (b a v : ℕ) → Disjoint b k a 1 → load_le k (store_u8 m a v) b ≡ load_le k m b
load_le-store_u8_ne k m b a v d = load_le_ext k (store_u8 m a v) m b (λ x p q. ground arith)

pub load_le-store_le_self :
    (n : ℕ) (m : Shm) (a v : ℕ) → v < 256 ^ n → load_le n (store_le n m a v) a ≡ v
unfolding load_le store_le
load_le-store_le_self zero m a v h = omega arith
load_le-store_le_self (suc n) m a v h =
    let rest : load_le n (store_le (suc n) m a v) (a + 1) ≡ v / 256 =
      load_le-store_u8_ne n (store_le n m (a + 1) (v / 256)) (a + 1) a v (inr (omega arith))
      ∙ load_le-store_le_self n m (a + 1) (v / 256) (omega (arith, pow-suc 256 n)) in
    ground (arith, rest)

pub load_u8-store_le_ne :
    (n : ℕ) (m : Shm) (b a v : ℕ) → Disjoint b 1 a n → load_u8 (store_le n m a v) b ≡ load_u8 m b
load_u8-store_le_ne n m b a v d = ap (λ (t : ℕ). t % 256) (store_le-frame n m a v b d)
