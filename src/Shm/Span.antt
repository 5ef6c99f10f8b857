-- ===== src/Shm/Span.antt =====
-- Runs of bytes in memory: what std::memcpy copies in and out of a buffer.
use shmipc_cpp.Common.{
  ℕ, zero, suc, ◌+◌, ◌-◌, ◌≤◌, ◌<◌, ◌≡◌, refl, ap, ap₂, ◌∙◌, List, [], ◌∷◌, ◌++◌, length, take,
  drop, min, All, arith,
}
use shmipc_cpp.Shm.{Shm, load_byte, store_byte, store_le}
use shmipc_cpp.Shm.Laws.{Disjoint, load_le_ext, store_le-frame, load_le-store_le_self}

unfoldable pub read_span : Shm → ℕ → ℕ → List ℕ
read_span m a zero = []
read_span m a (suc n) = load_byte m a ∷ read_span m (a + 1) n

unfoldable pub write_span : Shm → ℕ → List ℕ → Shm
write_span m a [] = m
write_span m a (b ∷ bs) = write_span (store_byte m a b) (a + 1) bs

abbrev pub AreBytes : List ℕ → Type 0
AreBytes bs = All (λ b. b < 256) bs

pub length-read_span : (m : Shm) (a n : ℕ) → length (read_span m a n) ≡ n
unfolding read_span
length-read_span m a zero = refl
length-read_span m a (suc n) = ap suc (length-read_span m (a + 1) n)

pub read_span_ext :
    (m m' : Shm) (a n : ℕ)
    → ((x : ℕ) → a ≤ x → x < a + n → m x ≡ m' x)
    → read_span m a n ≡ read_span m' a n
unfolding read_span
read_span_ext m m' a zero h = refl
read_span_ext m m' a (suc n) h =
    ap₂ ◌∷◌ (load_le_ext 1 m m' a (λ x p q. h x p (omega arith)))
      (read_span_ext m m' (a + 1) n (λ x p q. h x (omega arith) (omega arith)))

pub write_span-frame :
    (m : Shm) (a : ℕ) (bs : List ℕ) (x : ℕ) → Disjoint x 1 a (length bs) → write_span m a bs x ≡ m x
unfolding write_span
write_span-frame m a [] x d = refl
write_span-frame m a (b ∷ bs) x d =
    write_span-frame (store_byte m a b) (a + 1) bs x (omega arith)
    ∙ store_le-frame 1 m a b x (omega arith)

pub read_span-write_span_ne :
    (m : Shm) (a n c : ℕ) (bs : List ℕ)
    → Disjoint a n c (length bs)
    → read_span (write_span m c bs) a n ≡ read_span m a n
read_span-write_span_ne m a n c bs d =
    read_span_ext (write_span m c bs) m a n (λ x p q. write_span-frame m c bs x (omega arith))

pub read_span-write_span_self :
    (m : Shm) (a : ℕ) (bs : List ℕ) → AreBytes bs → read_span (write_span m a bs) a (length bs) ≡ bs
unfolding read_span write_span
read_span-write_span_self m a [] h = refl
read_span-write_span_self m a (b ∷ bs) h =
    ap₂ ◌∷◌
      (load_le_ext 1 (write_span (store_byte m a b) (a + 1) bs) (store_byte m a b) a
          (λ x p q. write_span-frame (store_byte m a b) (a + 1) bs x (omega arith))
        ∙ load_le-store_le_self 1 m a b h.0)
      (read_span-write_span_self (store_byte m a b) (a + 1) bs h.1)

-- A run splits anywhere.
pub read_span_split :
    (m : Shm) (a i n : ℕ) → i ≤ n → read_span m a n ≡ read_span m a i ++ read_span m (a + i) (n - i)
unfolding read_span
read_span_split m a zero n h = ap₂ (read_span m) (omega arith) (omega arith)
read_span_split m a (suc i) zero h = elim h [ ]
read_span_split m a (suc i) (suc n) h =
    ap (λ (l : List ℕ). load_byte m a ∷ l)
      (read_span_split m (a + 1) i n (omega arith)
        ∙ ap₂ (λ (b k : ℕ). read_span m (a + 1) i ++ read_span m b k) (omega arith) (omega arith))

pub take-read_span : (m : Shm) (a i n : ℕ) → take i (read_span m a n) ≡ read_span m a (min i n)
unfolding read_span
take-read_span m a zero n = let e : min 0 n ≡ 0 = omega arith in rw e
take-read_span m a (suc i) zero = let e : min (suc i) 0 ≡ 0 = omega arith in rw e
take-read_span m a (suc i) (suc n) =
    let k : suc (min i n) ≡ min (suc i) (suc n) = omega arith in
    ap (λ (l : List ℕ). load_byte m a ∷ l) (take-read_span m (a + 1) i n) ∙ ap (read_span m a) k

pub drop-read_span :
    (m : Shm) (a i n : ℕ) → drop i (read_span m a n) ≡ read_span m (a + min i n) (n - i)
unfolding read_span
drop-read_span m a zero n = ap₂ (read_span m) (omega arith) (omega arith)
drop-read_span m a (suc i) zero = let e : 0 - suc i ≡ 0 = omega arith in rw e
drop-read_span m a (suc i) (suc n) =
    drop-read_span m (a + 1) i n ∙ ap₂ (read_span m) (omega arith) (omega arith)

pub AreBytes-take : (n : ℕ) (bs : List ℕ) → AreBytes bs → AreBytes (take n bs)
AreBytes-take zero bs h = tt
AreBytes-take (suc n) [] h = tt
AreBytes-take (suc n) (b ∷ bs) h = (h.0, AreBytes-take n bs h.1)

pub read_span-store_le_ne :
    (k : ℕ) (m : Shm) (a n b v : ℕ)
    → Disjoint a n b k
    → read_span (store_le k m b v) a n ≡ read_span m a n
read_span-store_le_ne k m a n b v d =
    read_span_ext (store_le k m b v) m a n (λ x p q. store_le-frame k m b v x (omega arith))
