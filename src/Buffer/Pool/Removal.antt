-- ===== src/Buffer/Pool/Removal.antt =====
-- Lists without one of their entries.
use shmipc_cpp.Common.{
  ℕ, zero, suc, ◌≡◌, ◌≢◌, refl, ap, sym, subst, List, [], ◌∷◌, get_elem?, length, map, some,
  some-injective, All, arith,
}
use shmipc_cpp.Buffer.FreeList.Chain.{Avoids, Distinct}
use shmipc_cpp.Buffer.Pool.{remove_at}

pub All_get {ℓ κ} :
    {A : Type ℓ} (P : A → Type κ) (xs : List A) (i : ℕ) (x : A)
    → get_elem? xs i ≡ some x
    → All P xs
    → P x
All_get P [] i x e h = absurd (ground arith)
All_get P (y ∷ xs) zero x e h = subst P (some-injective y x e) h.0
All_get P (y ∷ xs) (suc i) x e h = All_get P xs i x e h.1

pub All_remove {ℓ κ} :
    {A : Type ℓ} (P : A → Type κ) (xs : List A) (i : ℕ) → All P xs → All P (remove_at i xs)
All_remove P [] i h = tt
All_remove P (y ∷ xs) zero h = h.1
All_remove P (y ∷ xs) (suc i) h = (h.0, All_remove P xs i h.1)

pub All_map {ℓ κ ι} :
    {A : Type ℓ} (P : A → Type κ) (Q : A → Type ι)
    → ((x : A) → P x → Q x)
    → (xs : List A) → All P xs
    → All Q xs
All_map P Q f [] h = tt
All_map P Q f (x ∷ xs) h = (f x h.0, All_map P Q f xs h.1)

pub map_remove {ℓ κ} :
    {A : Type ℓ} {B : Type κ} (f : A → B) (xs : List A) (i : ℕ)
    → map f (remove_at i xs) ≡ remove_at i (map f xs)
map_remove f [] i = refl
map_remove f (x ∷ xs) zero = refl
map_remove {B = B} f (x ∷ xs) (suc i) = ap (λ (l : List B). f x ∷ l) (map_remove f xs i)

pub get_map {ℓ κ} :
    {A : Type ℓ} {B : Type κ} (f : A → B) (xs : List A) (i : ℕ) (y : B)
    → get_elem? (map f xs) i ≡ some y
    → (x : A) × (get_elem? xs i ≡ some x) × (f x ≡ y)
get_map f [] i y e = absurd (ground arith)
get_map f (x ∷ xs) zero y e = (x, refl, some-injective (f x) y e)
get_map f (x ∷ xs) (suc i) y e = get_map f xs i y e

pub length-remove_at {ℓ} :
    {A : Type ℓ} (xs : List A) (i : ℕ) (x : A)
    → get_elem? xs i ≡ some x
    → length xs ≡ suc (length (remove_at i xs))
length-remove_at [] i x e = absurd (ground arith)
length-remove_at (y ∷ xs) zero x e = refl
length-remove_at (y ∷ xs) (suc i) x e = ap suc (length-remove_at xs i x e)

pub Distinct-remove_at : (ks : List ℕ) (i : ℕ) → Distinct ks → Distinct (remove_at i ks)
Distinct-remove_at [] i d = tt
Distinct-remove_at (k ∷ ks) zero d = d.1
Distinct-remove_at (k ∷ ks) (suc i) d =
    (All_remove (λ j. k ≢ j) ks i d.0, Distinct-remove_at ks i d.1)

-- What is removed from a list without repetition is no longer there.
pub Avoids-remove_at :
    (ks : List ℕ) (i k : ℕ) → get_elem? ks i ≡ some k → Distinct ks → Avoids k (remove_at i ks)
Avoids-remove_at [] i k e d = tt
Avoids-remove_at (j ∷ ks) zero k e d = subst (λ (x : ℕ). Avoids x ks) (some-injective j k e) d.0
Avoids-remove_at (j ∷ ks) (suc i) k e d =
    (λ q. All_get (λ x. j ≢ x) ks i k e d.0 (sym q), Avoids-remove_at ks i k e d.1)

pub All_both {ℓ κ ι} :
    {A : Type ℓ} (P : A → Type κ) (Q : A → Type ι) (xs : List A)
    → All P xs
    → All Q xs
    → All (λ x. P x × Q x) xs
All_both P Q [] h g = tt
All_both P Q (x ∷ xs) h g = ((h.0, g.0), All_both P Q xs h.1 g.1)
