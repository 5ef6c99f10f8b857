-- ===== src/Buffer/Linked/Shared.antt =====
-- Slices that are written, in buffers of one list or with storage of their own.
use shmipc_cpp.Common.{
  ℕ, ◌+◌, ◌-◌, ◌≤◌, ◌<◌, ◌≡◌, ◌≢◌, refl, ap, ap₂, ◌∙◌, sym, arith, List, [], ◌∷◌, ◌++◌, All, Option,
  some, none,
}
use shmipc_cpp.Shm.{Shm}
use shmipc_cpp.Shm.Span.{read_span_ext}
use shmipc_cpp.Buffer.Slice.{BufferSlice, Place, in_shm, bytes_at}
use shmipc_cpp.Buffer.Slice.Window.{IsValid}
use shmipc_cpp.Buffer.FreeList.{BufferList}
use shmipc_cpp.Buffer.FreeList.Chain.{header_at, Avoids}
use shmipc_cpp.Buffer.FreeList.State.{Holds}
use shmipc_cpp.Buffer.Linked.Reclaim.{unread}
use shmipc_cpp.Buffer.Linked.FromHeap.{IsOwn}

module _ (l : BufferList) (n c : ℕ) where
  -- In a buffer of the list, or not.
  abbrev pub Lies : Option ℕ → BufferSlice → Type 0
  Lies none s = IsOwn s
  Lies (some j) s =
      (s.place ≡ in_shm (header_at l.buffer_region c j + 20)) × (s.cap ≡ c) × IsValid s

  abbrev pub LieAll : List (Option ℕ) → List BufferSlice → Type 0
  LieAll [] [] = Unit {0}
  LieAll (o ∷ os) (s ∷ ss) = Lies o s × LieAll os ss
  LieAll [] (s ∷ ss) = ⊥
  LieAll (o ∷ os) [] = ⊥

  abbrev pub Differ : Option ℕ → Option ℕ → Type 0
  Differ none p = Unit {0}
  Differ (some i) none = Unit {0}
  Differ (some i) (some j) = i ≢ j

  abbrev pub Spread : List (Option ℕ) → Type 0
  Spread [] = Unit {0}
  Spread (o ∷ os) = All (Differ o) os × Spread os

  -- Not among the free buffers.
  abbrev pub Out : List ℕ → ℕ → Option ℕ → Type 0
  Out ks t none = Unit {0}
  Out ks t (some j) = Avoids j ks × (j ≢ t)

  -- The free buffers, and where the slices lie, no two in the same buffer.
  pub record Shares (ks : List ℕ) (t used : ℕ) (os : List (Option ℕ)) (ss : List BufferSlice)
      (m : Shm) : Type 0 where
    pub held : Holds l n c ks t used m
    pub lie : LieAll os ss
    pub spread : Spread os
    pub out : All (Out ks t) os

  -- Two memories with the same bytes in a buffer, and in all the buffers of some slices.
  abbrev pub AgreeIn : Shm → Shm → Option ℕ → Type 0
  AgreeIn m m' none = Unit {0}
  AgreeIn m m' (some i) =
      (x : ℕ)
      → header_at l.buffer_region c i + 20 ≤ x
      → x < header_at l.buffer_region c i + 20 + c
      → m' x ≡ m x

  pub unread-AgreeIn :
      (os : List (Option ℕ)) (ss : List BufferSlice) (m m' : Shm)
      → LieAll os ss
      → All (AgreeIn m m') os
      → unread ss m' ≡ unread ss m
  unread-AgreeIn [] [] m m' h a = refl
  unread-AgreeIn [] (s ∷ ss) m m' h a = absurd h
  unread-AgreeIn (o ∷ os) [] m m' h a = absurd h
  unread-AgreeIn (none ∷ os) (s ∷ ss) m m' (own, h) a =
      let k = s.write_index - s.read_index in
      ap₂ ◌++◌
        (ap (λ (p : Place). bytes_at p m' s.read_index k) own.place_is
          ∙ sym (ap (λ (p : Place). bytes_at p m s.read_index k) own.place_is))
        (unread-AgreeIn os ss m m' h a.1)
  unread-AgreeIn (some i ∷ os) (s ∷ ss) m m' ((at, cap_is, v), h) a =
      let k = s.write_index - s.read_index in
      let d = header_at l.buffer_region c i + 20 in
      ap₂ ◌++◌
        (ap (λ (p : Place). bytes_at p m' s.read_index k) at
          ∙ read_span_ext m' m (d + s.read_index) k
              (λ x from to. a.0 x (omega arith) (omega (arith, v, cap_is)))
          ∙ sym (ap (λ (p : Place). bytes_at p m s.read_index k) at))
        (unread-AgreeIn os ss m m' h a.1)

  pub All-IsValid : (os : List (Option ℕ)) (ss : List BufferSlice) → LieAll os ss → All IsValid ss
  All-IsValid [] [] h = tt
  All-IsValid [] (s ∷ ss) h = absurd h
  All-IsValid (o ∷ os) [] h = absurd h
  All-IsValid (none ∷ os) (s ∷ ss) h = (h.0.valid, All-IsValid os ss h.1)
  All-IsValid (some j ∷ os) (s ∷ ss) h = (h.0.2, All-IsValid os ss h.1)
