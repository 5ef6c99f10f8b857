-- ===== src/Buffer/Linked/Allotted.antt =====
-- BufferList::pop, next to slices that share the list.
use shmipc_cpp.Common.{
  ℕ, ◌+◌, ◌^◌, ◌<◌, ◌≡◌, ◌∙◌, sym, arith, List, [], ◌∷◌, ◌++◌, All, All-append, Option, some, none,
}
use shmipc_cpp.Shm.{Shm}
use shmipc_cpp.Error.{Result, ok, err, no_more_buffer}
use shmipc_cpp.Buffer.Slice.{BufferSlice}
use shmipc_cpp.Buffer.FreeList.{BufferList, pop}
use shmipc_cpp.Buffer.FreeList.Chain.{stride_le}
use shmipc_cpp.Buffer.FreeList.State.{Holds}
use shmipc_cpp.Buffer.FreeList.State.Pop.{IsFresh, pop_lem}
use shmipc_cpp.Buffer.Linked.Reclaim.{unread}
use shmipc_cpp.Buffer.Linked.Supply.{IsBlank}
use shmipc_cpp.Buffer.Linked.PushFrame.{IsPayload}
use shmipc_cpp.Buffer.Linked.PopFrame.{pop-frame}
use shmipc_cpp.Buffer.Linked.Shared.{
  Shares, Lies, LieAll, Spread, Differ, Out, AgreeIn, unread-AgreeIn,
}

module _ (l : BufferList) (n c : ℕ) (some_cap : 0 < c) where
  pub LieAll-snoc :
      (os : List (Option ℕ)) (ss : List BufferSlice) (o : Option ℕ) (s : BufferSlice)
      → LieAll l n c os ss
      → Lies l n c o s
      → LieAll l n c (os ++ (o ∷ [])) (ss ++ (s ∷ []))
  LieAll-snoc [] [] o s h h' = (h', tt)
  LieAll-snoc [] (x ∷ ss) o s h h' = absurd h
  LieAll-snoc (p ∷ os) [] o s h h' = absurd h
  LieAll-snoc (p ∷ os) (x ∷ ss) o s h h' = (h.0, LieAll-snoc os ss o s h.1 h')

  pub Spread-snoc :
      (os : List (Option ℕ)) (o : Option ℕ)
      → Spread l n c os
      → All (λ p. Differ l n c p o) os
      → Spread l n c (os ++ (o ∷ []))
  Spread-snoc [] o h a = (tt, tt)
  Spread-snoc (p ∷ os) o h a =
      (All-append (Differ l n c p) os (o ∷ []) h.0 (a.0, tt), Spread-snoc os o h.1 a.1)

  apart_from_first :
      (k : ℕ) (ks : List ℕ) (t : ℕ) (os : List (Option ℕ))
      → All (Out l n c (k ∷ ks) t) os
      → All (λ p. Differ l n c p (some k)) os
  apart_from_first k ks t [] h = tt
  apart_from_first k ks t (none ∷ os) h = (tt, apart_from_first k ks t os h.1)
  apart_from_first k ks t (some i ∷ os) h = (h.0.0.0, apart_from_first k ks t os h.1)

  Out-later :
      (k : ℕ) (ks : List ℕ) (t : ℕ) (os : List (Option ℕ))
      → All (Out l n c (k ∷ ks) t) os
      → All (Out l n c ks t) os
  Out-later k ks t [] h = tt
  Out-later k ks t (none ∷ os) h = (tt, Out-later k ks t os h.1)
  Out-later k ks t (some i ∷ os) h = ((h.0.0.1, h.0.1), Out-later k ks t os h.1)

  -- A fresh buffer next to the others.
  fresh-Shares :
      (k : ℕ) (ks : List ℕ) (t used : ℕ) (os : List (Option ℕ)) (ss : List BufferSlice) (m m' : Shm)
      (b : BufferSlice)
      → Shares l n c (k ∷ ks) t used os ss m
      → IsFresh l c k b m'
      → Holds l n c ks t (used + 1) m'
      → Shares l n c ks t (used + 1) (os ++ (some k ∷ [])) (ss ++ (b ∷ [])) m'
  fresh-Shares k ks t used os ss m m' b r fresh held =
      let small : c < 2 ^ 32 = omega (arith, stride_le k n (c + 20) r.held.inside.0, r.held.laid) in
      record {
        held = held;
        lie = LieAll-snoc os ss (some k) b r.lie (
          fresh.place_is,
          fresh.cap_is,
          record {
            read_le = omega (arith, fresh.read_is, fresh.write_is);
            write_le = omega (arith, fresh.write_is);
            cap_fits = omega (arith, fresh.cap_is, small);
          },
        );
        spread = Spread-snoc os (some k) r.spread (apart_from_first k ks t os r.out);
        out =
            All-append (Out l n c ks t) os (some k ∷ []) (Out-later k ks t os r.out)
              ((r.held.distinct.0, (λ e. r.held.last_apart.0 (sym e))), tt);
      }

  AgreeIn-payload :
      (ks : List ℕ) (t used : ℕ) (m m' : Shm) (held : Holds l n c ks t used m)
      (os : List (Option ℕ))
      → ((x : ℕ) → IsPayload l n c held.laid x → m' x ≡ m x)
      → All (AgreeIn l n c m m') os
  AgreeIn-payload ks t used m m' held [] f = tt
  AgreeIn-payload ks t used m m' held (none ∷ os) f = (tt, AgreeIn-payload ks t used m m' held os f)
  AgreeIn-payload ks t used m m' held (some i ∷ os) f = (
    λ x from to. f x (record { index = i; behind = from; inside = to }),
    AgreeIn-payload ks t used m m' held os f,
  )

  -- What one pop leaves of the slices that share the list, and what it adds.
  abbrev pub PopsNext :
      List ℕ → ℕ → ℕ → List (Option ℕ) → List BufferSlice → Shm → Result BufferSlice × Shm → Type 0
  PopsNext [] t used os ss m (r, m') =
      (r ≡ err no_more_buffer) × Shares l n c [] t used os ss m' × (unread ss m' ≡ unread ss m)
  PopsNext (k ∷ ks) t used os ss m (r, m') =
      (b : BufferSlice) × (r ≡ ok b)
      × (b.cap ≡ c)
      × IsBlank b
      × Shares l n c ks t (used + 1) (os ++ (some k ∷ [])) (ss ++ (b ∷ [])) m'
      × (unread ss m' ≡ unread ss m)

  pub pop-PopsNext :
      (ks : List ℕ) (t used : ℕ) (os : List (Option ℕ)) (ss : List BufferSlice) (m : Shm)
      → Shares l n c ks t used os ss m
      → PopsNext ks t used os ss m (pop l m)
  pop-PopsNext [] t used os ss m r =
      let (refused, held) = pop_lem l n c [] t used m r.held in
      (
        refused,
        record { held = held; lie = r.lie; spread = r.spread; out = r.out },
        unread-AgreeIn l n c os ss m (pop l m).1 r.lie (
            AgreeIn-payload [] t used m (pop l m).1 r.held os
              (λ x p. pop-frame l n c r.held.laid [] t used m x r.held p)),
      )
  pop-PopsNext (k ∷ ks) t used os ss m r =
      let (b, popped, fresh, held) = pop_lem l n c (k ∷ ks) t used m r.held in
      (
        b,
        popped,
        fresh.cap_is,
        record {
          nothing_unread = fresh.read_is ∙ sym fresh.write_is;
          has_room = omega (arith, fresh.write_is, fresh.cap_is, some_cap);
        },
        fresh-Shares k ks t used os ss m (pop l m).1 b r fresh held,
        unread-AgreeIn l n c os ss m (pop l m).1 r.lie (
            AgreeIn-payload (k ∷ ks) t used m (pop l m).1 r.held os
              (λ x p. pop-frame l n c r.held.laid (k ∷ ks) t used m x r.held p)),
      )
