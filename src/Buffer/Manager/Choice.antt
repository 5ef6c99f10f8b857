-- ===== src/Buffer/Manager/Choice.antt =====
-- Which list a buffer is taken from, and which it goes back to.
use shmipc_cpp.Common.{
  ℕ, ◌≤◌, ◌<◌, ◌≡◌, ◌≢◌, ◌⊎◌, inl, inr, refl, ap, ◌∙◌, sym, subst, arith, true, false, none, some,
  List, [], ◌∷◌, ◌++◌, All,
}
use mathlib.Core.List.{append-nil}
use native.Mathlib.Decide.{dec_lt}
use shmipc_cpp.Error.{err, no_more_buffer}
use shmipc_cpp.Buffer.FreeList.State.{Holds}
use shmipc_cpp.Buffer.FreeList.State.Pop.{PopResult, pop_lem}
use shmipc_cpp.Buffer.Manager.Lookup.{AllHeld}
use shmipc_cpp.Shm.{Shm}
use shmipc_cpp.Buffer.Header
use shmipc_cpp.Buffer.Slice.{BufferSlice}
use shmipc_cpp.Buffer.FreeList.{BufferList, cap_per_buffer, pop, push}
use shmipc_cpp.Buffer.Manager.{BufferManager, alloc_shm_buffer, alloc_from, recycle_buffer}

alloc_from-skip :
    (before after : List BufferList) (size : ℕ) (m : Shm)
    → All (λ k. cap_per_buffer k m < size) before
    → alloc_from (before ++ after) size m ≡ alloc_from after size m
unfolding alloc_from
alloc_from-skip [] after size m h = refl
alloc_from-skip (k ∷ before) after size m h = ground (arith, alloc_from-skip before after size m)

-- The first list whose capacity covers a size, if there is one.
FirstFit : List BufferList → ℕ → Shm → Type 0
FirstFit ls size m =
    ((before : List BufferList) × (l : BufferList) × (after : List BufferList) × (ls
        ≡ before ++ (l ∷ after))
      × All (λ k. cap_per_buffer k m < size) before
      × (size ≤ cap_per_buffer l m))
    ⊎ All (λ k. cap_per_buffer k m < size) ls

first_fit : (ls : List BufferList) (size : ℕ) (m : Shm) → FirstFit ls size m
unfolding FirstFit
first_fit [] size m = inr tt
first_fit (l ∷ ls) size m = elim (dec_lt (cap_per_buffer l m) size) [
  | no h ↦ inl ([], l, ls, refl, tt, omega arith)
  | yes h ↦ elim (first_fit ls size m) [
    | inl (before, k, after, e, small, covers) ↦
        inl (l ∷ before, k, after, ap (λ (xs : List BufferList). l ∷ xs) e, (h, small), covers)
    | inr small ↦ inr (h, small)
  ]
]

-- The free buffers of one of the lists.
held_of :
    (before : List BufferList) (l : BufferList) (after ls : List BufferList) (us : List ℕ) (m : Shm)
    → ls ≡ before ++ (l ∷ after)
    → AllHeld ls us m
    → (n : ℕ) × (c : ℕ) × (ks : List ℕ) × (t : ℕ) × (u : ℕ) × Holds l n c ks t u m
held_of before l after ls us m e held =
    at_front before us (subst (λ (xs : List BufferList). AllHeld xs us m) e held)
  where
    at_front :
        (before : List BufferList) (us : List ℕ)
        → AllHeld (before ++ (l ∷ after)) us m
        → (n : ℕ) × (c : ℕ) × (ks : List ℕ) × (t : ℕ) × (u : ℕ) × Holds l n c ks t u m
    at_front [] [] h = absurd h
    at_front [] (u ∷ us) ((n, c, ks, t, h), hs) = (n, c, ks, t, u, h)
    at_front (x ∷ before) [] h = absurd h
    at_front (x ∷ before) (u ∷ us) (h, hs) = at_front before us hs

-- What alloc_shm_buffer does on lists that hold their free buffers, for every size. A size above
-- the largest capacity, or above the capacity of every list, is NoMoreBuffer and changes nothing.
-- Any other size is served by the first list whose capacity covers it and by no other: by its first
-- free buffer, empty and marked in use, or by NoMoreBuffer when only its last one is free.
pub alloc_lem :
    (bm : BufferManager) (size : ℕ) (us : List ℕ) (m : Shm)
    → AllHeld bm.lists us m
    → (((bm.max_slice_size < size) ⊎ All (λ k. cap_per_buffer k m < size) bm.lists)
        × (alloc_shm_buffer bm size m ≡ (err no_more_buffer, m)))
      ⊎ ((size ≤ bm.max_slice_size)
          × (before : List BufferList) × (l : BufferList) × (after : List BufferList) × (bm.lists
              ≡ before ++ (l ∷ after))
          × All (λ k. cap_per_buffer k m < size) before
          × (n : ℕ) × (c : ℕ) × (ks : List ℕ) × (t : ℕ) × (u : ℕ) × Holds l n c ks t u m
          × (size ≤ c)
          × PopResult l n c ks t u (alloc_shm_buffer bm size m))
unfolding alloc_shm_buffer alloc_from FirstFit
alloc_lem bm size us m all_held = elim (dec_lt bm.max_slice_size size) [
  | yes large ↦ inl (inl large, ground (arith, large))
  | no allowed ↦ elim (first_fit bm.lists size m) [
    | inr small ↦
        let none_fits : alloc_from bm.lists size m ≡ (err no_more_buffer, m) =
          ap (λ (ls : List BufferList). alloc_from ls size m) (sym (append-nil bm.lists))
          ∙ alloc_from-skip bm.lists [] size m small in
        inl (inr small, ground (arith, none_fits))
    | inl (before, l, after, e, small, covers) ↦
        let (n, c, ks, t, u, held) = held_of before l after bm.lists us m e all_held in
        let served : alloc_shm_buffer bm size m ≡ pop l m =
          rw (e, alloc_from-skip before (l ∷ after) size m small) (ground arith) in
        inr (
          omega arith,
          before,
          l,
          after,
          e,
          small,
          n,
          c,
          ks,
          t,
          u,
          held,
          omega (arith, covers, held.cap_per_buffer_is),
          subst (PopResult l n c ks t u) (sym served) (pop_lem l n c ks t u m held),
        )
  ]
]

-- The first list of a capacity, if there is one.
FirstSame : List BufferList → ℕ → Shm → Type 0
FirstSame ls c m =
    ((before : List BufferList) × (l : BufferList) × (after : List BufferList) × (ls
        ≡ before ++ (l ∷ after))
      × All (λ k. cap_per_buffer k m ≢ c) before
      × (c ≡ cap_per_buffer l m))
    ⊎ All (λ k. cap_per_buffer k m ≢ c) ls

-- Why a slice stays out of the lists: it is not of shared memory, has no header, is not marked in
-- use (it went back before), or no list has its capacity.
abbrev pub StaysOut : BufferManager → BufferSlice → Shm → Type 0
StaysOut bm slice m =
    (slice.is_from_shm ≡ false)
    ⊎ ((slice.buffer_header ≡ none)
        ⊎ (((h : ℕ) × (slice.buffer_header ≡ some h) × (Header.is_in_used m h ≡ false))
            ⊎ All (λ k. cap_per_buffer k m ≢ slice.cap) bm.lists))

-- Where a slice that is given back goes.
abbrev pub GoesBack : BufferManager → BufferSlice → Shm → Type 0
GoesBack bm slice m =
    (StaysOut bm slice m × (recycle_buffer bm slice m ≡ some m))
    ⊎ ((slice.is_from_shm ≡ true)
        × (h : ℕ) × (slice.buffer_header ≡ some h)
        × (Header.is_in_used m h ≡ true)
        × (before : List BufferList) × (l : BufferList) × (after : List BufferList) × (bm.lists
            ≡ before ++ (l ∷ after))
        × All (λ k. cap_per_buffer k m ≢ slice.cap) before
        × (slice.cap ≡ cap_per_buffer l m)
        × (recycle_buffer bm slice m ≡ push l slice m))
