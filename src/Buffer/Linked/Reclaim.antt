-- ===== src/Buffer/Linked/Reclaim.antt =====
-- What a reader needs of the manager that its spent slices go back to, and what is left to read.
use shmipc_cpp.Common.{ℕ, ◌≡◌, refl, ap₂, false, Bool-cases, inl, inr, List, [], ◌∷◌, ◌++◌, All}
use shmipc_cpp.Shm.{Shm}
use shmipc_cpp.Buffer.Slice.{BufferSlice}
use shmipc_cpp.Buffer.Slice.Window.{IsValid, pending}
use shmipc_cpp.Buffer.SliceList.{Cursor, behind_front, pop_front, push_back}
use shmipc_cpp.Buffer.Manager.{BufferManager}
use shmipc_cpp.Buffer.Linked.{LinkedBuffer, recycled, read_next_slice}

-- `Ready` is what recycling needs of the memory and keeps, `Own` what the holder of a slice knows
-- of it, whatever has been read of it: recycling one slice leaves the bytes of the others alone.
pub record Reclaim (bm : BufferManager) : Type 1 where
  pub Ready : Shm → Type 0
  pub Own : BufferSlice → Type 0
  pub own_read : (s : BufferSlice) (i : ℕ) → Own s → Own (record s { read_index = i })
  pub ready_kept : (s : BufferSlice) (m : Shm) → Own s → Ready m → Ready (recycled bm s m)
  pub bytes_kept :
      (s s' : BufferSlice) (m : Shm)
      → Own s
      → Own s'
      → IsValid s'
      → Ready m
      → pending s' (recycled bm s m) ≡ pending s' m

-- The unread bytes of the slices, in order.
abbrev pub unread : List BufferSlice → Shm → List ℕ
unread [] m = []
unread (s ∷ ss) m = pending s m ++ unread ss m

abbrev pub with_list : LinkedBuffer → List BufferSlice → Cursor → LinkedBuffer
with_list b ss w = record b { slice_list = record { slices = ss; write = w } }

module _ (bm : BufferManager) (r : Reclaim bm) where
  pub record CanRead (ss : List BufferSlice) (m : Shm) : Type 0 where
    pub ready : r.Ready m
    pub owned : All r.Own ss
    pub valid : All IsValid ss

  unread-recycled :
      (s : BufferSlice) (ss : List BufferSlice) (m : Shm)
      → r.Own s
      → CanRead ss m
      → unread ss (recycled bm s m) ≡ unread ss m
  unread-recycled s [] m own can = refl
  unread-recycled s (s' ∷ ss) m own can =
      ap₂ ◌++◌ (r.bytes_kept s s' m own can.owned.0 can.valid.0 can.ready) (
        unread-recycled s ss m own
          (record { ready = can.ready; owned = can.owned.1; valid = can.valid.1 }))

  -- When the slice in front leaves, the others keep their bytes, and the length its value.
  pub record Leaves (b b' : LinkedBuffer) (ss : List BufferSlice) (m m' : Shm) : Type 0 where
    pub can_read : CanRead ss m'
    pub unread_is : unread ss m' ≡ unread ss m
    pub len_is : b'.len ≡ b.len

  pub read_next_slice-Leaves :
      (b : LinkedBuffer) (s : BufferSlice) (ss : List BufferSlice) (w : Cursor) (m : Shm)
      → CanRead (s ∷ ss) m
      → (b' : LinkedBuffer) × (m' : Shm) × (read_next_slice bm (with_list b (s ∷ ss) w) m
          ≡ (with_list b' ss (behind_front w), m'))
        × Leaves b b' ss m m'
  unfolding read_next_slice pop_front
  read_next_slice-Leaves b s ss w m can =
      let others : CanRead ss m = record {
        ready = can.ready;
        owned = can.owned.1;
        valid = can.valid.1;
      } in
      let b₁ = record b { current_pinned = false } in
      let kept : Leaves b b₁ ss m m = record {
        can_read = others;
        unread_is = refl;
        len_is = refl;
      } in
      elim (Bool-cases s.is_from_shm) [
        | inr heap ↦ simp heap (b₁, m, refl, kept)
        | inl shm ↦ elim (Bool-cases b.current_pinned) [
          | inl pin ↦
              simp (shm, pin)
                (
                  record b₁ { pinned_list = push_back s b.pinned_list },
                  m,
                  refl,
                  record { can_read = others; unread_is = refl; len_is = refl },
                )
          | inr free ↦
              simp (shm, free)
                (
                  b₁,
                  recycled bm s m,
                  refl,
                  record {
                    can_read = record {
                      ready = r.ready_kept s m can.owned.0 can.ready;
                      owned = can.owned.1;
                      valid = can.valid.1;
                    };
                    unread_is = unread-recycled s ss m can.owned.0 others;
                    len_is = refl;
                  },
                )
        ]
      ]
