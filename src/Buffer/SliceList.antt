-- ===== src/Buffer/SliceList.antt =====
-- class SliceList (src/buffer/slice.cpp, include/shmipc/buffer/slice.hpp): slices in a row and a
-- cursor for writing. The chain of owned slices is a list, so `front_`, `back_` and `len_` are its
-- first, its last and its length; the cursor, a pointer, is the position of the slice it points at.
use shmipc_cpp.Common.{
  ℕ, zero, suc, ◌-◌, Option, none, some, List, [], ◌∷◌, ◌++◌, take, drop, length,
}
use shmipc_cpp.Buffer.Slice.{BufferSlice}

-- `popped` is a pointer to a slice that has left the list.
pub data Cursor : Type 0 where
  null : Cursor
  at_slice : ℕ → Cursor
  popped : Cursor

pub record SliceList : Type 0 where
  pub slices : List BufferSlice
  pub write : Cursor

abbrev pub no_slices : SliceList
no_slices = record { slices = []; write = null }

-- Where the cursor is when the first slice has gone.
abbrev pub behind_front : Cursor → Cursor
behind_front null = null
behind_front (at_slice zero) = popped
behind_front (at_slice (suc i)) = at_slice i
behind_front popped = popped

unfoldable pub front : SliceList → Option BufferSlice
front l = first l.slices
  where
    first : List BufferSlice → Option BufferSlice
    first [] = none
    first (s ∷ ss) = some s

unfoldable pub push_back : BufferSlice → SliceList → SliceList
push_back s l = record l { slices = l.slices ++ (s ∷ []) }

unfoldable pub pop_front : SliceList → Option BufferSlice × SliceList
pop_front l = without l.slices
  where
    without : List BufferSlice → Option BufferSlice × SliceList
    without [] = (none, l)
    without (s ∷ ss) = (some s, record { slices = ss; write = behind_front l.write })

-- The cursor on the last slice.
unfoldable pub write_back : SliceList → SliceList
write_back l = record l { write = at_slice (length l.slices - 1) }

-- The detached chain, from its head on, and what stays.
unfoldable pub split_from_write : SliceList → List BufferSlice × SliceList
split_from_write l = split l.write
  where
    split : Cursor → List BufferSlice × SliceList
    split (at_slice i) = (drop (suc i) l.slices, record l { slices = take (suc i) l.slices })
    split c = ([], l)
