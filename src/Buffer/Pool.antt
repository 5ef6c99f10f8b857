-- ===== src/Buffer/Pool.antt =====
-- How the processes use one BufferList (src/buffer/list.cpp): `pop` hands a buffer out, its holder
-- writes in it, and `push` takes it back, from the process that popped it or from the peer that was
-- told its offset. A buffer is known by its offset in the mapping.
pub mod Removal
pub mod Steps
pub mod Safety
mod Tests
use shmipc_cpp.Common.{ℕ, zero, suc, ◌+◌, ◌≤◌, ◌≡◌, List, [], ◌∷◌, get_elem?, some}
use shmipc_cpp.Shm.{Shm, store_le}
use shmipc_cpp.Error.{Err, ok, err}
use shmipc_cpp.Buffer.Slice.{BufferSlice}
use shmipc_cpp.Buffer.FreeList.{BufferList, cap_per_buffer, pop, push}

-- The memory, and the buffers that are out.
pub record Pool : Type 0 where
  pub shm : Shm
  pub out : List ℕ

abbrev pub remove_at {ℓ} : {A : Type ℓ} → ℕ → List A → List A
remove_at i [] = []
remove_at zero (x ∷ xs) = xs
remove_at (suc i) (x ∷ xs) = x ∷ remove_at i xs

pub data Use (l : BufferList) (s t : Pool) : Type 0 where
  takes :
      (b : BufferSlice) (m : Shm)
      → pop l s.shm ≡ (ok b, m)
      → t ≡ record { shm = m; out = b.offset_in_shm ∷ s.out }
      → Use l s t
  is_refused : (e : Err) (m : Shm) → pop l s.shm ≡ (err e, m) → t ≡ record s { shm = m } → Use l s t
  -- In the bytes of a buffer that is out, behind the capacity in its header.
  writes :
      (i o w a v : ℕ)
      → get_elem? s.out i ≡ some o
      → o + 4 ≤ a
      → a + w ≤ o + 20 + cap_per_buffer l s.shm
      → t ≡ record s { shm = store_le w s.shm a v }
      → Use l s t
  returns :
      (i o : ℕ) (b : BufferSlice) (m : Shm)
      → get_elem? s.out i ≡ some o
      → b.buffer_header ≡ some o
      → b.offset_in_shm ≡ o
      → push l b s.shm ≡ some m
      → t ≡ record { shm = m; out = remove_at i s.out }
      → Use l s t

-- Any number of them.
pub data Uses (l : BufferList) : Pool → Pool → Type 0 where
  no_use : {s : Pool} → Uses l s s
  use_then : {s t u : Pool} → Use l s t → Uses l t u → Uses l s u
