-- ===== src/Shm.antt =====
-- The mapped shared memory: one byte to an address, and the native (little-endian) loads and
-- stores of queue.cpp (load_u32_at, store_u32_at, load_unaligned_i64, store_unaligned_i64),
-- buffer/slice.cpp and buffer/manager.cpp (load_u16, store_u16, load_u32, store_u32), which are
-- memcpy of 2, 4 or 8 bytes. An address is an offset into the mapping.
pub mod Laws
pub mod Span
use shmipc_cpp.Common.{ℕ, zero, suc, ◌+◌, ◌*◌, ◌/◌, ◌%◌, ◌==◌, if◌then◌else◌}

-- A cell holds a byte: what it holds is read mod 256.
abbrev pub Shm : Type 0
Shm = ℕ → ℕ

abbrev pub load_u8 : Shm → ℕ → ℕ
load_u8 m a = m a % 256

abbrev pub store_u8 : Shm → ℕ → ℕ → Shm
store_u8 m a v x = if x == a then v % 256 else m x

-- `n` bytes from address `a` on, the low byte first.
unfoldable pub load_le : ℕ → Shm → ℕ → ℕ
load_le zero m a = 0
load_le (suc n) m a = load_u8 m a + 256 * load_le n m (a + 1)

unfoldable pub store_le : ℕ → Shm → ℕ → ℕ → Shm
store_le zero m a v = m
store_le (suc n) m a v = store_u8 (store_le n m (a + 1) (v / 256)) a v

-- A single byte, as a load and a store of width 1.
abbrev pub load_byte : Shm → ℕ → ℕ
load_byte m a = load_le 1 m a

abbrev pub store_byte : Shm → ℕ → ℕ → Shm
store_byte m a v = store_le 1 m a v

abbrev pub load_u16 : Shm → ℕ → ℕ
load_u16 m a = load_le 2 m a

abbrev pub store_u16 : Shm → ℕ → ℕ → Shm
store_u16 m a v = store_le 2 m a v

abbrev pub load_u32 : Shm → ℕ → ℕ
load_u32 m a = load_le 4 m a

abbrev pub store_u32 : Shm → ℕ → ℕ → Shm
store_u32 m a v = store_le 4 m a v

abbrev pub load_i64 : Shm → ℕ → ℕ
load_i64 m a = load_le 8 m a

abbrev pub store_i64 : Shm → ℕ → ℕ → Shm
store_i64 m a v = store_le 8 m a v
