-- ===== src/Buffer/Header.antt =====
-- class BufferHeader (src/buffer/slice.cpp, include/shmipc/buffer/layout.hpp): the 20 bytes in
-- front of a buffer. A header is the address of its first byte.
pub mod Laws
use Prim.Native.Nat.{bit_and, bit_or}
use shmipc_cpp.Common.{ℕ, ◌+◌, Bool, ltb}
use shmipc_cpp.Shm.{Shm, load_byte, store_byte, load_u32, store_u32}

abbrev pub buffer_header_size : ℕ
buffer_header_size = 20

abbrev pub buffer_cap_offset : ℕ
buffer_cap_offset = 0

abbrev pub buffer_size_offset : ℕ
buffer_size_offset = 4

abbrev pub buffer_data_start_offset : ℕ
buffer_data_start_offset = 8

abbrev pub next_buffer_offset_offset : ℕ
next_buffer_offset_offset = 12

abbrev pub buffer_flag_offset : ℕ
buffer_flag_offset = 16

abbrev pub has_next_buffer_flag : ℕ
has_next_buffer_flag = 1

abbrev pub slice_in_used_flag : ℕ
slice_in_used_flag = 2

unfoldable pub next_buffer_offset : Shm → ℕ → ℕ
next_buffer_offset m p = load_u32 m (p + next_buffer_offset_offset)

unfoldable pub has_next : Shm → ℕ → Bool
has_next m p = ltb 0 (bit_and (load_byte m (p + buffer_flag_offset)) has_next_buffer_flag)

unfoldable pub clear_flag : Shm → ℕ → Shm
clear_flag m p = store_byte m (p + buffer_flag_offset) 0

unfoldable pub set_in_used : Shm → ℕ → Shm
set_in_used m p =
    store_byte m (p + buffer_flag_offset)
      (bit_or (load_byte m (p + buffer_flag_offset)) slice_in_used_flag)

unfoldable pub is_in_used : Shm → ℕ → Bool
is_in_used m p = ltb 0 (bit_and (load_byte m (p + buffer_flag_offset)) slice_in_used_flag)

unfoldable pub link_next : Shm → ℕ → ℕ → Shm
link_next m p next =
    let m₁ = store_u32 m (p + next_buffer_offset_offset) next in
    store_byte m₁ (p + buffer_flag_offset)
      (bit_or (load_byte m₁ (p + buffer_flag_offset)) has_next_buffer_flag)

unfoldable pub cap : Shm → ℕ → ℕ
cap m p = load_u32 m (p + buffer_cap_offset)

unfoldable pub size : Shm → ℕ → ℕ
size m p = load_u32 m (p + buffer_size_offset)

unfoldable pub set_size : Shm → ℕ → ℕ → Shm
set_size m p n = store_u32 m (p + buffer_size_offset) n

unfoldable pub start : Shm → ℕ → ℕ
start m p = load_u32 m (p + buffer_data_start_offset)

unfoldable pub set_start : Shm → ℕ → ℕ → Shm
set_start m p n = store_u32 m (p + buffer_data_start_offset) n
