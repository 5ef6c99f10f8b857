-- ===== src/Buffer/FreeList/State.antt =====
-- What the memory of a free list holds: the invariant of list.cpp.
pub mod Pop
pub mod Push
use shmipc_cpp.Common.{ℕ, ◌+◌, ◌*◌, ◌^◌, ◌<◌, ◌≡◌, List, length, All}
use shmipc_cpp.Shm.{Shm}
use shmipc_cpp.Buffer.FreeList.{
  BufferList, load_size, load_cap, load_head, load_tail, load_counter, cap_per_buffer,
}
use shmipc_cpp.Buffer.FreeList.Chain.{Avoids, Distinct, IsPath, Ended, first_of}

-- The view of a list of `n` buffers of capacity `c`, as `create` and `mapping` lay it out.
pub record IsLaid (l : BufferList) (n c : ℕ) : Type 0 where
  pub size_laid : l.size_at ≡ l.offset_in_shm
  pub cap_laid : l.cap_at ≡ l.offset_in_shm + 4
  pub head_laid : l.head_at ≡ l.offset_in_shm + 8
  pub tail_laid : l.tail_at ≡ l.offset_in_shm + 12
  pub cap_per_buffer_laid : l.cap_per_buffer_at ≡ l.offset_in_shm + 16
  pub counter_laid : l.counter_at ≡ l.offset_in_shm + 20
  pub region_laid : l.buffer_region ≡ l.offset_in_shm + 36
  pub region_offset_laid : l.buffer_region_offset_in_shm ≡ l.offset_in_shm + 36
  pub region_len_laid : l.buffer_region_len ≡ n * (c + 20)
  pub fits : l.offset_in_shm + 36 + n * (c + 20) < 2 ^ 32
  pub num_fits : n < 2 ^ 31

-- The free buffers are `ks` in the order of the chain, and then `t`, the last, which is never
-- handed out; `used` buffers are out.
pub record Holds (l : BufferList) (n c : ℕ) (ks : List ℕ) (t used : ℕ) (m : Shm) : Type 0 where
  pub laid : IsLaid l n c
  pub cap_per_buffer_is : cap_per_buffer l m ≡ c
  pub cap_is : load_cap l m ≡ n
  pub size_is : load_size l m ≡ length ks + 1
  pub head_is : load_head l m ≡ first_of ks t * (c + 20)
  pub tail_is : load_tail l m ≡ t * (c + 20)
  pub counter_is : load_counter l m ≡ used
  pub whole : length ks + 1 + used ≡ n
  pub path : IsPath l.buffer_region c m ks t
  pub ended : Ended l.buffer_region c m t
  pub inside : All (λ k. k < n) ks
  pub last_inside : t < n
  pub distinct : Distinct ks
  pub last_apart : Avoids t ks
