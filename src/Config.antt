-- ===== src/Config.antt =====
-- Config and Config::verify (include/shmipc/config.hpp, src/config.cpp). A path is the list of its
-- bytes, a duration its nanoseconds.
pub mod Verify
mod Tests
use shmipc_cpp.Common.{
  ℕ, ◌+◌, ◌-◌, ◌*◌, ◌/◌, ◌%◌, ◌^◌, Bool, true, false, ◌||◌, not, ltb, ◌==◌, if◌then◌else◌, List, [],
  ◌∷◌, add_u32,
}
use shmipc_cpp.Error.{Result, ok, err, other}

pub data MemMapType : Type 0 where
  dev_shm_file mem_fd : MemMapType

pub record SizePercentPair : Type 0 where
  pub size : ℕ
  pub percent : ℕ

pub record Config : Type 0 where
  pub connection_write_timeout : ℕ
  pub connection_read_timeout : ℕ
  pub connection_timeout : ℕ
  pub initialize_timeout : ℕ
  pub queue_cap : ℕ
  pub queue_path : List ℕ
  pub share_memory_buffer_cap : ℕ
  pub share_memory_path_prefix : List ℕ
  pub buffer_slice_sizes : List SizePercentPair
  pub mem_map_type : MemMapType
  pub rebuild_interval : ℕ
  pub max_stream_num : ℕ

-- The sizes that the constructor sets.
unfoldable pub default_buffer_slice_sizes : List SizePercentPair
default_buffer_slice_sizes =
    record { size = 8192 - 20; percent = 50 }
    ∷ record { size = 32 * 1024 - 20; percent = 30 }
    ∷ record { size = 128 * 1024 - 20; percent = 20 }
    ∷ []

abbrev pub empty {ℓ} : {A : Type ℓ} → List A → Bool
empty [] = true
empty (x ∷ xs) = false

-- (x + 3) & ~3u and (x + 7) & ~7u: the low bits cleared after a sum that wraps.
abbrev pub align_4 : ℕ → ℕ
align_4 x = add_u32 x 3 / 4 * 4

abbrev pub align_8 : ℕ → ℕ
align_8 x = add_u32 x 7 / 8 * 8

-- The loop of `verify`: the sum of the percents, or the error, and the pairs as they are then.
unfoldable pub verify_pairs : ℕ → ℕ → List SizePercentPair → Result ℕ × List SizePercentPair
verify_pairs cap sum [] = (ok sum, [])
verify_pairs cap sum (p ∷ ps) =
    let (r, ps') = verify_pairs cap (add_u32 sum p.percent) ps in
    if ltb cap p.size then (err other, p ∷ ps) else (r, record p { size = align_4 p.size } ∷ ps')

-- What `verify` does behind the loop.
unfoldable pub verify_rest : Config → Result ℕ → Result (Unit {0}) × Config
verify_rest c (err e) = (err e, c)
verify_rest c (ok sum) =
    let c' = record c { queue_cap = align_8 c.queue_cap } in
    if not (sum == 100)
    then (err other, c)
    else if empty c.share_memory_path_prefix || empty c.queue_path
    then (err other, c')
    else (ok tt, c')

unfoldable pub verify : Config → Result (Unit {0}) × Config
verify c =
    let (r, ps) = verify_pairs c.share_memory_buffer_cap 0 c.buffer_slice_sizes in
    if ltb c.share_memory_buffer_cap (2 ^ 20)
    then (err other, c)
    else if empty c.buffer_slice_sizes
    then (err other, c)
    else verify_rest (record c { buffer_slice_sizes = ps }) r
