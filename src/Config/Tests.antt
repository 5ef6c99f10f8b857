-- ===== src/Config/Tests.antt =====
-- Config::verify on concrete configurations: tests, and the theorems at inputs that meet their
-- hypotheses.
use shmipc_cpp.Common.{ℕ, ◌*◌, ◌%◌, ◌≤◌, ◌≡◌, ◌⊎◌, refl, List, [], ◌∷◌, arith, true, false}
use shmipc_cpp.Error.{ok, err, other}
use shmipc_cpp.Config.{
  Config, SizePercentPair, mem_fd, default_buffer_slice_sizes, verify, verify_pairs, verify_rest,
}
use shmipc_cpp.Config.Verify.{accepts, aligned, sizes_fit, verify_lem, verify_twice}

abbrev config : ℕ → List SizePercentPair → Config
config queue_cap sizes = record {
  connection_write_timeout = 10;
  connection_read_timeout = 0;
  connection_timeout = 0;
  initialize_timeout = 1;
  queue_cap = queue_cap;
  queue_path = 47 ∷ [];
  share_memory_buffer_cap = 32 * 1024 * 1024;
  share_memory_path_prefix = 47 ∷ [];
  buffer_slice_sizes = sizes;
  mem_map_type = mem_fd;
  rebuild_interval = 60;
  max_stream_num = 4096;
}

-- The default sizes are accepted as they are.
verify-default :
    verify (config 8192 default_buffer_slice_sizes)
    ≡ (ok tt, config 8192 default_buffer_slice_sizes)
unfolding verify verify_pairs verify_rest default_buffer_slice_sizes
verify-default = refl

-- A queue capacity within 7 of 2 ^ 32 is accepted and becomes 0.
verify-wraps :
    verify (config 4294967295 default_buffer_slice_sizes)
    ≡ (ok tt, config 0 default_buffer_slice_sizes)
unfolding verify verify_pairs verify_rest default_buffer_slice_sizes
verify-wraps = refl

abbrev odd : Config
odd = config 1001 (record { size = 4094; percent = 40 } ∷ record { size = 9; percent = 60 } ∷ [])

verify_lem_example :
    ((accepts odd ≡ true) × (verify odd ≡ (ok tt, aligned odd)))
    ⊎ ((accepts odd ≡ false) × ((verify odd).0 ≡ err other))
verify_lem_example = verify_lem odd

odd-verified : (verify odd).0 ≡ ok tt
unfolding verify verify_pairs verify_rest
odd-verified = refl

verify_twice_example :
    let c' = (verify odd).1 in
    (verify c' ≡ (ok tt, c'))
    × (sizes_fit odd.share_memory_buffer_cap c'.buffer_slice_sizes ≡ true)
    × (c'.queue_cap % 8 ≡ 0)
    × (odd.queue_cap ≤ c'.queue_cap)
verify_twice_example = verify_twice odd refl (omega arith) (omega arith) odd-verified
