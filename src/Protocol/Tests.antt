-- ===== src/Protocol/Tests.antt =====
-- The messages at concrete bytes: tests, and the theorems at inputs that meet their hypotheses.
use shmipc_cpp.Common.{
  ℕ, ◌≡◌, refl, List, [], ◌∷◌, ◌++◌, length, drop, arith, some, none, ltb, ◌==◌, if◌then◌else◌,
}
use shmipc_cpp.Error.{ok, err, invalid_version, invalid_msg_type}
use shmipc_cpp.Protocol.Event.{
  header_size, magic_number, fallback_data, hot_restart_ack, stream_close, share_memory_by_memfd,
  event_length, magic, version, msg_type, encode, encode_fallback, check_event_valid, load_be_u16,
  load_be_u32, store_be_u16, store_be_u32,
}
use shmipc_cpp.Protocol.Event.Decode.{encode_lem, check_event_valid_lem, encode_fallback_lem}
use shmipc_cpp.Protocol.Metadata.{generate_shm_metadata, extract_shm_metadata}
use shmipc_cpp.Protocol.Metadata.RoundTrip.{metadata_lem}

-- The bytes of a header on the wire.
encode-bytes : encode 258 3 5 ≡ 0 ∷ 0 ∷ 1 ∷ 2 ∷ 119 ∷ 88 ∷ 3 ∷ 5 ∷ []
unfolding encode store_be_u16 store_be_u32
encode-bytes = refl

encode_lem_example :
    let h = encode 70000 3 stream_close ++ (1 ∷ 2 ∷ []) in
    (event_length h ≡ 70000)
    × (magic h ≡ magic_number)
    × (version h ≡ 3)
    × (msg_type h ≡ stream_close)
encode_lem_example = encode_lem 70000 3 stream_close (1 ∷ 2 ∷ []) (omega arith)

check_event_valid_lem_example : check_event_valid (encode 8 3 12 ++ []) ≡ (
    if 3 == 0
    then err invalid_version
    else if ltb hot_restart_ack 12
    then err invalid_msg_type
    else ok tt)
check_event_valid_lem_example = check_event_valid_lem 8 3 12 [] (omega arith)

encode_fallback_lem_example :
    let h = encode_fallback 18 2 77000 1 ++ (9 ∷ 9 ∷ []) in
    (event_length h ≡ 18)
    × (magic h ≡ magic_number)
    × (version h ≡ 2)
    × (msg_type h ≡ fallback_data)
    × (load_be_u32 h 8 ≡ 77000)
    × (load_be_u32 h 12 ≡ 1)
encode_fallback_lem_example =
    encode_fallback_lem 18 2 77000 1 (9 ∷ 9 ∷ []) (omega arith) (omega arith) (omega arith)

abbrev buffer_path : List ℕ
buffer_path = 47 ∷ 98 ∷ []

abbrev queue_path : List ℕ
queue_path = 47 ∷ 113 ∷ 49 ∷ []

metadata_lem_example :
    let sent = generate_shm_metadata share_memory_by_memfd buffer_path queue_path 3 in
    (event_length sent ≡ length sent)
    × (version sent ≡ 3)
    × (msg_type sent ≡ share_memory_by_memfd)
    × (extract_shm_metadata (drop header_size sent) ≡ some (buffer_path, queue_path))
metadata_lem_example =
    metadata_lem share_memory_by_memfd buffer_path queue_path 3 (omega arith) (omega arith)

-- A body whose first length says more than there is.
extract-short : extract_shm_metadata (0 ∷ 9 ∷ 47 ∷ []) ≡ none
unfolding extract_shm_metadata load_be_u16
extract-short = refl
