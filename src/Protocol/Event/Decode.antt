-- ===== src/Protocol/Event/Decode.antt =====
-- What is read from an encoded header.
use shmipc_cpp.Common.{
  ℕ, ◌+◌, ◌*◌, ◌/◌, ◌%◌, ◌^◌, ◌<◌, ◌≡◌, refl, ltb, ◌==◌, if◌then◌else◌, List, ◌++◌, arith,
}
use shmipc_cpp.Error.{ok, err, invalid_version, invalid_msg_type}
use shmipc_cpp.Protocol.Event.{
  EventType, magic_number, fallback_data, hot_restart_ack, store_be_u16, store_be_u32, load_be_u16,
  load_be_u32, event_length, magic, version, msg_type, encode, encode_fallback, check_event_valid,
}

be_u32 :
    (v : ℕ)
    → v < 2 ^ 32
    → v / 2 ^ 24 % 256 * 2 ^ 24 + v / 2 ^ 16 % 256 * 2 ^ 16 + v / 2 ^ 8 % 256 * 2 ^ 8 + v % 256 ≡ v
be_u32 v h = omega arith

pub be_u16 : (v : ℕ) → v < 2 ^ 16 → v / 2 ^ 8 % 256 * 2 ^ 8 + v % 256 ≡ v
be_u16 v h = omega arith

-- The fields of an encoded header, whatever follows it, are those that were encoded, with the
-- magic number.
pub encode_lem :
    (len v : ℕ) (t : EventType) (rest : List ℕ)
    → len < 2 ^ 32
    → let h = encode len v t ++ rest in
      (event_length h ≡ len) × (magic h ≡ magic_number) × (version h ≡ v) × (msg_type h ≡ t)
unfolding encode event_length magic version msg_type load_be_u16 load_be_u32 store_be_u16
    store_be_u32
encode_lem len v t rest fits = (be_u32 len fits, refl, refl, refl)

-- An encoded header is valid exactly when its version is not 0 and its type is one of the ten;
-- the version is tested first.
pub check_event_valid_lem :
    (len v : ℕ) (t : EventType) (rest : List ℕ)
    → len < 2 ^ 32
    → check_event_valid (encode len v t ++ rest) ≡ (
        if v == 0
        then err invalid_version
        else if ltb hot_restart_ack t
        then err invalid_msg_type
        else ok tt)
unfolding check_event_valid
check_event_valid_lem len v t rest fits =
    let (_, m, ver, ty) = encode_lem len v t rest fits in ground (arith, m, ver, ty)

-- A fallback event is a header of type kFallbackData followed by the stream and the status, which
-- the receiver reads behind the header.
pub encode_fallback_lem :
    (len v seq_id status : ℕ) (rest : List ℕ)
    → len < 2 ^ 32
    → seq_id < 2 ^ 32
    → status < 2 ^ 32
    → let h = encode_fallback len v seq_id status ++ rest in
      (event_length h ≡ len)
      × (magic h ≡ magic_number)
      × (version h ≡ v)
      × (msg_type h ≡ fallback_data)
      × (load_be_u32 h 8 ≡ seq_id)
      × (load_be_u32 h 12 ≡ status)
unfolding encode_fallback encode event_length magic version msg_type load_be_u16 load_be_u32
    store_be_u16 store_be_u32
encode_fallback_lem len v seq_id status rest f₁ f₂ f₃ =
    (be_u32 len f₁, refl, refl, refl, be_u32 seq_id f₂, be_u32 status f₃)
