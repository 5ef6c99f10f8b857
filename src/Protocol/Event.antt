-- ===== src/Protocol/Event.antt =====
-- class Header, EventType, FallbackDataEvent and check_event_valid (src/protocol/event.cpp,
-- include/shmipc/protocol). A buffer is the list of its bytes; a header is read and written on its
-- first eight. The bits that the source joins with | do not overlap, and are added.
pub mod Decode
use shmipc_cpp.Common.{
  ℕ, zero, suc, ◌+◌, ◌*◌, ◌/◌, ◌%◌, ◌^◌, Bool, ◌||◌, not, ltb, leb, ◌==◌, if◌then◌else◌, Option,
  none, some, List, [], ◌∷◌, ◌++◌, get_elem?, map,
}
use shmipc_cpp.Error.{Result, ok, err, invalid_version, invalid_msg_type}

abbrev pub header_size : ℕ
header_size = 8

abbrev pub magic_number : ℕ
magic_number = 30552

abbrev pub max_support_proto_version : ℕ
max_support_proto_version = 3

-- enum class EventType : std::uint8_t, unknown values kept.
abbrev pub EventType : Type 0
EventType = ℕ

abbrev pub share_memory_by_file_path : EventType
share_memory_by_file_path = 0

abbrev pub polling : EventType
polling = 1

abbrev pub stream_close : EventType
stream_close = 2

abbrev pub fallback_data : EventType
fallback_data = 3

abbrev pub exchange_proto_version : EventType
exchange_proto_version = 4

abbrev pub share_memory_by_memfd : EventType
share_memory_by_memfd = 5

abbrev pub ack_share_memory : EventType
ack_share_memory = 6

abbrev pub ack_ready_recv_fd : EventType
ack_ready_recv_fd = 7

abbrev pub hot_restart_ack : EventType
hot_restart_ack = 9

-- Byte `i` of a buffer; the source does not read behind its end.
abbrev pub byte_at : List ℕ → ℕ → ℕ
byte_at p i = elim (get_elem? p i) [ none ↦ 0 | some b ↦ b ]

unfoldable pub store_be_u16 : ℕ → List ℕ
store_be_u16 v = v / 2 ^ 8 % 256 ∷ v % 256 ∷ []

unfoldable pub store_be_u32 : ℕ → List ℕ
store_be_u32 v = v / 2 ^ 24 % 256 ∷ v / 2 ^ 16 % 256 ∷ v / 2 ^ 8 % 256 ∷ v % 256 ∷ []

-- Loads at offset `i`.
unfoldable pub load_be_u16 : List ℕ → ℕ → ℕ
load_be_u16 p i = byte_at p i * 2 ^ 8 + byte_at p (i + 1)

unfoldable pub load_be_u32 : List ℕ → ℕ → ℕ
load_be_u32 p i =
    byte_at p i * 2 ^ 24
    + byte_at p (i + 1) * 2 ^ 16
    + byte_at p (i + 2) * 2 ^ 8
    + byte_at p (i + 3)

unfoldable pub event_length : List ℕ → ℕ
event_length h = load_be_u32 h 0

unfoldable pub magic : List ℕ → ℕ
magic h = load_be_u16 h 4

unfoldable pub version : List ℕ → ℕ
version h = byte_at h 6

unfoldable pub msg_type : List ℕ → EventType
msg_type h = byte_at h 7

-- The eight bytes that Header::encode writes.
unfoldable pub encode : ℕ → ℕ → EventType → List ℕ
encode length version msg_type =
    store_be_u32 length ++ (store_be_u16 magic_number ++ (version ∷ msg_type ∷ []))

-- The sixteen that FallbackDataEvent::encode writes.
unfoldable pub encode_fallback : ℕ → ℕ → ℕ → ℕ → List ℕ
encode_fallback length version seq_id status =
    encode length version fallback_data ++ (store_be_u32 seq_id ++ store_be_u32 status)

-- `left` events from version `i` on.
polling_events : ℕ → ℕ → List (List ℕ)
polling_events zero i = []
polling_events (suc left) i = encode header_size i polling ∷ polling_events left (i + 1)

unfoldable pub polling_event_with_version : List (List ℕ)
unfolding polling_events
polling_event_with_version = polling_events (max_support_proto_version + 1) 0

unfoldable pub check_event_valid : List ℕ → Result (Unit {0})
check_event_valid h =
    if not (magic h == magic_number) || version h == 0
    then err invalid_version
    else if ltb (msg_type h) share_memory_by_file_path || ltb hot_restart_ack (msg_type h)
    then err invalid_msg_type
    else ok tt
