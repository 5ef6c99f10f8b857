-- ===== src/Protocol/Metadata.antt =====
-- generate_shm_metadata and extract_shm_metadata (src/protocol/initializer.cpp): the paths of the
-- shared memory, each behind its length in two bytes. A path is the list of its bytes.
pub mod RoundTrip
use shmipc_cpp.Common.{
  ℕ, ◌+◌, ◌-◌, ◌%◌, ◌^◌, List, [], ◌∷◌, ◌++◌, length, take, drop, leb, Option, none, some, ◌>>=◌,
  if◌then◌else◌,
}
use shmipc_cpp.Protocol.Event.{EventType, header_size, encode, store_be_u16, load_be_u16}

unfoldable pub generate_shm_metadata : EventType → List ℕ → List ℕ → ℕ → List ℕ
generate_shm_metadata event_type buffer_path queue_path version =
    let size = header_size + 2 + length buffer_path + 2 + length queue_path in
    encode (size % 2 ^ 32) version event_type
    ++ (store_be_u16 (length queue_path % 2 ^ 16)
        ++ (queue_path ++ (store_be_u16 (length buffer_path % 2 ^ 16) ++ buffer_path)))

-- The part of `body` between two offsets, when it is inside.
abbrev pub part : List ℕ → ℕ → ℕ → Option (List ℕ)
part body offset n =
    if leb (offset + n) (length body) then some (take n (drop offset body)) else none

-- (buffer path, queue path); `none` where the source reads behind the end of `body`.
unfoldable pub extract_shm_metadata : List ℕ → Option (List ℕ × List ℕ)
extract_shm_metadata body = do
  l₁ ← part body 0 2
  let queue_path_len = load_be_u16 l₁ 0
  queue_path ← part body 2 queue_path_len
  l₂ ← part body (2 + queue_path_len) 2
  let buffer_path_len = load_be_u16 l₂ 0
  buffer_path ← part body (2 + queue_path_len + 2) buffer_path_len
  some (buffer_path, queue_path)
