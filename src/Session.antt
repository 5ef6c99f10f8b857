-- ===== src/Session.antt =====
-- class Session (src/session.cpp, include/shmipc/session.hpp): its streams and what it does with the
-- events of the socket. Streams are shared, so they are entries of a heap and the map of the session
-- has their positions. `none` is a failed assertion, or a loop that does not end within its fuel.
pub mod Events
pub mod Chunks
pub mod Ends
pub mod Handlers
pub mod Locality
pub mod Arrival
pub mod Polled
mod Tests
use Prim.Native.Nat.{bit_and}
use shmipc_cpp.Common.{
  ℕ, zero, suc, ◌+◌, ◌-◌, ◌%◌, ◌^◌, Bool, true, false, ◌&&◌, not, ltb, ◌==◌, if◌then◌else◌, sub_u64,
  Option, none, some, ◌>>=◌, List, [], ◌∷◌, ◌++◌, length, take, drop, get_elem?,
}
use shmipc_cpp.Shm.{Shm}
use shmipc_cpp.Error.{Err, Result, ok, err, invalid_msg_type}
use shmipc_cpp.Queue
use shmipc_cpp.Queue.{QueueElement}
use shmipc_cpp.Protocol.Event.{
  header_size, event_length, msg_type, polling, stream_close, fallback_data, check_event_valid,
  load_be_u32,
}
use shmipc_cpp.Buffer.Slice.{BufferSlice, from_heap}
use shmipc_cpp.Buffer.Manager.{BufferManager, read_buffer_slice}
use shmipc_cpp.Buffer.Manager.Chains.{recycle_buffers}
use shmipc_cpp.Stream.{StreamInner, BufferSliceWrapper, new_inner, half_close, opened, closed}
use shmipc_cpp.Stream.Receive.{fill_data_to_read_buffer}

pub record Session : Type 0 where
  pub bm : BufferManager
  pub recv_queue : Queue.Queue
  pub is_client : Bool
  pub accepts : Bool
  pub unhealthy : Bool
  pub shm : Shm
  pub heap : List StreamInner
  pub streams : List (ℕ × ℕ)
  -- What went into the accept channel.
  pub accepted : List ℕ

abbrev pub find : ℕ → List (ℕ × ℕ) → Option ℕ
find id [] = none
find id ((i, at) ∷ rest) = if i == id then some at else find id rest

abbrev pub erase : ℕ → List (ℕ × ℕ) → List (ℕ × ℕ)
erase id [] = []
erase id ((i, at) ∷ rest) = if i == id then rest else (i, at) ∷ erase id rest

abbrev pub replace : ℕ → StreamInner → List StreamInner → List StreamInner
replace i s [] = []
replace zero s (x ∷ xs) = s ∷ xs
replace (suc i) s (x ∷ xs) = x ∷ replace i s xs

-- A new stream of the peer.
abbrev pub accept_stream : ℕ → Session → Option ℕ × Session
accept_stream id s =
    let at = length s.heap in
    (
      some at,
      record s {
        heap = s.heap ++ (new_inner ∷ []);
        streams = s.streams ++ ((id, at) ∷ []);
        accepted = if s.accepts then s.accepted ++ (at ∷ []) else s.accepted;
      },
    )

abbrev pub found_or_new : Option ℕ → ℕ → ℕ → Session → Option ℕ × Session
found_or_new (some at) id state s = (some at, s)
found_or_new none id state s =
    if not s.is_client && (state == opened) then accept_stream id s else (none, s)

unfoldable pub get_stream : ℕ → ℕ → Session → Option ℕ × Session
get_stream id state s = found_or_new (find id s.streams) id state s

-- half_close of the stream at a position.
abbrev pub half_close_at : ℕ → Session → Option Session
half_close_at at s =
    get_elem? s.heap at >>= (λ i. some (record s { heap = replace at (half_close i) s.heap }))

abbrev pub fill_at : ℕ → ℕ → BufferSliceWrapper → Session → Option Session
fill_at fuel at w s = get_elem? s.heap at >>= (λ i.
    fill_data_to_read_buffer fuel s.bm w i s.shm
    >>= (λ r. some (record s { heap = replace at r.0 s.heap; shm = r.1 })))

unfoldable pub handle_stream_message : ℕ → ℕ → BufferSliceWrapper → ℕ → Session → Option Session
handle_stream_message fuel at w state s =
    if state == closed then half_close_at at s else fill_at fuel at w s

pub record HandlerResult : Type 0 where
  pub consumed : ℕ
  pub required : ℕ
  pub stop : Bool
  pub error : Option Err

abbrev pub handled : ℕ → Option Err → HandlerResult
handled n e = record { consumed = n; required = header_size; stop = false; error = e }

abbrev pub stopped : ℕ → HandlerResult
stopped required = record { consumed = 0; required = required; stop = true; error = none }

-- One element of the queue; an error is a buffer that cannot be looked up.
abbrev pub recycle_unknown : ℕ → ℕ → Session → Option (Option Err × Session)
recycle_unknown fuel offset s = read_buffer_slice s.bm offset s.shm >>= recycle_found
  where
    recycle_found : Result BufferSlice → Option (Option Err × Session)
    recycle_found (err e) = some (some e, s)
    recycle_found (ok slice) =
        recycle_buffers fuel s.bm slice s.shm >>= (λ m. some (none, record s { shm = m }))

abbrev pub on_element : ℕ → QueueElement → ℕ → Option ℕ × Session → Option (Option Err × Session)
on_element fuel e state (some at, s) =
    handle_stream_message fuel at (record { fallback_slice = none; offset = e.offset_in_shm_buf })
      state s
    >>= (λ s₁. some (none, s₁))
on_element fuel e state (none, s) =
    if state == opened then recycle_unknown fuel e.offset_in_shm_buf s else some (none, s)

unfoldable pub handle_element : ℕ → QueueElement → Session → Option (Option Err × Session)
handle_element fuel e s =
    let state = bit_and e.status 255 in on_element fuel e state (get_stream e.seq_id state s)

-- The two loops of handle_polling: the queue is drained until the flag can be cleared.
abbrev pub drain_on :
    (Session → Option (HandlerResult × Session))
    → Option Err × Session
    → Option (HandlerResult × Session)
drain_on on (some e, s) = some (handled header_size (some e), s)
drain_on on (none, s) = on s

abbrev pub drain_pop :
    ℕ
    → (Session → Option (HandlerResult × Session))
    → Session
    → Result QueueElement × Shm
    → Option (HandlerResult × Session)
drain_pop fuel on s (ok e, m) = handle_element fuel e (record s { shm = m }) >>= drain_on on
drain_pop fuel on s (err x, m) =
    let (done, m₁) = Queue.mark_not_working s.recv_queue m in
    let rest = on (record s { shm = m₁ }) in
    if done then some (handled header_size none, record s { shm = m₁ }) else rest

unfoldable pub drain : ℕ → ℕ → Session → Option (HandlerResult × Session)
drain zero fuel s = none
drain (suc rounds) fuel s = drain_pop fuel (drain rounds fuel) s (Queue.pop s.recv_queue s.shm)

unfoldable pub handle_polling : ℕ → List ℕ → Session → Option (HandlerResult × Session)
handle_polling fuel buf s = drain fuel fuel s

abbrev pub on_fallback :
    ℕ → ℕ → BufferSlice → ℕ → Option ℕ × Session → Option (HandlerResult × Session)
on_fallback fuel len slice status (none, s) = some (handled len none, s)
on_fallback fuel len slice status (some at, s) =
    handle_stream_message fuel at (record { fallback_slice = some slice; offset = 0 }) status s
    >>= (λ s₁. some (handled len none, s₁))

-- The slice that holds the payload, all of it unread.
abbrev pub full_slice : List ℕ → BufferSlice
full_slice bytes = let s = from_heap bytes in record s { write_index = s.cap }

-- The handlers get what stands behind the header. The assertion is that the payload has its own
-- header of eight bytes.
unfoldable pub handle_fallback_data : ℕ → ℕ → List ℕ → Session → Option (HandlerResult × Session)
handle_fallback_data fuel len buf s =
    let payload_len = sub_u64 len header_size in
    let bytes = take (payload_len - 8) (drop 8 buf) in
    let status = bit_and (load_be_u32 buf 4) 255 in
    let delivered =
      on_fallback fuel len (full_slice bytes) status
        (get_stream (load_be_u32 buf 0) status (record s { unhealthy = true })) in
    if ltb (length buf) payload_len
    then some (stopped len, s)
    else if ltb payload_len 8
    then none
    else delivered

abbrev pub close_found : ℕ → Option ℕ → Session → Option (HandlerResult × Session)
close_found id none s = some (handled (header_size + 4) none, s)
close_found id (some at) s =
    half_close_at at (record s { streams = erase id s.streams })
    >>= (λ s₁. some (handled (header_size + 4) none, s₁))

unfoldable pub handle_stream_close : List ℕ → Session → Option (HandlerResult × Session)
handle_stream_close buf s =
    let id = load_be_u32 buf 0 in
    let closed_one = close_found id (find id s.streams) s in
    if ltb (length buf) 4 then some (stopped (header_size + 4), s) else closed_one
