-- ===== src/Stream.antt =====
-- class Stream (src/stream.cpp, include/shmipc/stream.hpp): one stream of a session. What all copies
-- of a stream share, StreamInner, is a record here; the id and what it uses of its session are
-- arguments. Receive has the reading side, Send the writing side and the closing, Order is about
-- what reaches the reader, Flush about what a flush leaves.
pub mod Receive
pub mod Send
pub mod Order
pub mod Flush
mod Tests
use shmipc_cpp.Common.{
  ℕ, zero, suc, ◌+◌, ◌<◌, Bool, true, false, ◌&&◌, not, ltb, ◌==◌, if◌then◌else◌, Option, none,
  some, List, [], ◌∷◌, ◌++◌, length,
}
use shmipc_cpp.Shm.{Shm}
use shmipc_cpp.Error.{
  Result, ok, err, stream_closed, stream_has_unread_data, stream_has_pending_data,
}
use shmipc_cpp.Buffer.Slice.{BufferSlice}
use shmipc_cpp.Buffer.Manager.{BufferManager}
use shmipc_cpp.Buffer.Linked
use shmipc_cpp.Buffer.Linked.{LinkedBuffer, new_linked, release_previous_read_and_reserve}

abbrev pub opened : ℕ
opened = 0

abbrev pub closed : ℕ
closed = 1

abbrev pub half_closed : ℕ
half_closed = 2

-- A slice that came over the socket, or the offset of a chain of buffers.
pub record BufferSliceWrapper : Type 0 where
  pub fallback_slice : Option BufferSlice
  pub offset : ℕ

pub record StreamInner : Type 0 where
  pub recv_buf : LinkedBuffer
  pub send_buf : LinkedBuffer
  pub pending_data : List BufferSliceWrapper
  pub state : ℕ
  pub in_fallback_state : Bool

unfoldable pub new_inner : StreamInner
new_inner = record {
  recv_buf = new_linked;
  send_buf = new_linked;
  pending_data = [];
  state = opened;
  in_fallback_state = false;
}

unfoldable pub is_open : StreamInner → Bool
is_open s = s.state == opened

-- compare_exchange_strong from opened; whoever waits is notified, which changes nothing here.
unfoldable pub half_close : StreamInner → StreamInner
half_close s = if s.state == opened then record s { state = half_closed } else s

-- The sizes that the errors carry are left out.
unfoldable pub reset : StreamInner → Result (Unit {0}) × StreamInner
reset s =
    if not (s.state == opened)
    then (err stream_closed, s)
    else if ltb 0 s.recv_buf.len
    then (err stream_has_unread_data, s)
    else if ltb 0 (length s.pending_data)
    then (err stream_has_pending_data, s)
    else (ok tt, record s { in_fallback_state = false })

unfoldable pub release_read_and_reuse : BufferManager → StreamInner → Shm → StreamInner × Shm
release_read_and_reuse bm s m =
    let (recv, m₁) = release_previous_read_and_reserve bm s.recv_buf m in
    if Linked.is_empty recv && (length recv.slice_list.slices == 1)
    then (record s { recv_buf = s.send_buf; send_buf = recv }, m₁)
    else (record s { recv_buf = recv }, m₁)
