-- ===== src/Stream/Tests.antt =====
-- A stream with a slice from the socket and a chain of one buffer pending, and one that flushes.
use shmipc_cpp.Common.{
  ◌≡◌, ◌≢◌, refl, arith, true, false, none, some, List, [], ◌∷◌, length, length-append,
}
use shmipc_cpp.Shm.{Shm, load_le, store_le}
use shmipc_cpp.Error.{ok}
use shmipc_cpp.Queue.{mapping_from_bytes}
use shmipc_cpp.Buffer.Header
use shmipc_cpp.Buffer.Slice
use shmipc_cpp.Buffer.Slice.{BufferSlice, in_shm, on_heap, new_slice}
use shmipc_cpp.Buffer.Slice.Window.{pending, length-bytes_at}
use shmipc_cpp.Buffer.SliceList.{no_slices, at_slice}
use shmipc_cpp.Buffer.Manager.{BufferManager, read_buffer_slice}
use shmipc_cpp.Buffer.Linked.{LinkedBuffer}
use shmipc_cpp.Buffer.Linked.Reclaim.{unread}
use shmipc_cpp.Stream.{StreamInner, opened}
use shmipc_cpp.Stream.Receive.{move_pending_data}
use shmipc_cpp.Stream.Order.{over_socket, in_chain, joined, arrival_order}
use shmipc_cpp.Stream.Send.{Link, delivered, flush}
use shmipc_cpp.Stream.Flush.{Flushes, flush_lem}

-- A header at 40 that says capacity 16 and size 3.
abbrev mem : Shm
mem = store_le 4 (store_le 4 (λ x. 0) 40 16) 44 3

abbrev hundred : BufferManager
hundred = record { lists = []; mem_size = 100; min_slice_size = 16; max_slice_size = 16 }

abbrev in_memory : BufferSlice
in_memory = record {
  buffer_header = some 40;
  place = in_shm 60;
  cap = 16;
  start = 0;
  offset_in_shm = 40;
  read_index = 0;
  write_index = 3;
  is_from_shm = true;
}

found : read_buffer_slice hundred 40 mem ≡ some (ok in_memory)
unfolding read_buffer_slice new_slice Header.cap Header.size Header.start load_le store_le
found = refl

not_linked : Header.has_next mem 40 ≡ false
unfolding Header.has_next load_le store_le
not_linked = refl

three_bytes : Slice.size in_memory ≢ 0
unfolding Slice.size
three_bytes e = absurd (omega (arith, e))

abbrev from_socket : BufferSlice
from_socket = record {
  buffer_header = none;
  place = on_heap (λ x. 9);
  cap = 2;
  start = 0;
  offset_in_shm = 0;
  read_index = 0;
  write_index = 2;
  is_from_shm = false;
}

abbrev empty_buffer : LinkedBuffer
empty_buffer = record {
  slice_list = no_slices;
  pinned_list = no_slices;
  current_pinned = false;
  end_stream = false;
  is_from_shm = true;
  len = 0;
}

abbrev two_pending : StreamInner
two_pending = record {
  recv_buf = empty_buffer;
  send_buf = empty_buffer;
  pending_data =
      record { fallback_slice = some from_socket; offset = 0 }
      ∷ record { fallback_slice = none; offset = 40 }
      ∷ [];
  state = opened;
  in_fallback_state = false;
}

abbrev both : List (List BufferSlice)
both = (from_socket ∷ []) ∷ (in_memory ∷ []) ∷ []

arrival_order_example :
    (s' : StreamInner) × (move_pending_data 4 hundred two_pending mem ≡ some (s', mem))
    × (s'.state ≡ opened)
    × (s'.pending_data ≡ [])
    × (unread s'.recv_buf.slice_list.slices mem ≡ unread (joined both) mem)
    × (s'.recv_buf.len ≡ length (unread s'.recv_buf.slice_list.slices mem))
arrival_order_example =
    arrival_order 4 hundred two_pending mem both
      (
        over_socket from_socket refl refl,
        (in_chain refl (found, three_bytes, not_linked) (omega arith), tt),
      )
      (
        record { read_le = omega arith; write_le = omega arith; cap_fits = omega arith },
        (record { read_le = omega arith; write_le = omega arith; cap_fits = omega arith }, tt),
      )
      refl
      (omega (
        arith,
        length-append (pending from_socket mem) (unread (in_memory ∷ []) mem),
        length-append (pending in_memory mem) [],
        length-bytes_at (on_heap (λ x. 9)) mem 0 2,
        length-bytes_at (in_shm 60) mem 0 3,
      ))

-- A stream with two bytes from the heap to send.
abbrev sending : StreamInner
sending = record {
  recv_buf = empty_buffer;
  send_buf = record empty_buffer {
    slice_list = record { slices = from_socket ∷ []; write = at_slice 0 };
    is_from_shm = false;
    len = 2;
  };
  pending_data = [];
  state = opened;
  in_fallback_state = false;
}

abbrev link : Link
link = record {
  bm = hundred;
  send_queue = mapping_from_bytes mem 200;
  version = 3;
  shutdown = false;
  unhealthy = false;
  sent = [];
  registered = 5 ∷ [];
  shm = mem;
}

flush_lem_example : Flushes sending link (flush 5 [] delivered sending link)
flush_lem_example = flush_lem 5 [] delivered sending link
