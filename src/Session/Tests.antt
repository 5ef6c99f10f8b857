-- ===== src/Session/Tests.antt =====
-- A server with one stream, and the event that closes it.
use shmipc_cpp.Common.{
  ◌≡◌, get_elem?, ◌≤◌, length, ◌⊎◌, ℕ, ◌>>=◌, refl, arith, true, false, none, some, List, [], ◌∷◌,
  ◌++◌,
}
use shmipc_cpp.Queue
use shmipc_cpp.Protocol.Event.{
  msg_type, version, magic, load_be_u16, load_be_u32, check_event_valid, event_length,
}
use shmipc_cpp.Stream.{new_inner, half_close}
use shmipc_cpp.Stream.Send.{close_event}
use shmipc_cpp.Session.{Session, handle_stream_close}
use shmipc_cpp.Session.Events.{
  EventResult, events_loop, dispatch, one_event, add_consumed, handle_events,
}
use shmipc_cpp.Session.Handlers.{IsBytes}
use shmipc_cpp.Session.Ends.{Passes}
use shmipc_cpp.Protocol.Event.{polling_event_with_version}
use shmipc_cpp.Session.{drain}
use shmipc_cpp.Session.Polled.{behind_poll, polling_event_lem}
use shmipc_cpp.Session.Arrival.{handle_more, in_pieces, handle_events_ends, close_event_lem}

abbrev server : Session
server = record {
  bm = record { lists = []; mem_size = 100; min_slice_size = 16; max_slice_size = 16 };
  recv_queue = Queue.mapping_from_bytes (λ x. 0) 0;
  is_client = false;
  accepts = true;
  unhealthy = false;
  shm = λ x. 0;
  heap = new_inner ∷ [];
  streams = (5, 0) ∷ [];
  accepted = [];
}

abbrev front : List ℕ
front = 0 ∷ 0 ∷ 0 ∷ 12 ∷ 119 ∷ 88 ∷ 3 ∷ 2 ∷ 0 ∷ []

abbrev behind : List ℕ
behind = 0 ∷ 0 ∷ 5 ∷ []

are_bytes : IsBytes (front ++ behind)
are_bytes = (
  (
    omega arith,
    (
      omega arith,
      (
        omega arith,
        (
          omega arith,
          (
            omega arith,
            (
              omega arith,
              (
                omega arith,
                (omega arith, (omega arith, (omega arith, (omega arith, (omega arith, tt))))),
              ),
            ),
          ),
        ),
      ),
    ),
  ),
  omega arith,
)

in_pieces_example :
    handle_events 2 (front ++ behind) server
    ≡ (handle_events 2 front server >>= handle_more 2 front behind)
in_pieces_example = in_pieces 2 front behind server are_bytes

-- The first nine bytes are not enough for the event, and none of them is consumed.
waits :
    handle_events 2 front server
    ≡ some (record { consumed = 0; required = 12; error = none }, server)
unfolding handle_events events_loop one_event dispatch handle_stream_close check_event_valid
    event_length msg_type version magic load_be_u16 load_be_u32
waits = refl

handle_events_ends_example :
    ((r : EventResult) × (s' : Session) × (handle_events 2 (front ++ behind) server ≡ some (r, s'))
      × (r.consumed ≤ 12))
    ⊎ ((ys : List ℕ) × (t : Session) × Passes (one_event 2) (front ++ behind) server ys t
        × (8 ≤ length ys)
        × (one_event 2 ys t ≡ none))
handle_events_ends_example = handle_events_ends 2 (front ++ behind) server are_bytes

close_event_lem_example : handle_events 2 (close_event 3 5 ++ (1 ∷ [])) server ≡ (
    handle_events 2 (1 ∷ []) (record server { streams = []; heap = half_close new_inner ∷ [] })
    >>= add_consumed (one_event 2) 12)
close_event_lem_example =
    close_event_lem 2 3 5 0 new_inner (1 ∷ []) server (omega arith) (omega arith)
      ((omega arith, tt), omega arith) refl refl

polling_event_lem_example :
    (h : List ℕ) × (get_elem? polling_event_with_version 2 ≡ some h)
    × (length h ≡ 8)
    × (handle_events 2 (h ++ (1 ∷ [])) server ≡ (drain 2 2 server >>= behind_poll 2 (1 ∷ [])))
polling_event_lem_example =
    polling_event_lem 2 2 (1 ∷ []) server (omega arith) (omega arith)
      ((omega arith, tt), omega arith)
