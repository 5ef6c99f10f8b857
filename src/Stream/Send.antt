-- ===== src/Stream/Send.antt =====
-- The writing side of a stream, and how it closes (src/stream.cpp), with what they call of the
-- session (src/session.cpp: wait_for_send, wake_up_peer, on_stream_close, and the flag that
-- open_circuit_breaker sets; its timer and the counters are left out).
use shmipc_cpp.Common.{
  ℕ, ◌+◌, ◌-◌, ◌^◌, Bool, true, false, ◌||◌, not, ltb, ◌==◌, if◌then◌else◌, Option, none, some,
  ◌>>=◌, List, [], ◌∷◌, ◌++◌, get_elem?, take,
}
use shmipc_cpp.Shm.{Shm}
use shmipc_cpp.Error.{
  Err, Result, ok, err, stream_closed, no_more_buffer, queue_full, connection_write_timeout, other,
}
use shmipc_cpp.Queue
use shmipc_cpp.Queue.{QueueElement}
use shmipc_cpp.Protocol.Event.{
  encode, encode_fallback, stream_close, polling_event_with_version, store_be_u32,
}
use shmipc_cpp.Buffer.Slice.{BufferSlice, bytes_at}
use shmipc_cpp.Buffer.SliceList.{Cursor, behind_front}
use shmipc_cpp.Buffer.Manager.{BufferManager}
use shmipc_cpp.Buffer.Linked
use shmipc_cpp.Buffer.Linked.{LinkedBuffer, is_first, done, clean, recycle, root_buf_offset}
use shmipc_cpp.Stream.{StreamInner, opened, closed}
use shmipc_cpp.Stream.Receive.{clean_pending_data}

-- What a stream uses of its session. `sent` is what went into the send channel, in order.
pub record Link : Type 0 where
  pub bm : BufferManager
  pub send_queue : Queue.Queue
  pub version : ℕ
  pub shutdown : Bool
  pub unhealthy : Bool
  pub sent : List (List ℕ)
  pub registered : List ℕ
  pub shm : Shm

-- How the wait for the writing thread ends: the channel takes the data or stays full for the write
-- timeout, and the thread writes it or drops it.
pub data Delivery : Type 0 where
  delivered : Delivery
  channel_full : Delivery
  dropped : Delivery

unfoldable pub wait_for_send : Delivery → List ℕ → Link → Result (Unit {0}) × Link
wait_for_send delivered body k = (ok tt, record k { sent = k.sent ++ (body ∷ []) })
wait_for_send channel_full body k = (err connection_write_timeout, k)
wait_for_send dropped body k = (err other, record k { sent = k.sent ++ (body ∷ []) })

-- The event of the communication version; the source indexes a vector.
abbrev pub event_of : Option (List ℕ) → List ℕ
event_of none = []
event_of (some e) = e

unfoldable pub wake_up_peer : Link → Result (Unit {0}) × Link
wake_up_peer k =
    let (set, m) = Queue.mark_working k.send_queue k.shm in
    if not set then (ok tt, record k { shm = m }) else (
      ok tt,
      record k {
        shm = m;
        sent = k.sent ++ (event_of (get_elem? polling_event_with_version k.version) ∷ []);
      },
    )

abbrev pub without : ℕ → List ℕ → List ℕ
without id [] = []
without id (x ∷ xs) = if x == id then without id xs else x ∷ without id xs

unfoldable pub on_stream_close : ℕ → Link → Link
on_stream_close id k = record k { registered = without id k.registered }

-- The bytes of the slices up to the cursor: from the start of each, as many as are unread.
unfoldable pub fallback_bytes : Cursor → List BufferSlice → Shm → List ℕ
fallback_bytes c [] m = []
fallback_bytes c (s ∷ ss) m =
    let here = bytes_at s.place m 0 (s.write_index - s.read_index) in
    let rest = fallback_bytes (behind_front c) ss m in if is_first c then here else here ++ rest

abbrev pub Flushed : Type 0
Flushed = Result (Unit {0}) × StreamInner × Link

-- The send buffer goes back to the manager.
abbrev pub recycle_send : StreamInner → Link → StreamInner × Link
recycle_send s k =
    let (b, m) = recycle k.bm s.send_buf k.shm in (record s { send_buf = b }, record k { shm = m })

unfoldable pub write_fallback : ℕ → ℕ → Delivery → StreamInner → Link → Flushed
write_fallback id status d s k =
    let len = s.send_buf.len in
    let event =
      encode_fallback (len + 16) k.version id status
      ++ fallback_bytes s.send_buf.slice_list.write s.send_buf.slice_list.slices k.shm in
    let (s₁, k₁) = recycle_send s k in
    let (res, k₂) = wait_for_send d event (record k₁ { unhealthy = true }) in
    if ltb (2 ^ 32 - 1 - 16) len then (err no_more_buffer, s₁, k₁) else (res, s₁, k₂)

-- send_buf.clean()
abbrev pub clean_send : Flushed → Flushed
clean_send (res, s, k) = (res, record s { send_buf = clean s.send_buf }, k)

abbrev pub wake_and_clean : StreamInner → Link → Flushed
wake_and_clean s k = let (res, k₁) = wake_up_peer k in clean_send (res, s, k₁)

abbrev pub recycle_and_fail : Err → StreamInner → Link → Flushed
recycle_and_fail e s k = let (s₁, k₁) = recycle_send s k in (err e, s₁, k₁)

abbrev pub is_queue_full : Err → Bool
is_queue_full queue_full = true
is_queue_full e = false

-- Behind a put: success, a full queue, or another error.
abbrev pub after_put : Result (Unit {0}) × Shm → (Link → Flushed) → StreamInner → Link → Flushed
after_put (ok u, m) on_full s k = wake_and_clean s (record k { shm = m })
after_put (err e, m) on_full s k =
    if is_queue_full e
    then on_full (record k { shm = m })
    else recycle_and_fail e s (record k { shm = m })

abbrev pub element_of : ℕ → StreamInner → QueueElement
element_of id s = record {
  seq_id = id;
  offset_in_shm_buf = root_buf_offset s.send_buf;
  status = opened;
}

-- What happens during one wait of 10 ms: the state becomes another one than opened, or the other
-- processes change the memory and it stays open.
pub data Meanwhile : Type 0 where
  is_closed : ℕ → Meanwhile
  goes_on : (Shm → Shm) → Meanwhile

-- The retries, one for each wait.
unfoldable pub retry_put : List Meanwhile → ℕ → StreamInner → Link → Flushed
retry_put [] id s k = recycle_and_fail queue_full s k
retry_put (is_closed state ∷ ws) id s k =
    recycle_and_fail stream_closed (record s { state = state }) k
retry_put (goes_on f ∷ ws) id s k =
    let m = f k.shm in
    after_put (Queue.put k.send_queue (element_of id s) m) (retry_put ws id s) s
      (record k { shm = m })

-- Behind `done`: over the socket, or through the queue with ten retries.
unfoldable pub send_on : ℕ → List Meanwhile → Delivery → StreamInner → Link → Flushed
send_on id ws d s k =
    let s₁ = record s { in_fallback_state = not s.send_buf.is_from_shm || s.in_fallback_state } in
    if s₁.in_fallback_state
    then clean_send (write_fallback id opened d s₁ k)
    else after_put (Queue.put k.send_queue (element_of id s₁) k.shm) (retry_put (take 10 ws) id s₁)
        s₁ k

unfoldable pub flush : ℕ → List Meanwhile → Delivery → StreamInner → Link → Flushed
flush id ws d s k =
    let (b, m) = done k.bm s.send_buf k.shm in
    let sending = send_on id ws d (record s { send_buf = b }) (record k { shm = m }) in
    if Linked.is_empty s.send_buf
    then (ok tt, s, k)
    else if not (s.state == opened)
    then recycle_and_fail stream_closed s k
    else sending

-- `clean`: out of the session, the pending data and both buffers back to the manager.
abbrev pub recycle_both : Link → StreamInner × Shm → Option (StreamInner × Link)
recycle_both k (s, m) =
    let (b, m₁) = recycle k.bm s.recv_buf m in
    some (recycle_send (record s { recv_buf = b }) (record k { shm = m₁ }))

unfoldable pub clean_stream : ℕ → ℕ → StreamInner → Link → Option (StreamInner × Link)
clean_stream fuel id s k =
    let k₁ = on_stream_close id k in clean_pending_data fuel k₁.bm s k₁.shm >>= recycle_both k₁

-- The close event of the socket.
abbrev pub close_event : ℕ → ℕ → List ℕ
close_event version id = encode 12 version stream_close ++ store_be_u32 id

abbrev pub close_over_socket : ℕ → Delivery → StreamInner → Link → Flushed
close_over_socket id d s k =
    let (res, k₁) = wait_for_send d (close_event k.version id) k in (res, s, k₁)

abbrev pub close_through_queue :
    ℕ → Delivery → Result (Unit {0}) × Shm → StreamInner → Link → Flushed
close_through_queue id d (ok u, m) s k =
    let (res, k₁) = wake_up_peer (record k { shm = m }) in (res, s, k₁)
close_through_queue id d (err e, m) s k = close_over_socket id d s (record k { shm = m })

-- Telling the peer, unless the session is shut down.
unfoldable pub notify_close : ℕ → Delivery → StreamInner → Link → Flushed
notify_close id d s k =
    let e : QueueElement = record { seq_id = id; offset_in_shm_buf = 0; status = closed } in
    if k.shutdown
    then (ok tt, s, k)
    else if s.in_fallback_state
    then close_over_socket id d s k
    else close_through_queue id d (Queue.put k.send_queue e k.shm) s k

abbrev pub if_was_open : Bool → ℕ → Delivery → StreamInner × Link → Option Flushed
if_was_open was_open id d (s, k) =
    if was_open then some (notify_close id d s k) else some (ok tt, s, k)

unfoldable pub close : ℕ → ℕ → Delivery → StreamInner → Link → Option Flushed
close fuel id d s k =
    let closing =
      clean_stream fuel id (record s { state = closed }) k
      >>= if_was_open (s.state == opened) id d in
    if s.state == closed then some (ok tt, s, k) else closing
