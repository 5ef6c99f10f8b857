-- ===== src/Stream/Receive.antt =====
-- The reading side of a stream (src/stream.cpp): what the session hands over, and how a reader gets
-- at it. `none` is a chain that does not end within the fuel, or a loop of the buffer that does not.
use shmipc_cpp.Common.{
  ℕ, zero, suc, Bool, true, ◌||◌, ◌&&◌, not, ltb, leb, ◌==◌, if◌then◌else◌, Option, none, some,
  ◌>>=◌, List, [], ◌∷◌, ◌++◌, length,
}
use shmipc_cpp.Shm.{Shm}
use shmipc_cpp.Error.{Result, ok, err, end_of_stream, stream_closed}
use shmipc_cpp.Buffer.Header
use shmipc_cpp.Buffer.Slice
use shmipc_cpp.Buffer.Slice.{BufferSlice}
use shmipc_cpp.Buffer.Manager.{BufferManager, read_buffer_slice}
use shmipc_cpp.Buffer.Manager.Chains.{recycle_buffers}
use shmipc_cpp.Buffer.Linked
use shmipc_cpp.Buffer.Linked.{LinkedBuffer, append_buffer_slice, recycled}
use shmipc_cpp.Buffer.Linked.Read
use shmipc_cpp.Buffer.Linked.Read.{Buf}
use shmipc_cpp.Stream.{StreamInner, BufferSliceWrapper, opened, closed, half_closed}

-- The header of the last slice of a list, if it has one.
abbrev pub back_header : List BufferSlice → Option ℕ
back_header [] = none
back_header (s ∷ []) = s.buffer_header
back_header (s ∷ t ∷ ss) = back_header (t ∷ ss)

-- back->buffer_header: the chain ends with the slice in front of an empty one.
abbrev pub end_chain : Option ℕ → Shm → Shm
end_chain none m = m
end_chain (some h) m = Header.set_in_used (Header.clear_flag m h) h

-- The branches on a looked-up slice, and on a slice that came over the socket.
abbrev pub if_found {ℓ} : {A : Type ℓ} → Result BufferSlice → (BufferSlice → A) → A → A
if_found (ok slice) found lost = found slice
if_found (err e) found lost = lost

abbrev pub if_fallback {ℓ} : {A : Type ℓ} → Option BufferSlice → (BufferSlice → A) → A → A
if_fallback (some slice) over_socket in_shm = over_socket slice
if_fallback none over_socket in_shm = in_shm

-- The loop of move_pending_data over one chain.
unfoldable pub move_chain : ℕ → BufferManager → ℕ → LinkedBuffer → Shm → Option (LinkedBuffer × Shm)
move_chain zero bm offset b m = none
move_chain (suc fuel) bm offset b m = read_buffer_slice bm offset m >>= (λ found.
    if_found found
      (λ slice.
        let m₁ = recycled bm slice m in
        let next = Header.next_buffer_offset m offset in
        let after_empty = move_chain fuel bm next b m₁ in
        let after_slice = move_chain fuel bm next (append_buffer_slice b slice) m in
        if Slice.size slice == 0
        then (if Header.has_next m offset
            then after_empty
            else some (b, end_chain (back_header b.slice_list.slices) m₁))
        else if Header.has_next m offset
        then after_slice
        else some (append_buffer_slice b slice, m))
      (some (b, m)))

-- One entry of pending_data, with the buffer, the fallback state and the memory.
unfoldable pub move_entry :
    ℕ → BufferManager → BufferSliceWrapper → StreamInner × Shm → Option (StreamInner × Shm)
move_entry fuel bm w (s, m) =
    if_fallback w.fallback_slice
      (λ slice.
        some (
          record s { recv_buf = append_buffer_slice s.recv_buf slice; in_fallback_state = true },
          m,
        ))
      (move_chain fuel bm w.offset s.recv_buf m >>= (λ r. some (record s { recv_buf = r.0 }, r.1)))

unfoldable pub move_entries :
    ℕ → BufferManager → List BufferSliceWrapper → StreamInner × Shm → Option (StreamInner × Shm)
move_entries fuel bm [] r = some r
move_entries fuel bm (w ∷ ws) r = move_entry fuel bm w r >>= move_entries fuel bm ws

unfoldable pub move_pending_data :
    ℕ → BufferManager → StreamInner → Shm → Option (StreamInner × Shm)
move_pending_data fuel bm s m =
    move_entries fuel bm s.pending_data (record s { pending_data = [] }, m)

-- Each chain goes back to the manager; a chain that cannot be looked up ends the loop.
unfoldable pub clean_entries : ℕ → BufferManager → List BufferSliceWrapper → Shm → Option Shm
clean_entries fuel bm [] m = some m
clean_entries fuel bm (w ∷ ws) m =
    if_fallback w.fallback_slice (λ slice. clean_entries fuel bm ws m)
      (read_buffer_slice bm w.offset m >>= (λ found.
        if_found found (λ slice. recycle_buffers fuel bm slice m >>= clean_entries fuel bm ws)
          (some m)))

unfoldable pub clean_pending_data :
    ℕ → BufferManager → StreamInner → Shm → Option (StreamInner × Shm)
clean_pending_data fuel bm s m =
    clean_entries fuel bm s.pending_data m >>= (λ m₁. some (record s { pending_data = [] }, m₁))

-- The last two lines of `clean`, and what a closed stream does with new data.
abbrev pub recycle_recv : BufferManager → StreamInner × Shm → Option (StreamInner × Shm)
recycle_recv bm (s, m) =
    let (b, m₁) = Linked.recycle bm s.recv_buf m in some (record s { recv_buf = b }, m₁)

unfoldable pub fill_data_to_read_buffer :
    ℕ → BufferManager → BufferSliceWrapper → StreamInner → Shm → Option (StreamInner × Shm)
fill_data_to_read_buffer fuel bm w s m =
    let s₁ = record s { pending_data = s.pending_data ++ (w ∷ []) } in
    let cleaned = clean_pending_data fuel bm s₁ m >>= recycle_recv bm in
    if s.state == closed then cleaned else some (s₁, m)

-- What a stretch of read_more ends with: an answer, or a wait.
pub data Progress : Type 0 where
  answers : Result (Unit {0}) → Progress
  waits : Progress

-- Up to the first wait.
abbrev pub begin_with : ℕ → StreamInner → Progress
begin_with min_size s =
    if leb min_size s.recv_buf.len
    then answers (ok tt)
    else if (s.recv_buf.len == 0) && not (s.state == opened)
    then answers (err end_of_stream)
    else waits

unfoldable pub read_more_begin :
    ℕ → BufferManager → ℕ → StreamInner → Shm → Option (Progress × StreamInner × Shm)
read_more_begin fuel bm min_size s m =
    move_pending_data fuel bm s m >>= (λ r. some (begin_with min_size r.0, r.0, r.1))

-- The test under which the wait ends.
unfoldable pub wakes : StreamInner → Bool
wakes s = ltb 0 (length s.pending_data) || not (s.state == opened)

-- Behind a wait: an answer, or the next wait.
abbrev pub go_on_with : ℕ → StreamInner → Progress
go_on_with min_size s =
    if leb min_size s.recv_buf.len
    then answers (ok tt)
    else if s.state == opened
    then waits
    else if s.state == half_closed
    then answers (err end_of_stream)
    else answers (err stream_closed)

unfoldable pub read_more_round :
    ℕ → BufferManager → ℕ → StreamInner → Shm → Option (Progress × StreamInner × Shm)
read_more_round fuel bm min_size s m =
    move_pending_data fuel bm s m >>= (λ r. some (go_on_with min_size r.0, r.0, r.1))

-- How read_bytes, peek and discard begin, and how read does.
unfoldable pub begin_sized :
    ℕ → BufferManager → ℕ → StreamInner → Shm → Option (Progress × StreamInner × Shm)
begin_sized fuel bm size s m =
    let more = read_more_begin fuel bm size s m in
    if ltb s.recv_buf.len size then more else some (answers (ok tt), s, m)

unfoldable pub begin_any :
    ℕ → BufferManager → StreamInner → Shm → Option (Progress × StreamInner × Shm)
begin_any fuel bm s m =
    let more = read_more_begin fuel bm 1 s m in
    if Linked.is_empty s.recv_buf then more else some (answers (ok tt), s, m)

-- Behind read_more, by its answer.
abbrev pub Answer : Type 0 → Type 0
Answer A = Option (Result A × StreamInner × Shm)

abbrev pub with_recv : {A : Type 0} → StreamInner → Result A × LinkedBuffer × Shm → Answer A
with_recv s (res, b, m) = some (res, record s { recv_buf = b }, m)

abbrev pub if_answered : {A : Type 0} → Result (Unit {0}) → StreamInner → Shm → Answer A → Answer A
if_answered (ok u) s m behind = behind
if_answered (err e) s m behind = some (err e, s, m)

unfoldable pub read_behind : BufferManager → ℕ → Result (Unit {0}) → StreamInner → Shm → Answer Buf
read_behind bm size res s m =
    if_answered res s m (Read.read_bytes bm size s.recv_buf m >>= with_recv s)

unfoldable pub peek_behind : ℕ → Result (Unit {0}) → StreamInner → Shm → Answer Buf
peek_behind size res s m =
    let (r, b) = Read.peek size s.recv_buf m in if_answered res s m (with_recv s (r, b, m))

unfoldable pub discard_behind : BufferManager → ℕ → Result (Unit {0}) → StreamInner → Shm → Answer ℕ
discard_behind bm size res s m =
    if_answered res s m (Read.discard bm size s.recv_buf m >>= with_recv s)
