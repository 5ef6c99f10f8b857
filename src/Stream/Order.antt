-- ===== src/Stream/Order.antt =====
-- What reaches the reader of a stream: the slices of the pending data, in the order of arrival.
use shmipc_cpp.Common.{
  ℕ, zero, suc, ◌+◌, ◌≤◌, ◌<◌, ◌^◌, ◌≡◌, ◌≢◌, refl, ap, ◌∙◌, sym, arith, true, false, ◌==◌, List,
  [], ◌∷◌, ◌++◌, length, length-append, All, Option, some, none,
}
use mathlib.Core.List.{append-nil, append_assoc}
use shmipc_cpp.Shm.{Shm}
use shmipc_cpp.Error.{ok}
use shmipc_cpp.Buffer.Header
use shmipc_cpp.Buffer.Slice
use shmipc_cpp.Buffer.Slice.{BufferSlice}
use shmipc_cpp.Buffer.Slice.Window.{IsValid, pending}
use shmipc_cpp.Buffer.SliceList.{push_back, write_back}
use shmipc_cpp.Buffer.Manager.{BufferManager, read_buffer_slice}
use shmipc_cpp.Buffer.Linked.{LinkedBuffer, append_buffer_slice}
use shmipc_cpp.Buffer.Linked.Reclaim.{unread}
use shmipc_cpp.Buffer.Linked.Supply.{unread-append}
use shmipc_cpp.Buffer.Linked.Bytes.{size-pending}
use shmipc_cpp.Stream.{StreamInner, BufferSliceWrapper}
use shmipc_cpp.Stream.Receive.{move_chain, move_entry, move_entries, move_pending_data}

-- A chain of buffers in memory, none of them empty, and the slices that its headers describe.
abbrev pub Chain : BufferManager → Shm → ℕ → List BufferSlice → Type 0
Chain bm m offset [] = ⊥
Chain bm m offset (s ∷ []) =
    (read_buffer_slice bm offset m ≡ some (ok s))
    × (Slice.size s ≢ 0)
    × (Header.has_next m offset ≡ false)
Chain bm m offset (s ∷ t ∷ ss) =
    (read_buffer_slice bm offset m ≡ some (ok s))
    × (Slice.size s ≢ 0)
    × (Header.has_next m offset ≡ true)
    × Chain bm m (Header.next_buffer_offset m offset) (t ∷ ss)

-- What one entry of the pending data brings.
pub data Brings (fuel : ℕ) (bm : BufferManager) (m : Shm) (w : BufferSliceWrapper)
    (ss : List BufferSlice) : Type 0 where
  over_socket : (s : BufferSlice) → w.fallback_slice ≡ some s → ss ≡ s ∷ [] → Brings fuel bm m w ss
  in_chain :
      w.fallback_slice ≡ none → Chain bm m w.offset ss → length ss ≤ fuel → Brings fuel bm m w ss

abbrev pub BringAll :
    ℕ → BufferManager → Shm → List BufferSliceWrapper → List (List BufferSlice) → Type 0
BringAll fuel bm m [] [] = Unit {0}
BringAll fuel bm m (w ∷ ws) (ss ∷ sss) = Brings fuel bm m w ss × BringAll fuel bm m ws sss
BringAll fuel bm m [] (ss ∷ sss) = ⊥
BringAll fuel bm m (w ∷ ws) [] = ⊥

abbrev pub joined : List (List BufferSlice) → List BufferSlice
joined [] = []
joined (ss ∷ sss) = ss ++ joined sss

-- Appending slices one after another.
append_all : LinkedBuffer → List BufferSlice → LinkedBuffer
append_all b [] = b
append_all b (s ∷ ss) = append_all (append_buffer_slice b s) ss

slices-append_all :
    (b : LinkedBuffer) (ss : List BufferSlice)
    → (append_all b ss).slice_list.slices ≡ b.slice_list.slices ++ ss
unfolding append_all append_buffer_slice push_back write_back
slices-append_all b [] = sym (append-nil b.slice_list.slices)
slices-append_all b (s ∷ ss) =
    slices-append_all (append_buffer_slice b s) ss ∙ append_assoc b.slice_list.slices (s ∷ []) ss

len-append_all :
    (b : LinkedBuffer) (ss : List BufferSlice) (m : Shm)
    → All IsValid ss
    → b.len + length (unread ss m) < 2 ^ 64
    → (append_all b ss).len ≡ b.len + length (unread ss m)
unfolding append_all append_buffer_slice
len-append_all b [] m v fits = omega arith
len-append_all b (s ∷ ss) m v fits =
    let whole = length-append (pending s m) (unread ss m) in
    let b₁ = append_buffer_slice b s in
    let step : b₁.len ≡ b.len + length (pending s m) =
      omega (arith, size-pending s m v.0, fits, whole) in
    len-append_all b₁ ss m v.1 (omega (arith, step, fits, whole)) ∙ omega (arith, step, whole)

move_chain_lem :
    (fuel : ℕ) (bm : BufferManager) (offset : ℕ) (b : LinkedBuffer) (m : Shm)
    (ss : List BufferSlice)
    → Chain bm m offset ss
    → length ss ≤ fuel
    → move_chain fuel bm offset b m ≡ some (append_all b ss, m)
unfolding move_chain append_all
move_chain_lem fuel bm offset b m [] c enough = absurd c
move_chain_lem zero bm offset b m (s ∷ ss) c enough = absurd (omega arith)
move_chain_lem (suc fuel) bm offset b m (s ∷ []) (found, some_bytes, last) enough =
    let full : (Slice.size s == 0) ≡ false = ground (arith, some_bytes) in
    simp (found, full, last) refl
move_chain_lem (suc fuel) bm offset b m (s ∷ t ∷ ss) (found, some_bytes, linked, rest) enough =
    let full : (Slice.size s == 0) ≡ false = ground (arith, some_bytes) in
    simp (found, full, linked)
      (move_chain_lem fuel bm (Header.next_buffer_offset m offset) (append_buffer_slice b s) m
        (t ∷ ss) rest (omega arith))

-- One entry, and all of them: the stream's state and pending data are as they were.
module _ (fuel : ℕ) (bm : BufferManager) (m : Shm) where
  abbrev Moves : Option (StreamInner × Shm) → StreamInner → List BufferSlice → Type 0
  Moves o s ss =
      (s' : StreamInner) × (o ≡ some (s', m))
      × (s'.recv_buf ≡ append_all s.recv_buf ss)
      × (s'.state ≡ s.state)
      × (s'.pending_data ≡ s.pending_data)

  move_entry_lem :
      (w : BufferSliceWrapper) (s : StreamInner) (ss : List BufferSlice)
      → Brings fuel bm m w ss
      → Moves (move_entry fuel bm w (s, m)) s ss
  unfolding move_entry append_all
  move_entry_lem w s ss (over_socket t at_socket one) =
      simp (at_socket, one)
        (
          record s { recv_buf = append_buffer_slice s.recv_buf t; in_fallback_state = true },
          refl,
          refl,
          refl,
          refl,
        )
  move_entry_lem w s ss (in_chain at_shm c enough) =
      simp (at_shm, move_chain_lem fuel bm w.offset s.recv_buf m ss c enough)
        (record s { recv_buf = append_all s.recv_buf ss }, refl, refl, refl, refl)

  append_all-append :
      (b : LinkedBuffer) (xs ys : List BufferSlice)
      → append_all (append_all b xs) ys ≡ append_all b (xs ++ ys)
  unfolding append_all
  append_all-append b [] ys = refl
  append_all-append b (x ∷ xs) ys = append_all-append (append_buffer_slice b x) xs ys

  move_entries_lem :
      (ws : List BufferSliceWrapper) (sss : List (List BufferSlice)) (s : StreamInner)
      → BringAll fuel bm m ws sss
      → Moves (move_entries fuel bm ws (s, m)) s (joined sss)
  unfolding move_entries append_all
  move_entries_lem [] [] s h = (s, refl, refl, refl, refl)
  move_entries_lem [] (ss ∷ sss) s h = absurd h
  move_entries_lem (w ∷ ws) [] s h = absurd h
  move_entries_lem (w ∷ ws) (ss ∷ sss) s (one, others) =
      let (s₁, eq₁, buf₁, st₁, pend₁) = move_entry_lem w s ss one in
      let (s₂, eq₂, buf₂, st₂, pend₂) = move_entries_lem ws sss s₁ others in
      simp eq₁ (
        s₂,
        eq₂,
        buf₂
            ∙ ap (λ (b : LinkedBuffer). append_all b (joined sss)) buf₁
            ∙ append_all-append s.recv_buf ss (joined sss),
        st₂ ∙ st₁,
        pend₂ ∙ pend₁,
      )

-- Moving the pending data, each entry a slice that came over the socket or a chain of non-empty
-- buffers no longer than the fuel: it ends, leaves the memory and the state as they are and nothing
-- pending, and puts the bytes of all entries behind the unread bytes, in the order of arrival. The
-- length stays that of the unread bytes.
pub arrival_order :
    (fuel : ℕ) (bm : BufferManager) (s : StreamInner) (m : Shm) (sss : List (List BufferSlice))
    → BringAll fuel bm m s.pending_data sss
    → All IsValid (joined sss)
    → s.recv_buf.len ≡ length (unread s.recv_buf.slice_list.slices m)
    → s.recv_buf.len + length (unread (joined sss) m) < 2 ^ 64
    → (s' : StreamInner) × (move_pending_data fuel bm s m ≡ some (s', m))
      × (s'.state ≡ s.state)
      × (s'.pending_data ≡ [])
      × (unread s'.recv_buf.slice_list.slices m
          ≡ unread s.recv_buf.slice_list.slices m ++ unread (joined sss) m)
      × (s'.recv_buf.len ≡ length (unread s'.recv_buf.slice_list.slices m))
unfolding move_pending_data
arrival_order fuel bm s m sss h valid len_is fits =
    let (s', eq, buf, st, pend) =
      move_entries_lem fuel bm m s.pending_data sss (record s { pending_data = [] }) h in
    let all : unread s'.recv_buf.slice_list.slices m
        ≡ unread s.recv_buf.slice_list.slices m ++ unread (joined sss) m =
      ap (λ (b : LinkedBuffer). unread b.slice_list.slices m) buf
      ∙ ap (λ (l : List BufferSlice). unread l m) (slices-append_all s.recv_buf (joined sss))
      ∙ unread-append s.recv_buf.slice_list.slices (joined sss) m in
    (
      s',
      eq,
      st,
      pend,
      all,
      omega (
        arith,
        ap (λ (b : LinkedBuffer). b.len) buf,
        len-append_all s.recv_buf (joined sss) m valid fits,
        len_is,
        ap length all,
        length-append (unread s.recv_buf.slice_list.slices m) (unread (joined sss) m),
      ),
    )
