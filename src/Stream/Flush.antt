-- ===== src/Stream/Flush.antt =====
-- What Stream::flush does with the send buffer, whichever way it ends.
use shmipc_cpp.Common.{
  ℕ, ◌≡◌, ◌≢◌, ◌⊎◌, inl, inr, refl, ap, subst, ◌∙◌, sym, arith, Bool, true, false, Bool-cases,
  of_both, ◌||◌, not, ◌==◌, ltb, ◌-◌, ◌^◌, List, [], ◌∷◌, take,
}
use shmipc_cpp.Shm.{Shm}
use shmipc_cpp.Error.{Err, Result, ok, err, stream_closed}
use shmipc_cpp.Queue
use shmipc_cpp.Buffer.Manager.{BufferManager}
use shmipc_cpp.Buffer.Linked
use shmipc_cpp.Buffer.Linked.{LinkedBuffer, done, clean, recycle}
use shmipc_cpp.Stream.{StreamInner, BufferSliceWrapper, opened}
use shmipc_cpp.Stream.Send.{
  Link, Delivery, Meanwhile, is_closed, goes_on, Flushed, flush, send_on, retry_put, after_put,
  write_fallback, recycle_and_fail, wake_and_clean, element_of, clean_send, is_queue_full,
}

-- The send buffer is empty again, and nothing of the reading side has changed.
pub record Spent (recv : LinkedBuffer) (pending : List BufferSliceWrapper) (s' : StreamInner)
    : Type 0 where
  pub no_slices_left : s'.send_buf.slice_list.slices ≡ []
  pub nothing_counted : s'.send_buf.len ≡ 0
  pub shm_again : s'.send_buf.is_from_shm ≡ true
  pub recv_same : s'.recv_buf ≡ recv
  pub pending_same : s'.pending_data ≡ pending

-- The same, with the fallback state kept.
abbrev Spends : StreamInner → Flushed → Type 0
Spends s (res, s', k') =
    Spent s.recv_buf s.pending_data s' × (s'.in_fallback_state ≡ s.in_fallback_state)

recycle_and_fail-Spends : (e : Err) (s : StreamInner) (k : Link) → Spends s (recycle_and_fail e s k)
unfolding recycle
recycle_and_fail-Spends e s k = (
  record {
    no_slices_left = refl;
    nothing_counted = refl;
    shm_again = refl;
    recv_same = refl;
    pending_same = refl;
  },
  refl,
)

wake_and_clean-Spends : (s : StreamInner) (k : Link) → Spends s (wake_and_clean s k)
unfolding clean
wake_and_clean-Spends s k = (
  record {
    no_slices_left = refl;
    nothing_counted = refl;
    shm_again = refl;
    recv_same = refl;
    pending_same = refl;
  },
  refl,
)

after_put-Spends :
    (r : Result (Unit {0}) × Shm) (on_full : Link → Flushed) (s : StreamInner) (k : Link)
    → ((k' : Link) → Spends s (on_full k'))
    → Spends s (after_put r on_full s k)
after_put-Spends (ok u, m) on_full s k full = wake_and_clean-Spends s (record k { shm = m })
after_put-Spends (err e, m) on_full s k full = elim (Bool-cases (is_queue_full e)) [
  | inl f ↦ simp f (full (record k { shm = m }))
  | inr f ↦ simp f (recycle_and_fail-Spends e s (record k { shm = m }))
]

retry_put-Spends :
    (ws : List Meanwhile) (id : ℕ) (s : StreamInner) (k : Link) → Spends s (retry_put ws id s k)
unfolding retry_put
retry_put-Spends [] id s k = recycle_and_fail-Spends Err.queue_full s k
retry_put-Spends (is_closed state ∷ ws) id s k =
    recycle_and_fail-Spends stream_closed (record s { state = state }) k
retry_put-Spends (goes_on f ∷ ws) id s k =
    after_put-Spends (Queue.put k.send_queue (element_of id s) (f k.shm)) (retry_put ws id s) s
      (record k { shm = f k.shm }) (λ k'. retry_put-Spends ws id s k')

clean-Spends :
    (s : StreamInner) (r : Flushed)
    → (r.1.recv_buf ≡ s.recv_buf)
    → (r.1.pending_data ≡ s.pending_data)
    → (r.1.in_fallback_state ≡ s.in_fallback_state)
    → Spends s (clean_send r)
unfolding clean
clean-Spends s (res, s', k') recv pending fallback = (
  record {
    no_slices_left = refl;
    nothing_counted = refl;
    shm_again = refl;
    recv_same = recv;
    pending_same = pending;
  },
  fallback,
)

write_fallback-keeps :
    (id status : ℕ) (d : Delivery) (s : StreamInner) (k : Link)
    → let s' = (write_fallback id status d s k).1 in
      (s'.recv_buf ≡ s.recv_buf)
      × (s'.pending_data ≡ s.pending_data)
      × (s'.in_fallback_state ≡ s.in_fallback_state)
unfolding write_fallback recycle
write_fallback-keeps id status d s k = elim (Bool-cases (ltb (2 ^ 32 - 1 - 16) s.send_buf.len)) [
  | inl long ↦ simp long (refl, refl, refl)
  | inr fits ↦ simp fits (refl, refl, refl)
]

-- The fallback state behind a flush.
abbrev pub falls_back : StreamInner → Bool
falls_back s = not s.send_buf.is_from_shm || s.in_fallback_state

send_on-Spent :
    (id : ℕ) (ws : List Meanwhile) (d : Delivery) (s : StreamInner) (k : Link)
    → let s' = (send_on id ws d s k).1 in
      Spent s.recv_buf s.pending_data s' × (s'.in_fallback_state ≡ falls_back s)
unfolding send_on
send_on-Spent id ws d s k =
    let s₁ = record s { in_fallback_state = falls_back s } in
    let (recv, pending, fallback) = write_fallback-keeps id opened d s₁ k in
    of_both
      (λ (r : Flushed).
        Spent s.recv_buf s.pending_data r.1 × (r.1.in_fallback_state ≡ falls_back s))
      (falls_back s) (clean-Spends s₁ (write_fallback id opened d s₁ k) recv pending fallback)
      (after_put-Spends (Queue.put k.send_queue (element_of id s₁) k.shm)
        (retry_put (take 10 ws) id s₁) s₁ k (λ k'. retry_put-Spends (take 10 ws) id s₁ k'))

done-is_from_shm :
    (bm : BufferManager) (b : LinkedBuffer) (m : Shm) → (done bm b m).0.is_from_shm ≡ b.is_from_shm
unfolding done
done-is_from_shm bm b m =
    of_both (λ (r : LinkedBuffer × Shm). r.0.is_from_shm ≡ b.is_from_shm) b.is_from_shm refl refl

module _ (id : ℕ) (ws : List Meanwhile) (d : Delivery) (s : StreamInner) (k : Link) where
  flush-empty : s.send_buf.len ≡ 0 → flush id ws d s k ≡ (ok tt, s, k)
  unfolding flush Linked.is_empty
  flush-empty h = let e : (s.send_buf.len == 0) ≡ true = ground (arith, h) in simp e refl

  flush-not_open :
      s.send_buf.len ≢ 0 → s.state ≢ opened → flush id ws d s k ≡ recycle_and_fail stream_closed s k
  unfolding flush Linked.is_empty
  flush-not_open h g =
      let e : (s.send_buf.len == 0) ≡ false = ground (arith, h) in
      let f : (s.state == opened) ≡ false = ground (arith, g) in simp (e, f) refl

  -- What `done` leaves of the stream and the session.
  abbrev finished : StreamInner
  finished = record s { send_buf = (done k.bm s.send_buf k.shm).0 }

  abbrev told : Link
  told = record k { shm = (done k.bm s.send_buf k.shm).1 }

  flush-open :
      s.send_buf.len ≢ 0 → s.state ≡ opened → flush id ws d s k ≡ send_on id ws d finished told
  unfolding flush Linked.is_empty
  flush-open h g =
      let e : (s.send_buf.len == 0) ≡ false = ground (arith, h) in
      let f : (s.state == opened) ≡ true = ground (arith, g) in simp (e, f) refl

-- What a flush may leave.
abbrev pub Flushes : StreamInner → Link → Flushed → Type 0
Flushes s k (res, s', k') =
    ((s.send_buf.len ≡ 0) × (res ≡ ok tt) × (s' ≡ s) × (k' ≡ k))
    ⊎ ((s.send_buf.len ≢ 0)
        × Spent s.recv_buf s.pending_data s'
        × (((s.state ≡ opened) × (s'.in_fallback_state ≡ falls_back s))
            ⊎ ((s.state ≢ opened)
                × (res ≡ err stream_closed)
                × (s'.in_fallback_state ≡ s.in_fallback_state))))

-- Flushing a buffer with bytes in it, whatever the queue, the socket and the other processes do in
-- the meantime: the send buffer ends up empty and ready for shared memory, and the reading side is
-- as it was. On a stream that is not open the result is an error and the fallback state stays;
-- otherwise the stream is in the fallback state afterwards exactly when it was before or the buffer
-- holds bytes outside shared memory. Flushing an empty buffer changes nothing.
pub flush_lem :
    (id : ℕ) (ws : List Meanwhile) (d : Delivery) (s : StreamInner) (k : Link)
    → Flushes s k (flush id ws d s k)
flush_lem id ws d s k = elim (Bool-cases (s.send_buf.len == 0)) [
  | inl h ↦
      let empty : s.send_buf.len ≡ 0 = ground (arith, h) in
      subst (Flushes s k) (sym (flush-empty id ws d s k empty)) (inl (empty, refl, refl, refl))
  | inr h ↦
      let some_bytes : s.send_buf.len ≢ 0 = ground (arith, h) in
      elim (Bool-cases (s.state == opened)) [
        | inl g ↦
            let is_open : s.state ≡ opened = ground (arith, g) in
            let (spent, same) = send_on-Spent id ws d (finished id ws d s k) (told id ws d s k) in
            let from_shm = done-is_from_shm k.bm s.send_buf k.shm in
            subst (Flushes s k) (sym (flush-open id ws d s k some_bytes is_open)) (
              inr (
                some_bytes,
                spent,
                inl (is_open, same ∙ ap (λ (b : Bool). not b || s.in_fallback_state) from_shm),
              ))
        | inr g ↦
            let not_open : s.state ≢ opened = ground (arith, g) in
            let (spent, same) = recycle_and_fail-Spends stream_closed s k in
            subst (Flushes s k) (sym (flush-not_open id ws d s k some_bytes not_open))
              (inr (some_bytes, spent, inr (not_open, refl, same)))
      ]
]
