-- ===== src/Queue/Wakeup/Safety.antt =====
-- No wake-up is lost.
use shmipc_cpp.Common.{
  ℕ, suc, ◌+◌, ◌^◌, ◌<◌, ◌≡◌, ◌≢◌, ◌⊎◌, inl, inr, refl, sym, ap, ◌∙◌, true, false, arith, length,
  subst,
}
use shmipc_cpp.Shm.{Shm, store_le}
use shmipc_cpp.Shm.Laws.{load_le-store_le_self}
use shmipc_cpp.Error.{Result}
use shmipc_cpp.Queue.{
  Queue, QueueElement, load_flag, load_tail, size, put, pop, mark_working, clear_flag, set_flag,
  create_from_bytes,
}
use shmipc_cpp.Queue.Layout.{IsElement, IsValid}
use shmipc_cpp.Queue.Fifo.{contents}
use shmipc_cpp.Queue.Fifo.Put.{put_refines}
use shmipc_cpp.Queue.Fifo.Pop.{pop_refines}
use shmipc_cpp.Queue.Fifo.Run.{create_lem}
use shmipc_cpp.Queue.Flag.{flag-put, flag-pop, flagged-IsValid, size-length}
use shmipc_cpp.Queue.Wakeup.{
  Consumer, waiting, popping, emptied, cleared, restoring, Wire, Step, puts, wakes, passes,
  receives, pops, drains, clears, finishes, resumes, restores, Reach, here, next, fresh_wire,
}

-- What the flag `f` promises the consumer at each of its places: `n` elements are queued, `w` calls
-- are about to wake it, `e` events are on their way.
abbrev Promise : Consumer → ℕ → ℕ → ℕ → ℕ → Type 0
Promise waiting f n w e = ((f ≡ 1) × (0 < e)) ⊎ ((f ≡ 0) × ((n ≡ 0) ⊎ (0 < w)))
Promise popping f n w e = (f ≡ 0) ⊎ (f ≡ 1)
Promise emptied f n w e = (f ≡ 0) ⊎ (f ≡ 1)
Promise cleared f n w e = ((f ≡ 1) × (0 < e)) ⊎ (f ≡ 0)
Promise restoring f n w e = ((f ≡ 1) × (0 < e)) ⊎ (f ≡ 0)

record Inv (q : Queue) (s : Wire) : Type 0 where
  valid : IsValid q s.shm
  promise : Promise s.consumer (load_flag q s.shm) (size q s.shm) s.waking s.events

-- A further call about to wake the consumer keeps the promise, whatever it queued.
Promise-put : (c : Consumer) (f n k w e : ℕ) → Promise c f n w e → Promise c f k (suc w) e
Promise-put waiting f n k w e p = ground arith
Promise-put _ f n k w e p = p

-- So does the call that marks the consumer and sends an event,
Promise-wake : (c : Consumer) (n k w v e : ℕ) → Promise c 0 n w e → Promise c 1 k v (suc e)
Promise-wake waiting n k w v e p = inl (refl, omega arith)
Promise-wake popping n k w v e p = inr refl
Promise-wake emptied n k w v e p = inr refl
Promise-wake cleared n k w v e p = inl (refl, omega arith)
Promise-wake restoring n k w v e p = inl (refl, omega arith)

-- and the call that finds it marked.
Promise-pass : (c : Consumer) (f n w v e : ℕ) → f ≢ 0 → Promise c f n w e → Promise c f n v e
Promise-pass waiting f n w v e h p = ground arith
Promise-pass _ f n w v e h p = p

mark_working-true :
    (q : Queue) (m m' : Shm)
    → mark_working q m ≡ (true, m')
    → (load_flag q m ≡ 0) × (store_le 4 m q.flag_at 1 ≡ m')
unfolding mark_working
mark_working-true q m m' h = ground arith

mark_working-false :
    (q : Queue) (m m' : Shm) → mark_working q m ≡ (false, m') → (load_flag q m ≢ 0) × (m ≡ m')
unfolding mark_working
mark_working-false q m m' h = ground arith

-- The promise at a consumer that is known.
Promise-at :
    {q : Queue} (s : Wire) (c : Consumer)
    → Inv q s
    → s.consumer ≡ c
    → Promise c (load_flag q s.shm) (size q s.shm) s.waking s.events
Promise-at {q} s c i e =
    subst (λ (k : Consumer). Promise k (load_flag q s.shm) (size q s.shm) s.waking s.events) e
      i.promise

puts-Inv :
    (q : Queue) (s : Wire) (e : QueueElement)
    → IsElement e
    → load_tail q s.shm + 1 < 2 ^ 63
    → Inv q s
    → Inv q (record s { shm = (put q e s.shm).1; waking = suc s.waking })
puts-Inv q s e b room i =
    let same = flag-put q e s.shm i.valid b room in
    record {
      valid = (put_refines q e s.shm i.valid b room).1;
      promise =
          subst (λ (f : ℕ). Promise s.consumer f (size q (put q e s.shm).1) (suc s.waking) s.events)
            (sym same)
            (Promise-put s.consumer _ (size q s.shm) (size q (put q e s.shm).1) _ _ i.promise);
    }

wakes-Inv :
    (q : Queue) (s : Wire) (w : ℕ)
    → load_flag q s.shm ≡ 0
    → Inv q s
    → Inv q (record s { shm = store_le 4 s.shm q.flag_at 1; waking = w; events = suc s.events })
wakes-Inv q s w z i =
    let marked : ℕ → Type 0 =
      λ (f : ℕ). Promise s.consumer f (size q (store_le 4 s.shm q.flag_at 1)) w (suc s.events) in
    let was =
      subst (λ (f : ℕ). Promise s.consumer f (size q s.shm) s.waking s.events) z i.promise in
    record {
      valid = flagged-IsValid q s.shm i.valid 1;
      promise =
          subst marked (sym (load_le-store_le_self 4 s.shm q.flag_at 1 (omega arith)))
            (Promise-wake s.consumer (size q s.shm) _ s.waking w s.events was);
    }

pops-Inv :
    (q : Queue) (s : Wire) (m : Shm) (c : Consumer)
    → s.consumer ≡ popping
    → (c ≡ popping) ⊎ (c ≡ emptied)
    → (pop q s.shm).1 ≡ m
    → Inv q s
    → Inv q (record s { shm = m; consumer = c })
pops-Inv q s m c at_c from h i =
    subst (λ (k : Shm). Inv q (record s { shm = k; consumer = c })) h
      (record {
        valid = (pop_refines q s.shm i.valid).1;
        promise = ground (arith, flag-pop q s.shm i.valid, Promise-at s popping i at_c);
      })

clears-Inv :
    (q : Queue) (s : Wire)
    → Inv q s
    → Inv q (record s { shm = store_le 4 s.shm q.flag_at 0; consumer = cleared })
clears-Inv q s i = record {
  valid = flagged-IsValid q s.shm i.valid 0;
  promise = inr (load_le-store_le_self 4 s.shm q.flag_at 0 (omega arith));
}

restores-Inv :
    (q : Queue) (s : Wire)
    → Inv q s
    → Inv q (record s { shm = store_le 4 s.shm q.flag_at 1; consumer = popping })
restores-Inv q s i = record {
  valid = flagged-IsValid q s.shm i.valid 1;
  promise = inr (load_le-store_le_self 4 s.shm q.flag_at 1 (omega arith));
}

Step-Inv : {q : Queue} {s t : Wire} → Step q s t → Inv q s → Inv q t
unfolding clear_flag set_flag
Step-Inv {q} {s} (puts e m b room h d) i =
    rw (d, ← ap (λ (r : Result (Unit {0}) × Shm). r.1) h) (puts-Inv q s e b room i)
Step-Inv {q} {s} (wakes w m hw h d) i =
    let (z, e) = mark_working-true q s.shm m h in rw (d, ← e) (wakes-Inv q s w z i)
Step-Inv {q} {s} (passes w m hw h d) i =
    let (z, e) = mark_working-false q s.shm m h in
    rw (d, ← e)
      (record {
        valid = i.valid;
        promise = Promise-pass s.consumer _ (size q s.shm) s.waking w s.events z i.promise;
      })
Step-Inv {q} {s} (receives n c h d) i =
    rw d (record { valid = i.valid; promise = ground (arith, Promise-at s waiting i c) })
Step-Inv {q} {s} (pops e m c h d) i = rw d (
    subst (λ (k : Consumer). Inv q (record s { shm = m; consumer = k })) (sym c)
      (pops-Inv q s m popping c (inl refl) (ap (λ (r : Result QueueElement × Shm). r.1) h) i))
Step-Inv {q} {s} (drains x m c h d) i =
    rw d (pops-Inv q s m emptied c (inr refl) (ap (λ (r : Result QueueElement × Shm). r.1) h) i)
Step-Inv {q} {s} (clears c d) i = rw d (clears-Inv q s i)
Step-Inv {q} {s} (finishes c h d) i =
    rw d (record { valid = i.valid; promise = ground (arith, Promise-at s cleared i c) })
Step-Inv {q} {s} (resumes c h d) i =
    rw d (record { valid = i.valid; promise = Promise-at s cleared i c })
Step-Inv {q} {s} (restores c d) i = rw d (restores-Inv q s i)

Reach-Inv : {q : Queue} {s t : Wire} → Reach q s t → Inv q s → Inv q t
Reach-Inv here i = i
Reach-Inv (next r st) i = Step-Inv st (Reach-Inv r i)

-- From a freshly created queue of capacity 1 to 2 ^ 32 - 1 on, in every interleaving: when the
-- consumer waits, no call is between its `put` and its wake-up, and elements are queued, a polling
-- event is on its way.
pub no_lost_wakeup :
    (m : Shm) (data_at cap : ℕ) (s : Wire)
    → 0 < cap
    → cap < 2 ^ 32
    → let (q, m') = create_from_bytes m data_at cap in
      Reach q (fresh_wire m') s
      → s.consumer ≡ waiting
      → s.waking ≡ 0
      → 0 < length (contents q s.shm)
      → 0 < s.events
no_lost_wakeup m data_at cap s p f r c w n =
    let (q, m') = create_from_bytes m data_at cap in
    let (v, empty, flag, _, _) = create_lem m data_at cap p f in
    let start : Inv q (fresh_wire m') = record {
      valid = v;
      promise = inr (flag, inl (size-length q m' v ∙ ap length empty));
    } in
    let i = Reach-Inv r start in
    ground (arith, Promise-at s waiting i c, size-length q s.shm i.valid)
