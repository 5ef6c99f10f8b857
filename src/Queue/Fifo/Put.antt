-- ===== src/Queue/Fifo/Put.antt =====
-- Queue::put against the specification.
use shmipc_cpp.Common.{ℕ, ◌+◌, ◌-◌, ◌^◌, ◌≤◌, ◌<◌, ◌≡◌, ◌∙◌, ap₂, [], ◌∷◌, ◌++◌, arith}
use shmipc_cpp.Shm.{Shm, load_le, store_le}
use shmipc_cpp.Shm.Laws.{load_le-store_le_ne, load_le-store_le_self}
use shmipc_cpp.Error.{ok, err, queue_full}
use shmipc_cpp.Queue.{Queue, QueueElement, load_element, store_element, load_head, load_tail, put}
use shmipc_cpp.Queue.Layout.{
  element_at, IsElement, IsValid, element_at-Disjoint, load_element-store_element_self,
  load_element-store_element_ne, load_element-store_le_ne, load_le-store_element_ne,
}
use native.Mathlib.Decide.{dec_lt}
use shmipc_cpp.Queue.Fifo.{
  Fifo, enqueue, contents, window, window-snoc, window_ext, length-contents,
}

module _ (q : Queue) (e : QueueElement) (m : Shm) (v : IsValid q m) (b : IsElement e) where
  -- The memory with the element written, before the tail moves.
  abbrev written : Shm
  written = store_element m (element_at q (load_tail q m)) e

  abbrev pub appended : Shm
  appended = store_le 8 written q.tail_at (load_tail q m + 1)

  -- The header lies below the elements.
  written-header :
      (k at_addr : ℕ)
      → at_addr + k ≤ q.elements_at
      → load_le k written at_addr ≡ load_le k m at_addr
  written-header k at_addr h =
      load_le-store_element_ne k at_addr (element_at q (load_tail q m)) m e (omega arith)

  module _ (room : load_tail q m + 1 < 2 ^ 63) where
    pub tail-appended : load_tail q appended ≡ load_tail q m + 1
    tail-appended = load_le-store_le_self 8 written q.tail_at (load_tail q m + 1) (omega arith)

    pub head-appended : load_head q appended ≡ load_head q m
    head-appended =
        load_le-store_le_ne 8 8 written q.head_at q.tail_at (load_tail q m + 1) (omega (arith, v))
        ∙ written-header 8 q.head_at (omega (arith, v))

  -- The new element stands at the old tail, and the live ones are untouched.
  element-appended : load_element appended (element_at q (load_tail q m)) ≡ e
  element-appended =
      load_element-store_le_ne 8 (element_at q (load_tail q m)) q.tail_at (load_tail q m + 1)
        written (omega (arith, v))
      ∙ load_element-store_element_self (element_at q (load_tail q m)) m e b

  live-appended :
      (j : ℕ)
      → load_head q m ≤ j
      → j < load_tail q m
      → load_tail q m < load_head q m + q.cap
      → load_element appended (element_at q j) ≡ load_element m (element_at q j)
  live-appended j p r room =
      load_element-store_le_ne 8 (element_at q j) q.tail_at (load_tail q m + 1) written
        (omega (arith, v))
      ∙ load_element-store_element_ne (element_at q j) (element_at q (load_tail q m)) m e (
          element_at-Disjoint q j (load_tail q m) v.cap_pos v.cap_fits r (omega arith)
            v.no_overflow)

  contents-appended :
      load_tail q m + 1 < 2 ^ 63
      → load_tail q m < load_head q m + q.cap
      → contents q appended ≡ contents q m ++ (e ∷ [])
  unfolding contents
  contents-appended room free =
      ap₂ (window q appended) (head-appended room)
        (omega (arith, v, head-appended room, tail-appended room))
      ∙ window-snoc q appended (load_head q m) held (load_tail q m) (omega (arith, v))
      ∙ ap₂ (λ (l : Fifo) (x : QueueElement). l ++ (x ∷ []))
          (window_ext q appended m (load_head q m) held
            (λ j p r. live-appended j p (omega (arith, v)) free))
          element-appended
    where
      held : ℕ
      held = load_tail q m - load_head q m

  pub put_full : load_tail q m ≡ load_head q m + q.cap → put q e m ≡ (err queue_full, m)
  unfolding put
  put_full h = ground (arith, v)

  pub put_ok :
      load_tail q m + 1 < 2 ^ 63
      → load_tail q m < load_head q m + q.cap
      → put q e m ≡ (ok tt, appended)
  unfolding put
  put_ok room free = ground (arith, v, written-header 8 q.tail_at (omega (arith, v)))

  appended-IsValid :
      load_tail q m + 1 < 2 ^ 63 → load_tail q m < load_head q m + q.cap → IsValid q appended
  appended-IsValid room free = record {
    tail_laid = v.tail_laid;
    flag_laid = v.flag_laid;
    elements_laid = v.elements_laid;
    cap_pos = v.cap_pos;
    cap_fits = v.cap_fits;
    ordered = omega (arith, v, head-appended room, tail-appended room);
    bounded = omega (arith, head-appended room, tail-appended room);
    no_overflow = omega (arith, tail-appended room);
  }

-- While the tail counter has room, `put` on a valid queue returns what the bounded queue of its
-- contents returns, leaves the memory holding that queue's new contents, and keeps the queue valid.
pub put_refines :
    (q : Queue) (e : QueueElement) (m : Shm)
    → IsValid q m
    → IsElement e
    → load_tail q m + 1 < 2 ^ 63
    → let (r, m') = put q e m in
      ((r, contents q m') ≡ enqueue q.cap (contents q m) e) × IsValid q m'
unfolding enqueue
put_refines q e m v b room = elim (dec_lt (load_tail q m) (load_head q m + q.cap)) [
  | yes free ↦ rw (put_ok q e m v b room free) (
    ground (arith, v, contents-appended q e m v b room free, length-contents q m),
    appended-IsValid q e m v b room free,
  )
  | no full ↦ rw (put_full q e m v b (omega (arith, v))) (ground (arith, v, length-contents q m), v)
]

-- `put` moves the tail by one at most.
pub tail-put :
    (q : Queue) (e : QueueElement) (m : Shm)
    → IsValid q m
    → IsElement e
    → load_tail q m + 1 < 2 ^ 63
    → load_tail q (put q e m).1 ≤ load_tail q m + 1
tail-put q e m v b room = elim (dec_lt (load_tail q m) (load_head q m + q.cap)) [
  | yes free ↦ rw (put_ok q e m v b room free) (omega (arith, tail-appended q e m v b room))
  | no full ↦ rw (put_full q e m v b (omega (arith, v))) (omega arith)
]
