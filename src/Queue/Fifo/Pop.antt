-- ===== src/Queue/Fifo/Pop.antt =====
-- Queue::pop against the specification.
use shmipc_cpp.Common.{suc, ◌+◌, ◌-◌, ◌<◌, ◌≡◌, sym, ap, ◌∙◌, ap₂, [], ◌∷◌, arith}
use native.Mathlib.Decide.{dec_lt}
use shmipc_cpp.Shm.{Shm, store_le}
use shmipc_cpp.Shm.Laws.{load_le-store_le_ne, load_le-store_le_self}
use shmipc_cpp.Error.{ok, err, queue_empty}
use shmipc_cpp.Queue.{Queue, load_element, load_head, load_tail, pop}
use shmipc_cpp.Queue.Layout.{element_at, IsValid, load_element-store_le_ne}
use shmipc_cpp.Queue.Fifo.{Fifo, dequeue, contents, window, window_ext, window_of_pos}

module _ (q : Queue) (m : Shm) (v : IsValid q m) where
  -- The memory with the head moved.
  abbrev pub removed : Shm
  removed = store_le 8 m q.head_at (load_head q m + 1)

  pub tail-removed : load_tail q removed ≡ load_tail q m
  tail-removed =
      load_le-store_le_ne 8 8 m q.tail_at q.head_at (load_head q m + 1) (omega (arith, v))

  module _ (some_left : load_head q m < load_tail q m) where
    pub head-removed : load_head q removed ≡ load_head q m + 1
    head-removed = load_le-store_le_self 8 m q.head_at (load_head q m + 1) (omega (arith, v))

    contents-removed :
        contents q m ≡ load_element m (element_at q (load_head q m)) ∷ contents q removed
    unfolding contents
    contents-removed =
        window_of_pos q m (load_head q m) (load_tail q m - load_head q m) (omega arith)
        ∙ ap (λ (l : Fifo). load_element m (element_at q (load_head q m)) ∷ l)
            (window_ext q m removed (suc (load_head q m)) (load_tail q m - load_head q m - 1)
                (λ j p r. sym (
                  load_element-store_le_ne 8 (element_at q j) q.head_at (load_head q m + 1) m
                    (omega (arith, v))))
              ∙ ap₂ (window q removed) (omega (arith, head-removed))
                  (omega (arith, head-removed, tail-removed)))

    removed-IsValid : IsValid q removed
    removed-IsValid = record {
      tail_laid = v.tail_laid;
      flag_laid = v.flag_laid;
      elements_laid = v.elements_laid;
      cap_pos = v.cap_pos;
      cap_fits = v.cap_fits;
      ordered = omega (arith, head-removed, tail-removed);
      bounded = omega (arith, v, head-removed, tail-removed);
      no_overflow = omega (arith, v, tail-removed);
    }

    pub pop_ok : pop q m ≡ (ok (load_element m (element_at q (load_head q m))), removed)
    unfolding pop
    pop_ok = ground (arith, v)

  pub pop_empty : load_head q m ≡ load_tail q m → pop q m ≡ (err queue_empty, m)
  unfolding pop
  pop_empty h = ground (arith, v)

  pub contents_of_eq : load_head q m ≡ load_tail q m → contents q m ≡ []
  unfolding contents window
  contents_of_eq h = let e : load_tail q m - load_head q m ≡ 0 = omega arith in rw e

-- `pop` on a valid queue returns what the queue of its contents returns, leaves the memory holding
-- the rest, and keeps the queue valid.
pub pop_refines :
    (q : Queue) (m : Shm)
    → IsValid q m
    → let (r, m') = pop q m in ((r, contents q m') ≡ dequeue (contents q m)) × IsValid q m'
unfolding dequeue
pop_refines q m v = elim (dec_lt (load_head q m) (load_tail q m)) [
  | yes left ↦ rw (pop_ok q m v left) (rw (contents-removed q m v left), removed-IsValid q m v left)
  | no gone ↦
      let e : load_head q m ≡ load_tail q m = omega (arith, v) in
      rw (pop_empty q m v e) (rw (contents_of_eq q m v e), v)
]

-- `pop` leaves the tail alone.
pub tail-pop : (q : Queue) (m : Shm) → IsValid q m → load_tail q (pop q m).1 ≡ load_tail q m
tail-pop q m v = elim (dec_lt (load_head q m) (load_tail q m)) [
  | yes left ↦ rw (pop_ok q m v left) (tail-removed q m v)
  | no gone ↦ rw (pop_empty q m v (omega (arith, v)))
]
