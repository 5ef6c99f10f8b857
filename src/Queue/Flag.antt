-- ===== src/Queue/Flag.antt =====
-- The working flag beside the ring: which operation changes which.
use shmipc_cpp.Common.{ℕ, ◌+◌, ◌-◌, ◌^◌, ◌<◌, ◌≡◌, refl, ◌∙◌, arith, true, not, false, ◌==◌, length}
use native.Mathlib.Decide.{dec_lt, ℕ_discrete}
use shmipc_cpp.Shm.{Shm, store_le}
use shmipc_cpp.Shm.Laws.{load_le-store_le_ne, load_le-store_le_self}
use shmipc_cpp.Queue.{
  Queue, QueueElement, load_head, load_tail, load_flag, put, pop, size, mark_working,
  mark_not_working, consumer_is_working, clear_flag, set_flag,
}
use shmipc_cpp.Queue.Layout.{IsElement, IsValid, element_at, load_le-store_element_ne}
use shmipc_cpp.Queue.Fifo.{contents, length-contents, window_ext}
use shmipc_cpp.Queue.Layout.{load_element-store_le_ne}
use shmipc_cpp.Queue.Fifo.Put.{put_ok, put_full}
use shmipc_cpp.Queue.Fifo.Pop.{pop_ok, pop_empty}

-- The flag is left alone by `put` and `pop`.
pub flag-put :
    (q : Queue) (e : QueueElement) (m : Shm)
    → IsValid q m
    → IsElement e
    → load_tail q m + 1 < 2 ^ 63
    → load_flag q (put q e m).1 ≡ load_flag q m
flag-put q e m v b room = elim (dec_lt (load_tail q m) (load_head q m + q.cap)) [
  | yes free ↦ rw (put_ok q e m v b room free) (
      load_le-store_le_ne 4 8 _ q.flag_at q.tail_at (load_tail q m + 1) (omega (arith, v))
      ∙ load_le-store_element_ne 4 q.flag_at (element_at q (load_tail q m)) m e (omega (arith, v)))
  | no full ↦ rw (put_full q e m v b (omega (arith, v)))
]

pub flag-pop : (q : Queue) (m : Shm) → IsValid q m → load_flag q (pop q m).1 ≡ load_flag q m
flag-pop q m v = elim (dec_lt (load_head q m) (load_tail q m)) [
  | yes left ↦
      rw (pop_ok q m v left)
        (load_le-store_le_ne 4 8 m q.flag_at q.head_at (load_head q m + 1) (omega (arith, v)))
  | no gone ↦ rw (pop_empty q m v (omega (arith, v)))
]

-- A store to the flag leaves the ring alone.
module _ (q : Queue) (m : Shm) (v : IsValid q m) (n : ℕ) where
  abbrev flagged : Shm
  flagged = store_le 4 m q.flag_at n

  head-flagged : load_head q flagged ≡ load_head q m
  head-flagged = load_le-store_le_ne 8 4 m q.head_at q.flag_at n (omega (arith, v))

  tail-flagged : load_tail q flagged ≡ load_tail q m
  tail-flagged = load_le-store_le_ne 8 4 m q.tail_at q.flag_at n (omega (arith, v))

  pub flagged-IsValid : IsValid q flagged
  flagged-IsValid = record {
    tail_laid = v.tail_laid;
    flag_laid = v.flag_laid;
    elements_laid = v.elements_laid;
    cap_pos = v.cap_pos;
    cap_fits = v.cap_fits;
    ordered = omega (arith, v, head-flagged, tail-flagged);
    bounded = omega (arith, v, head-flagged, tail-flagged);
    no_overflow = omega (arith, v, tail-flagged);
  }

  pub contents-flagged : contents q flagged ≡ contents q m
  unfolding contents
  contents-flagged =
      rw (head-flagged, tail-flagged)
        (window_ext q flagged m (load_head q m) (load_tail q m - load_head q m)
          (λ j p r. load_element-store_le_ne 4 (element_at q j) q.flag_at n m (omega (arith, v))))

  pub size-flagged : size q flagged ≡ size q m
  unfolding size
  size-flagged = rw (head-flagged, tail-flagged)

  flag-flagged : n < 2 ^ 32 → load_flag q flagged ≡ n
  flag-flagged h = load_le-store_le_self 4 m q.flag_at n h

mark_working_lem :
    (q : Queue) (m : Shm)
    → IsValid q m
    → let (was_idle, m₁) = mark_working q m in
      (was_idle ≡ not (consumer_is_working q m))
      × (consumer_is_working q m₁ ≡ true)
      × (contents q m₁ ≡ contents q m)
      × IsValid q m₁
unfolding mark_working consumer_is_working
mark_working_lem q m v = elim (ℕ_discrete (load_flag q m) 0) [
  | yes e ↦ rw e (
    refl,
    ground (arith, flag-flagged q m v 1 (omega arith)),
    contents-flagged q m v 1,
    flagged-IsValid q m v 1,
  )
  | no ne ↦ (ground arith, ground arith, ground arith, ground (arith, v))
]

-- What `size` reads is the length of the contents.
pub size-length : (q : Queue) (m : Shm) → IsValid q m → size q m ≡ length (contents q m)
unfolding size
size-length q m v = omega (arith, v, length-contents q m)

mark_not_working_lem :
    (q : Queue) (m : Shm)
    → IsValid q m
    → let (drained, m₂) = mark_not_working q m in
      (drained ≡ (length (contents q m) == 0))
      × (consumer_is_working q m₂ ≡ not drained)
      × (contents q m₂ ≡ contents q m)
      × IsValid q m₂
unfolding mark_not_working consumer_is_working clear_flag set_flag
mark_not_working_lem q m v =
    let m₁ = store_le 4 m q.flag_at 0 in
    let v₁ = flagged-IsValid q m v 0 in
    let e = size-flagged q m v 0 ∙ size-length q m v in
    rw e (elim (ℕ_discrete (length (contents q m)) 0) [
      | yes z ↦
          rw z
            (refl, ground (arith, flag-flagged q m v 0 (omega arith)), contents-flagged q m v 0, v₁)
      | no nz ↦
          let t : (length (contents q m) == 0) ≡ false = ground arith in
          rw t (
            refl,
            ground (arith, flag-flagged q m₁ v₁ 1 (omega arith)),
            contents-flagged q m₁ v₁ 1 ∙ contents-flagged q m v 0,
            flagged-IsValid q m₁ v₁ 1,
          )
    ])

-- The three operations on the flag, on a valid queue: `mark_working` says whether the consumer was
-- not marked working and marks it; `mark_not_working` clears the mark exactly when the queue is
-- empty and says so, and leaves the consumer marked otherwise. Both keep the queue valid and its
-- contents as they were, and `consumer_is_working` reads the mark.
pub flag_lem :
    (q : Queue) (m : Shm)
    → IsValid q m
    → let (was_idle, m₁) = mark_working q m in
      let (drained, m₂) = mark_not_working q m in
      (was_idle ≡ not (consumer_is_working q m))
      × (consumer_is_working q m₁ ≡ true)
      × (drained ≡ (length (contents q m) == 0))
      × (consumer_is_working q m₂ ≡ not drained)
      × (contents q m₁ ≡ contents q m)
      × (contents q m₂ ≡ contents q m)
      × IsValid q m₁
      × IsValid q m₂
flag_lem q m v =
    let (a₀, a₁, a₂, a₃) = mark_working_lem q m v in
    let (b₀, b₁, b₂, b₃) = mark_not_working_lem q m v in (a₀, a₁, b₀, b₁, a₂, b₂, a₃, b₃)
