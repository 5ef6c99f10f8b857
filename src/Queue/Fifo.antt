-- ===== src/Queue/Fifo.antt =====
-- What Queue promises: a first-in first-out queue of at most `cap` elements, and the elements that
-- a mapped queue holds, oldest first.
pub mod Put
pub mod Pop
pub mod Run
use shmipc_cpp.Common.{
  ℕ, zero, suc, ◌+◌, ◌-◌, ◌≤◌, ◌<◌, ◌≡◌, refl, ap, ◌∙◌, ap₂, List, [], ◌∷◌, ◌++◌, length, arith,
  ◌==◌, if◌then◌else◌,
}
use shmipc_cpp.Shm.{Shm}
use shmipc_cpp.Error.{Result, ok, err, queue_full, queue_empty}
use shmipc_cpp.Queue.{Queue, QueueElement, load_element, load_head, load_tail}
use shmipc_cpp.Queue.Layout.{element_at}

-- The specification.
abbrev pub Fifo : Type 0
Fifo = List QueueElement

unfoldable pub enqueue : ℕ → Fifo → QueueElement → Result (Unit {0}) × Fifo
enqueue cap l e = if length l == cap then (err queue_full, l) else (ok tt, l ++ (e ∷ []))

unfoldable pub dequeue : Fifo → Result QueueElement × Fifo
dequeue [] = (err queue_empty, [])
dequeue (e ∷ l) = (ok e, l)

-- The `n` elements from index `i` on.
unfoldable pub window : Queue → Shm → ℕ → ℕ → Fifo
window q m i zero = []
window q m i (suc n) = load_element m (element_at q i) ∷ window q m (suc i) n

unfoldable pub contents : Queue → Shm → Fifo
contents q m = window q m (load_head q m) (load_tail q m - load_head q m)

pub length-window : (q : Queue) (m : Shm) (i n : ℕ) → length (window q m i n) ≡ n
unfolding window
length-window q m i zero = refl
length-window q m i (suc n) = ap suc (length-window q m (suc i) n)

pub length-contents : (q : Queue) (m : Shm) → length (contents q m) ≡ load_tail q m - load_head q m
unfolding contents
length-contents q m = length-window q m (load_head q m) (load_tail q m - load_head q m)

pub window_ext :
    (q : Queue) (m m' : Shm) (i n : ℕ)
    → ((j : ℕ)
        → i ≤ j
        → j < i + n
        → load_element m (element_at q j) ≡ load_element m' (element_at q j))
    → window q m i n ≡ window q m' i n
unfolding window
window_ext q m m' i zero h = refl
window_ext q m m' i (suc n) h =
    ap₂ ◌∷◌ (h i (omega arith) (omega arith))
      (window_ext q m m' (suc i) n (λ j p r. h j (omega arith) (omega arith)))

pub window-snoc :
    (q : Queue) (m : Shm) (i n k : ℕ)
    → k ≡ i + n
    → window q m i (suc n) ≡ window q m i n ++ (load_element m (element_at q k) ∷ [])
unfolding window
window-snoc q m i zero k h =
    let e : i ≡ k = omega arith in ap (λ (j : ℕ). load_element m (element_at q j) ∷ []) e
window-snoc q m i (suc n) k h =
    ap (λ (l : Fifo). load_element m (element_at q i) ∷ l)
      (window-snoc q m (suc i) n k (omega arith))

-- `window` matches on `suc`.
pub window_of_pos :
    (q : Queue) (m : Shm) (i n : ℕ)
    → 0 < n
    → window q m i n ≡ load_element m (element_at q i) ∷ window q m (suc i) (n - 1)
unfolding window
window_of_pos q m i zero h = elim h [ ]
window_of_pos q m i (suc n) h =
    ap (λ (k : ℕ). load_element m (element_at q i) ∷ window q m (suc i) k) (omega arith)
