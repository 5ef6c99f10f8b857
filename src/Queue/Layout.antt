-- ===== src/Queue/Layout.antt =====
-- Which bytes of the mapping an operation of Queue touches, and the invariant of a mapped queue.
use shmipc_cpp.Common.{ℕ, ◌+◌, ◌*◌, ◌%◌, ◌^◌, ◌≤◌, ◌<◌, ◌≡◌, ◌∙◌, arith, mod-injective}
use shmipc_cpp.Shm.{Shm, load_le, store_le}
use native.Mathlib.Nat.{mod-lt}
use shmipc_cpp.Shm.Laws.{Disjoint, load_le-store_le_ne, load_le-store_le_self}
use shmipc_cpp.Queue.{
  Queue, QueueElement, load_head, load_tail, load_element, store_element, queue_offset,
}

-- The fields of an element are std::uint32_t.
pub record IsElement (e : QueueElement) : Type 0 where
  pub seq_id_fits : e.seq_id < 2 ^ 32
  pub offset_fits : e.offset_in_shm_buf < 2 ^ 32
  pub status_fits : e.status < 2 ^ 32

-- The addresses are those of mapping_from_bytes, and the counters do not overflow.
pub record IsValid (q : Queue) (m : Shm) : Type 0 where
  pub tail_laid : q.tail_at ≡ q.head_at + 8
  pub flag_laid : q.flag_at ≡ q.head_at + 16
  pub elements_laid : q.elements_at ≡ q.head_at + 20
  pub cap_pos : 0 < q.cap
  pub cap_fits : q.cap < 2 ^ 32
  pub ordered : load_head q m ≤ load_tail q m
  pub bounded : load_tail q m ≤ load_head q m + q.cap
  pub no_overflow : load_tail q m < 2 ^ 63

-- Reads outside the twelve bytes of an element do not see it.
pub load_le-store_element_ne :
    (k b a : ℕ) (m : Shm) (e : QueueElement)
    → Disjoint b k a 12
    → load_le k (store_element m a e) b ≡ load_le k m b
unfolding store_element
load_le-store_element_ne k b a m e d =
    load_le-store_le_ne k 4 _ b (a + 8) e.status (omega arith)
    ∙ load_le-store_le_ne k 4 _ b (a + 4) e.offset_in_shm_buf (omega arith)
    ∙ load_le-store_le_ne k 4 m b a e.seq_id (omega arith)

pub load_element-store_element_ne :
    (b a : ℕ) (m : Shm) (e : QueueElement)
    → Disjoint b 12 a 12
    → load_element (store_element m a e) b ≡ load_element m b
unfolding load_element
load_element-store_element_ne b a m e d = ground (
  arith,
  load_le-store_element_ne 4 b a m e (omega arith),
  load_le-store_element_ne 4 (b + 4) a m e (omega arith),
  load_le-store_element_ne 4 (b + 8) a m e (omega arith),
)

pub load_element-store_element_self :
    (a : ℕ) (m : Shm) (e : QueueElement) → IsElement e → load_element (store_element m a e) a ≡ e
unfolding load_element store_element
load_element-store_element_self a m e h = ground (
  arith,
  load_le-store_le_ne 4 4 m₂ a (a + 8) e.status (omega arith),
  load_le-store_le_ne 4 4 m₁ a (a + 4) e.offset_in_shm_buf (omega arith),
  load_le-store_le_self 4 m a e.seq_id h.seq_id_fits,
  load_le-store_le_ne 4 4 m₂ (a + 4) (a + 8) e.status (omega arith),
  load_le-store_le_self 4 m₁ (a + 4) e.offset_in_shm_buf h.offset_fits,
  load_le-store_le_self 4 m₂ (a + 8) e.status h.status_fits,
)
  where
    m₁ : Shm
    m₁ = store_le 4 m a e.seq_id

    m₂ : Shm
    m₂ = store_le 4 m₁ (a + 4) e.offset_in_shm_buf

-- A store of one counter or of the flag is not seen by an element.
pub load_element-store_le_ne :
    (n b a v : ℕ) (m : Shm)
    → Disjoint b 12 a n
    → load_element (store_le n m a v) b ≡ load_element m b
unfolding load_element
load_element-store_le_ne n b a v m d = ground (
  arith,
  load_le-store_le_ne 4 n m b a v (omega arith),
  load_le-store_le_ne 4 n m (b + 4) a v (omega arith),
  load_le-store_le_ne 4 n m (b + 8) a v (omega arith),
)

-- The address of the element with a given index.
abbrev pub element_at : Queue → ℕ → ℕ
element_at q index = q.elements_at + queue_offset q index

-- In range, the signed arithmetic on an index is the plain one.
pub queue_offset_lem :
    (q : Queue) (i : ℕ)
    → 0 < q.cap
    → q.cap < 2 ^ 32
    → i < 2 ^ 63
    → queue_offset q i ≡ i % q.cap * 12
queue_offset_lem q i p f h = ground (arith, mod-lt i p)

-- Two live elements do not overlap.
pub element_at-Disjoint :
    (q : Queue) (i j : ℕ)
    → 0 < q.cap
    → q.cap < 2 ^ 32
    → i < j
    → j < i + q.cap
    → j < 2 ^ 63
    → Disjoint (element_at q i) 12 (element_at q j) 12
element_at-Disjoint q i j p f h k b =
    let apart : ¬ (i % q.cap ≡ j % q.cap) =
      λ e. omega (arith, mod-injective i j q.cap (omega arith) k e) in
    rw (queue_offset_lem q i p f (omega arith), queue_offset_lem q j p f b) (omega arith)
