-- ===== src/Buffer/Slice/Handover.antt =====
-- A slice handed to the peer through its header: `update` on one side, and the constructor from
-- the header (as read_buffer_slice calls it) on the other.
use shmipc_cpp.Common.{
  ℕ, ◌+◌, ◌-◌, ◌%◌, ◌≤◌, ◌<◌, ◌^◌, ◌≡◌, ap, ap₂, ◌∙◌, sym, arith, Option, none, some, true, subst,
}
use shmipc_cpp.Shm.{Shm, load_le, store_le}
use shmipc_cpp.Shm.Laws.{load_le-store_le_ne, load_le-store_le_self}
use shmipc_cpp.Shm.Span.{read_span, read_span-store_le_ne}
use shmipc_cpp.Buffer.Header
use shmipc_cpp.Buffer.Header.Laws.{has_next-link_next, next_buffer_offset-link_next}
use shmipc_cpp.Buffer.Slice.{
  BufferSlice, Place, in_shm, new_slice, update, update_header, size, bytes_at,
}
use shmipc_cpp.Buffer.Slice.Window.{IsValid, pending, size_lem}

-- A slice that stands behind its header at `h`, with nothing read yet on this side.
pub record IsHeld (s : BufferSlice) (h : ℕ) (m : Shm) : Type 0 where
  pub header_is : s.buffer_header ≡ some h
  pub place_is : s.place ≡ in_shm (h + Header.buffer_header_size)
  pub cap_is : Header.cap m h ≡ s.cap
  pub unread : s.read_index ≡ s.start
  pub valid : IsValid s

-- What `link_next` leaves alone.
module _ (m : Shm) (h next : ℕ) where
  load-link_next :
      (k a : ℕ) → a + k ≤ h + 12 → load_le k (Header.link_next m h next) a ≡ load_le k m a
  unfolding Header.link_next
  load-link_next k a d =
      load_le-store_le_ne k 1 _ a (h + 16) _ (omega arith)
      ∙ load_le-store_le_ne k 4 m a (h + 12) next (omega arith)

  read_span-link_next :
      (a n : ℕ) → h + 20 ≤ a → read_span (Header.link_next m h next) a n ≡ read_span m a n
  unfolding Header.link_next
  read_span-link_next a n d =
      read_span-store_le_ne 1 _ a n (h + 16) _ (omega arith)
      ∙ read_span-store_le_ne 4 m a n (h + 12) next (omega arith)

-- The header after `update` without a link.
module _ (m : Shm) (h n start : ℕ) (fits : n < 2 ^ 32) (start_fits : start < 2 ^ 32) where
  abbrev flushed : Shm
  flushed = store_le 4 (store_le 4 m (h + 4) (n % 2 ^ 32)) (h + 8) start

  size-flushed : load_le 4 flushed (h + 4) ≡ n
  size-flushed =
      load_le-store_le_ne 4 4 _ (h + 4) (h + 8) start (omega arith)
      ∙ load_le-store_le_self 4 m (h + 4) (n % 2 ^ 32) (omega arith)
      ∙ omega arith

  start-flushed : load_le 4 flushed (h + 8) ≡ start
  start-flushed = load_le-store_le_self 4 _ (h + 8) start start_fits

  cap-flushed : load_le 4 flushed (h + 0) ≡ load_le 4 m (h + 0)
  cap-flushed =
      load_le-store_le_ne 4 4 _ (h + 0) (h + 8) start (omega arith)
      ∙ load_le-store_le_ne 4 4 m (h + 0) (h + 4) (n % 2 ^ 32) (omega arith)

  read_span-flushed : (a k : ℕ) → h + 20 ≤ a → read_span flushed a k ≡ read_span m a k
  read_span-flushed a k d =
      read_span-store_le_ne 4 _ a k (h + 8) start (omega arith)
      ∙ read_span-store_le_ne 4 m a k (h + 4) (n % 2 ^ 32) (omega arith)

  has_next-flushed : Header.has_next flushed h ≡ Header.has_next m h
  unfolding Header.has_next
  has_next-flushed = rw (
    load_le-store_le_ne 1 4 (store_le 4 m (h + 4) (n % 2 ^ 32)) (h + 16) (h + 8) start
        (omega arith),
    load_le-store_le_ne 1 4 m (h + 16) (h + 4) (n % 2 ^ 32) (omega arith),
  )

-- What the peer reads back, when the header says size `n`, start and capacity and the bytes are
-- the same.
rebuilt :
    (s : BufferSlice) (h : ℕ) (m m' : Shm) (len : ℕ)
    → IsHeld s h m
    → Header.size m' h ≡ s.write_index - s.read_index
    → Header.start m' h ≡ s.start
    → Header.cap m' h ≡ Header.cap m h
    → ((a n : ℕ) → h + 20 ≤ a → read_span m' a n ≡ read_span m a n)
    → let s' = new_slice m' (some h) (h + 20) len s.offset_in_shm true in
      (pending s' m' ≡ pending s m) × (s'.cap ≡ s.cap) × IsValid s'
unfolding new_slice
rebuilt s h m m' len held n st c same = (
  ap₂ (read_span m') (omega (arith, held)) (omega (arith, held))
      ∙ same (h + 20 + s.read_index) (s.write_index - s.read_index) (omega arith)
      ∙ sym (
          ap (λ (p : Place). bytes_at p m s.read_index (s.write_index - s.read_index))
            held.place_is),
  c ∙ held.cap_is,
  omega (arith, held, held.valid),
)

-- What the header says of a next slice after `update`.
abbrev pub NextIs : Shm → Shm → ℕ → Option ℕ → Type 0
NextIs m m' h none = Header.has_next m' h ≡ Header.has_next m h
NextIs m m' h (some next) = (Header.has_next m' h ≡ true) × (Header.next_buffer_offset m' h ≡ next)

abbrev pub OffsetFits : Option ℕ → Type 0
OffsetFits none = Unit {0}
OffsetFits (some next) = next < 2 ^ 32

-- What the peer is handed.
abbrev pub Handed : BufferSlice → ℕ → Shm → Option ℕ → ℕ → Shm → Type 0
Handed s h m next len m' =
    let s' = new_slice m' (some h) (h + 20) len s.offset_in_shm true in
    (pending s' m' ≡ pending s m) × (s'.cap ≡ s.cap) × IsValid s' × NextIs m m' h next

update_header-Handed :
    (s : BufferSlice) (h : ℕ) (m : Shm) (next : Option ℕ) (len : ℕ)
    → IsHeld s h m
    → OffsetFits next
    → Handed s h m next len (update_header m (some h) (size s) s.start next)
unfolding update_header Header.set_start Header.set_size Header.size Header.start Header.cap
update_header-Handed s h m none len held fits =
    let n = size s in
    let n_fits : n < 2 ^ 32 = omega (arith, held.valid, size_lem s held.valid) in
    let start_fits : s.start < 2 ^ 32 = omega (arith, held, held.valid) in
    let m' = store_le 4 (store_le 4 m (h + 4) (n % 2 ^ 32)) (h + 8) s.start in
    let (a, b, c) =
      rebuilt s h m m' len held
        (size-flushed m h n s.start n_fits start_fits ∙ size_lem s held.valid)
        (start-flushed m h n s.start n_fits start_fits)
        (cap-flushed m h n s.start n_fits start_fits)
        (read_span-flushed m h n s.start n_fits start_fits) in
    (a, b, c, has_next-flushed m h n s.start n_fits start_fits)
update_header-Handed s h m (some next) len held fits =
    let n = size s in
    let n_fits : n < 2 ^ 32 = omega (arith, held.valid, size_lem s held.valid) in
    let start_fits : s.start < 2 ^ 32 = omega (arith, held, held.valid) in
    let m₁ = store_le 4 (store_le 4 m (h + 4) (n % 2 ^ 32)) (h + 8) s.start in
    let m' = Header.link_next m₁ h next in
    let (a, b, c) =
      rebuilt s h m m' len held
        (load-link_next m₁ h next 4 (h + 4) (omega arith)
          ∙ size-flushed m h n s.start n_fits start_fits
          ∙ size_lem s held.valid)
        (load-link_next m₁ h next 4 (h + 8) (omega arith)
          ∙ start-flushed m h n s.start n_fits start_fits)
        (load-link_next m₁ h next 4 (h + 0) (omega arith)
          ∙ cap-flushed m h n s.start n_fits start_fits)
        (λ a k d.
          read_span-link_next m₁ h next a k d
          ∙ read_span-flushed m h n s.start n_fits start_fits a k d) in
    (a, b, c, (has_next-link_next m₁ h next, next_buffer_offset-link_next m₁ h next fits))

-- A slice that stands behind its header, is valid, has the capacity that its header says, and of
-- which its owner has read nothing (the read index is still where the data starts), flushed with
-- `update`, with a next offset below 2 ^ 32 if it has a successor: for the process that builds it
-- again from the header it is a valid slice of the same capacity with the same unread bytes. One
-- with a successor is linked to its offset, and one without keeps the link flag that it had.
pub handover_lem :
    (s : BufferSlice) (h : ℕ) (m : Shm) (next : Option ℕ) (len : ℕ)
    → IsHeld s h m
    → OffsetFits next
    → let m' = update s next m in
      let s' = new_slice m' (some h) (h + 20) len s.offset_in_shm true in
      (pending s' m' ≡ pending s m) × (s'.cap ≡ s.cap) × IsValid s' × NextIs m m' h next
unfolding update
handover_lem s h m next len held fits =
    subst (Handed s h m next len)
      (sym (ap (λ (k : Option ℕ). update_header m k (size s) s.start next) held.header_is))
      (update_header-Handed s h m next len held fits)
