-- ===== src/Buffer/Header/Laws.antt =====
-- The flag byte and the link of a header: what each method does to what the others read.
use Prim.Native.Nat.{bit_and, bit_or}
use shmipc_cpp.Common.{
  ℕ, zero, suc, ◌+◌, ◌<◌, ◌^◌, ◌≡◌, refl, ◌∙◌, Bool, true, false, ◌&&◌, arith, ltb, if◌then◌else◌,
}
use shmipc_cpp.Shm.{Shm, store_le, load_byte}
use shmipc_cpp.Shm.Laws.{Disjoint, load_le-lt, load_le-store_le_ne, load_le-store_le_self}
use shmipc_cpp.Buffer.Header.{
  next_buffer_offset, has_next, clear_flag, set_in_used, is_in_used, link_next, cap, size, start,
}

-- A test that every byte passes passes on a given one.
passes : (ℕ → Bool) → ℕ → Bool
passes test zero = true
passes test (suc top) = if test top then passes test top else false

passes-at : (test : ℕ → Bool) (top b : ℕ) → b < top → passes test top ≡ true → test b ≡ true
unfolding passes
passes-at test zero b below all = absurd (omega arith)
passes-at test (suc top) b below all = ground (arith, passes-at test top b)

-- Setting the link bit gives a byte with the link bit.
abbrev link_bit : ℕ → Bool
link_bit b = ltb (bit_or b 1) 256 && ltb 0 (bit_and (bit_or b 1) 1)

passes-link_bit : passes link_bit 256 ≡ true
unfolding passes
passes-link_bit = refl

link_bit_set : (b : ℕ) → b < 256 → (bit_or b 1 < 256) × (ltb 0 (bit_and (bit_or b 1) 1) ≡ true)
link_bit_set b below = ground (arith, passes-at link_bit 256 b below passes-link_bit)

byte-lt : (m : Shm) (a : ℕ) → load_byte m a < 256
byte-lt m a = load_le-lt 1 m a

-- Setting the link bit of the flag byte, whatever the byte holds.
pub has_next_or :
    (m : Shm) (p : ℕ) → has_next (store_le 1 m (p + 16) (bit_or (load_byte m (p + 16)) 1)) p ≡ true
unfolding has_next
has_next_or m p =
    let (fits, on) = link_bit_set (load_byte m (p + 16)) (byte-lt m (p + 16)) in
    rw (load_le-store_le_self 1 m (p + 16) (bit_or (load_byte m (p + 16)) 1) fits) on

module _ (m : Shm) (p : ℕ) where
  -- A linked header has a next one, at the offset that was linked.
  pub has_next-link_next : (next : ℕ) → has_next (link_next m p next) p ≡ true
  unfolding link_next
  has_next-link_next next = has_next_or (store_le 4 m (p + 12) next) p

  pub next_buffer_offset-link_next :
      (next : ℕ) → next < 2 ^ 32 → next_buffer_offset (link_next m p next) p ≡ next
  unfolding next_buffer_offset link_next
  next_buffer_offset-link_next next h =
      let m₁ = store_le 4 m (p + 12) next in
      load_le-store_le_ne 4 1 m₁ (p + 12) (p + 16) (bit_or (load_byte m₁ (p + 16)) 1) (omega arith)
      ∙ load_le-store_le_self 4 m (p + 12) next h

  pub has_next-clear_flag : has_next (clear_flag m p) p ≡ false
  unfolding has_next clear_flag
  has_next-clear_flag = rw (load_le-store_le_self 1 m (p + 16) 0 (omega arith))

  -- A popped header is in use and has no next one.
  pub flags_of_popped :
      let m₁ = set_in_used (clear_flag m p) p in (is_in_used m₁ p ≡ true) × (has_next m₁ p ≡ false)
  unfolding has_next clear_flag set_in_used is_in_used
  flags_of_popped =
      let m₁ = store_le 1 m (p + 16) 0 in
      rw
        (
          load_le-store_le_self 1 m (p + 16) 0 (omega arith),
          load_le-store_le_self 1 m₁ (p + 16) 2 (omega arith),
        )
        (refl, refl)

  -- Stores that miss the header change neither its link nor its flags.
  module _ (n a v : ℕ) (d : Disjoint p 20 a n) where
    pub has_next-store : has_next (store_le n m a v) p ≡ has_next m p
    unfolding has_next
    has_next-store = rw (load_le-store_le_ne 1 n m (p + 16) a v (omega arith))

    pub is_in_used-store : is_in_used (store_le n m a v) p ≡ is_in_used m p
    unfolding is_in_used
    is_in_used-store = rw (load_le-store_le_ne 1 n m (p + 16) a v (omega arith))

    pub next_buffer_offset-store : next_buffer_offset (store_le n m a v) p ≡ next_buffer_offset m p
    unfolding next_buffer_offset
    next_buffer_offset-store = load_le-store_le_ne 4 n m (p + 12) a v (omega arith)

    pub cap-store : cap (store_le n m a v) p ≡ cap m p
    unfolding cap
    cap-store = load_le-store_le_ne 4 n m (p + 0) a v (omega arith)

    pub size-store : size (store_le n m a v) p ≡ size m p
    unfolding size
    size-store = load_le-store_le_ne 4 n m (p + 4) a v (omega arith)

    pub start-store : start (store_le n m a v) p ≡ start m p
    unfolding start
    start-store = load_le-store_le_ne 4 n m (p + 8) a v (omega arith)
