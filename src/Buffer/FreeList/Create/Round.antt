-- ===== src/Buffer/FreeList/Create/Round.antt =====
-- One round of the loop of BufferList::create over the headers.
use Prim.Native.Nat.{bit_or}
use shmipc_cpp.Common.{ℕ, ◌+◌, ◌≤◌, ◌<◌, ◌^◌, ◌≡◌, refl, ap, ◌∙◌, sym, arith, true, false}
use shmipc_cpp.Shm.{Shm, store_le, load_le, load_byte}
use shmipc_cpp.Shm.Laws.{load_le-store_le_ne, load_le-store_le_self}
use shmipc_cpp.Buffer.Header
use shmipc_cpp.Buffer.Header.Laws.{has_next_or}
use shmipc_cpp.Buffer.FreeList.{store_buffer_header}
use shmipc_cpp.Buffer.FreeList.Chain.{IsBlank}

-- One round of the loop, on the header at address `p`.
module _ (m : Shm) (p c next : ℕ) where
  abbrev pub plain : Shm
  plain = store_le 4 (store_le 4 (store_le 4 m p c) (p + 4) 0) (p + 8) 0

  abbrev pub zeroed : Shm
  zeroed = store_le 4 (store_le 4 plain (p + 12) next) (p + 16) 0

  abbrev pub chained : Shm
  chained = store_le 1 zeroed (p + 16) (bit_or (load_byte zeroed (p + 16)) 1)

  pub store_plain : store_buffer_header m p c next false ≡ plain
  unfolding store_buffer_header
  store_plain = refl

  pub store_chained : store_buffer_header m p c next true ≡ chained
  unfolding store_buffer_header
  store_chained = refl

  pub plain-IsBlank : c < 2 ^ 32 → IsBlank plain p c
  unfolding Header.cap Header.size Header.start
  plain-IsBlank fits =
      let here : p ≡ p + 0 = omega arith in
      (
        load_le-store_le_ne 4 4 _ (p + 0) (p + 8) 0 (omega arith)
            ∙ load_le-store_le_ne 4 4 _ (p + 0) (p + 4) 0 (omega arith)
            ∙ ap (load_le 4 (store_le 4 m p c)) (sym here)
            ∙ load_le-store_le_self 4 m p c fits,
        load_le-store_le_ne 4 4 _ (p + 4) (p + 8) 0 (omega arith)
            ∙ load_le-store_le_self 4 _ (p + 4) 0 (omega arith),
        load_le-store_le_self 4 _ (p + 8) 0 (omega arith),
      )

  pub chained-IsBlank : c < 2 ^ 32 → IsBlank chained p c
  unfolding Header.cap Header.size Header.start
  chained-IsBlank fits =
      let (e₀, e₁, e₂) = plain-IsBlank fits in
      (field 0 (omega arith) ∙ e₀, field 4 (omega arith) ∙ e₁, field 8 (omega arith) ∙ e₂)
    where
      field : (d : ℕ) → d + 4 ≤ 12 → load_le 4 chained (p + d) ≡ load_le 4 plain (p + d)
      field d fits =
          load_le-store_le_ne 4 1 zeroed (p + d) (p + 16) _ (omega arith)
          ∙ load_le-store_le_ne 4 4 _ (p + d) (p + 16) 0 (omega arith)
          ∙ load_le-store_le_ne 4 4 plain (p + d) (p + 12) next (omega arith)

  pub chained-linked :
      next < 2 ^ 32
      → (Header.has_next chained p ≡ true) × (Header.next_buffer_offset chained p ≡ next)
  unfolding Header.next_buffer_offset
  chained-linked fits = (
    has_next_or zeroed p,
    load_le-store_le_ne 4 1 zeroed (p + 12) (p + 16) _ (omega arith)
        ∙ load_le-store_le_ne 4 4 _ (p + 12) (p + 16) 0 (omega arith)
        ∙ load_le-store_le_self 4 plain (p + 12) next fits,
  )

  -- What stands below the header.
  pub word-plain : (a : ℕ) → a + 4 ≤ p → load_le 4 plain a ≡ load_le 4 m a
  word-plain a h =
      load_le-store_le_ne 4 4 _ a (p + 8) 0 (omega arith)
      ∙ load_le-store_le_ne 4 4 _ a (p + 4) 0 (omega arith)
      ∙ load_le-store_le_ne 4 4 m a p c (omega arith)

  pub word-chained : (a : ℕ) → a + 4 ≤ p → load_le 4 chained a ≡ load_le 4 m a
  word-chained a h =
      load_le-store_le_ne 4 1 zeroed a (p + 16) _ (omega arith)
      ∙ load_le-store_le_ne 4 4 _ a (p + 16) 0 (omega arith)
      ∙ load_le-store_le_ne 4 4 plain a (p + 12) next (omega arith)
      ∙ word-plain a h
