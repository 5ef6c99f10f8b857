-- ===== src/Config/Verify.antt =====
-- What Config::verify accepts, and what it changes.
use shmipc_cpp.Common.{
  ℕ, ◌+◌, ◌%◌, ◌^◌, ◌≤◌, ◌<◌, ◌≡◌, refl, ap, ◌∙◌, arith, Bool, true, false, ◌&&◌, not, leb, ◌==◌,
  List, [], ◌∷◌, map, add_u32, ◌⊎◌, inl, inr, Bool-cases,
}
use shmipc_cpp.Error.{ok, err, other}
use shmipc_cpp.Config.{
  SizePercentPair, Config, empty, align_4, align_8, verify_pairs, verify_rest, verify,
}

-- The sum of the percents, in 32 bits.
abbrev pub sum_from : ℕ → List SizePercentPair → ℕ
sum_from sum [] = sum
sum_from sum (p ∷ ps) = sum_from (add_u32 sum p.percent) ps

abbrev pub sizes_fit : ℕ → List SizePercentPair → Bool
sizes_fit cap [] = true
sizes_fit cap (p ∷ ps) = leb p.size cap && sizes_fit cap ps

abbrev pub align_pair : SizePercentPair → SizePercentPair
align_pair p = record p { size = align_4 p.size }

-- The configurations that are accepted.
abbrev pub accepts : Config → Bool
accepts c =
    leb (2 ^ 20) c.share_memory_buffer_cap
    && (not (empty c.buffer_slice_sizes)
        && (sizes_fit c.share_memory_buffer_cap c.buffer_slice_sizes
            && (sum_from 0 c.buffer_slice_sizes == 100
                && (not (empty c.share_memory_path_prefix) && not (empty c.queue_path)))))

abbrev pub aligned : Config → Config
aligned c = record c {
  buffer_slice_sizes = map align_pair c.buffer_slice_sizes;
  queue_cap = align_8 c.queue_cap;
}

verify_pairs-fit :
    (cap sum : ℕ) (ps : List SizePercentPair)
    → sizes_fit cap ps ≡ true
    → verify_pairs cap sum ps ≡ (ok (sum_from sum ps), map align_pair ps)
unfolding verify_pairs
verify_pairs-fit cap sum [] h = refl
verify_pairs-fit cap sum (p ∷ ps) h =
    ground (arith, verify_pairs-fit cap (add_u32 sum p.percent) ps)

verify_pairs-refused :
    (cap sum : ℕ) (ps : List SizePercentPair)
    → sizes_fit cap ps ≡ false
    → (verify_pairs cap sum ps).0 ≡ err other
unfolding verify_pairs
verify_pairs-refused cap sum [] h = ground arith
verify_pairs-refused cap sum (p ∷ ps) h =
    ground (arith, verify_pairs-refused cap (add_u32 sum p.percent) ps)

-- `verify` accepts a configuration exactly when the buffer capacity is at least 2 ^ 20, there are
-- slice sizes and each fits in that capacity, the percents add up to 100 in 32 bits, and neither
-- path is empty. It then rounds the slice sizes up to multiples of 4 and the queue capacity to one
-- of 8, in 32 bits, and changes nothing else; otherwise it returns an error.
pub verify_lem :
    (c : Config)
    → ((accepts c ≡ true) × (verify c ≡ (ok tt, aligned c)))
      ⊎ ((accepts c ≡ false) × ((verify c).0 ≡ err other))
unfolding verify verify_rest
verify_lem c =
    let (r, ps) = verify_pairs c.share_memory_buffer_cap 0 c.buffer_slice_sizes in
    elim (Bool-cases (sizes_fit c.share_memory_buffer_cap c.buffer_slice_sizes)) [
      | inl fit ↦
          let e = verify_pairs-fit c.share_memory_buffer_cap 0 c.buffer_slice_sizes fit in
          ground (arith, e, fit)
      | inr bad ↦
          let e = verify_pairs-refused c.share_memory_buffer_cap 0 c.buffer_slice_sizes bad in
          ground (arith, e, bad)
    ]

module _ (cap : ℕ) (whole : cap % 4 ≡ 0) (fits : cap < 2 ^ 32) where
  sum_from-align :
      (sum : ℕ) (ps : List SizePercentPair) → sum_from sum (map align_pair ps) ≡ sum_from sum ps
  sum_from-align sum [] = refl
  sum_from-align sum (p ∷ ps) = sum_from-align (add_u32 sum p.percent) ps

  sizes_fit-align :
      (ps : List SizePercentPair)
      → sizes_fit cap ps ≡ true
      → sizes_fit cap (map align_pair ps) ≡ true
  sizes_fit-align [] h = refl
  sizes_fit-align (p ∷ ps) h = ground (arith, sizes_fit-align ps)

  align_align :
      (ps : List SizePercentPair)
      → sizes_fit cap ps ≡ true
      → map align_pair (map align_pair ps) ≡ map align_pair ps
  align_align [] h = refl
  align_align (p ∷ ps) h =
      let rest : map align_pair (map align_pair ps) ≡ map align_pair ps =
        ground (arith, align_align ps) in
      let small : p.size ≤ cap = ground arith in
      let once : align_4 (align_4 p.size) ≡ align_4 p.size = omega arith in rw (once, rest) refl

empty-map : (ps : List SizePercentPair) → empty (map align_pair ps) ≡ empty ps
empty-map [] = refl
empty-map (p ∷ ps) = refl

module _ (c : Config) (whole : c.share_memory_buffer_cap % 4 ≡ 0)
    (fits : c.share_memory_buffer_cap < 2 ^ 32) (q_fits : c.queue_cap + 7 < 2 ^ 32)
    (acc : accepts c ≡ true) where
  sizes_fit-aligned :
      sizes_fit c.share_memory_buffer_cap (map align_pair c.buffer_slice_sizes) ≡ true
  sizes_fit-aligned =
      sizes_fit-align c.share_memory_buffer_cap whole fits c.buffer_slice_sizes
        (ground (arith, acc))

  accepts-aligned : accepts (aligned c) ≡ true
  accepts-aligned =
      rw
        (
          sum_from-align c.share_memory_buffer_cap whole fits 0 c.buffer_slice_sizes,
          empty-map c.buffer_slice_sizes,
          sizes_fit-aligned,
        )
        (ground (arith, acc))

  aligned-aligned : aligned (aligned c) ≡ aligned c
  aligned-aligned =
      let queue : align_8 (align_8 c.queue_cap) ≡ align_8 c.queue_cap = omega arith in
      rw
        (
          align_align c.share_memory_buffer_cap whole fits c.buffer_slice_sizes
              (ground (arith, acc)),
          queue,
        )
        refl

  verify-aligned : verify (aligned c) ≡ (ok tt, aligned c)
  verify-aligned = elim (verify_lem (aligned c)) [
    | inl (_, e) ↦ e ∙ ap (λ (d : Config). (ok tt, d)) aligned-aligned
    | inr (out, _) ↦ absurd (ground (arith, out, accepts-aligned))
  ]

-- When the buffer capacity is a multiple of 4 and the queue capacity is not within 7 of 2 ^ 32, a
-- configuration that `verify` has accepted is accepted again, and not changed any more; its slice
-- sizes still fit and its queue capacity is a multiple of 8 that is not below the one asked for.
pub verify_twice :
    (c : Config)
    → c.share_memory_buffer_cap % 4 ≡ 0
    → c.share_memory_buffer_cap < 2 ^ 32
    → c.queue_cap + 7 < 2 ^ 32
    → (verify c).0 ≡ ok tt
    → let c' = (verify c).1 in
      (verify c' ≡ (ok tt, c'))
      × (sizes_fit c.share_memory_buffer_cap c'.buffer_slice_sizes ≡ true)
      × (c'.queue_cap % 8 ≡ 0)
      × (c.queue_cap ≤ c'.queue_cap)
verify_twice c whole fits q_fits done = elim (verify_lem c) [
  | inl (acc, e) ↦ rw e (
    verify-aligned c whole fits q_fits acc,
    sizes_fit-aligned c whole fits q_fits acc,
    omega arith,
    omega arith,
  )
  | inr (acc, e) ↦ absurd (ground (arith, done, e))
]
