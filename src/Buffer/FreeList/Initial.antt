-- ===== src/Buffer/FreeList/Initial.antt =====
-- The free list that BufferList::create leaves behind, and the view BufferList::mapping takes of it.
use shmipc_cpp.Common.{
  ℕ, zero, suc, ◌+◌, ◌-◌, ◌*◌, ◌%◌, ◌≤◌, ◌<◌, ◌^◌, ◌≡◌, refl, ap, ◌∙◌, sym, arith, true, false,
  subst, ltb, leb, ◌||◌, add_u32, ◌⊎◌, inl, inr,
}
use native.Mathlib.Decide.{dec_lt}
use shmipc_cpp.Shm.{Shm, store_le, load_le}
use shmipc_cpp.Shm.Laws.{load_le-store_le_ne, load_le-store_le_self}
use shmipc_cpp.Error.{ok, err, other}
use shmipc_cpp.Buffer.Header
use shmipc_cpp.Buffer.FreeList.{
  list_at, size_64, create, create_rejects, mapping, mapping_rejects, store_list_header,
  store_buffers,
}
use shmipc_cpp.Buffer.FreeList.Chain.{IsPath, Ended, header_at, stride_le, IsPath-store_header}
use shmipc_cpp.Buffer.FreeList.Create.{
  upto, length-upto, Avoids-upto, Distinct-upto, inside-upto, first_of-upto, Chained,
  store_buffers_lem,
}
use shmipc_cpp.Buffer.FreeList.State.{Holds}

zero_byte : (m : Shm) (a : ℕ) → load_le 1 (store_le 4 m a 0) a ≡ 0
unfolding load_le store_le
zero_byte m a = ground arith

module _ (m : Shm) (offset n c : ℕ) where
  abbrev headed : Shm
  headed = store_list_header m offset n c

  module _ (n_fits : n < 2 ^ 32) (c_fits : c < 2 ^ 32) where
    -- The words of the list's header.
    size_word : load_le 4 headed offset ≡ n
    unfolding store_list_header
    size_word =
        load_le-store_le_ne 4 4 _ offset (offset + 20) 0 (omega arith)
        ∙ load_le-store_le_ne 4 4 _ offset (offset + 16) c (omega arith)
        ∙ load_le-store_le_ne 4 4 _ offset (offset + 12) _ (omega arith)
        ∙ load_le-store_le_ne 4 4 _ offset (offset + 8) 0 (omega arith)
        ∙ load_le-store_le_ne 4 4 _ offset (offset + 4) n (omega arith)
        ∙ load_le-store_le_self 4 m offset n n_fits

    cap_word : load_le 4 headed (offset + 4) ≡ n
    unfolding store_list_header
    cap_word =
        load_le-store_le_ne 4 4 _ (offset + 4) (offset + 20) 0 (omega arith)
        ∙ load_le-store_le_ne 4 4 _ (offset + 4) (offset + 16) c (omega arith)
        ∙ load_le-store_le_ne 4 4 _ (offset + 4) (offset + 12) _ (omega arith)
        ∙ load_le-store_le_ne 4 4 _ (offset + 4) (offset + 8) 0 (omega arith)
        ∙ load_le-store_le_self 4 _ (offset + 4) n n_fits

    head_word : load_le 4 headed (offset + 8) ≡ 0
    unfolding store_list_header
    head_word =
        load_le-store_le_ne 4 4 _ (offset + 8) (offset + 20) 0 (omega arith)
        ∙ load_le-store_le_ne 4 4 _ (offset + 8) (offset + 16) c (omega arith)
        ∙ load_le-store_le_ne 4 4 _ (offset + 8) (offset + 12) _ (omega arith)
        ∙ load_le-store_le_self 4 _ (offset + 8) 0 (omega arith)

    tail_word : load_le 4 headed (offset + 12) ≡ (n - 1) * (c + 20) % 2 ^ 32
    unfolding store_list_header
    tail_word =
        load_le-store_le_ne 4 4 _ (offset + 12) (offset + 20) 0 (omega arith)
        ∙ load_le-store_le_ne 4 4 _ (offset + 12) (offset + 16) c (omega arith)
        ∙ load_le-store_le_self 4 _ (offset + 12) _ (omega arith)

    cap_per_buffer_word : load_le 4 headed (offset + 16) ≡ c
    unfolding store_list_header
    cap_per_buffer_word =
        load_le-store_le_ne 4 4 _ (offset + 16) (offset + 20) 0 (omega arith)
        ∙ load_le-store_le_self 4 _ (offset + 16) c c_fits

    counter_word : load_le 4 headed (offset + 20) ≡ 0
    unfolding store_list_header
    counter_word = load_le-store_le_self 4 _ (offset + 20) 0 (omega arith)

-- A list of `k + 1` buffers of capacity `c`, in a mapping it fits in.
module _ (m : Shm) (k c mem_len offset : ℕ) (some_room : 0 < c)
    (fits : offset + size_64 (suc k) c ≤ mem_len) (small : mem_len < 2 ^ 32) where
  abbrev pub region : ℕ
  region = offset + 36

  abbrev pub laid_out : Shm
  laid_out = store_buffers (suc k) 0 region (suc k) c 0 (store_list_header m offset (suc k) c)

  abbrev pub finished : Shm
  finished = store_le 4 laid_out (region + k * (c + 20) + 16) 0

  rounds : Chained region c k (store_list_header m offset (suc k) c) laid_out
  rounds =
      let start : 0 * (c + 20) ≡ 0 = omega arith in
      subst
        (λ (a : ℕ).
          Chained region c k (store_list_header m offset (suc k) c)
            (store_buffers (suc k) 0 region (suc k) c a (store_list_header m offset (suc k) c)))
        start
        (store_buffers_lem region c k 0 k (store_list_header m offset (suc k) c) (omega arith)
          (omega arith) tt)

  c_small : c < 2 ^ 32
  c_small = omega (arith, stride_le 0 (suc k) (c + 20) (omega arith))

  k_small : suc k < 2 ^ 31
  k_small = let h : suc k * 20 ≤ suc k * (c + 20) = grind arith in omega arith

  -- The header of the list is not touched by the loop nor by the last store.
  word :
      (a : ℕ)
      → a + 4 ≤ region
      → load_le 4 finished a ≡ load_le 4 (store_list_header m offset (suc k) c) a
  word a h =
      load_le-store_le_ne 4 4 laid_out a (region + k * (c + 20) + 16) 0 (omega arith) ∙ rounds.2 a h

  finished-IsPath : IsPath region c finished (upto k) k
  finished-IsPath =
      IsPath-store_header region c laid_out (upto k) k k 16 4 0 (omega arith)
        (Avoids-upto k k (omega arith)) rounds.0

  finished-Ended : Ended region c finished k
  unfolding Header.has_next Header.cap Header.size Header.start
  finished-Ended =
      let p = header_at region c k in
      let (e₀, e₁, e₂) = rounds.1 in
      (
        rw (zero_byte laid_out (p + 16)) refl,
        (
          load_le-store_le_ne 4 4 laid_out (p + 0) (p + 16) 0 (omega arith) ∙ e₀,
          load_le-store_le_ne 4 4 laid_out (p + 4) (p + 16) 0 (omega arith) ∙ e₁,
          load_le-store_le_ne 4 4 laid_out (p + 8) (p + 16) 0 (omega arith) ∙ e₂,
        ),
      )

  tail_fits : (suc k - 1) * (c + 20) % 2 ^ 32 ≡ k * (c + 20)
  tail_fits =
      let one : suc k - 1 ≡ k = omega arith in
      rw (one) (omega (arith, stride_le k (suc k) (c + 20) (omega arith)))

  pub finished-Holds : Holds (list_at offset (suc k * (c + 20))) (suc k) c (upto k) k 0 finished
  finished-Holds = record {
    laid = record {
      size_laid = refl;
      cap_laid = refl;
      head_laid = refl;
      tail_laid = refl;
      cap_per_buffer_laid = refl;
      counter_laid = refl;
      region_laid = refl;
      region_offset_laid = omega arith;
      region_len_laid = refl;
      fits = omega arith;
      num_fits = k_small;
    };
    cap_per_buffer_is =
        word (offset + 16) (omega arith)
        ∙ cap_per_buffer_word m offset (suc k) c (omega arith) c_small;
    cap_is = word (offset + 4) (omega arith) ∙ cap_word m offset (suc k) c (omega arith) c_small;
    size_is =
        word offset (omega arith)
        ∙ size_word m offset (suc k) c (omega arith) c_small
        ∙ omega (arith, length-upto k);
    head_is =
        word (offset + 8) (omega arith)
        ∙ head_word m offset (suc k) c (omega arith) c_small
        ∙ sym (ap (λ (x : ℕ). x * (c + 20)) (first_of-upto k) ∙ omega arith);
    tail_is =
        word (offset + 12) (omega arith)
        ∙ tail_word m offset (suc k) c (omega arith) c_small
        ∙ tail_fits;
    counter_is =
        word (offset + 20) (omega arith) ∙ counter_word m offset (suc k) c (omega arith) c_small;
    whole = omega (arith, length-upto k);
    path = finished-IsPath;
    ended = finished-Ended;
    inside = inside-upto k (suc k) (omega arith);
    last_inside = omega arith;
    distinct = Distinct-upto k;
    last_apart = Avoids-upto k k (omega arith);
  }

  some_bytes : 0 < suc k * (c + 20)
  some_bytes = omega (arith, stride_le 0 (suc k) (c + 20) (omega arith))

  accepted : create_rejects (suc k) c mem_len offset ≡ false
  unfolding create_rejects
  accepted = ground (arith, some_bytes, fits, small, some_room)

  pub create-finished :
      create (suc k) c mem_len offset m ≡ (ok (list_at offset (suc k * (c + 20))), finished)
  unfolding create
  create-finished =
      let len : 36 + suc k * (c + 20) - 36 ≡ suc k * (c + 20) = omega arith in
      let tail : load_le 4 laid_out (offset + 12) ≡ k * (c + 20) =
        rounds.2 (offset + 12) (omega arith)
        ∙ tail_word m offset (suc k) c (omega arith) c_small
        ∙ tail_fits in
      rw (accepted, len, tail) refl

  mapping-finished : mapping mem_len offset finished ≡ ok (list_at offset (suc k * (c + 20)))
  unfolding mapping mapping_rejects
  mapping-finished =
      let len : 36 + suc k * (c + 20) - 36 ≡ suc k * (c + 20) = omega arith in
      let test₁ : ltb mem_len (offset + 36) ≡ false = ground (arith, fits) in
      let test₂ : (leb (2 ^ 32) (36 + suc k * (c + 20))
            || (ltb mem_len (add_u32 offset (36 + suc k * (c + 20)))
                || ltb (add_u32 offset (36 + suc k * (c + 20))) (add_u32 offset 36)))
          ≡ false =
        ground (arith, some_bytes, fits, small) in
      rw (holds.cap_is, holds.cap_per_buffer_is, test₁, test₂, len) refl
    where
      holds : Holds (list_at offset (suc k * (c + 20))) (suc k) c (upto k) k 0 finished
      holds = finished-Holds

module _ (c mem_len offset : ℕ) (m : Shm) where
  refused :
      (n : ℕ)
      → (n ≡ 0) ⊎ (c ≡ 0) ⊎ (mem_len < offset + size_64 n c)
      → create n c mem_len offset m ≡ (err other, m)
  unfolding create create_rejects
  refused n h = let test : create_rejects n c mem_len offset ≡ true = rejects h in rw (test) refl
    where
      rejects :
          (n ≡ 0) ⊎ (c ≡ 0) ⊎ (mem_len < offset + size_64 n c)
          → create_rejects n c mem_len offset ≡ true
      rejects h = ground arith

-- BufferList::create and BufferList::mapping, for any count, capacity, offset and memory length
-- below 2 ^ 32. When both are above 0 and the list fits, `create` succeeds, its memory is a list of
-- all the buffers, free, chained in the order of their addresses, none handed out, and `mapping` of
-- that memory at that offset gives the same view. Otherwise `create` is an error and the memory is
-- as it was.
pub create_list_lem :
    (n c mem_len offset : ℕ) (m : Shm)
    → mem_len < 2 ^ 32
    → (((n ≡ 0) ⊎ (c ≡ 0) ⊎ (mem_len < offset + size_64 n c))
        × (create n c mem_len offset m ≡ (err other, m)))
      ⊎ ((0 < n)
          × (0 < c)
          × (offset + size_64 n c ≤ mem_len)
          × (m' : Shm) × (create n c mem_len offset m ≡ (ok (list_at offset (n * (c + 20))), m'))
          × Holds (list_at offset (n * (c + 20))) n c (upto (n - 1)) (n - 1) 0 m'
          × (mapping mem_len offset m' ≡ ok (list_at offset (n * (c + 20)))))
create_list_lem zero c mem_len offset m small =
    inl (inl refl, refused c mem_len offset m 0 (inl refl))
create_list_lem (suc k) c mem_len offset m small = elim (dec_lt 0 c) [
  | no h ↦
      let e : c ≡ 0 = omega arith in
      inl (inr (inl e), refused c mem_len offset m (suc k) (inr (inl e)))
  | yes some_room ↦ elim (dec_lt mem_len (offset + size_64 (suc k) c)) [
    | yes h ↦ inl (inr (inr h), refused c mem_len offset m (suc k) (inr (inr h)))
    | no h ↦
        let fits : offset + size_64 (suc k) c ≤ mem_len = omega arith in
        let last : k ≡ suc k - 1 = omega arith in
        inr (
          omega arith,
          some_room,
          fits,
          finished m k c mem_len offset some_room fits small,
          create-finished m k c mem_len offset some_room fits small,
          subst
              (λ (j : ℕ).
                Holds (list_at offset (suc k * (c + 20))) (suc k) c (upto j) j 0
                  (finished m k c mem_len offset some_room fits small))
              last (finished-Holds m k c mem_len offset some_room fits small),
          mapping-finished m k c mem_len offset some_room fits small,
        )
  ]
]
