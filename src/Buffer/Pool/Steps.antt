-- ===== src/Buffer/Pool/Steps.antt =====
-- Every use of a pool keeps apart what is free and what is out.
use shmipc_cpp.Common.{
  ℕ, suc, ◌+◌, ◌-◌, ◌≤◌, ◌<◌, ◌≡◌, ◌≢◌, ap, ap₂, ◌∙◌, sym, subst, arith, List, [], ◌∷◌, ◌++◌,
  get_elem?, length, map, some, some-injective, All,
}
use shmipc_cpp.Shm.{Shm, store_le}
use shmipc_cpp.Shm.Laws.{load_le-store_le_ne}
use shmipc_cpp.Error.{Result, ok, err, Err, ok_injective}
use shmipc_cpp.Buffer.Header
use shmipc_cpp.Buffer.Slice.{BufferSlice}
use shmipc_cpp.Buffer.FreeList.{BufferList, pop, push}
use shmipc_cpp.Buffer.FreeList.Chain.{Avoids, Distinct, Avoids-snoc, header_at, cap-Disjoint}
use shmipc_cpp.Buffer.FreeList.State.{Holds}
use shmipc_cpp.Buffer.FreeList.State.Pop.{pop_lem, cap-pop}
use shmipc_cpp.Buffer.FreeList.State.Push.{push_lem, cap-push, Holds-store}
use shmipc_cpp.Buffer.Pool.{
  Pool, Use, takes, is_refused, writes, returns, Uses, no_use, use_then, remove_at,
}
use shmipc_cpp.Buffer.Pool.Removal.{
  All_get, All_remove, All_map, All_both, map_remove, get_map, length-remove_at, Distinct-remove_at,
  Avoids-remove_at,
}

-- Buffer `j` is out of the chain of `ks` and `t`, its header says its capacity.
abbrev pub IsOut : BufferList → ℕ → ℕ → List ℕ → ℕ → Shm → ℕ → Type 0
IsOut l n c ks t m j =
    (j < n) × Avoids j ks × (j ≢ t) × (Header.cap m (header_at l.buffer_region c j) ≡ c)

-- The free buffers are `ks` and `t`, the others are `js`.
pub record Splits (l : BufferList) (n c : ℕ) (ks : List ℕ) (t : ℕ) (js : List ℕ) (s : Pool)
    : Type 0 where
  pub held : Holds l n c ks t (length js) s.shm
  pub out_is : s.out ≡ map (header_at l.buffer_region c) js
  pub js_distinct : Distinct js
  pub js_out : All (IsOut l n c ks t s.shm) js

abbrev pub Inv : BufferList → ℕ → ℕ → Pool → Type 0
Inv l n c s = (ks : List ℕ) × (t : ℕ) × (js : List ℕ) × Splits l n c ks t js s

module _ (l : BufferList) (n c : ℕ) where
  -- Popping.
  taken :
      (ks : List ℕ) (t : ℕ) (js : List ℕ) (s : Pool) (b : BufferSlice) (m : Shm)
      → Splits l n c ks t js s
      → pop l s.shm ≡ (ok b, m)
      → Inv l n c (record { shm = m; out = b.offset_in_shm ∷ s.out })
  taken [] t js s b m v e =
      let (none_left, _) = pop_lem l n c [] t (length js) s.shm v.held in
      absurd (ground (arith, e, none_left))
  taken (k ∷ ks) t js s b m v e =
      let (b', eq, fresh, held) = pop_lem l n c (k ∷ ks) t (length js) s.shm v.held in
      let same : m ≡ (pop l s.shm).1 = sym (ap (λ (r : Result BufferSlice × Shm). r.1) e) in
      let is_b : b ≡ b' = ok_injective (sym (ap (λ (r : Result BufferSlice × Shm). r.0) e) ∙ eq) in
      let later : length js + 1 ≡ suc (length js) = omega arith in
      let here : b.offset_in_shm ≡ header_at l.buffer_region c k =
        ap (λ (x : BufferSlice). x.offset_in_shm) is_b ∙ fresh.offset_is in
      (
        ks,
        t,
        k ∷ js,
        record {
          held = rw (same) (subst (λ (u : ℕ). Holds l n c ks t u (pop l s.shm).1) later held);
          out_is = ap₂ (λ (o : ℕ) (os : List ℕ). o ∷ os) here v.out_is;
          js_distinct = (
            All_map (IsOut l n c (k ∷ ks) t s.shm) (λ j. k ≢ j) (λ j o q. o.1.0 (sym q)) js
                v.js_out,
            v.js_distinct,
          );
          js_out = (
            (
              v.held.inside.0,
              v.held.distinct.0,
              (λ q. v.held.last_apart.0 (sym q)),
              rw (same) fresh.header_cap_is,
            ),
            All_map (IsOut l n c (k ∷ ks) t s.shm) (IsOut l n c ks t m)
                (λ j o. (
                  o.0,
                  o.1.1,
                  o.2,
                  rw (same) (cap-pop l n c (k ∷ ks) t (length js) s.shm j v.held ∙ o.3),
                ))
                js v.js_out,
          );
        },
      )

  refused :
      (ks : List ℕ) (t : ℕ) (js : List ℕ) (s : Pool) (x : Err) (m : Shm)
      → Splits l n c ks t js s
      → pop l s.shm ≡ (err x, m)
      → Inv l n c (record s { shm = m })
  refused [] t js s x m v e =
      let (_, held) = pop_lem l n c [] t (length js) s.shm v.held in
      let same : m ≡ (pop l s.shm).1 = sym (ap (λ (r : Result BufferSlice × Shm). r.1) e) in
      (
        [],
        t,
        js,
        record {
          held = rw (same) held;
          out_is = v.out_is;
          js_distinct = v.js_distinct;
          js_out =
              All_map (IsOut l n c [] t s.shm) (IsOut l n c [] t m)
                (λ j o.
                  (o.0, tt, o.2, rw (same) (cap-pop l n c [] t (length js) s.shm j v.held ∙ o.3)))
                js v.js_out;
        },
      )
  refused (k ∷ ks) t js s x m v e =
      let (b', eq, _, _) = pop_lem l n c (k ∷ ks) t (length js) s.shm v.held in
      absurd (ground (arith, e, eq))

  -- Writing in a buffer that is out.
  written :
      (ks : List ℕ) (t : ℕ) (js : List ℕ) (s : Pool) (i o w a x : ℕ)
      → Splits l n c ks t js s
      → get_elem? s.out i ≡ some o
      → o + 4 ≤ a
      → a + w ≤ o + 20 + c
      → Splits l n c ks t js (record s { shm = store_le w s.shm a x })
  unfolding Header.cap
  written ks t js s i o w a x v got behind inside =
      let r = l.buffer_region in
      let (j, at_i, is_o) =
        get_map (header_at r c) js i o
          (ap (λ (os : List ℕ). get_elem? os i) (sym v.out_is) ∙ got) in
      let out_j = All_get (IsOut l n c ks t s.shm) js i j at_i v.js_out in
      let d = a - header_at r c j in
      let is_a : a ≡ header_at r c j + d = omega (arith, is_o, behind) in
      let fits : d + w ≤ c + 20 = omega (arith, is_o, behind, inside) in
      let four : 4 ≤ d = omega (arith, is_o, behind) in
      rw (is_a) (record {
        held = Holds-store l n c ks t (length js) s.shm j d w x fits out_j.1 out_j.2 v.held;
        out_is = v.out_is;
        js_distinct = v.js_distinct;
        js_out =
            All_map (IsOut l n c ks t s.shm)
              (IsOut l n c ks t (store_le w s.shm (header_at r c j + d) x))
              (λ k k_out. (
                k_out.0,
                k_out.1,
                k_out.2,
                load_le-store_le_ne 4 w s.shm (header_at r c k + 0) (header_at r c j + d) x
                      (cap-Disjoint r c k j d w four fits)
                    ∙ k_out.3,
              ))
              js v.js_out;
      })

  -- Pushing a buffer that is out.
  pub returned :
      (ks : List ℕ) (t : ℕ) (js : List ℕ) (s : Pool) (i o : ℕ) (b : BufferSlice)
      → Splits l n c ks t js s
      → get_elem? s.out i ≡ some o
      → b.buffer_header ≡ some o
      → b.offset_in_shm ≡ o
      → (m : Shm) × (push l b s.shm ≡ some m)
        × Inv l n c (record { shm = m; out = remove_at i s.out })
  returned ks t js s i o b v got at_header at_offset =
      let r = l.buffer_region in
      let (j, at_i, is_o) =
        get_map (header_at r c) js i o
          (ap (λ (os : List ℕ). get_elem? os i) (sym v.out_is) ∙ got) in
      let out_j = All_get (IsOut l n c ks t s.shm) js i j at_i v.js_out in
      let rest = remove_at i js in
      let held : Holds l n c ks t (suc (length rest)) s.shm =
        subst (λ (u : ℕ). Holds l n c ks t u s.shm) (length-remove_at js i j at_i) v.held in
      let h = at_header ∙ ap (λ (p : ℕ). some p) (sym is_o) in
      let p = at_offset ∙ sym is_o in
      let (m, pushed, held') =
        push_lem l n c ks t (length rest) j b s.shm held out_j.0 out_j.1 out_j.2 h p out_j.3 in
      let others : All (λ k. IsOut l n c ks t s.shm k × (j ≢ k)) rest =
        All_both (IsOut l n c ks t s.shm) (λ k. j ≢ k) rest
          (All_remove (IsOut l n c ks t s.shm) js i v.js_out)
          (Avoids-remove_at js i j at_i v.js_distinct) in
      (
        m,
        pushed,
        (
          ks ++ (t ∷ []),
          j,
          rest,
          record {
            held = held';
            out_is =
                ap (λ (os : List ℕ). remove_at i os) v.out_is
                ∙ sym (map_remove (header_at r c) js i);
            js_distinct = Distinct-remove_at js i v.js_distinct;
            js_out =
                All_map (λ k. IsOut l n c ks t s.shm k × (j ≢ k)) (IsOut l n c (ks ++ (t ∷ [])) j m)
                  (λ k k_out. (
                    k_out.0.0,
                    Avoids-snoc k ks t k_out.0.1 k_out.0.2,
                    (λ q. k_out.1 (sym q)),
                    cap-push l n c ks t (length rest) j b s.shm held out_j.0 out_j.1 out_j.2 h p
                          out_j.3 m k pushed
                        ∙ k_out.0.3,
                  ))
                  rest others;
          },
        ),
      )

  Use-Inv : {s t : Pool} → Inv l n c s → Use l s t → Inv l n c t
  Use-Inv {s} (ks, k, js, v) (takes b m e is_t) = rw is_t (taken ks k js s b m v e)
  Use-Inv {s} (ks, k, js, v) (is_refused x m e is_t) = rw is_t (refused ks k js s x m v e)
  Use-Inv {s} (ks, k, js, v) (writes i o w a x got behind inside is_t) = rw is_t (
    ks,
    k,
    js,
    written ks k js s i o w a x v got behind (omega (arith, inside, v.held.cap_per_buffer_is)),
  )
  Use-Inv {s} (ks, k, js, v) (returns i o b m got at_header at_offset e is_t) =
      let (m', pushed, after) = returned ks k js s i o b v got at_header at_offset in
      let same : m ≡ m' = some-injective m m' (sym e ∙ pushed) in rw (is_t, same) after

  pub Uses-Inv : {s t : Pool} → Inv l n c s → Uses l s t → Inv l n c t
  Uses-Inv i no_use = i
  Uses-Inv i (use_then u us) = Uses-Inv (Use-Inv i u) us
