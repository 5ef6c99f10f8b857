-- ===== src/Buffer/Linked/WriteLoop.antt =====
-- The loop of LinkedBuffer::write_bytes.
use shmipc_cpp.Common.{
  ℕ, zero, suc, ◌+◌, ◌-◌, ◌<◌, ◌^◌, ◌≡◌, ◌⊎◌, inl, inr, refl, ap, subst, ◌∙◌, sym, arith,
  Bool-cases, true, ltb, List, [], ◌∷◌, ◌++◌, length, length-drop, take, drop, min, All, some,
  take-append-drop, take_all,
}
use mathlib.Core.List.{append_assoc}
use shmipc_cpp.Shm.{Shm}
use shmipc_cpp.Shm.Span.{AreBytes}
use shmipc_cpp.Buffer.Slice.{BufferSlice, append}
use shmipc_cpp.Buffer.Manager.{BufferManager}
use shmipc_cpp.Buffer.Linked.{LinkedBuffer}
use shmipc_cpp.Buffer.Linked.Reclaim.{unread}
use shmipc_cpp.Buffer.Linked.Write.{write_loop, more_behind}
use shmipc_cpp.Buffer.Linked.Supply.{
  Supply, IsBlank, unread-before, get_elem?-at_length, put_at-length,
}
use shmipc_cpp.Buffer.Linked.WriteStep.{
  at_cursor, Enough, Loop, Goes, unread-appended, ready-appended, k_is, more_behind-Goes,
  write_next-at_cursor,
}

AreBytes-drop : (n : ℕ) (bs : List ℕ) → AreBytes bs → AreBytes (drop n bs)
AreBytes-drop zero bs h = h
AreBytes-drop (suc n) [] h = h
AreBytes-drop (suc n) (b ∷ bs) h = AreBytes-drop n bs h.1

module _ (bm : BufferManager) (supply : Supply bm) where
  -- Behind a round that filled the slice at the cursor.
  Loop-then :
      (fuel : ℕ) (b : LinkedBuffer) (pre : List BufferSlice) (s : BufferSlice)
      (post : List BufferSlice) (bytes : List ℕ) (n : ℕ) (m : Shm) (h : AreBytes bytes)
      (ready : supply.Ready (pre ++ (s ∷ post)) m) (blank : All IsBlank post)
      → let (k, s', m₁) = append s bytes m in
        ltb k (length bytes) ≡ true
        → (goes : Goes bm supply b pre s' m₁
            (more_behind bm (length pre) (length bytes - k) (at_cursor bm supply b pre s' post) m₁))
        → let next_b = at_cursor bm supply goes.b' (pre ++ (s' ∷ [])) goes.next goes.post' in
          Loop bm supply fuel next_b
            (drop k bytes)
            (n + k)
            (unread (pre ++ (s' ∷ []) ++ (goes.next ∷ goes.post')) goes.m')
            goes.m'
          → Loop bm supply
              (suc fuel)
              (at_cursor bm supply b pre s post)
              bytes
              n
              (unread (pre ++ (s ∷ post)) m)
              m
  unfolding write_loop
  Loop-then fuel b pre s post bytes n m h ready blank some_left goes (b'', m'', eq, written) =
      let k = (append s bytes m).0 in
      let s' = (append s bytes m).1 in
      let m₁ = (append s bytes m).2 in
      let more : k < length bytes = ground (arith, some_left) in
      let left = unread-appended bm supply pre s post bytes m h ready blank in
      let here = pre ++ (s' ∷ []) in
      let kept : unread (here ++ (goes.next ∷ goes.post')) goes.m'
          ≡ unread (pre ++ (s ∷ post)) m ++ take k bytes =
        unread-before here (goes.next ∷ goes.post') goes.m' goes.blank
        ∙ goes.same
        ∙ sym (unread-before here post m₁ blank)
        ∙ ap (λ (l : List BufferSlice). unread l m₁) (append_assoc pre (s' ∷ []) post)
        ∙ left in
      simp (get_elem?-at_length pre s post, put_at-length pre s s' post, some_left, goes.returns)
        (
          b'',
          m'',
          ap (λ (r : LinkedBuffer × Shm). write_loop fuel bm (drop k bytes) (n + k) r.0 r.1)
                (write_next-at_cursor bm supply goes.b' pre s' goes.next goes.post' goes.m')
              ∙ eq
              ∙ ap (λ (i : ℕ). some (i, b'', m'')) (omega (arith, length-drop k bytes, more)),
          record {
            pre = written.pre;
            at = written.at;
            post = written.post;
            slices_are = written.slices_are;
            cursor_is = written.cursor_is;
            ready = written.ready;
            blank = written.blank;
            unread_is =
                written.unread_is
                ∙ ap (λ (l : List ℕ). l ++ drop k bytes) kept
                ∙ append_assoc (unread (pre ++ (s ∷ post)) m) (take k bytes) (drop k bytes)
                ∙ ap (λ (l : List ℕ). unread (pre ++ (s ∷ post)) m ++ l) (take-append-drop k bytes);
            len_is = written.len_is ∙ goes.len_is;
          },
        )

  pub loop_lem :
      (fuel : ℕ) (b : LinkedBuffer) (pre : List BufferSlice) (s : BufferSlice)
      (post : List BufferSlice) (bytes : List ℕ) (n : ℕ) (m : Shm)
      → Enough bm supply s (length bytes) fuel
      → length bytes < 2 ^ 32
      → AreBytes bytes
      → supply.Ready (pre ++ (s ∷ post)) m
      → All IsBlank post
      → Loop bm supply fuel
          (at_cursor bm supply b pre s post)
          bytes
          n
          (unread (pre ++ (s ∷ post)) m)
          m
  unfolding write_loop
  loop_lem zero b pre s post bytes n m (inl e) small h ready blank = absurd (omega (arith, e))
  loop_lem zero b pre s post bytes n m (inr e) small h ready blank = absurd (omega (arith, e))
  loop_lem (suc fuel) b pre s post bytes n m enough small h ready blank =
      let k = (append s bytes m).0 in
      let s' = (append s bytes m).1 in
      let m₁ = (append s bytes m).2 in
      let k_le = k_is bm supply pre s post bytes m h ready blank in
      let left = unread-appended bm supply pre s post bytes m h ready blank in
      let ready₁ = ready-appended bm supply pre s post bytes m h ready blank in
      elim (Bool-cases (ltb k (length bytes))) [
        | inr all ↦
            let count : k ≡ length bytes = ground (arith, all, k_le) in
            simp (get_elem?-at_length pre s post, put_at-length pre s s' post, all)
              (
                at_cursor bm supply b pre s' post,
                m₁,
                ap (λ (i : ℕ). some (n + i, at_cursor bm supply b pre s' post, m₁)) count,
                record {
                  pre = pre;
                  at = s';
                  post = post;
                  slices_are = refl;
                  cursor_is = refl;
                  ready = ready₁;
                  blank = blank;
                  unread_is =
                      left
                      ∙ ap (λ (l : List ℕ). unread (pre ++ (s ∷ post)) m ++ l)
                          (take_all k bytes (omega (arith, count)));
                  len_is = refl;
                },
              )
        | inl some_left ↦
            let more : k < length bytes = ground (arith, some_left) in
            let goes =
              more_behind-Goes bm supply b pre s' post (length bytes - k) m₁ (omega arith)
                (omega arith) ready₁ blank in
            Loop-then fuel b pre s post bytes n m h ready blank some_left goes (
              loop_lem fuel goes.b' (pre ++ (s' ∷ [])) goes.next goes.post' (drop k bytes) (n + k)
                goes.m' (enough_left enough goes.blank.0.has_room more k_le (length-drop k bytes))
                (omega (arith, length-drop k bytes)) (AreBytes-drop k bytes h)
                (subst (λ (l : List BufferSlice). supply.Ready l goes.m')
                  (sym (append_assoc pre (s' ∷ []) (goes.next ∷ goes.post'))) goes.ready)
                goes.blank.1)
      ]
    where
      enough_left :
          {k i j : ℕ}
          → Enough bm supply s (length bytes) (suc fuel)
          → i < j
          → k < length bytes
          → k ≡ min (length bytes) (s.cap - s.write_index)
          → length (drop k bytes) ≡ length bytes - k
          → ((i < j) × (length (drop k bytes) < fuel)) ⊎ (suc (length (drop k bytes)) < fuel)
      enough_left (inl (room, e)) h more k_le d = inl (h, omega arith)
      enough_left (inr e) h more k_le d = inl (h, omega arith)
