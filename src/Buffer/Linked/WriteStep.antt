-- ===== src/Buffer/Linked/WriteStep.antt =====
-- One round of the loop of LinkedBuffer::write_bytes.
use shmipc_cpp.Common.{
  ℕ, suc, ◌+◌, ◌-◌, ◌%◌, ◌<◌, ◌^◌, ◌≡◌, ◌⊎◌, refl, ap, ap₂, subst, ◌∙◌, sym, arith, true, false,
  ltb, List, [], ◌∷◌, ◌++◌, length, length-append, take, min, All, Option, some,
}
use mathlib.Core.List.{append_assoc, append-nil}
use shmipc_cpp.Shm.{Shm}
use shmipc_cpp.Shm.Span.{AreBytes}
use shmipc_cpp.Buffer.Slice.{BufferSlice, append}
use shmipc_cpp.Buffer.Slice.Window.{IsValid, pending, append_lem}
use shmipc_cpp.Buffer.SliceList.{at_slice}
use shmipc_cpp.Buffer.Manager.{BufferManager}
use shmipc_cpp.Buffer.Linked.{LinkedBuffer}
use shmipc_cpp.Buffer.Linked.Reclaim.{unread, with_list}
use shmipc_cpp.Buffer.Linked.Write.{write_loop, more_behind, write_next}
use shmipc_cpp.Buffer.Linked.Supply.{Supply, IsBlank, unread-append, unread-blank}

All-left {ℓ κ} : {A : Type ℓ} (P : A → Type κ) (xs ys : List A) → All P (xs ++ ys) → All P ys
All-left P [] ys h = h
All-left P (x ∷ xs) ys h = All-left P xs ys h.1

module _ (bm : BufferManager) (supply : Supply bm) where
  -- A buffer that holds the bytes `bs` and whose cursor has only blank slices behind it.
  pub record Written (b : LinkedBuffer) (len : ℕ) (bs : List ℕ) (m : Shm) : Type 0 where
    pub pre : List BufferSlice
    pub at : BufferSlice
    pub post : List BufferSlice
    pub slices_are : b.slice_list.slices ≡ pre ++ (at ∷ post)
    pub cursor_is : b.slice_list.write ≡ at_slice (length pre)
    pub ready : supply.Ready b.slice_list.slices m
    pub blank : All IsBlank post
    pub unread_is : unread b.slice_list.slices m ≡ bs
    pub len_is : b.len ≡ len

  abbrev pub at_cursor :
      LinkedBuffer → List BufferSlice → BufferSlice → List BufferSlice → LinkedBuffer
  at_cursor b pre s post = with_list b (pre ++ (s ∷ post)) (at_slice (length pre))

  -- The rounds that the bytes may take when the slice at the cursor may be full.
  abbrev pub Enough : BufferSlice → ℕ → ℕ → Type 0
  Enough s left fuel = ((s.write_index < s.cap) × (left < fuel)) ⊎ (suc left < fuel)

  abbrev pub Loop : ℕ → LinkedBuffer → List ℕ → ℕ → List ℕ → Shm → Type 0
  Loop fuel b bytes n bs m =
      (b' : LinkedBuffer) × (m' : Shm) × (write_loop fuel bm bytes n b m
        ≡ some (n + length bytes, b', m'))
      × Written b' b.len (bs ++ bytes) m'

  -- What appending to the slice at the cursor leaves to read.
  module _ (pre : List BufferSlice) (s : BufferSlice) (post : List BufferSlice) (bytes : List ℕ)
      (m : Shm) (h : AreBytes bytes) (ready : supply.Ready (pre ++ (s ∷ post)) m)
      (blank : All IsBlank post) where
    abbrev pub k : ℕ
    k = (append s bytes m).0

    abbrev pub s' : BufferSlice
    s' = (append s bytes m).1

    abbrev pub m₁ : Shm
    m₁ = (append s bytes m).2

    s-IsValid : IsValid s
    s-IsValid = (All-left IsValid pre (s ∷ post) (supply.valid (pre ++ (s ∷ post)) m ready)).0

    pub k_is : k ≡ min (length bytes) (s.cap - s.write_index)
    k_is = (append_lem s bytes m s-IsValid h).0

    pub unread-appended :
        unread (pre ++ (s' ∷ post)) m₁ ≡ unread (pre ++ (s ∷ post)) m ++ take k bytes
    unread-appended =
        let part = take k bytes in
        let p = pending s m in
        unread-append pre (s' ∷ post) m₁
        ∙ ap₂ ◌++◌ (supply.fills pre s post bytes m h ready).1 (
            ap₂ ◌++◌ (append_lem s bytes m s-IsValid h).1 (unread-blank post m₁ blank)
            ∙ append-nil (p ++ part))
        ∙ sym (append_assoc (unread pre m) p part)
        ∙ ap (λ (l : List ℕ). l ++ part)
            (sym (
              unread-append pre (s ∷ post) m
              ∙ ap (λ (l : List ℕ). unread pre m ++ l)
                  (ap (λ (l : List ℕ). p ++ l) (unread-blank post m blank) ∙ append-nil p)))

    pub ready-appended : supply.Ready (pre ++ (s' ∷ post)) m₁
    ready-appended = (supply.fills pre s post bytes m h ready).0

  -- Where the loop goes on: with the next slice, one that was there or a new one.
  pub record Goes (b : LinkedBuffer) (pre : List BufferSlice) (s : BufferSlice) (m : Shm)
      (o : Option (LinkedBuffer × Shm)) : Type 0 where
    pub b' : LinkedBuffer
    pub next : BufferSlice
    pub post' : List BufferSlice
    pub m' : Shm
    pub returns : o ≡ some (with_list b' (pre ++ (s ∷ next ∷ post')) (at_slice (length pre)), m')
    pub len_is : b'.len ≡ b.len
    pub ready : supply.Ready (pre ++ (s ∷ next ∷ post')) m'
    pub blank : All IsBlank (next ∷ post')
    pub same : unread (pre ++ (s ∷ [])) m' ≡ unread (pre ++ (s ∷ [])) m

  pub more_behind-Goes :
      (b : LinkedBuffer) (pre : List BufferSlice) (s : BufferSlice) (post : List BufferSlice)
      (left : ℕ) (m : Shm)
      → 0 < left
      → left < 2 ^ 32
      → supply.Ready (pre ++ (s ∷ post)) m
      → All IsBlank post
      → Goes b pre s m (more_behind bm (length pre) left (at_cursor b pre s post) m)
  more_behind-Goes b pre s (next ∷ post) left m some_left small ready blank =
      let there : ltb (length pre + 1) (length (pre ++ (s ∷ next ∷ post))) ≡ true =
        ground (arith, length-append pre (s ∷ next ∷ post)) in
      simp there (record {
        b' = b;
        next = next;
        post' = post;
        m' = m;
        returns = refl;
        len_is = refl;
        ready = ready;
        blank = blank;
        same = refl;
      })
  more_behind-Goes b pre s [] left m some_left small ready blank =
      let here = pre ++ (s ∷ []) in
      let none_there : ltb (length pre + 1) (length here) ≡ false =
        ground (arith, length-append pre (s ∷ [])) in
      let fits : left % 2 ^ 32 ≡ left = omega arith in
      let (b', next, news, m', eq, len_is, ready', blank', same) =
        supply.grows b here (at_slice (length pre)) left m some_left small ready in
      let joined = append_assoc pre (s ∷ []) (next ∷ news) in
      simp (none_there, fits)
        (record {
          b' = b';
          next = next;
          post' = news;
          m' = m';
          returns =
              eq
              ∙ ap (λ (l : List BufferSlice). some (with_list b' l (at_slice (length pre)), m'))
                  joined;
          len_is = len_is;
          ready = subst (λ (l : List BufferSlice). supply.Ready l m') joined ready';
          blank = blank';
          same = same;
        })

  -- The cursor moves on.
  pub write_next-at_cursor :
      (b : LinkedBuffer) (pre : List BufferSlice) (s next : BufferSlice) (post : List BufferSlice)
      (m : Shm)
      → write_next (length pre) (with_list b (pre ++ (s ∷ next ∷ post)) (at_slice (length pre)), m)
        ≡ (at_cursor b (pre ++ (s ∷ [])) next post, m)
  write_next-at_cursor b pre s next post m =
      let there : ltb (length pre + 1) (length (pre ++ (s ∷ next ∷ post))) ≡ true =
        ground (arith, length-append pre (s ∷ next ∷ post)) in
      simp there (
        ap₂ (λ (l : List BufferSlice) (i : ℕ). (with_list b l (at_slice i), m))
          (sym (append_assoc pre (s ∷ []) (next ∷ post)))
          (omega (arith, length-append pre (s ∷ []))))
