-- ===== src/Buffer/Linked/Appending.antt =====
-- LinkedBuffer::write_bytes on a buffer that is written only.
use shmipc_cpp.Common.{
  ℕ, ◌+◌, ◌%◌, ◌<◌, ◌^◌, ◌≡◌, inr, refl, ap, ap₂, subst, ◌∙◌, sym, arith, List, [], ◌∷◌, ◌++◌,
  length, length-append, some, ◌>>=◌, All,
}
use mathlib.Core.List.{append-nil}
use shmipc_cpp.Shm.{Shm}
use shmipc_cpp.Shm.Span.{AreBytes}
use shmipc_cpp.Buffer.Slice.{BufferSlice}
use shmipc_cpp.Buffer.SliceList.{null}
use shmipc_cpp.Buffer.Manager.{BufferManager}
use shmipc_cpp.Buffer.Linked.{LinkedBuffer}
use shmipc_cpp.Buffer.Linked.Reclaim.{unread, with_list}
use shmipc_cpp.Buffer.Linked.Write.{alloc, write_bytes, write_loop, as_written}
use shmipc_cpp.Buffer.Linked.Supply.{Supply, IsBlank, unread-blank}
use shmipc_cpp.Buffer.Linked.WriteStep.{Written, at_cursor}
use shmipc_cpp.Buffer.Linked.WriteLoop.{loop_lem}

module _ (bm : BufferManager) (supply : Supply bm) where
  -- Nothing allocated yet, or a cursor with only blank slices behind it.
  pub data Writable (b : LinkedBuffer) (m : Shm) : Type 0 where
    is_new : b.slice_list.slices ≡ [] → b.slice_list.write ≡ null → supply.Ready [] m → Writable b m
    is_written : Written bm supply b b.len (unread b.slice_list.slices m) m → Writable b m

  abbrev pub Writing : LinkedBuffer → List ℕ → Shm → Type 0
  Writing b bytes m =
      (b' : LinkedBuffer) × (m' : Shm) × (write_bytes bm bytes b m ≡ some (length bytes, b', m'))
      × Writable b' m'
      × (unread b'.slice_list.slices m' ≡ unread b.slice_list.slices m ++ bytes)
      × (b'.len ≡ b.len + length bytes)

  -- Behind the loop.
  from_loop :
      (fuel : ℕ) (b : LinkedBuffer) (x : ℕ) (bytes bs : List ℕ) (m : Shm)
      → b.len ≡ x
      → x + length bytes < 2 ^ 64
      → (b₁ : LinkedBuffer) × (m' : Shm) × (write_loop fuel bm bytes 0 b m
          ≡ some (0 + length bytes, b₁, m'))
        × Written bm supply b₁ b.len (bs ++ bytes) m'
      → (b' : LinkedBuffer) × (m' : Shm) × ((write_loop fuel bm bytes 0 b m >>= as_written)
          ≡ some (length bytes, b', m'))
        × Writable b' m'
        × (unread b'.slice_list.slices m' ≡ bs ++ bytes)
        × (b'.len ≡ x + length bytes)
  from_loop fuel b x bytes bs m len_is fits (b₁, m', eq, w) =
      let n = length bytes in
      let b' = record b₁ { len = (b₁.len + n) % 2 ^ 64 } in
      (
        b',
        m',
        ap (λ o. o >>= as_written) (eq ∙ ap (λ (i : ℕ). some (i, b₁, m')) (omega arith)),
        is_written (record {
          pre = w.pre;
          at = w.at;
          post = w.post;
          slices_are = w.slices_are;
          cursor_is = w.cursor_is;
          ready = w.ready;
          blank = w.blank;
          unread_is = refl;
          len_is = refl;
        }),
        w.unread_is,
        omega (arith, w.len_is, len_is, fits),
      )

  at_cursor-Writing :
      (b : LinkedBuffer) (pre : List BufferSlice) (s : BufferSlice) (post : List BufferSlice)
      (bytes : List ℕ) (m : Shm)
      → AreBytes bytes
      → length bytes < 2 ^ 32
      → b.len + length bytes < 2 ^ 64
      → supply.Ready (pre ++ (s ∷ post)) m
      → All IsBlank post
      → Writing (at_cursor bm supply b pre s post) bytes m
  unfolding write_bytes
  at_cursor-Writing b pre s post [] m h small fits ready blank = (
    at_cursor bm supply b pre s post,
    m,
    refl,
    is_written (record {
      pre = pre;
      at = s;
      post = post;
      slices_are = refl;
      cursor_is = refl;
      ready = ready;
      blank = blank;
      unread_is = refl;
      len_is = refl;
    }),
    sym (append-nil (unread (pre ++ (s ∷ post)) m)),
    omega arith,
  )
  at_cursor-Writing b pre s post (x ∷ bytes) m h small fits ready blank =
      from_loop (length (pre ++ (s ∷ post)) + length (x ∷ bytes) + 1)
        (at_cursor bm supply b pre s post) b.len (x ∷ bytes) (unread (pre ++ (s ∷ post)) m) m refl
        fits
        (loop_lem bm supply (length (pre ++ (s ∷ post)) + length (x ∷ bytes) + 1) b pre s post
          (x ∷ bytes) 0 m (inr (omega (arith, length-append pre (s ∷ post)))) small h ready blank)

  -- Behind the first allocation.
  grown-Writing :
      (b b₁ : LinkedBuffer) (s : BufferSlice) (news : List BufferSlice) (x : ℕ) (bytes : List ℕ)
      (m m₁ : Shm)
      → AreBytes (x ∷ bytes)
      → length (x ∷ bytes) < 2 ^ 32
      → b.len + length (x ∷ bytes) < 2 ^ 64
      → alloc bm (length (x ∷ bytes) % 2 ^ 32) (with_list b [] null) m
        ≡ some (with_list b₁ (s ∷ news) null, m₁)
      → b₁.len ≡ b.len
      → supply.Ready (s ∷ news) m₁
      → All IsBlank (s ∷ news)
      → Writing (with_list b [] null) (x ∷ bytes) m
  unfolding write_bytes
  grown-Writing b b₁ s news x bytes m m₁ h small fits eq len_is ready blank =
      let fuel = length (s ∷ news) + length (x ∷ bytes) + 1 in
      simp eq (
        from_loop fuel (at_cursor bm supply b₁ [] s news) b.len (x ∷ bytes) [] m₁ len_is fits (
          subst
            (λ (l : List ℕ).
              (b₂ : LinkedBuffer) × (m' : Shm) × (write_loop fuel bm (x ∷ bytes) 0
                  (at_cursor bm supply b₁ [] s news) m₁
                ≡ some (0 + length (x ∷ bytes), b₂, m'))
              × Written bm supply b₂ b₁.len (l ++ (x ∷ bytes)) m')
            (unread-blank (s ∷ news) m₁ blank)
            (loop_lem bm supply fuel b₁ [] s news (x ∷ bytes) 0 m₁ (inr (omega arith)) small h ready
              blank.1)))

  new-Writing :
      (b : LinkedBuffer) (bytes : List ℕ) (m : Shm)
      → AreBytes bytes
      → length bytes < 2 ^ 32
      → b.len + length bytes < 2 ^ 64
      → supply.Ready [] m
      → Writing (with_list b [] null) bytes m
  unfolding write_bytes
  new-Writing b [] m h small fits ready =
      (with_list b [] null, m, refl, is_new refl refl ready, refl, omega arith)
  new-Writing b (x ∷ bytes) m h small fits ready =
      let (b₁, s, news, m₁, eq, len_is, ready₁, blank, same) =
        supply.grows b [] null (length (x ∷ bytes)) m (omega arith) small ready in
      let whole : length (x ∷ bytes) % 2 ^ 32 ≡ length (x ∷ bytes) = omega arith in
      grown-Writing b b₁ s news x bytes m m₁ h small fits
        (ap (λ (i : ℕ). alloc bm i (with_list b [] null) m) whole ∙ eq) len_is ready₁ blank

  -- Writing fewer than 2 ^ 32 bytes to a buffer that is new, or whose cursor has only blank slices
  -- behind it, from a manager that gives blank slices and keeps what can be read: the loop ends,
  -- all the bytes are taken, they stand behind the unread bytes in their order, however many slices
  -- they cross, the length grows by their number, and the buffer can be written again.
  pub write_bytes_lem :
      (b : LinkedBuffer) (bytes : List ℕ) (m : Shm)
      → AreBytes bytes
      → length bytes < 2 ^ 32
      → b.len + length bytes < 2 ^ 64
      → Writable b m
      → (b' : LinkedBuffer) × (m' : Shm) × (write_bytes bm bytes b m ≡ some (length bytes, b', m'))
        × Writable b' m'
        × (unread b'.slice_list.slices m' ≡ unread b.slice_list.slices m ++ bytes)
        × (b'.len ≡ b.len + length bytes)
  write_bytes_lem b bytes m h small fits (is_new none_yet no_cursor ready) =
      subst (λ (x : LinkedBuffer). Writing x bytes m)
        (ap₂ (with_list b) (sym none_yet) (sym no_cursor))
        (new-Writing b bytes m h small fits ready)
  write_bytes_lem b bytes m h small fits (is_written w) =
      subst (λ (x : LinkedBuffer). Writing x bytes m)
        (ap₂ (with_list b) (sym w.slices_are) (sym w.cursor_is))
        (at_cursor-Writing b w.pre w.at w.post bytes m h small fits
          (subst (λ (l : List BufferSlice). supply.Ready l m) w.slices_are w.ready) w.blank)
