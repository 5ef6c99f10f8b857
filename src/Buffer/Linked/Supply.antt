-- ===== src/Buffer/Linked/Supply.antt =====
-- What a writer needs of the manager that it allocates from, and the shape of a buffer that is
-- written: slices with bytes, the one at the cursor, and blank ones behind it.
use shmipc_cpp.Common.{
  ℕ, ◌-◌, nil_of_length, ◌<◌, ◌^◌, ◌≡◌, refl, ap, ap₂, ◌∙◌, sym, arith, List, [], ◌∷◌, ◌++◌, length,
  All, some, get_elem?,
}
use mathlib.Core.List.{append_assoc, append-nil}
use shmipc_cpp.Shm.{Shm}
use shmipc_cpp.Shm.Span.{AreBytes}
use shmipc_cpp.Buffer.Slice.{BufferSlice, append}
use shmipc_cpp.Buffer.Slice.Window.{IsValid, pending, length-bytes_at}
use shmipc_cpp.Buffer.SliceList.{Cursor}
use shmipc_cpp.Buffer.Manager.{BufferManager}
use shmipc_cpp.Buffer.Linked.{LinkedBuffer}
use shmipc_cpp.Buffer.Linked.Reclaim.{unread, with_list}
use shmipc_cpp.Buffer.Linked.Write.{alloc, put_at}

-- Nothing to read, and room to write.
pub record IsBlank (s : BufferSlice) : Type 0 where
  pub nothing_unread : s.read_index ≡ s.write_index
  pub has_room : s.write_index < s.cap

-- `Ready` is what allocating and writing need of the slices of a buffer and the memory, and keep.
pub record Supply (bm : BufferManager) : Type 1 where
  pub Ready : List BufferSlice → Shm → Type 0
  pub valid : (ss : List BufferSlice) (m : Shm) → Ready ss m → All IsValid ss
  -- Allocating appends at least one slice, all of them blank, and keeps what can be read.
  pub grows :
      (b : LinkedBuffer) (ss : List BufferSlice) (w : Cursor) (size : ℕ) (m : Shm)
      → 0 < size
      → size < 2 ^ 32
      → Ready ss m
      → (b' : LinkedBuffer) × (s : BufferSlice) × (news : List BufferSlice) × (m' : Shm) × (alloc bm
            size
            (with_list b ss w)
            m
          ≡ some (with_list b' (ss ++ (s ∷ news)) w, m'))
        × (b'.len ≡ b.len)
        × Ready (ss ++ (s ∷ news)) m'
        × All IsBlank (s ∷ news)
        × (unread ss m' ≡ unread ss m)
  -- Writing in one slice keeps what can be read in the others.
  pub fills :
      (pre : List BufferSlice) (s : BufferSlice) (post : List BufferSlice) (bs : List ℕ) (m : Shm)
      → AreBytes bs
      → Ready (pre ++ (s ∷ post)) m
      → let (k, s', m') = append s bs m in
        Ready (pre ++ (s' ∷ post)) m' × (unread pre m' ≡ unread pre m)

pub unread-append :
    (xs ys : List BufferSlice) (m : Shm) → unread (xs ++ ys) m ≡ unread xs m ++ unread ys m
unread-append [] ys m = refl
unread-append (x ∷ xs) ys m =
    ap (λ (l : List ℕ). pending x m ++ l) (unread-append xs ys m)
    ∙ sym (append_assoc (pending x m) (unread xs m) (unread ys m))

-- Blank slices have nothing to read, whatever the memory.
pub unread-blank : (ss : List BufferSlice) (m : Shm) → All IsBlank ss → unread ss m ≡ []
unread-blank [] m h = refl
unread-blank (s ∷ ss) m h =
    let none : pending s m ≡ [] = nil_of_length (pending s m) (
      length-bytes_at s.place m s.read_index (s.write_index - s.read_index) ∙ omega (arith, h.0)) in
    ap₂ ◌++◌ none (unread-blank ss m h.1)

pub unread-before :
    (xs ys : List BufferSlice) (m : Shm) → All IsBlank ys → unread (xs ++ ys) m ≡ unread xs m
unread-before xs ys m h =
    unread-append xs ys m
    ∙ ap (λ (l : List ℕ). unread xs m ++ l) (unread-blank ys m h)
    ∙ append-nil (unread xs m)

module _ {ℓ} {A : Type ℓ} where
  pub get_elem?-at_length :
      (pre : List A) (s : A) (post : List A) → get_elem? (pre ++ (s ∷ post)) (length pre) ≡ some s
  get_elem?-at_length [] s post = refl
  get_elem?-at_length (x ∷ pre) s post = get_elem?-at_length pre s post

pub put_at-length :
    (pre : List BufferSlice) (s s' : BufferSlice) (post : List BufferSlice)
    → put_at (length pre) s' (pre ++ (s ∷ post)) ≡ pre ++ (s' ∷ post)
put_at-length [] s s' post = refl
put_at-length (x ∷ pre) s s' post =
    ap (λ (l : List BufferSlice). x ∷ l) (put_at-length pre s s' post)
