-- ===== src/Buffer/Linked/PopFrame.antt =====
-- What BufferList::pop writes lies in the list's header and in the headers of its buffers.
use shmipc_cpp.Common.{ℕ, ◌+◌, ◌≡◌, ◌∙◌, arith, List, [], ◌∷◌}
use shmipc_cpp.Shm.{Shm}
use shmipc_cpp.Shm.Laws.{store_le-frame}
use shmipc_cpp.Buffer.Header
use shmipc_cpp.Buffer.FreeList.{BufferList, pop, sub_one}
use shmipc_cpp.Buffer.FreeList.Chain.{header_at}
use shmipc_cpp.Buffer.FreeList.State.{IsLaid, Holds}
use shmipc_cpp.Buffer.FreeList.State.Pop.{pop_taken, pop_exhausted, unlinked}
use shmipc_cpp.Buffer.Linked.PushFrame.{IsPayload, in_header, below}

module _ (l : BufferList) (n c : ℕ) (laid : IsLaid l n c) where
  unlinked-frame :
      (k : ℕ) (m : Shm) (x : ℕ)
      → IsPayload l n c laid x
      → unlinked l (header_at l.buffer_region c k) (sub_one m l.size_at) x ≡ m x
  unfolding Header.clear_flag Header.set_in_used
  unlinked-frame k m x p =
      let h = header_at l.buffer_region c k in
      store_le-frame 4 _ l.counter_at _ x
        (below l n c laid x l.counter_at 4 p (omega (arith, laid)))
      ∙ store_le-frame 1 _ (h + 16) _ x (in_header l n c laid x k 16 1 p (omega arith))
      ∙ store_le-frame 1 _ (h + 16) _ x (in_header l n c laid x k 16 1 p (omega arith))
      ∙ store_le-frame 4 _ l.head_at _ x (below l n c laid x l.head_at 4 p (omega (arith, laid)))
      ∙ store_le-frame 4 m l.size_at _ x (below l n c laid x l.size_at 4 p (omega (arith, laid)))

  pub pop-frame :
      (ks : List ℕ) (t used : ℕ) (m : Shm) (x : ℕ)
      → Holds l n c ks t used m
      → IsPayload l n c laid x
      → (pop l m).1 x ≡ m x
  pop-frame [] t used m x held p = rw (pop_exhausted l n c t used m held) (
      store_le-frame 4 _ l.size_at _ x (below l n c laid x l.size_at 4 p (omega (arith, laid)))
      ∙ store_le-frame 4 m l.size_at _ x (below l n c laid x l.size_at 4 p (omega (arith, laid))))
  pop-frame (k ∷ ks) t used m x held p =
      rw (pop_taken l n c k ks t used m held) (unlinked-frame k m x p)
