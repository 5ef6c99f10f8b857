-- ===== src/Queue/Fifo/Run.antt =====
-- Any interleaving of the producer's `put` and the consumer's `pop`, and the fresh queue it starts
-- from.
use shmipc_cpp.Common.{
  ℕ, ◌+◌, ◌^◌, ◌<◌, ◌≡◌, refl, sym, ◌∙◌, ap, List, [], ◌∷◌, All, length, arith, ◌==◌,
}
use shmipc_cpp.Shm.{Shm, load_u32, store_u32, load_i64, store_i64}
use shmipc_cpp.Shm.Laws.{load_le-store_le_ne, load_le-store_le_self}
use shmipc_cpp.Error.{Result}
use shmipc_cpp.Queue.{
  Queue, QueueElement, load_tail, load_flag, put, pop, create_from_bytes, mapping_from_bytes, size,
  is_full, is_empty,
}
use shmipc_cpp.Queue.Layout.{IsElement, IsValid}
use shmipc_cpp.Queue.Fifo.{Fifo, enqueue, dequeue, contents, length-contents}
use shmipc_cpp.Queue.Fifo.Put.{put_refines, tail-put}
use shmipc_cpp.Queue.Fifo.Pop.{pop_refines, tail-pop, contents_of_eq}

pub data Op : Type 0 where
  puts : QueueElement → Op
  pops : Op

pub data Reply : Type 0 where
  done : Result (Unit {0}) → Reply
  got : Result QueueElement → Reply

-- What a sequence of calls returns, on the shared memory and on the specification.
unfoldable pub run : Queue → List Op → Shm → List Reply
run q [] m = []
run q (puts e ∷ ops) m = let (r, m') = put q e m in done r ∷ run q ops m'
run q (pops ∷ ops) m = let (r, m') = pop q m in got r ∷ run q ops m'

unfoldable pub run_fifo : ℕ → List Op → Fifo → List Reply
run_fifo cap [] l = []
run_fifo cap (puts e ∷ ops) l = let (r, l') = enqueue cap l e in done r ∷ run_fifo cap ops l'
run_fifo cap (pops ∷ ops) l = let (r, l') = dequeue l in got r ∷ run_fifo cap ops l'

abbrev pub IsOp : Op → Type 0
IsOp (puts e) = IsElement e
IsOp pops = Unit {0}

-- No sequence of `put` and `pop` calls tells a valid queue from the bounded first-in first-out
-- queue of its contents, as long as the tail counter cannot overflow during the sequence.
pub run_refines :
    (q : Queue) (ops : List Op) (m : Shm)
    → IsValid q m
    → All IsOp ops
    → load_tail q m + length ops < 2 ^ 63
    → run q ops m ≡ run_fifo q.cap ops (contents q m)
unfolding run run_fifo
run_refines q [] m v b room = refl
run_refines q (puts e ∷ ops) m v b room =
    let s = put_refines q e m v b.0 (omega arith) in
    let t =
      run_refines q ops (put q e m).1 s.1 b.1 (omega (arith, tail-put q e m v b.0 (omega arith))) in
    rw (← s.0) (ap (λ (l : List Reply). done (put q e m).0 ∷ l) t)
run_refines q (pops ∷ ops) m v b room =
    let s = pop_refines q m v in
    let t = run_refines q ops (pop q m).1 s.1 b.1 (omega (arith, tail-pop q m v)) in
    rw (← s.0) (ap (λ (l : List Reply). got (pop q m).0 ∷ l) t)

module _ (m : Shm) (data_at cap : ℕ) (f : cap < 2 ^ 32) where
  abbrev capped : Shm
  capped = store_u32 m data_at cap

  abbrev headed : Shm
  headed = store_i64 capped (data_at + 4) 0

  abbrev tailed : Shm
  tailed = store_i64 headed (data_at + 12) 0

  abbrev fresh : Shm
  fresh = store_u32 tailed (data_at + 20) 0

  cap-capped : load_u32 capped data_at ≡ cap
  cap-capped = load_le-store_le_self 4 m data_at cap f

  cap-fresh : load_u32 fresh data_at ≡ load_u32 capped data_at
  cap-fresh =
      load_le-store_le_ne 4 4 tailed data_at (data_at + 20) 0 (omega arith)
      ∙ load_le-store_le_ne 4 8 headed data_at (data_at + 12) 0 (omega arith)
      ∙ load_le-store_le_ne 4 8 capped data_at (data_at + 4) 0 (omega arith)

  head-fresh : load_i64 fresh (data_at + 4) ≡ 0
  head-fresh =
      load_le-store_le_ne 8 4 tailed (data_at + 4) (data_at + 20) 0 (omega arith)
      ∙ load_le-store_le_ne 8 8 headed (data_at + 4) (data_at + 12) 0 (omega arith)
      ∙ load_le-store_le_self 8 capped (data_at + 4) 0 (omega arith)

  tail-fresh : load_i64 fresh (data_at + 12) ≡ 0
  tail-fresh =
      load_le-store_le_ne 8 4 tailed (data_at + 12) (data_at + 20) 0 (omega arith)
      ∙ load_le-store_le_self 8 headed (data_at + 12) 0 (omega arith)

  flag-fresh : load_u32 fresh (data_at + 20) ≡ 0
  flag-fresh = load_le-store_le_self 4 tailed (data_at + 20) 0 (omega arith)

  fresh-IsValid : 0 < cap → IsValid (mapping_from_bytes capped data_at) fresh
  unfolding mapping_from_bytes
  fresh-IsValid p = record {
    tail_laid = omega arith;
    flag_laid = omega arith;
    elements_laid = omega arith;
    cap_pos = omega (arith, cap-capped);
    cap_fits = omega (arith, cap-capped);
    ordered = omega (arith, head-fresh, tail-fresh);
    bounded = omega (arith, head-fresh, tail-fresh);
    no_overflow = omega (arith, tail-fresh);
  }

  mapping-fresh : mapping_from_bytes fresh data_at ≡ mapping_from_bytes capped data_at
  unfolding mapping_from_bytes
  mapping-fresh = rw cap-fresh

-- Creating a queue of positive capacity gives a valid empty one of that capacity with the flag
-- clear, and mapping the same bytes afterwards gives the same queue.
pub create_lem :
    (m : Shm) (data_at cap : ℕ)
    → 0 < cap
    → cap < 2 ^ 32
    → let (q, m') = create_from_bytes m data_at cap in
      IsValid q m'
      × (contents q m' ≡ [])
      × (load_flag q m' ≡ 0)
      × (q.cap ≡ cap)
      × (mapping_from_bytes m' data_at ≡ q)
unfolding create_from_bytes
create_lem m data_at cap p f =
    let v = fresh-IsValid m data_at cap f p in
    (
      v,
      contents_of_eq _ _ v (head-fresh m data_at cap f ∙ sym (tail-fresh m data_at cap f)),
      flag-fresh m data_at cap f,
      cap-capped m data_at cap f,
      mapping-fresh m data_at cap f,
    )

-- On a valid queue the three tests of the header read the contents.
pub size_lem :
    (q : Queue) (m : Shm)
    → IsValid q m
    → (size q m ≡ length (contents q m))
      × (is_empty q m ≡ (length (contents q m) == 0))
      × (is_full q m ≡ (length (contents q m) == q.cap))
unfolding size is_empty is_full
size_lem q m v =
    let e : size q m ≡ length (contents q m) = omega (arith, v, length-contents q m) in
    (e, rw e, rw e)
