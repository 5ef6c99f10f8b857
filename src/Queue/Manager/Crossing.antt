-- ===== src/Queue/Manager/Crossing.antt =====
-- The creator of a mapping and the process that maps it hold the same two queues, crossed.
use shmipc_cpp.Common.{
  ℕ, ◌+◌, ◌*◌, ◌/◌, ◌^◌, ◌<◌, ◌≡◌, refl, ◌∙◌, arith, true, false, List, [], inl,
}
use shmipc_cpp.Shm.{Shm, load_le}
use shmipc_cpp.Shm.Laws.{load_le_ext, store_le-frame}
use shmipc_cpp.Error.{Result, ok}
use shmipc_cpp.Config.{MemMapType, mem_fd, dev_shm_file}
use shmipc_cpp.Queue.{Queue, count_queue_mem_size, create_from_bytes, mapping_from_bytes, load_flag}
use shmipc_cpp.Queue.Layout.{IsValid}
use shmipc_cpp.Queue.Fifo.{contents}
use shmipc_cpp.Queue.Fifo.Run.{create_lem}
use shmipc_cpp.Queue.Region.{Agrees, IsApart, contents-Agrees, flag-Agrees, IsValid-Agrees}
use shmipc_cpp.Queue.Manager.{
  QueueManager, zero_bytes, mem_size, create_queues, map_queues, create_with_memfd,
  create_with_file, mapping_with_memfd, mapping_with_file,
}

-- Creating a queue leaves what stands below it alone.
create_from_bytes-frame :
    (m : Shm) (data_at cap x : ℕ) → x < data_at → (create_from_bytes m data_at cap).1 x ≡ m x
unfolding create_from_bytes
create_from_bytes-frame m data_at cap x h =
    store_le-frame 4 _ (data_at + 20) 0 x (inl (omega arith))
    ∙ store_le-frame 8 _ (data_at + 12) 0 x (inl (omega arith))
    ∙ store_le-frame 8 _ (data_at + 4) 0 x (inl (omega arith))
    ∙ store_le-frame 4 m data_at cap x (inl (omega arith))

head_at-create :
    (m : Shm) (data_at cap : ℕ) → (create_from_bytes m data_at cap).0.head_at ≡ data_at + 4
unfolding create_from_bytes mapping_from_bytes
head_at-create m data_at cap = refl

mapping_ext :
    (m m' : Shm) (a : ℕ)
    → load_le 4 m' a ≡ load_le 4 m a
    → mapping_from_bytes m' a ≡ mapping_from_bytes m a
unfolding mapping_from_bytes
mapping_ext m m' a e = rw (e) refl

-- A valid empty queue with its flag clear.
abbrev pub IsFresh : Queue → Shm → Type 0
IsFresh q m = IsValid q m × (contents q m ≡ []) × (load_flag q m ≡ 0)

-- Creating and then mapping succeed, and give each process the two queues of the other, crossed.
abbrev pub Crossed : ℕ → Result (QueueManager × Shm) → (Shm → Result QueueManager) → Type 0
Crossed cap created mapped =
    (own : QueueManager) × (m : Shm) × (peer : QueueManager) × (created ≡ ok (own, m))
    × (mapped m ≡ ok peer)
    × (peer.recv_queue ≡ own.send_queue)
    × (peer.send_queue ≡ own.recv_queue)
    × (own.send_queue.cap ≡ cap)
    × (own.recv_queue.cap ≡ cap)
    × IsFresh own.send_queue m
    × IsFresh own.recv_queue m
    × IsApart own.send_queue own.recv_queue

module _ (mem : Shm) (cap : ℕ) (positive : 0 < cap) (fits : cap < 2 ^ 32) where
  abbrev zeroed : Shm
  zeroed = zero_bytes mem (mem_size cap)

  abbrev half : ℕ
  half = mem_size cap / 2

  half_is : half ≡ 24 + cap * 12
  unfolding count_queue_mem_size
  half_is = omega arith

  abbrev send : Queue
  send = (create_from_bytes zeroed 0 cap).0

  abbrev m₁ : Shm
  m₁ = (create_from_bytes zeroed 0 cap).1

  abbrev recv : Queue
  recv = (create_from_bytes m₁ half cap).0

  abbrev m₂ : Shm
  m₂ = (create_from_bytes m₁ half cap).1

  send-Agrees : Agrees send m₁ m₂
  send-Agrees x lo hi =
      let (_, _, _, c, _) = create_lem zeroed 0 cap positive fits in
      create_from_bytes-frame m₁ half cap x
        (omega (arith, hi, c, half_is, head_at-create zeroed 0 cap))

  send-IsFresh : IsFresh send m₂
  send-IsFresh =
      let (v, none_in, flag, c, _) = create_lem zeroed 0 cap positive fits in
      (
        IsValid-Agrees send m₁ m₂ v send-Agrees,
        contents-Agrees send m₁ m₂ v send-Agrees ∙ none_in,
        flag-Agrees send m₁ m₂ v send-Agrees ∙ flag,
      )

  send-mapped : mapping_from_bytes m₂ 0 ≡ send
  send-mapped =
      let (_, _, _, _, e) = create_lem zeroed 0 cap positive fits in
      mapping_ext m₁ m₂ 0 (
        load_le_ext 4 m₂ m₁ 0
          (λ x lo hi. create_from_bytes-frame m₁ half cap x (omega (arith, half_is))))
      ∙ e

  crossed :
      (path path' : List ℕ) (fd fd' : ℕ) (t t' : MemMapType) (created : Result (QueueManager × Shm))
      (mapped : Shm → Result QueueManager)
      → created ≡ ok (create_queues mem path fd cap t)
      → ((m : Shm) → mapped m ≡ ok (map_queues m path' fd' (mem_size cap) t'))
      → Crossed cap created mapped
  unfolding create_queues map_queues
  crossed path path' fd fd' t t' created mapped e f =
      let (v, none_in, flag, c, back) = create_lem m₁ half cap positive fits in
      let (_, _, _, c₁, _) = create_lem zeroed 0 cap positive fits in
      (
        _,
        _,
        _,
        e,
        f m₂,
        send-mapped,
        back,
        c₁,
        c,
        send-IsFresh,
        (v, none_in, flag),
        inl (
            omega (arith, c, c₁, half_is, head_at-create zeroed 0 cap, head_at-create m₁ half cap)),
      )

-- For a capacity between 1 and 2 ^ 32 - 1, when every system call succeeds and the size that fstat
-- reports is the one that was set: a mapping created through a memfd and mapped through one, and a
-- mapping created and mapped through a file, have two queues of that capacity, empty, their flags
-- clear and their bytes apart, and what one process sends on is what the other receives from.
pub crossing :
    (mem : Shm) (cap fd fd' : ℕ) (path path' : List ℕ)
    → 0 < cap
    → cap < 2 ^ 32
    → Crossed cap
        (create_with_memfd (ok fd) true (ok mem) path cap)
        (λ m. mapping_with_memfd (ok (mem_size cap)) (ok m) path' fd')
      × Crossed cap
          (create_with_file false true (ok fd) true true (ok mem) path cap)
          (λ m. mapping_with_file (ok fd') true (ok (mem_size cap)) (ok m) path')
unfolding create_with_memfd create_with_file mapping_with_memfd mapping_with_file
crossing mem cap fd fd' path path' positive fits = (
  crossed mem cap positive fits path path' fd fd' mem_fd mem_fd _ _ refl (λ m. refl),
  crossed mem cap positive fits path path' 0 0 dev_shm_file dev_shm_file _ _ refl (λ m. refl),
)
