-- ===== src/Queue/Wakeup.antt =====
-- The wake-up protocol of one direction of a connection, at the grain of single accesses to the
-- shared memory. Producers: `flush` puts an element, and then `wake_up_peer` marks the consumer
-- working and, if it was not, sends a polling event. Consumer: `read_loop` waits for a polling
-- event, and `handle_polling` pops until the queue is empty and calls `mark_not_working`, whose
-- store, size test and second store are three steps here. Steps of both sides interleave freely.
pub mod Safety
use shmipc_cpp.Common.{ℕ, suc, ◌+◌, ◌^◌, ◌<◌, ◌≡◌, ◌≢◌, true, false}
use shmipc_cpp.Shm.{Shm}
use shmipc_cpp.Error.{Err, ok, err}
use shmipc_cpp.Queue.{
  Queue, QueueElement, load_tail, put, pop, size, mark_working, clear_flag, set_flag,
}
use shmipc_cpp.Queue.Layout.{IsElement}

-- Where the consumer stands: waiting for an event, popping, having seen the queue empty, between
-- the first store and the size test of `mark_not_working`, and before its second store.
pub data Consumer : Type 0 where
  waiting popping emptied cleared restoring : Consumer

-- `waking` calls have put their element and are not yet through `wake_up_peer`; `events` polling
-- events are on their way to the consumer.
pub record Wire : Type 0 where
  pub shm : Shm
  pub waking : ℕ
  pub events : ℕ
  pub consumer : Consumer

pub data Step (q : Queue) (s t : Wire) : Type 0 where
  puts :
      (e : QueueElement) (m : Shm)
      → IsElement e
      → load_tail q s.shm + 1 < 2 ^ 63
      → put q e s.shm ≡ (ok tt, m)
      → t ≡ record s { shm = m; waking = suc s.waking }
      → Step q s t
  wakes :
      (w : ℕ) (m : Shm)
      → s.waking ≡ suc w
      → mark_working q s.shm ≡ (true, m)
      → t ≡ record s { shm = m; waking = w; events = suc s.events }
      → Step q s t
  passes :
      (w : ℕ) (m : Shm)
      → s.waking ≡ suc w
      → mark_working q s.shm ≡ (false, m)
      → t ≡ record s { shm = m; waking = w }
      → Step q s t
  receives :
      (n : ℕ)
      → s.consumer ≡ waiting
      → s.events ≡ suc n
      → t ≡ record s { events = n; consumer = popping }
      → Step q s t
  pops :
      (e : QueueElement) (m : Shm)
      → s.consumer ≡ popping
      → pop q s.shm ≡ (ok e, m)
      → t ≡ record s { shm = m }
      → Step q s t
  drains :
      (x : Err) (m : Shm)
      → s.consumer ≡ popping
      → pop q s.shm ≡ (err x, m)
      → t ≡ record s { shm = m; consumer = emptied }
      → Step q s t
  clears :
      s.consumer ≡ emptied
      → t ≡ record s { shm = clear_flag q s.shm; consumer = cleared }
      → Step q s t
  finishes :
      s.consumer ≡ cleared → size q s.shm ≡ 0 → t ≡ record s { consumer = waiting } → Step q s t
  resumes :
      s.consumer ≡ cleared → size q s.shm ≢ 0 → t ≡ record s { consumer = restoring } → Step q s t
  restores :
      s.consumer ≡ restoring
      → t ≡ record s { shm = set_flag q s.shm; consumer = popping }
      → Step q s t

pub data Reach (q : Queue) (s : Wire) : Wire → Type 0 where
  here : Reach q s s
  next : {t u : Wire} → Reach q s t → Step q t u → Reach q s u

-- The state after `create_from_bytes`, nothing sent yet.
abbrev pub fresh_wire : Shm → Wire
fresh_wire m = record { shm = m; waking = 0; events = 0; consumer = waiting }
