-- ===== src/Queue/Manager.antt =====
-- class QueueManager (src/queue.cpp, include/shmipc/queue.hpp): the two queues of one mapping. What
-- the system calls return is a parameter: the descriptor of memfd_create or open, whether fchmod and
-- ftruncate succeed, the size that fstat reports, and the mapping of mmap. A descriptor that an error
-- path closes is not kept.
pub mod Crossing
use shmipc_cpp.Common.{ℕ, ◌+◌, ◌*◌, ◌/◌, ◌%◌, Bool, true, false, not, ltb, if◌then◌else◌, List}
use shmipc_cpp.Shm.{Shm}
use shmipc_cpp.Error.{Err, Result, ok, err, io, other}
use shmipc_cpp.Config.{MemMapType, mem_fd, dev_shm_file}
use shmipc_cpp.Queue.{
  Queue, queue_count, count_queue_mem_size, create_from_bytes, mapping_from_bytes,
}

pub record QueueManager : Type 0 where
  pub send_queue : Queue
  pub recv_queue : Queue
  pub path : List ℕ
  pub memfd : ℕ
  pub mem_len : ℕ
  pub map_type : MemMapType

-- std::memset(mem, 0, n)
abbrev pub zero_bytes : Shm → ℕ → Shm
zero_bytes m n x = if ltb x n then 0 else m x

abbrev pub mem_size : ℕ → ℕ
mem_size queue_cap = count_queue_mem_size queue_cap * queue_count

-- The part that both ways of creating share, on the fresh mapping.
unfoldable pub create_queues : Shm → List ℕ → ℕ → ℕ → MemMapType → QueueManager × Shm
create_queues mem path fd queue_cap map_type =
    let size = mem_size queue_cap in
    let (send, m₁) = create_from_bytes (zero_bytes mem size) 0 queue_cap in
    let (recv, m₂) = create_from_bytes m₁ (size / 2) queue_cap in
    (
      record {
        send_queue = send;
        recv_queue = recv;
        path = path;
        memfd = fd;
        mem_len = size;
        map_type = map_type;
      },
      m₂,
    )

-- And the part that both ways of mapping share.
unfoldable pub map_queues : Shm → List ℕ → ℕ → ℕ → MemMapType → QueueManager
map_queues mem path fd mapping_size map_type = record {
  send_queue = mapping_from_bytes mem (mapping_size / 2);
  recv_queue = mapping_from_bytes mem 0;
  path = path;
  memfd = fd;
  mem_len = mapping_size;
  map_type = map_type;
}

unfoldable pub create_with_memfd :
    Result ℕ → Bool → Result Shm → List ℕ → ℕ → Result (QueueManager × Shm)
create_with_memfd (err e) truncated mapped queue_path queue_cap = err io
create_with_memfd (ok fd) false mapped queue_path queue_cap = err other
create_with_memfd (ok fd) true (err e) queue_path queue_cap = err io
create_with_memfd (ok fd) true (ok mem) queue_path queue_cap =
    ok (create_queues mem queue_path fd queue_cap mem_fd)

-- `existed` and `has_room`: std::filesystem::exists and can_create_on_dev_shm.
unfoldable pub create_with_file :
    Bool → Bool → Result ℕ → Bool → Bool → Result Shm → List ℕ → ℕ → Result (QueueManager × Shm)
create_with_file true has_room opened chmod truncated mapped shm_path queue_cap = err other
create_with_file false false opened chmod truncated mapped shm_path queue_cap = err other
create_with_file false true (err e) chmod truncated mapped shm_path queue_cap = err io
create_with_file false true (ok fd) false truncated mapped shm_path queue_cap = err io
create_with_file false true (ok fd) true false mapped shm_path queue_cap = err io
create_with_file false true (ok fd) true true (err e) shm_path queue_cap = err io
create_with_file false true (ok fd) true true (ok mem) shm_path queue_cap =
    ok (create_queues mem shm_path 0 queue_cap dev_shm_file)

unfoldable pub mapping_with_memfd : Result ℕ → Result Shm → List ℕ → ℕ → Result QueueManager
mapping_with_memfd (err e) mapped queue_path fd = err io
mapping_with_memfd (ok mapping_size) (err e) queue_path fd = err io
mapping_with_memfd (ok mapping_size) (ok mem) queue_path fd =
    ok (map_queues mem queue_path fd mapping_size mem_fd)

unfoldable pub mapping_with_file :
    Result ℕ → Bool → Result ℕ → Result Shm → List ℕ → Result QueueManager
mapping_with_file (err e) chmod stat mapped shm_path = err io
mapping_with_file (ok fd) false stat mapped shm_path = err io
mapping_with_file (ok fd) true (err e) mapped shm_path = err io
mapping_with_file (ok fd) true (ok mapping_size) (err e) shm_path = err io
mapping_with_file (ok fd) true (ok mapping_size) (ok mem) shm_path =
    ok (map_queues mem shm_path 0 mapping_size dev_shm_file)
