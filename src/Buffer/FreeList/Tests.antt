-- ===== src/Buffer/FreeList/Tests.antt =====
-- The free list of list.cpp at concrete memory: tests, and the theorems at inputs that meet their
-- hypotheses.
use shmipc_cpp.Common.{ℕ, ◌≡◌, refl, [], ◌∷◌, arith, some, true, ◌⊎◌, ◌+◌, ◌≤◌, ◌<◌, ◌++◌}
use shmipc_cpp.Shm.{Shm}
use shmipc_cpp.Error.{ok, err, other}
use shmipc_cpp.Buffer.Slice.{BufferSlice, in_shm}
use shmipc_cpp.Buffer.FreeList.{BufferList, list_at, size_64, create, mapping, pop, push}
use shmipc_cpp.Buffer.FreeList.State.{Holds}
use shmipc_cpp.Buffer.FreeList.Initial.{create_list_lem, finished, finished-Holds}
use shmipc_cpp.Buffer.FreeList.State.Pop.{PopResult, pop_lem}
use shmipc_cpp.Buffer.FreeList.State.Push.{push_lem}

abbrev blank : Shm
blank x = 7

-- Three buffers of eight bytes from address 100 on.
abbrev three : BufferList
three = list_at 100 84

abbrev mem : Shm
mem = finished blank 2 8 300 100 (omega arith) (omega arith) (omega arith)

mem-Holds : Holds three 3 8 (0 ∷ 1 ∷ []) 2 0 mem
mem-Holds = finished-Holds blank 2 8 300 100 (omega arith) (omega arith) (omega arith)

create_list_lem_example :
    (((◌≡◌ {A = ℕ} 3 0) ⊎ (◌≡◌ {A = ℕ} 8 0) ⊎ (300 < 100 + size_64 3 8))
      × (create 3 8 300 100 blank ≡ (err other, blank)))
    ⊎ ((0 < 3)
        × (0 < 8)
        × (100 + size_64 3 8 ≤ 300)
        × (m' : Shm) × (create 3 8 300 100 blank ≡ (ok three, m'))
        × Holds three 3 8 (0 ∷ 1 ∷ []) 2 0 m'
        × (mapping 300 100 m' ≡ ok three))
create_list_lem_example = create_list_lem 3 8 300 100 blank (omega arith)

pop_lem_example : PopResult three 3 8 (0 ∷ 1 ∷ []) 2 0 (pop three mem)
pop_lem_example = pop_lem three 3 8 (0 ∷ 1 ∷ []) 2 0 mem mem-Holds

abbrev popped : Shm
popped = (pop three mem).1

popped-PopResult : PopResult three 3 8 (0 ∷ 1 ∷ []) 2 0 (pop three mem)
popped-PopResult = pop_lem three 3 8 (0 ∷ 1 ∷ []) 2 0 mem mem-Holds

abbrev taken : BufferSlice
taken = record {
  buffer_header = some 136;
  place = in_shm 156;
  cap = 8;
  start = 0;
  offset_in_shm = 136;
  read_index = 0;
  write_index = 0;
  is_from_shm = true;
}

push_lem_example :
    (m' : Shm) × (push three taken popped ≡ some m') × Holds three 3 8 ((1 ∷ []) ++ (2 ∷ [])) 0 0 m'
push_lem_example =
    push_lem three 3 8 (1 ∷ []) 2 0 0 taken popped popped-PopResult.3 (omega arith)
      (omega arith, tt) (omega arith) refl refl popped-PopResult.2.header_cap_is
