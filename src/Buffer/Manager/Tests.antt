-- ===== src/Buffer/Manager/Tests.antt =====
-- A manager of one list of three buffers.
use shmipc_cpp.Common.{
  ℕ, ◌+◌, ◌^◌, ◌≤◌, ◌<◌, ◌≡◌, ◌++◌, ◌↔◌, ◌⊎◌, refl, [], ◌∷◌, arith, some, none, All, true, List,
}
use shmipc_cpp.Shm.{Shm, load_le, store_le}
use shmipc_cpp.Error.{ok, err, other, no_more_buffer}
use shmipc_cpp.Buffer.Header
use shmipc_cpp.Buffer.Slice.{BufferSlice, in_shm, new_slice}
use shmipc_cpp.Buffer.FreeList.{BufferList, cap_per_buffer, list_at, load_size, pop}
use shmipc_cpp.Buffer.FreeList.Initial.{finished, finished-Holds}
use shmipc_cpp.Buffer.FreeList.State.{Holds}
use shmipc_cpp.Buffer.FreeList.State.Pop.{PopResult}
use shmipc_cpp.Buffer.Manager.{
  BufferManager, read_buffer_slice, check_buffer_returned, alloc_shm_buffer,
}
use shmipc_cpp.Buffer.Manager.Lookup.{described, read_buffer_slice_lem, check_buffer_returned_lem}
use shmipc_cpp.Buffer.Manager.Choice.{alloc_lem}
use shmipc_cpp.Buffer.Manager.Chains.{Allocation, alloc_list}
use shmipc_cpp.Buffer.Manager.Harvest.{Takes, alloc_list_lem}
use shmipc_cpp.Buffer.SliceList.{no_slices}

abbrev blank : Shm
blank x = 7

abbrev three : BufferList
three = list_at 100 84

abbrev mem : Shm
mem = finished blank 2 8 300 100 (omega arith) (omega arith) (omega arith)

held : Holds three 3 8 (0 ∷ 1 ∷ []) 2 0 mem
held = finished-Holds blank 2 8 300 100 (omega arith) (omega arith) (omega arith)

abbrev manager : BufferManager
manager = record { lists = three ∷ []; mem_size = 300; min_slice_size = 8; max_slice_size = 8 }

check_buffer_returned_lem_example :
    (check_buffer_returned manager mem ≡ true) ↔ All {A = ℕ} (λ u. u ≡ 0) (0 ∷ [])
check_buffer_returned_lem_example =
    check_buffer_returned_lem manager (0 ∷ []) mem ((3, 8, 0 ∷ 1 ∷ [], 2, held), tt)

alloc_lem_example :
    (((8 < 6) ⊎ All {A = BufferList} (λ k. cap_per_buffer k mem < 6) (three ∷ []))
      × (alloc_shm_buffer manager 6 mem ≡ (err no_more_buffer, mem)))
    ⊎ ((6 ≤ 8)
        × (before : List BufferList) × (l : BufferList) × (after : List BufferList) × (three ∷ []
            ≡ before ++ (l ∷ after))
        × All (λ k. cap_per_buffer k mem < 6) before
        × (n : ℕ) × (c : ℕ) × (ks : List ℕ) × (t : ℕ) × (u : ℕ) × Holds l n c ks t u mem
        × (6 ≤ c)
        × PopResult l n c ks t u (alloc_shm_buffer manager 6 mem))
alloc_lem_example = alloc_lem manager 6 (0 ∷ []) mem ((3, 8, 0 ∷ 1 ∷ [], 2, held), tt)

abbrev mem₁ : Shm
mem₁ = (pop three mem).1

-- A header at 40 that says capacity 16.
abbrev small : Shm
small = store_le 4 (λ x. 0) 40 16

abbrev hundred : BufferManager
hundred = record { lists = []; mem_size = 100; min_slice_size = 16; max_slice_size = 16 }

small-fits : 40 + 20 + Header.cap small 40 < 2 ^ 32
unfolding Header.cap load_le store_le
small-fits = omega arith

read_buffer_slice_lem_example :
    ((40 + 20 < hundred.mem_size)
      × (40 + 20 + Header.cap small 40 ≤ hundred.mem_size)
      × (0 < Header.cap small 40)
      × (read_buffer_slice hundred 40 small ≡ some (ok (described small 40))))
    ⊎ (((40 + 20 < hundred.mem_size)
          × (Header.cap small 40 ≡ 0)
          × (read_buffer_slice hundred 40 small ≡ none))
        ⊎ (((hundred.mem_size ≤ 40 + 20) ⊎ (hundred.mem_size < 40 + 20 + Header.cap small 40))
            × (read_buffer_slice hundred 40 small ≡ some (err other))))
read_buffer_slice_lem_example = read_buffer_slice_lem hundred 40 small small-fits

-- A corrupt capacity whose end wraps to 59 passes both tests, and the slice says 2 ^ 32 - 1 bytes.
abbrev corrupt : Shm
corrupt = store_le 4 (λ x. 0) 40 4294967295

read-corrupt :
    read_buffer_slice hundred 40 corrupt
    ≡ some (
        ok (record {
          buffer_header = some 40;
          place = in_shm 60;
          cap = 4294967295;
          start = 0;
          offset_in_shm = 40;
          read_index = 0;
          write_index = 0;
          is_from_shm = true;
        }))
unfolding read_buffer_slice new_slice Header.cap Header.size Header.start load_le store_le
read-corrupt = refl

-- Ten bytes take both free buffers.
abbrev ten : Allocation
ten = record { remain = 10; alloc_size = 0; slices = no_slices }

alloc_list_lem_example :
    (k : ℕ) × (news : List BufferSlice) × (a' : Allocation) × (m' : Shm) × (alloc_list
        (load_size three mem + 1)
        three
        ten
        mem
      ≡ some (a', m'))
    × Takes three 3 8 (0 ∷ 1 ∷ []) 2 0 ten a' m' k news
alloc_list_lem_example = alloc_list_lem three 3 8 2 (0 ∷ 1 ∷ []) 0 ten mem held
