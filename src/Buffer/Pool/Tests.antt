-- ===== src/Buffer/Pool/Tests.antt =====
-- A pool of three buffers, one of them taken.
use shmipc_cpp.Common.{ℕ, ◌+◌, ◌<◌, ◌≡◌, ◌⊎◌, refl, ap, ◌∙◌, sym, [], ◌∷◌, length, arith, some, All}
use shmipc_cpp.Shm.{Shm}
use shmipc_cpp.Shm.Laws.{Disjoint}
use shmipc_cpp.Error.{Result, ok, err, no_more_buffer}
use shmipc_cpp.Buffer.Slice.{BufferSlice}
use shmipc_cpp.Buffer.FreeList.{BufferList, list_at, create, pop, push, load_counter, load_size}
use shmipc_cpp.Buffer.FreeList.Initial.{finished, finished-Holds, create-finished}
use shmipc_cpp.Buffer.FreeList.State.Pop.{PopResult, pop_lem}
use shmipc_cpp.Buffer.Pool.{Pool, Uses, takes, no_use, use_then}
use shmipc_cpp.Buffer.Pool.Safety.{NoOverlap, Inside, pool_safety, pool_progress}

abbrev blank : Shm
blank x = 7

abbrev three : BufferList
three = list_at 100 84

abbrev mem : Shm
mem = finished blank 2 8 300 100 (omega arith) (omega arith) (omega arith)

created : create 3 8 300 100 blank ≡ (ok three, mem)
created = create-finished blank 2 8 300 100 (omega arith) (omega arith) (omega arith)

popped : PopResult three 3 8 (0 ∷ 1 ∷ []) 2 0 (pop three mem)
popped =
    pop_lem three 3 8 (0 ∷ 1 ∷ []) 2 0 mem
      (finished-Holds blank 2 8 300 100 (omega arith) (omega arith) (omega arith))

abbrev taken : BufferSlice
taken = popped.0

abbrev one_out : Pool
one_out = record { shm = (pop three mem).1; out = taken.offset_in_shm ∷ [] }

Uses-one_out : Uses three (record { shm = mem; out = [] }) one_out
Uses-one_out =
    use_then
      (takes taken (pop three mem).1
        (ap (λ (r : Result BufferSlice). (r, (pop three mem).1)) popped.1) refl)
      no_use

taken-header : taken.buffer_header ≡ some taken.offset_in_shm
taken-header = popped.2.header_is ∙ ap (λ (o : ℕ). some o) (sym popped.2.offset_is)

pool_safety_example :
    NoOverlap 28 one_out.out
    × All (Inside three 3 8) one_out.out
    × (load_counter three one_out.shm ≡ 1)
    × (load_size three one_out.shm + 1 ≡ 3)
pool_safety_example =
    pool_safety 3 8 300 100 blank mem three one_out (omega arith) created Uses-one_out

pool_progress_example :
    ((m' : Shm) × (push three taken one_out.shm ≡ some m'))
    × (((length one_out.out + 1 ≡ 3) × ((pop three one_out.shm).0 ≡ err no_more_buffer))
        ⊎ ((length one_out.out + 1 < 3)
            × (b' : BufferSlice) × ((pop three one_out.shm).0 ≡ ok b')
            × All (λ p. Disjoint b'.offset_in_shm 28 p 28) one_out.out))
pool_progress_example =
    pool_progress 3 8 300 100 blank mem three one_out (omega arith) created Uses-one_out 0
      taken.offset_in_shm taken refl taken-header refl
