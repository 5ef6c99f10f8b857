-- ===== src/Queue/Tests.antt =====
-- The ring of queue.cpp at concrete memory: tests, and the theorems at inputs that meet their
-- hypotheses.
use shmipc_cpp.Common.{◌<◌, ◌≡◌, refl, [], ◌∷◌, length, arith, true, false, ◌==◌, not}
use shmipc_cpp.Shm.{Shm, load_le, store_le}
use shmipc_cpp.Error.{ok, err, queue_full, queue_empty}
use shmipc_cpp.Queue.{
  Queue, QueueElement, load_tail, load_flag, load_element, store_element, put, pop, size, is_full,
  is_empty, mark_working, mark_not_working, consumer_is_working, create_from_bytes,
  mapping_from_bytes,
}
use shmipc_cpp.Queue.Layout.{IsElement, IsValid}
use shmipc_cpp.Queue.Fifo.{enqueue, dequeue, contents, window}
use shmipc_cpp.Queue.Fifo.Put.{put_refines}
use shmipc_cpp.Queue.Fifo.Pop.{pop_refines}
use shmipc_cpp.Queue.Fifo.Run.{
  puts, pops, done, got, run, run_fifo, run_refines, create_lem, size_lem,
}
use shmipc_cpp.Queue.Flag.{flag_lem}
use shmipc_cpp.Queue.Wakeup.{Wire, waiting, Reach, Step, here, next, fresh_wire}
use shmipc_cpp.Queue.Wakeup
use shmipc_cpp.Queue.Region.{IsApart, IsSame, independent}
use shmipc_cpp.Queue.Manager.{
  mem_size, create_with_memfd, create_with_file, mapping_with_memfd, mapping_with_file,
}
use shmipc_cpp.Queue.Manager.Crossing.{Crossed, crossing}
use shmipc_cpp.Queue.Wakeup.Safety.{no_lost_wakeup}

abbrev blank : Shm
blank x = 0

-- Two elements from address 64 on.
abbrev ring : Queue
ring = (create_from_bytes blank 64 2).0

abbrev mem : Shm
mem = (create_from_bytes blank 64 2).1

abbrev first : QueueElement
first = record { seq_id = 1; offset_in_shm_buf = 300; status = 0 }

abbrev second : QueueElement
second = record { seq_id = 2; offset_in_shm_buf = 70000; status = 2 }

first-IsElement : IsElement first
first-IsElement = omega arith

second-IsElement : IsElement second
second-IsElement = omega arith

-- The third element is refused, the others come back in order.
put_pop :
    run ring (puts first ∷ puts second ∷ puts first ∷ pops ∷ pops ∷ pops ∷ []) mem
    ≡ done (ok tt)
      ∷ done (ok tt)
      ∷ done (err queue_full)
      ∷ got (ok first)
      ∷ got (ok second)
      ∷ got (err queue_empty)
      ∷ []
unfolding run put pop create_from_bytes mapping_from_bytes load_element store_element load_le
    store_le
put_pop = refl

mem-IsValid : IsValid ring mem
mem-IsValid = (create_lem blank 64 2 (omega arith) (omega arith)).0

mem-tail : load_tail ring mem ≡ 0
unfolding create_from_bytes mapping_from_bytes load_le store_le
mem-tail = refl

create_lem_example :
    IsValid ring mem
    × (contents ring mem ≡ [])
    × (load_flag ring mem ≡ 0)
    × (ring.cap ≡ 2)
    × (mapping_from_bytes mem 64 ≡ ring)
create_lem_example = create_lem blank 64 2 (omega arith) (omega arith)

size_lem_example :
    (size ring mem ≡ length (contents ring mem))
    × (is_empty ring mem ≡ (length (contents ring mem) == 0))
    × (is_full ring mem ≡ (length (contents ring mem) == ring.cap))
size_lem_example = size_lem ring mem mem-IsValid

put_refines_example :
    let (r, m') = put ring first mem in
    ((r, contents ring m') ≡ enqueue ring.cap (contents ring mem) first) × IsValid ring m'
put_refines_example =
    put_refines ring first mem mem-IsValid first-IsElement (omega (arith, mem-tail))

abbrev mem₁ : Shm
mem₁ = (put ring first mem).1

mem₁-IsValid : IsValid ring mem₁
mem₁-IsValid = (put_refines ring first mem mem-IsValid first-IsElement (omega (arith, mem-tail))).1

pop_refines_example :
    let (r, m') = pop ring mem₁ in
    ((r, contents ring m') ≡ dequeue (contents ring mem₁)) × IsValid ring m'
pop_refines_example = pop_refines ring mem₁ mem₁-IsValid

run_refines_example :
    run ring (puts first ∷ puts second ∷ pops ∷ []) mem
    ≡ run_fifo ring.cap (puts first ∷ puts second ∷ pops ∷ []) (contents ring mem)
run_refines_example =
    run_refines ring (puts first ∷ puts second ∷ pops ∷ []) mem mem-IsValid
      (first-IsElement, (second-IsElement, (tt, tt))) (omega (arith, mem-tail))

flag_lem_example :
    let (was_idle, m₁) = mark_working ring mem₁ in
    let (drained, m₂) = mark_not_working ring mem₁ in
    (was_idle ≡ not (consumer_is_working ring mem₁))
    × (consumer_is_working ring m₁ ≡ true)
    × (drained ≡ (length (contents ring mem₁) == 0))
    × (consumer_is_working ring m₂ ≡ not drained)
    × (contents ring m₁ ≡ contents ring mem₁)
    × (contents ring m₂ ≡ contents ring mem₁)
    × IsValid ring m₁
    × IsValid ring m₂
flag_lem_example = flag_lem ring mem₁ mem₁-IsValid

-- One element put, the consumer woken.
abbrev mem₂ : Shm
mem₂ = (mark_working ring mem₁).1

abbrev woken : Wire
woken = record { shm = mem₂; waking = 0; events = 1; consumer = waiting }

woken-Reach : Reach ring (fresh_wire mem) woken
unfolding put mark_working create_from_bytes mapping_from_bytes load_le store_le store_element
woken-Reach =
    next (next here (Wakeup.puts first mem₁ first-IsElement (omega (arith, mem-tail)) refl refl))
      (Wakeup.wakes 0 mem₂ refl refl refl)

woken-length : length (contents ring mem₂) ≡ 1
unfolding put mark_working create_from_bytes mapping_from_bytes load_le store_le contents window
    store_element
woken-length = refl

no_lost_wakeup_example : 0 < woken.events
no_lost_wakeup_example =
    no_lost_wakeup blank 64 2 woken (omega arith) (omega arith) woken-Reach refl refl
      (omega (arith, woken-length))

crossing_example :
    Crossed 2
      (create_with_memfd (ok 5) true (ok blank) [] 2)
      (λ m. mapping_with_memfd (ok (mem_size 2)) (ok m) [] 7)
    × Crossed 2
        (create_with_file false true (ok 5) true true (ok blank) [] 2)
        (λ m. mapping_with_file (ok 7) true (ok (mem_size 2)) (ok m) [])
crossing_example = crossing blank 2 5 7 [] [] (omega arith) (omega arith)

-- A second ring behind the first.
abbrev ring₂ : Queue
ring₂ = (create_from_bytes blank 200 2).0

abbrev both : Shm
both = (create_from_bytes mem 200 2).1

both-IsValid : IsValid ring both × IsValid ring₂ both
unfolding create_from_bytes mapping_from_bytes load_le store_le
both-IsValid = (omega arith, omega arith)

IsApart-rings : IsApart ring ring₂
unfolding create_from_bytes mapping_from_bytes load_le store_le
IsApart-rings = omega arith

independent_example :
    IsSame ring₂ both (put ring first both).1
    × IsSame ring₂ both (pop ring both).1
    × IsSame ring₂ both (mark_working ring both).1
    × IsSame ring₂ both (mark_not_working ring both).1
independent_example = independent ring ring₂ both first both-IsValid.0 both-IsValid.1 IsApart-rings
