-- ===== src/Buffer/Linked/Tests.antt =====
-- A buffer of two slices of one list, three bytes in the first and two in the second.
use shmipc_cpp.Common.{
  ℕ, ◌+◌, ◌≤◌, ◌<◌, ◌≡◌, ◌⊎◌, inr, refl, arith, true, false, some, [], ◌∷◌, List, length-append,
}
use shmipc_cpp.Shm.{Shm}
use shmipc_cpp.Error.{ok, err, not_enough_data}
use shmipc_cpp.Buffer.Slice.{BufferSlice, in_shm}
use shmipc_cpp.Buffer.Slice.Window.{pending, length-bytes_at}
use shmipc_cpp.Buffer.FreeList.{BufferList, list_at}
use shmipc_cpp.Buffer.FreeList.Initial.{finished, finished-Holds}
use shmipc_cpp.Buffer.FreeList.State.{Holds}
use shmipc_cpp.Buffer.Manager.{BufferManager}
use shmipc_cpp.Buffer.SliceList.{at_slice, no_slices}
use shmipc_cpp.Buffer.Linked.{LinkedBuffer}
use shmipc_cpp.Buffer.Linked.Read.{Buf, span, read_bytes, peek, discard}
use shmipc_cpp.Buffer.Linked.Reclaim.{Reclaim, unread}
use shmipc_cpp.Buffer.Linked.OneList.{reclaim}
use shmipc_cpp.Buffer.Linked.Bytes.{IsSound, Reading, read_bytes_lem}
use shmipc_cpp.Buffer.Linked.Agree.{readers_agree}
use shmipc_cpp.Buffer.Linked.Write.{write_bytes}
use shmipc_cpp.Buffer.Linked.Supply.{Supply}
use shmipc_cpp.Buffer.Linked.Appending.{Writable, is_new, write_bytes_lem}
use shmipc_cpp.Buffer.Linked.FromList.{supply}

abbrev mem : Shm
mem = finished (λ x. 7) 2 8 300 100 (omega arith) (omega arith) (omega arith)

abbrev three : BufferList
three = list_at 100 84

held : Holds three 3 8 (0 ∷ 1 ∷ []) 2 0 mem
held = finished-Holds (λ x. 7) 2 8 300 100 (omega arith) (omega arith) (omega arith)

abbrev manager : BufferManager
manager = record { lists = three ∷ []; mem_size = 300; min_slice_size = 8; max_slice_size = 8 }

abbrev slice_of : ℕ → ℕ → BufferSlice
slice_of at n = record {
  buffer_header = some at;
  place = in_shm (at + 20);
  cap = 8;
  start = 0;
  offset_in_shm = at;
  read_index = 0;
  write_index = n;
  is_from_shm = true;
}

abbrev two_slices : LinkedBuffer
two_slices = record {
  slice_list = record { slices = slice_of 136 3 ∷ slice_of 164 2 ∷ []; write = at_slice 1 };
  pinned_list = no_slices;
  current_pinned = false;
  end_stream = false;
  is_from_shm = true;
  len = 5;
}

abbrev back : Reclaim manager
back = reclaim three 3 8 held.laid manager refl

two_slices-IsSound : IsSound manager back two_slices mem
two_slices-IsSound = record {
  can_read = record {
    ready = record {
      cap_per_buffer_is = held.cap_per_buffer_is;
      tail_in = (2, omega arith, held.tail_is);
    };
    owned = (
      inr (record {
        index = 0;
        index_in = omega arith;
        header_is = refl;
        place_is = refl;
        offset_is = refl;
        cap_is = refl;
      }),
      (
        inr (record {
          index = 1;
          index_in = omega arith;
          header_is = refl;
          place_is = refl;
          offset_is = refl;
          cap_is = refl;
        }),
        tt,
      ),
    );
    valid = (
      record { read_le = omega arith; write_le = omega arith; cap_fits = omega arith },
      (record { read_le = omega arith; write_le = omega arith; cap_fits = omega arith }, tt),
    );
  };
  len_is = omega (
    arith,
    length-append (pending (slice_of 136 3) mem) (unread (slice_of 164 2 ∷ []) mem),
    length-append (pending (slice_of 164 2) mem) [],
    length-bytes_at (in_shm 156) mem 0 3,
    length-bytes_at (in_shm 184) mem 0 2,
  );
  len_fits = omega arith;
}

-- Four bytes are in both slices.
read_bytes_lem_example :
    ((4 ≤ 5)
      × Reading manager back two_slices 4
          (unread two_slices.slice_list.slices mem)
          (read_bytes manager 4 two_slices mem))
    ⊎ ((5 < 4)
        × (read_bytes manager 4 two_slices mem ≡ some (err not_enough_data, two_slices, mem)))
read_bytes_lem_example = read_bytes_lem manager back two_slices 4 mem two_slices-IsSound

readers_agree_example :
    ((4 ≤ 5)
      × (seen : Buf) × (bp : LinkedBuffer) × (peek 4 two_slices mem ≡ (ok seen, bp))
      × (bp.slice_list ≡ two_slices.slice_list)
      × (bp.len ≡ 5)
      × (buf : Buf) × (br : LinkedBuffer) × (mr : Shm) × (read_bytes manager 4 two_slices mem
          ≡ some (ok buf, br, mr))
      × (bd : LinkedBuffer) × (md : Shm) × (discard manager 4 two_slices mem ≡ some (ok 4, bd, md))
      × (span seen ≡ span buf)
      × (unread bd.slice_list.slices md ≡ unread br.slice_list.slices mr)
      × (bd.len ≡ br.len))
    ⊎ ((5 < 4)
        × (read_bytes manager 4 two_slices mem ≡ some (err not_enough_data, two_slices, mem))
        × (peek 4 two_slices mem ≡ (err not_enough_data, two_slices))
        × (discard manager 4 two_slices mem ≡ some (err not_enough_data, two_slices, mem)))
readers_agree_example = readers_agree manager back two_slices 4 mem two_slices-IsSound

-- A buffer that is new, and slices from the list.
abbrev from_list : Supply manager
from_list = supply three 3 8 (omega arith) manager refl

abbrev fresh : LinkedBuffer
fresh = record {
  slice_list = no_slices;
  pinned_list = no_slices;
  current_pinned = false;
  end_stream = false;
  is_from_shm = true;
  len = 0;
}

abbrev twenty : List ℕ
twenty =
    1 ∷ 2 ∷ 3 ∷ 4 ∷ 5 ∷ 6 ∷ 7 ∷ 8 ∷ 9 ∷ 10 ∷ 11 ∷ 12 ∷ 13 ∷ 14 ∷ 15 ∷ 16 ∷ 17 ∷ 18 ∷ 19 ∷ 20 ∷ []

-- Twenty bytes fill both free buffers of the list, and four go to a slice with storage of its own.
write_bytes_lem_example :
    (b' : LinkedBuffer) × (m' : Shm) × (write_bytes manager twenty fresh mem ≡ some (20, b', m'))
    × Writable manager from_list b' m'
    × (unread b'.slice_list.slices m' ≡ twenty)
    × (b'.len ≡ 20)
write_bytes_lem_example =
    write_bytes_lem manager from_list fresh twenty mem (omega arith) (omega arith) (omega arith) (
      is_new refl refl
        (0 ∷ 1 ∷ [], 2, 0, [], record { held = held; lie = tt; spread = tt; out = tt }))
