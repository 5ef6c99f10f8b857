-- ===== src/Buffer/Slice/Tests.antt =====
-- Slices at concrete memory: tests, and the theorems at inputs that meet their hypotheses.
use shmipc_cpp.Common.{
  ℕ, ◌+◌, ◌≡◌, refl, List, [], ◌∷◌, ◌++◌, length, take, drop, min, arith, some, true,
}
use shmipc_cpp.Shm.{Shm, load_le, store_le}
use shmipc_cpp.Shm.Span.{AreBytes, read_span, write_span}
use shmipc_cpp.Buffer.Header
use shmipc_cpp.Buffer.Slice.{
  BufferSlice, in_shm, new_slice, append, read, peek, skip, update, size, remain,
}
use shmipc_cpp.Buffer.Slice.Window.{IsValid, pending, append_lem, read_lem}
use shmipc_cpp.Buffer.Slice.Handover.{IsHeld, NextIs, handover_lem}

abbrev blank : Shm
blank x = 0

-- A header at 40 that says capacity 4.
abbrev mem : Shm
mem = store_le 4 blank 40 4

abbrev slice : BufferSlice
slice = record {
  buffer_header = some 40;
  place = in_shm 60;
  cap = 4;
  start = 0;
  offset_in_shm = 40;
  read_index = 0;
  write_index = 0;
  is_from_shm = true;
}

slice-IsValid : IsValid slice
slice-IsValid = record { read_le = omega arith; write_le = omega arith; cap_fits = omega arith }

abbrev five : List ℕ
five = 10 ∷ 20 ∷ 30 ∷ 40 ∷ 50 ∷ []

five-AreBytes : AreBytes five
five-AreBytes = omega arith

-- Four bytes find room, and come back in two reads.
append-read :
    let (n, s₁, m₁) = append slice five mem in
    let (front, s₂) = read s₁ 3 m₁ in
    let (back, s₃) = read s₂ 3 m₁ in (n ≡ 4) × (front ≡ 10 ∷ 20 ∷ 30 ∷ []) × (back ≡ 40 ∷ [])
unfolding append read size remain load_le store_le read_span write_span
append-read = (refl, refl, refl)

append_lem_example :
    let (n, s', m') = append slice five mem in
    (n ≡ min 5 4) × (pending s' m' ≡ pending slice mem ++ take n five) × IsValid s'
append_lem_example = append_lem slice five mem slice-IsValid five-AreBytes

abbrev filled : BufferSlice
filled = (append slice five mem).1

abbrev mem₁ : Shm
mem₁ = (append slice five mem).2

filled-IsValid : IsValid filled
filled-IsValid = let (n, p, v) = append_lem slice five mem slice-IsValid five-AreBytes in v

read_lem_example :
    let (out, s') = read filled 3 mem₁ in
    let (k, s'') = skip filled 3 in
    (out ≡ take 3 (pending filled mem₁))
    × (pending s' mem₁ ≡ drop 3 (pending filled mem₁))
    × (peek filled 3 mem₁ ≡ take 3 (pending filled mem₁))
    × (k ≡ min 3 (length (pending filled mem₁)))
    × (pending s'' mem₁ ≡ drop 3 (pending filled mem₁))
    × IsValid s'
    × IsValid s''
read_lem_example = read_lem filled 3 mem₁ filled-IsValid

abbrev three : List ℕ
three = 10 ∷ 20 ∷ 30 ∷ []

filled-IsHeld : IsHeld filled 40 mem₁
unfolding append load_le store_le Header.cap write_span remain
filled-IsHeld = record {
  header_is = refl;
  place_is = refl;
  cap_is = refl;
  unread = refl;
  valid = filled-IsValid;
}

handover_lem_example :
    let m' = update filled (some 88) mem₁ in
    let s' = new_slice m' (some 40) (40 + 20) 4 filled.offset_in_shm true in
    (pending s' m' ≡ pending filled mem₁)
    × (s'.cap ≡ filled.cap)
    × IsValid s'
    × NextIs mem₁ m' 40 (some 88)
handover_lem_example = handover_lem filled 40 mem₁ (some 88) 4 filled-IsHeld (omega arith)
