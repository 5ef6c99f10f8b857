-- ===== src/Session/Handlers.antt =====
-- The handlers of the session (src/session.cpp) do not look behind the end of an event.
use shmipc_cpp.Common.{
  ℕ, zero, suc, ◌+◌, ◌-◌, ◌≤◌, ◌<◌, ◌^◌, ◌≡◌, ◌⊎◌, inl, inr, refl, ap, ◌∙◌, arith, Bool, Bool-cases,
  true, false, ltb, if◌then◌else◌, sub_u64, Option, none, some, ◌>>=◌, List, [], ◌∷◌, ◌++◌, length,
  take, drop, length-append, length-drop, drop-append_le, take-append_le, All,
}
use shmipc_cpp.Shm.{Shm}
use shmipc_cpp.Error.{Err, Result, ok, err}
use shmipc_cpp.Queue
use shmipc_cpp.Queue.{QueueElement}
use shmipc_cpp.Protocol.Event.{byte_at, load_be_u32}
use shmipc_cpp.Session.{
  Session, HandlerResult, handled, stopped, drain, drain_pop, drain_on, handle_element,
  handle_stream_close, close_found, half_close_at, handle_fallback_data, on_fallback, find,
  handle_stream_message, full_slice, get_stream,
}
use shmipc_cpp.Buffer.Slice.{BufferSlice}

-- Bytes, fewer than a process can map.
abbrev pub IsBytes : List ℕ → Type 0
IsBytes xs = All (λ b. b < 256) xs × (length xs < 2 ^ 63)

All-drop : (k : ℕ) (xs : List ℕ) → All (λ b. b < 256) xs → All (λ b. b < 256) (drop k xs)
All-drop zero xs h = h
All-drop (suc k) [] h = h
All-drop (suc k) (x ∷ xs) h = All-drop k xs h.1

pub IsBytes-drop : (k : ℕ) (xs : List ℕ) → IsBytes xs → IsBytes (drop k xs)
IsBytes-drop k xs (h, l) = (All-drop k xs h, omega (arith, l, length-drop k xs))

pub byte_at-append : (i : ℕ) (xs ys : List ℕ) → i < length xs → byte_at (xs ++ ys) i ≡ byte_at xs i
byte_at-append i [] ys h = absurd (omega arith)
byte_at-append zero (x ∷ xs) ys h = refl
byte_at-append (suc i) (x ∷ xs) ys h = byte_at-append i xs ys (omega arith)

byte_at_bound : (i : ℕ) (xs : List ℕ) → All (λ b. b < 256) xs → byte_at xs i < 256
byte_at_bound i [] h = omega arith
byte_at_bound zero (x ∷ xs) h = h.0
byte_at_bound (suc i) (x ∷ xs) h = byte_at_bound i xs h.1

pub load_be_u32-append :
    (i : ℕ) (xs ys : List ℕ) → i + 4 ≤ length xs → load_be_u32 (xs ++ ys) i ≡ load_be_u32 xs i
unfolding load_be_u32
load_be_u32-append i xs ys h = omega (
  arith,
  byte_at-append i xs ys (omega arith),
  byte_at-append (i + 1) xs ys (omega arith),
  byte_at-append (i + 2) xs ys (omega arith),
  byte_at-append (i + 3) xs ys (omega arith),
)

pub load_be_u32_bound : (i : ℕ) (xs : List ℕ) → All (λ b. b < 256) xs → load_be_u32 xs i < 2 ^ 32
unfolding load_be_u32
load_be_u32_bound i xs h = omega (
  arith,
  byte_at_bound i xs h,
  byte_at_bound (i + 1) xs h,
  byte_at_bound (i + 2) xs h,
  byte_at_bound (i + 3) xs h,
)

-- A handler that ends has not stopped the loop, and has taken between eight and `n` bytes.
unfoldable pub Takes : ℕ → Option (HandlerResult × Session) → Type 0
Takes n none = Unit
Takes n (some (hr, s)) = (hr.stop ≡ false) × (8 ≤ hr.consumed) × (hr.consumed ≤ n)

-- The events of polling take their header.
drain_on-Takes :
    (on : Session → Option (HandlerResult × Session)) (o : Option (Option Err × Session))
    → ((s : Session) → Takes 8 (on s))
    → Takes 8 (o >>= drain_on on)
unfolding Takes
drain_on-Takes on none h = tt
drain_on-Takes on (some (some e, s)) h = (refl, omega arith, omega arith)
drain_on-Takes on (some (none, s)) h = h s

drain_pop-Takes :
    (fuel : ℕ) (on : Session → Option (HandlerResult × Session)) (s : Session)
    (r : Result QueueElement × Shm)
    → ((s : Session) → Takes 8 (on s))
    → Takes 8 (drain_pop fuel on s r)
unfolding Takes
drain_pop-Takes fuel on s (ok e, m) h =
    drain_on-Takes on (handle_element fuel e (record s { shm = m })) h
drain_pop-Takes fuel on s (err x, m) h = on_flag (Queue.mark_not_working s.recv_queue m)
  where
    on_flag :
        (d : Bool × Shm)
        → Takes 8 (
            if d.0
            then some (handled 8 none, record s { shm = d.1 })
            else on (record s { shm = d.1 }))
    on_flag (true, m₁) = (refl, omega arith, omega arith)
    on_flag (false, m₁) = h (record s { shm = m₁ })

pub drain-Takes : (rounds fuel : ℕ) (s : Session) → Takes 8 (drain rounds fuel s)
unfolding drain Takes
drain-Takes zero fuel s = tt
drain-Takes (suc rounds) fuel s =
    drain_pop-Takes fuel (drain rounds fuel) s (Queue.pop s.recv_queue s.shm)
      (drain-Takes rounds fuel)

pub Takes-mono : (n m : ℕ) (o : Option (HandlerResult × Session)) → n ≤ m → Takes n o → Takes m o
unfolding Takes
Takes-mono n m none le h = tt
Takes-mono n m (some (hr, s)) le (a, b, c) = (a, b, omega (arith, c, le))

close_found-Takes : (id : ℕ) (found : Option ℕ) (s : Session) → Takes 12 (close_found id found s)
unfolding Takes
close_found-Takes id none s = (refl, omega arith, omega arith)
close_found-Takes id (some at) s = after (half_close_at at _)
  where
    after : (o : Option Session) → Takes 12 (o >>= (λ s₁. some (handled 12 none, s₁)))
    after none = tt
    after (some s₁) = (refl, omega arith, omega arith)

on_fallback-Takes :
    (fuel len : ℕ) (slice : BufferSlice) (status : ℕ) (found : Option ℕ × Session)
    → 8 ≤ len
    → Takes len (on_fallback fuel len slice status found)
unfolding Takes
on_fallback-Takes fuel len slice status (none, s) h = (refl, h, omega arith)
on_fallback-Takes fuel len slice status (some at, s) h =
    after (handle_stream_message fuel at _ status s)
  where
    after : (o : Option Session) → Takes len (o >>= (λ s₁. some (handled len none, s₁)))
    after none = tt
    after (some s₁) = (refl, h, omega arith)

-- Waits for more, or does the same with more bytes behind.
unfoldable pub IsStable :
    (List ℕ → Option (HandlerResult × Session)) → ℕ → List ℕ → List ℕ → Session → Type 0
IsStable handle n body ys s =
    ((required : ℕ) × (handle body ≡ some (stopped required, s)))
    ⊎ ((handle (body ++ ys) ≡ handle body) × Takes n (handle body))

pub handle_stream_close-IsStable :
    (body ys : List ℕ) (s : Session)
    → IsStable (λ b. handle_stream_close b s) (8 + length body) body ys s
unfolding handle_stream_close IsStable
handle_stream_close-IsStable body ys s = elim (Bool-cases (ltb (length body) 4)) [
  | inl short ↦ inl (12, simp short refl)
  | inr long ↦
      let there : 4 ≤ length body = ground (arith, long) in
      let whole : ltb (length (body ++ ys)) 4 ≡ false =
        ground (arith, there, length-append body ys) in
      let id : load_be_u32 (body ++ ys) 0 ≡ load_be_u32 body 0 =
        load_be_u32-append 0 body ys there in
      inr (
        simp (long, whole, id) refl,
        simp long (
            Takes-mono 12 (8 + length body) _ (omega (arith, there))
              (close_found-Takes (load_be_u32 body 0) (find (load_be_u32 body 0) s.streams) s)),
      )
]

payload :
    (len : ℕ) (body : List ℕ)
    → len < 2 ^ 32
    → length body < 2 ^ 63
    → ltb (length body) (sub_u64 len 8) ≡ false
    → (sub_u64 len 8 ≡ len - 8) × (8 ≤ len) × (len ≤ 8 + length body)
payload len body fits small long =
    let le : sub_u64 len 8 ≤ length body = ground (arith, long) in
    let low : 8 ≤ len = omega (arith, fits, small, le) in
    let same : sub_u64 len 8 ≡ len - 8 = omega (arith, fits, low) in
    (same, low, omega (arith, le, same, low))

pub handle_fallback_data-IsStable :
    (fuel len : ℕ) (body ys : List ℕ) (s : Session)
    → len < 2 ^ 32
    → length body < 2 ^ 63
    → IsStable (λ b. handle_fallback_data fuel len b s) (8 + length body) body ys s
unfolding handle_fallback_data IsStable Takes
handle_fallback_data-IsStable fuel len body ys s fits small =
    elim (Bool-cases (ltb (length body) (sub_u64 len 8))) [
      | inl short ↦ inl (len, simp short refl)
      | inr long ↦
          let (same, low, high) = payload len body fits small long in
          let whole : ltb (length (body ++ ys)) (sub_u64 len 8) ≡ false =
            ground (arith, same, low, high, length-append body ys) in
          elim (Bool-cases (ltb (sub_u64 len 8) 8)) [
            | inl headless ↦ inr (simp (long, whole, headless) refl, simp (long, headless) tt)
            | inr headed ↦
                let there : 8 ≤ length body = ground (arith, headed, same, low, high) in
                let id : load_be_u32 (body ++ ys) 0 ≡ load_be_u32 body 0 =
                  load_be_u32-append 0 body ys (omega (arith, there)) in
                let status : load_be_u32 (body ++ ys) 4 ≡ load_be_u32 body 4 =
                  load_be_u32-append 4 body ys (omega (arith, there)) in
                let bytes : take (sub_u64 len 8 - 8) (drop 8 (body ++ ys))
                    ≡ take (sub_u64 len 8 - 8) (drop 8 body) =
                  ap (take (sub_u64 len 8 - 8)) (drop-append_le 8 body ys there)
                  ∙ take-append_le (sub_u64 len 8 - 8) (drop 8 body) ys
                      (omega (arith, length-drop 8 body, same, low, high)) in
                inr (
                  simp (long, whole, headed, id, status, bytes) refl,
                  simp (long, headed)
                      (Takes-mono len (8 + length body) _ high (
                        on_fallback-Takes fuel len
                          (full_slice (take (sub_u64 len 8 - 8) (drop 8 body))) _ (get_stream _ _ _)
                          low)),
                )
          ]
    ]
