-- ===== src/Session/Arrival.antt =====
-- Session::handle_events (src/session.cpp) on bytes that arrive in pieces, and on the event that
-- Stream::close (src/stream.cpp) sends.
use shmipc_cpp.Common.{
  ℕ, suc, ◌+◌, ◌<◌, ◌≤◌, ◌^◌, ◌≡◌, ltb, ◌⊎◌, ◌*◌, ◌/◌, ◌%◌, ◌==◌, false, inl, inr, refl, ap, ◌∙◌,
  arith, Option, none, some, ◌>>=◌, List, [], ◌∷◌, ◌++◌, length, drop, length-append, length-drop,
  get_elem?, All,
}
use shmipc_cpp.Error.{Err}
use shmipc_cpp.Protocol.Event.{
  encode, store_be_u32, store_be_u16, msg_type, version, magic, load_be_u16, load_be_u32,
  check_event_valid,
}
use shmipc_cpp.Stream.{StreamInner, half_close}
use shmipc_cpp.Stream.Send.{close_event}
use shmipc_cpp.Session.{Session, handled, find, erase, replace, close_found, handle_stream_close}
use shmipc_cpp.Session.Events.{
  EventResult, after_event, dispatch, one_event, events_loop, add_consumed, handle_events,
}
use shmipc_cpp.Session.Chunks.{chunks, enough_rounds, Fits-behind, resume}
use shmipc_cpp.Session.Ends.{EndsOn, Passes, events_loop-EndsOn}
use shmipc_cpp.Session.Handlers.{IsBytes, IsBytes-drop}
use shmipc_cpp.Session.Locality.{one_event-IsLocal}

-- What the read loop does when `more` arrives behind the bytes of a first call: no event is handled
-- behind an error, since the loop is left there or, when the session is shut down already, before
-- the next call; else what the call has not taken is handled again, with `more` behind. The test
-- of `shutdown` before a call is left out: the session is not shut down between the two calls.
abbrev pub more_if :
    Option Err → ℕ → List ℕ → EventResult → Session → Option (EventResult × Session)
more_if (some e) fuel buf r s = some (r, s)
more_if none fuel buf r s = handle_events fuel buf s >>= add_consumed (one_event fuel) r.consumed

abbrev pub handle_more :
    ℕ → List ℕ → List ℕ → EventResult × Session → Option (EventResult × Session)
handle_more fuel buf more (r, s) = more_if r.error fuel (drop r.consumed buf ++ more) r s

All-front : (xs ys : List ℕ) → All (λ b. b < 256) (xs ++ ys) → All (λ b. b < 256) xs
All-front [] ys h = tt
All-front (x ∷ xs) ys h = (h.0, All-front xs ys h.1)

pub enough :
    (fuel f : ℕ) (xs : List ℕ) (s : Session)
    → length xs < f
    → IsBytes xs
    → events_loop (one_event fuel) f xs s ≡ handle_events fuel xs s
unfolding handle_events
enough fuel f xs s h fits =
    enough_rounds (one_event fuel) IsBytes IsBytes-drop (one_event-IsLocal fuel) f (length xs + 1)
      xs s h (omega arith) fits

more-resume :
    (fuel : ℕ) (xs ys : List ℕ) (o : Option (EventResult × Session))
    → IsBytes (xs ++ ys)
    → (o >>= resume (one_event fuel) IsBytes IsBytes-drop (length (xs ++ ys) + 1) xs ys)
      ≡ (o >>= handle_more fuel xs ys)
more-resume fuel xs ys none fits = refl
more-resume fuel xs ys (some (r, s)) fits = by_error r.consumed r.required r.error
  where
    by_error :
        (c q : ℕ) (e : Option Err)
        → resume
            (one_event fuel)
            IsBytes
            IsBytes-drop
            (length (xs ++ ys) + 1)
            xs
            ys
            (record { consumed = c; required = q; error = e }, s)
          ≡ handle_more fuel xs ys (record { consumed = c; required = q; error = e }, s)
    by_error c q (some e) = refl
    by_error c q none =
        ap (λ o. o >>= add_consumed (one_event fuel) c)
          (enough fuel (length (xs ++ ys) + 1) (drop c xs ++ ys) s
            (omega (arith, length-append xs ys, length-append (drop c xs) ys, length-drop c xs))
            (Fits-behind (one_event fuel) IsBytes IsBytes-drop (one_event-IsLocal fuel) c xs ys
              fits))

-- For any split of the bytes of the socket (fewer than 2 ^ 63 of them, each below 256) and any state
-- of the session, handle_events on all of them has the same outcome as handle_events on the first
-- part and then, unless that ended with an error, on what it left with the second part behind: the
-- same bytes consumed in total, the same count required, error and session. If an event has no
-- outcome (a failed assertion, or the fuel of its handler), both sides have none.
pub in_pieces :
    (fuel : ℕ) (xs ys : List ℕ) (s : Session)
    → IsBytes (xs ++ ys)
    → handle_events fuel (xs ++ ys) s ≡ (handle_events fuel xs s >>= handle_more fuel xs ys)
unfolding handle_events
in_pieces fuel xs ys s fits =
    let local = one_event-IsLocal fuel in
    let first : IsBytes xs = (All-front xs ys fits.0, omega (arith, fits.1, length-append xs ys)) in
    chunks (one_event fuel) IsBytes IsBytes-drop local (length (xs ++ ys) + 1) xs ys s (omega arith)
      fits
    ∙ ap (λ o. o >>= resume (one_event fuel) IsBytes IsBytes-drop (length (xs ++ ys) + 1) xs ys)
        (enough fuel (length (xs ++ ys) + 1) xs s (omega (arith, length-append xs ys)) first)
    ∙ more-resume fuel xs ys (handle_events fuel xs s) fits

-- The loop of handle_events ends: on bytes below 256, fewer than 2 ^ 63 of them, it has a result
-- within the rounds that it is given, with no more consumed than there was, unless it gets, by
-- events that it handles one after another, to an event whose own handling has none (a failed
-- assertion, or the fuel of its handler).
pub handle_events_ends :
    (fuel : ℕ) (xs : List ℕ) (s : Session)
    → IsBytes xs
    → ((r : EventResult) × (s' : Session) × (handle_events fuel xs s ≡ some (r, s'))
        × (r.consumed ≤ length xs))
      ⊎ ((ys : List ℕ) × (t : Session) × Passes (one_event fuel) xs s ys t
          × (8 ≤ length ys)
          × (one_event fuel ys t ≡ none))
unfolding handle_events EndsOn
handle_events_ends fuel xs s fits = by_result (events_loop (one_event fuel) (length xs + 1) xs s) (
    events_loop-EndsOn (one_event fuel) IsBytes IsBytes-drop (one_event-IsLocal fuel)
      (length xs + 1) xs s (omega arith) fits)
  where
    by_result :
        (o : Option (EventResult × Session))
        → EndsOn (one_event fuel) IsBytes IsBytes-drop xs s o
        → ((r : EventResult) × (s' : Session) × (o ≡ some (r, s')) × (r.consumed ≤ length xs))
          ⊎ ((ys : List ℕ) × (t : Session) × Passes (one_event fuel) xs s ys t
              × (8 ≤ length ys)
              × (one_event fuel ys t ≡ none))
    by_result none h = inr h
    by_result (some (r, s')) h = inl (r, s', refl, h)

close_event-one_event :
    (fuel v id : ℕ) (rest : List ℕ) (s : Session)
    → 0 < v
    → id < 2 ^ 32
    → one_event fuel (close_event v id ++ rest) s ≡ close_found id (find id s.streams) s
unfolding one_event dispatch handle_stream_close encode store_be_u32 store_be_u16 msg_type version
    magic load_be_u16 load_be_u32 check_event_valid
close_event-one_event fuel v id rest s pos small =
    let known : (v == 0) ≡ false = ground (arith, pos) in
    let same : id / 2 ^ 24 % 256 * 2 ^ 24
          + id / 2 ^ 16 % 256 * 2 ^ 16
          + id / 2 ^ 8 % 256 * 2 ^ 8
          + id % 256
        ≡ id =
      omega (arith, small) in
    let long : ltb (suc (suc (suc (suc (length rest))))) 4 ≡ false = ground arith in
    simp (known, same, long) refl

-- The event that Stream::close sends over the socket, for a version above 0 and a stream below 2 ^ 32,
-- reaches a peer that has the stream: handle_events takes its twelve bytes, takes the stream off the
-- map of the session and closes its half, and goes on with what stands behind the event.
pub close_event_lem :
    (fuel v id at : ℕ) (i : StreamInner) (rest : List ℕ) (s : Session)
    → 0 < v
    → id < 2 ^ 32
    → IsBytes rest
    → find id s.streams ≡ some at
    → get_elem? s.heap at ≡ some i
    → handle_events fuel (close_event v id ++ rest) s ≡ (
        handle_events fuel rest
          (record s { streams = erase id s.streams; heap = replace at (half_close i) s.heap })
        >>= add_consumed (one_event fuel) 12)
unfolding handle_events events_loop encode store_be_u32 store_be_u16
close_event_lem fuel v id at i rest s pos small fits known there =
    let s' : Session = record s {
      streams = erase id s.streams;
      heap = replace at (half_close i) s.heap;
    } in
    let one : one_event fuel (close_event v id ++ rest) s ≡ some (handled 12 none, s') =
      close_event-one_event fuel v id rest s pos small ∙ simp (known, there) refl in
    let rounds : length (close_event v id ++ rest) + 1 ≡ suc (length rest + 12) = omega arith in
    let long : ltb
          (suc (suc (suc (suc (suc (suc (suc (suc (suc (suc (suc (suc (length rest))))))))))))) 8
        ≡ false =
      ground arith in
    ap (λ (f : ℕ). events_loop (one_event fuel) f (close_event v id ++ rest) s) rounds
    ∙ simp long refl
    ∙ ap
        (λ o.
          o
          >>= after_event (one_event fuel) (events_loop (one_event fuel) (length rest + 12))
              (close_event v id ++ rest))
        one
    ∙ ap (λ o. o >>= add_consumed (one_event fuel) 12)
        (enough fuel (length rest + 12) rest s' (omega arith) fits)
