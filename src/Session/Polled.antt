-- ===== src/Session/Polled.antt =====
-- Session::handle_events (src/session.cpp) on the event that Session::wake_up_peer sends.
use shmipc_cpp.Common.{
  ℕ, zero, drop-length, ap₂, suc, ◌+◌, ◌<◌, ◌≤◌, ◌≡◌, ltb, ◌==◌, false, refl, ap, ◌∙◌, arith,
  Option, none, some, ◌>>=◌, List, ◌++◌, length, drop, length-append, get_elem?,
}
use shmipc_cpp.Error.{Err}
use shmipc_cpp.Protocol.Event.{
  max_support_proto_version, polling, polling_event_with_version, encode, store_be_u32,
  store_be_u16, msg_type, version, magic, load_be_u16, load_be_u32, check_event_valid,
}
use shmipc_cpp.Session.{Session, HandlerResult, drain, handle_polling}
use shmipc_cpp.Session.Events.{
  EventResult, on_error, after_event, dispatch, one_event, events_loop, add_consumed, handle_events,
}
use shmipc_cpp.Session.Handlers.{IsBytes, Takes, drain-Takes}
use shmipc_cpp.Session.Arrival.{enough}

-- What the loop does with the outcome of draining the queue for a polling event in front of `rest`.
abbrev pub behind_poll : ℕ → List ℕ → HandlerResult × Session → Option (EventResult × Session)
behind_poll fuel rest (hr, s) = by_error hr.error
  where
    by_error : Option Err → Option (EventResult × Session)
    by_error (some e) = some (record { consumed = 8; required = 8; error = some e }, s)
    by_error none = handle_events fuel rest s >>= add_consumed (one_event fuel) 8

after_poll :
    (fuel : ℕ) (h rest : List ℕ) (o : Option (HandlerResult × Session))
    → length h ≡ 8
    → IsBytes rest
    → Takes 8 o
    → (o
        >>= after_event
            (one_event fuel)
            (events_loop (one_event fuel) (length rest + 8))
            (h ++ rest))
      ≡ (o >>= behind_poll fuel rest)
unfolding Takes
after_poll fuel h rest none eight fits t = refl
after_poll fuel h rest (some (hr, s)) eight fits (goes, low, high) = by_error hr.error
  where
    by_error :
        (e : Option Err)
        → on_error (one_event fuel) e hr s (
            events_loop (one_event fuel) (length rest + 8) (drop hr.consumed (h ++ rest)) s
            >>= add_consumed (one_event fuel) hr.consumed)
          ≡ behind_poll fuel rest (record hr { error = e }, s)
    by_error (some e) =
        ap (λ (k : ℕ). some (record { consumed = k; required = 8; error = some e }, s))
          (omega (arith, low, high))
    by_error none =
        let all : hr.consumed ≡ length h = omega (arith, low, high, eight) in
        let k : hr.consumed ≡ 8 = omega (arith, low, high) in
        let front : drop hr.consumed (h ++ rest) ≡ rest =
          ap (λ (i : ℕ). drop i (h ++ rest)) all ∙ drop-length h rest in
        simp goes (
          ap₂
            (λ (l : List ℕ) (i : ℕ).
              events_loop (one_event fuel) (length rest + 8) l s
              >>= add_consumed (one_event fuel) i)
            front k
          ∙ ap (λ o'. o' >>= add_consumed (one_event fuel) 8)
              (enough fuel (length rest + 8) rest s (omega arith) fits))

polling_event-one_event :
    (fuel v : ℕ) (rest : List ℕ) (s : Session)
    → 0 < v
    → one_event fuel (encode 8 v polling ++ rest) s ≡ drain fuel fuel s
unfolding one_event dispatch handle_polling encode store_be_u32 store_be_u16 msg_type version magic
    load_be_u16 load_be_u32 check_event_valid
polling_event-one_event fuel v rest s pos =
    let known : (v == 0) ≡ false = ground (arith, pos) in simp known refl

polling_at : (v : ℕ) → v ≤ 3 → get_elem? polling_event_with_version v ≡ some (encode 8 v polling)
unfolding polling_event_with_version
polling_at zero h = refl
polling_at (suc zero) h = refl
polling_at (suc (suc zero)) h = refl
polling_at (suc (suc (suc zero))) h = refl
polling_at (suc (suc (suc (suc v)))) h = absurd (omega arith)

length-encode : (v : ℕ) → length (encode 8 v polling) ≡ 8
unfolding encode store_be_u32 store_be_u16
length-encode v = refl

-- The polling event that `wake_up_peer` takes for a version from 1 to 3 is there, and has eight
-- bytes. A peer that gets it, with any bytes behind it, drains its queue; it takes exactly those
-- eight bytes, is done when draining ends with an error, and else goes on with the bytes behind.
pub polling_event_lem :
    (fuel v : ℕ) (rest : List ℕ) (s : Session)
    → 0 < v
    → v ≤ max_support_proto_version
    → IsBytes rest
    → (h : List ℕ) × (get_elem? polling_event_with_version v ≡ some h)
      × (length h ≡ 8)
      × (handle_events fuel (h ++ rest) s ≡ (drain fuel fuel s >>= behind_poll fuel rest))
unfolding handle_events events_loop
polling_event_lem fuel v rest s pos top fits =
    let h = encode 8 v polling in
    let eight = length-encode v in
    let rounds : length (h ++ rest) + 1 ≡ suc (length rest + 8) =
      omega (arith, eight, length-append h rest) in
    let long : ltb (length (h ++ rest)) 8 ≡ false = ground (arith, eight, length-append h rest) in
    (
      h,
      polling_at v top,
      eight,
      ap (λ (f : ℕ). events_loop (one_event fuel) f (h ++ rest) s) rounds
          ∙ simp long refl
          ∙ ap
              (λ o.
                o
                >>= after_event (one_event fuel) (events_loop (one_event fuel) (length rest + 8))
                    (h ++ rest))
              (polling_event-one_event fuel v rest s pos)
          ∙ after_poll fuel h rest (drain fuel fuel s) eight fits (drain-Takes fuel fuel s),
    )
