-- ===== src/Session/Events.antt =====
-- Session::handle_events (src/session.cpp): the loop over the events in the bytes that have arrived.
use shmipc_cpp.Common.{
  ℕ, zero, suc, ◌+◌, ltb, ◌==◌, if◌then◌else◌, Option, none, some, ◌>>=◌, List, length, drop,
}
use shmipc_cpp.Error.{Err, Result, ok, err, invalid_msg_type}
use shmipc_cpp.Protocol.Event.{
  header_size, event_length, msg_type, polling, stream_close, fallback_data, check_event_valid,
}
use shmipc_cpp.Session.{
  Session, HandlerResult, handled, handle_polling, handle_stream_close, handle_fallback_data,
}

pub record EventResult : Type 0 where
  pub consumed : ℕ
  pub required : ℕ
  pub error : Option Err

-- The switch.
unfoldable pub dispatch : ℕ → List ℕ → Session → Option (HandlerResult × Session)
dispatch fuel buf s =
    let body = drop header_size buf in
    let type = msg_type buf in
    let fallback = handle_fallback_data fuel (event_length buf) body s in
    if type == polling
    then handle_polling fuel body s
    else if type == stream_close
    then handle_stream_close body s
    else if type == fallback_data
    then fallback
    else some (handled header_size (some invalid_msg_type), s)

abbrev pub if_valid :
    Result (Unit {0})
    → Session
    → Option (HandlerResult × Session)
    → Option (HandlerResult × Session)
if_valid (ok u) s valid = valid
if_valid (err e) s valid = some (handled header_size (some e), s)

-- One event, at the front of the bytes.
unfoldable pub one_event : ℕ → List ℕ → Session → Option (HandlerResult × Session)
one_event fuel buf s = if_valid (check_event_valid buf) s (dispatch fuel buf s)

-- The loop for any way of handling one event, `consumed` counted from where it stands.
module _ {S : Type 0} (event : List ℕ → S → Option (HandlerResult × S)) where
  abbrev pub add_consumed : ℕ → EventResult × S → Option (EventResult × S)
  add_consumed k (r, s) = some (record r { consumed = k + r.consumed }, s)

  abbrev pub on_error :
      Option Err → HandlerResult → S → Option (EventResult × S) → Option (EventResult × S)
  on_error (some e) hr s otherwise =
      some (record { consumed = hr.consumed; required = header_size; error = some e }, s)
  on_error none hr s otherwise =
      if hr.stop
      then some (record { consumed = hr.consumed; required = hr.required; error = none }, s)
      else otherwise

  abbrev pub after_event :
      (List ℕ → S → Option (EventResult × S))
      → List ℕ
      → HandlerResult × S
      → Option (EventResult × S)
  after_event on buf (hr, s) =
      on_error hr.error hr s (on (drop hr.consumed buf) s >>= add_consumed hr.consumed)

  unfoldable pub events_loop : ℕ → List ℕ → S → Option (EventResult × S)
  events_loop zero buf s = none
  events_loop (suc rounds) buf s =
      let next = event buf s >>= after_event (events_loop rounds) buf in
      if ltb (length buf) header_size
      then some (record { consumed = 0; required = header_size; error = none }, s)
      else next

-- An event takes at least the eight bytes of its header, so there are fewer rounds than bytes.
unfoldable pub handle_events : ℕ → List ℕ → Session → Option (EventResult × Session)
handle_events fuel buf s = events_loop (one_event fuel) (length buf + 1) buf s
