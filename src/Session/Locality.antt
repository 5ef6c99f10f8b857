-- ===== src/Session/Locality.antt =====
-- One event of Session::handle_events (src/session.cpp) does not look behind its end.
use shmipc_cpp.Common.{
  ℕ, ◌+◌, ◌≤◌, ◌<◌, ◌^◌, ◌≡◌, ◌⊎◌, inl, inr, refl, sym, ◌∙◌, arith, Bool-cases, false, ◌==◌,
  if◌then◌else◌, Option, none, some, List, ◌++◌, length, drop, length-append, length-drop, subst,
  drop-append_le,
}
use shmipc_cpp.Error.{Result, ok, err, invalid_msg_type}
use shmipc_cpp.Protocol.Event.{
  load_be_u16, event_length, msg_type, magic, version, check_event_valid, polling, stream_close,
  fallback_data,
}
use shmipc_cpp.Session.{
  Session, HandlerResult, handled, handle_polling, handle_stream_close, handle_fallback_data,
}
use shmipc_cpp.Session.Events.{dispatch, one_event, if_valid}
use shmipc_cpp.Session.Chunks.{IsLocal}
use shmipc_cpp.Session.Handlers.{
  IsBytes, IsBytes-drop, byte_at-append, load_be_u32-append, load_be_u32_bound, Takes, Takes-mono,
  drain-Takes, IsStable, handle_stream_close-IsStable, handle_fallback_data-IsStable,
}

-- The switch on the header at the front of `xs`, with the body apart.
abbrev switch : ℕ → List ℕ → Session → List ℕ → Option (HandlerResult × Session)
switch fuel xs s body =
    let fallback = handle_fallback_data fuel (event_length xs) body s in
    if msg_type xs == polling
    then handle_polling fuel body s
    else if msg_type xs == stream_close
    then handle_stream_close body s
    else if msg_type xs == fallback_data
    then fallback
    else some (handled 8 (some invalid_msg_type), s)

abbrev on_body : ℕ → List ℕ → Session → List ℕ → Option (HandlerResult × Session)
on_body fuel xs s body = if_valid (check_event_valid xs) s (switch fuel xs s body)

one_event_body :
    (fuel : ℕ) (xs : List ℕ) (s : Session) → one_event fuel xs s ≡ on_body fuel xs s (drop 8 xs)
unfolding one_event dispatch
one_event_body fuel xs s = refl

header-append :
    (xs ys : List ℕ)
    → 8 ≤ length xs
    → (event_length (xs ++ ys) ≡ event_length xs)
      × (msg_type (xs ++ ys) ≡ msg_type xs)
      × (check_event_valid (xs ++ ys) ≡ check_event_valid xs)
unfolding event_length msg_type check_event_valid magic version load_be_u16
header-append xs ys h =
    let b₄ = byte_at-append 4 xs ys (omega (arith, h)) in
    let b₅ = byte_at-append 5 xs ys (omega (arith, h)) in
    let b₆ = byte_at-append 6 xs ys (omega (arith, h)) in
    let b₇ = byte_at-append 7 xs ys (omega (arith, h)) in
    (load_be_u32-append 0 xs ys (omega (arith, h)), b₇, simp (b₄, b₅, b₆, b₇) refl)

one_event-append :
    (fuel : ℕ) (xs ys : List ℕ) (s : Session)
    → 8 ≤ length xs
    → one_event fuel (xs ++ ys) s ≡ on_body fuel xs s (drop 8 xs ++ ys)
unfolding one_event dispatch
one_event-append fuel xs ys s h =
    let (len, type, valid) = header-append xs ys h in
    simp (len, type, valid, drop-append_le 8 xs ys h) refl

if_valid-IsStable :
    (r : Result (Unit {0})) (handle : List ℕ → Option (HandlerResult × Session)) (n : ℕ)
    (body ys : List ℕ) (s : Session)
    → 8 ≤ n
    → IsStable handle n body ys s
    → IsStable (λ b. if_valid r s (handle b)) n body ys s
unfolding IsStable Takes
if_valid-IsStable (ok u) handle n body ys s h stable = stable
if_valid-IsStable (err e) handle n body ys s h stable = inr (refl, (refl, omega arith, h))

switch-IsStable :
    (fuel : ℕ) (xs body ys : List ℕ) (s : Session)
    → event_length xs < 2 ^ 32
    → length body < 2 ^ 63
    → IsStable (switch fuel xs s) (8 + length body) body ys s
unfolding IsStable Takes handle_polling
switch-IsStable fuel xs body ys s fits small = elim (Bool-cases (msg_type xs == polling)) [
  | inl is_polling ↦ inr (
    simp is_polling refl,
    simp is_polling (Takes-mono 8 (8 + length body) _ (omega arith) (drain-Takes fuel fuel s)),
  )
  | inr p ↦ elim (Bool-cases (msg_type xs == stream_close)) [
    | inl is_close ↦ simp (p, is_close) (handle_stream_close-IsStable body ys s)
    | inr c ↦ elim (Bool-cases (msg_type xs == fallback_data)) [
      | inl is_fallback ↦
          simp (p, c, is_fallback)
            (handle_fallback_data-IsStable fuel (event_length xs) body ys s fits small)
      | inr f ↦ inr (simp (p, c, f) refl, simp (p, c, f) (refl, omega arith, omega arith))
    ]
  ]
]

Takes-cases :
    (n : ℕ) (o : Option (HandlerResult × Session))
    → Takes n o
    → (o ≡ none)
      ⊎ ((hr : HandlerResult) × (s : Session) × (o ≡ some (hr, s))
          × (hr.stop ≡ false)
          × (8 ≤ hr.consumed)
          × (hr.consumed ≤ n))
unfolding Takes
Takes-cases n none h = inl refl
Takes-cases n (some (hr, s)) h = inr (hr, s, refl, h.0, h.1, h.2)

pub one_event-IsLocal : (fuel : ℕ) → IsLocal (one_event fuel) IsBytes IsBytes-drop
unfolding IsStable event_length
one_event-IsLocal fuel xs ys s there (bytes, small) =
    let shorter : length (drop 8 xs) < 2 ^ 63 =
      omega (arith, small, length-append xs ys, length-drop 8 xs) in
    let n : 8 + length (drop 8 xs) ≡ length xs = omega (arith, length-drop 8 xs, there) in
    let fits : event_length xs < 2 ^ 32 =
      subst (λ (k : ℕ). k < 2 ^ 32) (load_be_u32-append 0 xs ys (omega (arith, there)))
        (load_be_u32_bound 0 (xs ++ ys) bytes) in
    let stable =
      if_valid-IsStable (check_event_valid xs) (switch fuel xs s) (8 + length (drop 8 xs))
        (drop 8 xs) ys s (omega arith) (switch-IsStable fuel xs (drop 8 xs) ys s fits shorter) in
    elim stable [
      | inl (required, e) ↦ inl (required, one_event_body fuel xs s ∙ e)
      | inr (same, takes) ↦ inr (
        one_event-append fuel xs ys s there ∙ same ∙ sym (one_event_body fuel xs s),
        Takes-cases (length xs) (one_event fuel xs s) (
            subst (λ (k : ℕ). Takes k (one_event fuel xs s)) n
              (subst (Takes (8 + length (drop 8 xs))) (sym (one_event_body fuel xs s)) takes)),
      )
    ]
