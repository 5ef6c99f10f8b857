-- ===== src/Session/Ends.antt =====
-- The loop of Session::handle_events (src/session.cpp) ends when the handling of each event does.
use shmipc_cpp.Common.{
  ℕ, zero, suc, ◌≤◌, ◌<◌, ◌≡◌, inl, inr, refl, subst, sym, arith, Bool-cases, false, ltb, Option,
  none, some, ◌>>=◌, List, [], length, length-drop, drop,
}
use mathlib.Core.List.{append-nil}
use shmipc_cpp.Error.{Err}
use shmipc_cpp.Session.{HandlerResult}
use shmipc_cpp.Session.Events.{EventResult, events_loop, on_error, add_consumed}
use shmipc_cpp.Session.Chunks.{IsLocal}

-- The loop gets from one state, with the bytes that are left, to another: each event on the way was
-- there, was handled without an error, did not stop the loop, and its bytes are gone.
pub data Passes {S : Type 0} (event : List ℕ → S → Option (HandlerResult × S))
    : List ℕ → S → List ℕ → S → Type 0 where
  stays : {xs : List ℕ} {s : S} → Passes event xs s xs s
  passes_one :
      {xs ys : List ℕ} {s t : S} (hr : HandlerResult) (s' : S)
      → 8 ≤ length xs
      → event xs s ≡ some (hr, s')
      → hr.error ≡ none
      → hr.stop ≡ false
      → Passes event (drop hr.consumed xs) s' ys t
      → Passes event xs s ys t

module _ {S : Type 0} (event : List ℕ → S → Option (HandlerResult × S)) (Fits : List ℕ → Type 0)
    (Fits-drop : (k : ℕ) (xs : List ℕ) → Fits xs → Fits (drop k xs)) where
  -- A result that has taken no more than there was, or an event that the loop gets to and that has
  -- none.
  unfoldable pub EndsOn : List ℕ → S → Option (EventResult × S) → Type 0
  EndsOn xs s none =
      (ys : List ℕ) × (t : S) × Passes event xs s ys t × (8 ≤ length ys) × (event ys t ≡ none)
  EndsOn xs s (some (r, t)) = r.consumed ≤ length xs

  add_consumed-EndsOn :
      (xs : List ℕ) (s s' : S) (hr : HandlerResult) (o : Option (EventResult × S))
      → 8 ≤ length xs
      → hr.consumed ≤ length xs
      → event xs s ≡ some (hr, s')
      → hr.error ≡ none
      → hr.stop ≡ false
      → EndsOn (drop hr.consumed xs) s' o
      → EndsOn xs s (o >>= add_consumed event hr.consumed)
  unfolding EndsOn
  add_consumed-EndsOn xs s s' hr (some (r, t)) there high e no_error goes h =
      omega (arith, h, high, length-drop hr.consumed xs)
  add_consumed-EndsOn xs s s' hr none there high e no_error goes (ys, t, passes, long, fails) =
      (ys, t, passes_one hr s' there e no_error goes passes, long, fails)

  on_error-EndsOn :
      (xs : List ℕ) (s s' : S) (hr : HandlerResult) (o : Option (EventResult × S)) (x : Option Err)
      → x ≡ hr.error
      → 8 ≤ length xs
      → hr.consumed ≤ length xs
      → event xs s ≡ some (hr, s')
      → hr.stop ≡ false
      → EndsOn (drop hr.consumed xs) s' o
      → EndsOn xs s (on_error event x hr s' (o >>= add_consumed event hr.consumed))
  unfolding EndsOn
  on_error-EndsOn xs s s' hr o (some x) is_x there high e goes h = high
  on_error-EndsOn xs s s' hr o none is_x there high e goes h =
      simp goes (add_consumed-EndsOn xs s s' hr o there high e (sym is_x) goes h)

  module _ (is_local : IsLocal event Fits Fits-drop) where
    pub events_loop-EndsOn :
        (f : ℕ) (xs : List ℕ) (s : S)
        → length xs < f
        → Fits xs
        → EndsOn xs s (events_loop event f xs s)
    unfolding events_loop EndsOn
    events_loop-EndsOn zero xs s h fits = absurd (omega arith)
    events_loop-EndsOn (suc f) xs s h fits = elim (Bool-cases (ltb (length xs) 8)) [
      | inl short ↦ simp short (omega arith)
      | inr long ↦
          let there : 8 ≤ length xs = ground (arith, long) in
          elim (is_local xs [] s there (subst Fits (sym (append-nil xs)) fits)) [
            | inl (required, e) ↦ simp (long, e) (omega arith)
            | inr (_, inl e) ↦ simp (long, e) (xs, s, stays, there, e)
            | inr (_, inr (hr, s', e, goes, low, high)) ↦
                simp (long, e)
                  (on_error-EndsOn xs s s' hr (events_loop event f (drop hr.consumed xs) s')
                    hr.error refl there high e goes
                    (events_loop-EndsOn f (drop hr.consumed xs) s'
                      (omega (arith, h, length-drop hr.consumed xs, low, high))
                      (Fits-drop hr.consumed xs fits)))
          ]
    ]
