-- ===== src/Session/Chunks.antt =====
-- The loop of handle_events does not depend on how its bytes arrive, when one event does not.
use shmipc_cpp.Common.{
  ℕ, zero, suc, ◌+◌, ◌-◌, ◌≤◌, ◌<◌, ◌≡◌, ◌⊎◌, inl, inr, refl, ap, subst, ◌∙◌, sym, arith,
  Bool-cases, false, ltb, Option, none, some, ◌>>=◌, List, [], ◌++◌, length, length-append,
  length-drop, drop, drop-append_le, drop_split, drop_all, drop-length,
}
use mathlib.Core.List.{append-nil}
use native.Mathlib.Decide.{dec_le}
use shmipc_cpp.Error.{Err}
use shmipc_cpp.Session.{HandlerResult, stopped}
use shmipc_cpp.Session.Events.{EventResult, events_loop, after_event, on_error, add_consumed}

module _ {S : Type 0} (event : List ℕ → S → Option (HandlerResult × S)) (Fits : List ℕ → Type 0)
    (Fits-drop : (k : ℕ) (xs : List ℕ) → Fits xs → Fits (drop k xs)) where
  -- An event that is there as a whole is handled the same with more bytes behind it, and takes at
  -- least its header and at most what is there; one that is not changes nothing.
  abbrev pub Complete : List ℕ → List ℕ → S → Type 0
  Complete xs ys s =
      (event (xs ++ ys) s ≡ event xs s)
      × ((event xs s ≡ none)
          ⊎ ((hr : HandlerResult) × (s' : S) × (event xs s ≡ some (hr, s'))
              × (hr.stop ≡ false)
              × (8 ≤ hr.consumed)
              × (hr.consumed ≤ length xs)))

  abbrev pub IsLocal : Type 0
  IsLocal =
      (xs ys : List ℕ) (s : S)
      → 8 ≤ length xs
      → Fits (xs ++ ys)
      → ((required : ℕ) × (event xs s ≡ some (stopped required, s))) ⊎ Complete xs ys s

  -- What follows when more bytes arrive behind what is left of `xs`.
  abbrev pub resume_if : Option Err → ℕ → List ℕ → EventResult → S → Option (EventResult × S)
  resume_if (some e) rounds left r s = some (r, s)
  resume_if none rounds left r s = events_loop event rounds left s >>= add_consumed event r.consumed

  abbrev pub resume : ℕ → List ℕ → List ℕ → EventResult × S → Option (EventResult × S)
  resume rounds xs ys (r, s) = resume_if r.error rounds (drop r.consumed xs ++ ys) r s

  module _ (is_local : IsLocal) where
    -- More rounds than bytes are enough.
    pub enough_rounds :
        (f f' : ℕ) (xs : List ℕ) (s : S)
        → length xs < f
        → length xs < f'
        → Fits xs
        → events_loop event f xs s ≡ events_loop event f' xs s
    unfolding events_loop
    enough_rounds zero f' xs s h h' fits = absurd (omega arith)
    enough_rounds (suc f) zero xs s h h' fits = absurd (omega arith)
    enough_rounds (suc f) (suc f') xs s h h' fits = elim (Bool-cases (ltb (length xs) 8)) [
      | inl short ↦ simp short refl
      | inr long ↦
          let there : 8 ≤ length xs = ground (arith, long) in
          elim (is_local xs [] s there (subst Fits (sym (append-nil xs)) fits)) [
            | inl (required, e) ↦ simp (long, e) refl
            | inr (_, inl e) ↦ simp (long, e) refl
            | inr (_, inr (hr, s', e, goes, low, high)) ↦
                simp (long, e)
                  (ap (λ o. on_error event hr.error hr s' (o >>= add_consumed event hr.consumed))
                    (enough_rounds f f' (drop hr.consumed xs) s'
                      (omega (arith, length-drop hr.consumed xs, low, high))
                      (omega (arith, length-drop hr.consumed xs, low, high))
                      (Fits-drop hr.consumed xs fits)))
          ]
    ]

    add_none : (o : Option (EventResult × S)) → (o >>= add_consumed event 0) ≡ o
    add_none none = refl
    add_none (some (r, s)) = ap (λ (k : ℕ). some (record r { consumed = k }, s)) (omega arith)

    add_twice :
        (k c : ℕ) (o : Option (EventResult × S))
        → ((o >>= add_consumed event c) >>= add_consumed event k)
          ≡ (o >>= add_consumed event (k + c))
    add_twice k c none = refl
    add_twice k c (some (r, s)) = ap (λ (i : ℕ). some (record r { consumed = i }, s)) (omega arith)

    pub Fits-behind : (i : ℕ) (xs ys : List ℕ) → Fits (xs ++ ys) → Fits (drop i xs ++ ys)
    Fits-behind i xs ys fits = elim (dec_le i (length xs)) [
      | yes h ↦ subst Fits (drop-append_le i xs ys h) (Fits-drop i (xs ++ ys) fits)
      | no h ↦
          subst Fits
            (drop-length xs ys ∙ ap (λ (l : List ℕ). l ++ ys) (sym (drop_all i xs (omega arith))))
            (Fits-drop (length xs) (xs ++ ys) fits)
    ]

    -- Resuming behind one event.
    resume_behind :
        (f k : ℕ) (xs ys : List ℕ) (o : Option (EventResult × S))
        → length (drop k xs ++ ys) < f
        → Fits (xs ++ ys)
        → k ≤ length xs
        → ((o >>= resume f (drop k xs) ys) >>= add_consumed event k)
          ≡ ((o >>= add_consumed event k) >>= resume (suc f) xs ys)
    resume_behind f k xs ys none h fits le = refl
    resume_behind f k xs ys (some (r, s)) h fits le = by_error r.consumed r.required r.error
      where
        by_error :
            (c q : ℕ) (e : Option Err)
            → (resume f (drop k xs) ys (record { consumed = c; required = q; error = e }, s)
                >>= add_consumed event k)
              ≡ resume (suc f) xs ys (record { consumed = k + c; required = q; error = e }, s)
        by_error c q (some e) = refl
        by_error c q none =
            let back : (k + c) - k ≡ c = omega arith in
            let rest : drop c (drop k xs) ≡ drop (k + c) xs =
              ap (λ (i : ℕ). drop i (drop k xs)) (sym back)
              ∙ drop_split k (k + c) xs (omega arith) in
            let fits' : Fits (drop c (drop k xs) ++ ys) =
              subst (λ (l : List ℕ). Fits (l ++ ys)) (sym rest) (Fits-behind (k + c) xs ys fits) in
            let shorter : length (drop c (drop k xs) ++ ys) < f = omega (
              arith,
              h,
              length-append (drop c (drop k xs)) ys,
              length-append (drop k xs) ys,
              length-drop c (drop k xs),
            ) in
            add_twice k c (events_loop event f (drop c (drop k xs) ++ ys) s)
            ∙ ap (λ o'. o' >>= add_consumed event (k + c))
                (enough_rounds f (suc f) (drop c (drop k xs) ++ ys) s shorter (omega arith) fits'
                  ∙ ap (λ (l : List ℕ). events_loop event (suc f) (l ++ ys) s) rest)

    -- Behind an event that was handled, when the loop on the rest does as it should.
    handled_lem :
        (f : ℕ) (xs ys : List ℕ) (hr : HandlerResult) (s' : S)
        → hr.stop ≡ false
        → hr.consumed ≤ length xs
        → length (drop hr.consumed xs ++ ys) < f
        → Fits (xs ++ ys)
        → events_loop event f (drop hr.consumed xs ++ ys) s'
          ≡ (events_loop event f (drop hr.consumed xs) s' >>= resume f (drop hr.consumed xs) ys)
        → after_event event (events_loop event f) (xs ++ ys) (hr, s')
          ≡ (after_event event (events_loop event f) xs (hr, s') >>= resume (suc f) xs ys)
    handled_lem f xs ys hr s' goes le h fits ih = by_error hr.error
      where
        by_error :
            (e : Option Err)
            → on_error event e hr s' (
                events_loop event f (drop hr.consumed (xs ++ ys)) s'
                >>= add_consumed event hr.consumed)
              ≡ (on_error event e hr s' (
                    events_loop event f (drop hr.consumed xs) s' >>= add_consumed event hr.consumed)
                  >>= resume (suc f) xs ys)
        by_error (some e) = refl
        by_error none = simp goes (
            ap (λ (l : List ℕ). events_loop event f l s' >>= add_consumed event hr.consumed)
              (drop-append_le hr.consumed xs ys le)
            ∙ ap (λ o. o >>= add_consumed event hr.consumed) ih
            ∙ resume_behind f hr.consumed xs ys (events_loop event f (drop hr.consumed xs) s') h
                fits le)

    pub chunks :
        (f : ℕ) (xs ys : List ℕ) (s : S)
        → length (xs ++ ys) < f
        → Fits (xs ++ ys)
        → events_loop event f (xs ++ ys) s ≡ (events_loop event f xs s >>= resume f xs ys)
    unfolding events_loop
    chunks zero xs ys s h fits = absurd (omega arith)
    chunks (suc f) xs ys s h fits = elim (Bool-cases (ltb (length xs) 8)) [
      | inl short ↦ simp short (sym (add_none (events_loop event (suc f) (xs ++ ys) s)))
      | inr long ↦
          let there : 8 ≤ length xs = ground (arith, long) in
          let whole : ltb (length (xs ++ ys)) 8 ≡ false =
            ground (arith, there, length-append xs ys) in
          elim (is_local xs ys s there fits) [
            | inl (required, e) ↦
                simp (long, e) (sym (add_none (events_loop event (suc f) (xs ++ ys) s)))
            | inr (same, inl e) ↦ simp (long, whole, same, e) refl
            | inr (same, inr (hr, s', e, goes, low, high)) ↦
                let shorter : length (drop hr.consumed xs ++ ys) < f = omega (
                  arith,
                  h,
                  length-append (drop hr.consumed xs) ys,
                  length-append xs ys,
                  length-drop hr.consumed xs,
                  low,
                  high,
                ) in
                simp (long, whole, same, e)
                  (handled_lem f xs ys hr s' goes high shorter fits (
                    chunks f (drop hr.consumed xs) ys s' shorter
                      (Fits-behind hr.consumed xs ys fits)))
          ]
    ]
