-- ===== src/Channel/Traffic.antt =====
-- What goes through a channel that any number of threads use.
use shmipc_cpp.Common.{
  ℕ, ◌≤◌, ◌≡◌, ◌⊎◌, inl, inr, Bool-cases, refl, ap, ◌∙◌, sym, arith, Bool, true, false, not, ◌||◌,
  Option, none, some, List, [], ◌∷◌, ◌++◌, length, length-append,
}
use mathlib.Core.List.{append_assoc}
use shmipc_cpp.Channel.{
  Channel, new_channel, is_full, enqueue, push, push_timeout, pop, pop_front, is_empty, stop,
}

-- What a thread does next.
pub data Act {ℓ} (A : Type ℓ) : Type ℓ where
  sends : A → Act A
  tries : A → Act A
  receives : Act A
  stops : Act A

-- The channel, the values that a send was told were accepted and those that were received, in order.
pub record Traffic {ℓ} (A : Type ℓ) : Type ℓ where
  pub channel : Channel A
  pub accepted : List A
  pub received : List A

module _ {ℓ} {A : Type ℓ} where
  abbrev pub note_sent : Traffic A → A → Bool × Channel A → Traffic A
  note_sent t x (true, c) = record t { channel = c; accepted = t.accepted ++ (x ∷ []) }
  note_sent t x (false, c) = record t { channel = c }

  abbrev pub note_received : Traffic A → Option A × Channel A → Traffic A
  note_received t (some x, c) = record t { channel = c; received = t.received ++ (x ∷ []) }
  note_received t (none, c) = record t { channel = c }

  -- A thread that waits changes nothing.
  abbrev pub note_push : Traffic A → A → Option (Bool × Channel A) → Traffic A
  note_push t x none = t
  note_push t x (some r) = note_sent t x r

  abbrev pub note_pop : Traffic A → Option (Option A × Channel A) → Traffic A
  note_pop t none = t
  note_pop t (some r) = note_received t r

  abbrev pub act : Traffic A → Act A → Traffic A
  act t (sends x) = note_push t x (push t.channel x)
  act t (tries x) = note_sent t x (push_timeout t.channel x)
  act t receives = note_pop t (pop t.channel)
  act t stops = record t { channel = stop t.channel }

  abbrev pub acts : Traffic A → List (Act A) → Traffic A
  acts t [] = t
  acts t (a ∷ rest) = acts (act t a) rest

  pub record IsSound (cap : ℕ) (t : Traffic A) : Type ℓ where
    pub in_order : t.accepted ≡ t.received ++ t.channel.queue
    pub cap_is : t.channel.cap ≡ cap
    pub bounded : (cap ≡ 0) ⊎ (length t.channel.queue ≤ cap)

  -- A value put behind the queue when there is room.
  IsSound-put :
      (cap : ℕ) (t : Traffic A) (x : A)
      → IsSound cap t
      → t.channel.stopped ≡ false
      → is_full t.channel ≡ false
      → IsSound cap (note_sent t x (enqueue t.channel x))
  unfolding enqueue is_full
  IsSound-put cap t x s open_ room = rw (open_) (record {
    in_order =
        ap (λ (l : List A). l ++ (x ∷ [])) s.in_order
        ∙ append_assoc t.received t.channel.queue (x ∷ []);
    cap_is = s.cap_is;
    bounded = ground (arith, s.bounded, s.cap_is, room, length-append t.channel.queue (x ∷ []));
  })

  IsSound-enqueue :
      (cap : ℕ) (t : Traffic A) (x : A)
      → IsSound cap t
      → (t.channel.stopped || not (is_full t.channel)) ≡ true
      → IsSound cap (note_sent t x (enqueue t.channel x))
  unfolding enqueue
  IsSound-enqueue cap t x s ready = elim (Bool-cases t.channel.stopped) [
    | inl shut ↦
        rw (shut) (record { in_order = s.in_order; cap_is = s.cap_is; bounded = s.bounded })
    | inr open_ ↦ IsSound-put cap t x s open_ (ground (arith, ready, open_))
  ]

  IsSound-send : (cap : ℕ) (t : Traffic A) (x : A) → IsSound cap t → IsSound cap (act t (sends x))
  unfolding push
  IsSound-send cap t x s = elim (Bool-cases (t.channel.stopped || not (is_full t.channel))) [
    | inl ready ↦ rw (ready) (IsSound-enqueue cap t x s ready)
    | inr wait ↦ rw (wait) s
  ]

  IsSound-try : (cap : ℕ) (t : Traffic A) (x : A) → IsSound cap t → IsSound cap (act t (tries x))
  unfolding push_timeout
  IsSound-try cap t x s = elim (Bool-cases (t.channel.stopped || not (is_full t.channel))) [
    | inl ready ↦ rw (ready) (IsSound-enqueue cap t x s ready)
    | inr wait ↦ rw (wait) s
  ]

  IsSound-front :
      (cap : ℕ) (t : Traffic A) (q : List A)
      → t.channel.queue ≡ q
      → IsSound cap t
      → IsSound cap (note_received t (pop_front t.channel q))
  unfolding pop_front
  IsSound-front cap t [] e s = s
  IsSound-front cap t (x ∷ q) e s = record {
    in_order =
        s.in_order
        ∙ ap (λ (l : List A). t.received ++ l) e
        ∙ sym (append_assoc t.received (x ∷ []) q);
    cap_is = s.cap_is;
    bounded = ground (arith, s.bounded, ap (λ (l : List A). length l) e);
  }

  IsSound-receive : (cap : ℕ) (t : Traffic A) → IsSound cap t → IsSound cap (act t receives)
  unfolding pop
  IsSound-receive cap t s =
      elim (Bool-cases (t.channel.stopped || not (is_empty t.channel.queue))) [
        | inl ready ↦ rw (ready) (IsSound-front cap t t.channel.queue refl s)
        | inr wait ↦ rw (wait) s
      ]

  IsSound-act : (cap : ℕ) (t : Traffic A) (a : Act A) → IsSound cap t → IsSound cap (act t a)
  unfolding stop
  IsSound-act cap t (sends x) s = IsSound-send cap t x s
  IsSound-act cap t (tries x) s = IsSound-try cap t x s
  IsSound-act cap t receives s = IsSound-receive cap t s
  IsSound-act cap t stops s = record {
    in_order = s.in_order;
    cap_is = s.cap_is;
    bounded = s.bounded;
  }

  IsSound-acts :
      (cap : ℕ) (t : Traffic A) (todo : List (Act A)) → IsSound cap t → IsSound cap (acts t todo)
  IsSound-acts cap t [] s = s
  IsSound-acts cap t (a ∷ rest) s = IsSound-acts cap (act t a) rest (IsSound-act cap t a s)

  abbrev pub fresh : ℕ → Traffic A
  fresh cap = record { channel = new_channel cap; accepted = []; received = [] }

  fresh-IsSound : (cap : ℕ) → IsSound cap (fresh cap)
  unfolding new_channel
  fresh-IsSound cap = record { in_order = refl; cap_is = refl; bounded = inr (omega arith) }

  -- Whatever threads do with a new channel, in whatever order: the values received, followed by
  -- those in the queue, are those that a send was told were accepted, in the order of the sends, and
  -- the queue is never longer than a capacity that is not 0.
  pub channel_lem :
      (cap : ℕ) (todo : List (Act A))
      → let t = acts (fresh cap) todo in
        (t.accepted ≡ t.received ++ t.channel.queue) × ((cap ≡ 0) ⊎ (length t.channel.queue ≤ cap))
  channel_lem cap todo =
      let s = IsSound-acts cap (fresh cap) todo (fresh-IsSound cap) in (s.in_order, s.bounded)

  -- One act on a stopped channel.
  act-stopped :
      (t : Traffic A) (a : Act A)
      → t.channel.stopped ≡ true
      → ((act t a).accepted ≡ t.accepted) × ((act t a).channel.stopped ≡ true)
  unfolding push push_timeout enqueue pop pop_front stop
  act-stopped t (sends x) shut = rw (shut) (refl, refl)
  act-stopped t (tries x) shut = rw (shut) (refl, refl)
  act-stopped t receives shut =
      let ready : (t.channel.stopped || not (is_empty t.channel.queue)) ≡ true =
        ground (arith, shut) in
      rw (ready) (front t.channel.queue)
    where
      front :
          (q : List A)
          → let r = note_received t (pop_front t.channel q) in
            (r.accepted ≡ t.accepted) × (r.channel.stopped ≡ true)
      front [] = (refl, shut)
      front (x ∷ q) = (refl, shut)
  act-stopped t stops shut = (refl, refl)

  -- Once a channel is stopped, no send is told any more that its value was accepted, whatever the
  -- threads do, and the channel stays stopped.
  pub stopped_lem :
      (t : Traffic A) (todo : List (Act A))
      → t.channel.stopped ≡ true
      → ((acts t todo).accepted ≡ t.accepted) × ((acts t todo).channel.stopped ≡ true)
  stopped_lem t [] shut = (refl, shut)
  stopped_lem t (a ∷ rest) shut =
      let (same, still) = act-stopped t a shut in
      let (later, closed) = stopped_lem (act t a) rest still in (later ∙ same, closed)
