-- ===== src/Channel.antt =====
-- class Channel (include/shmipc/sync/channel.hpp): a queue under a mutex with two condition
-- variables. An operation that would wait is `none`; it runs again when another one has changed the
-- channel. Each operation is one step, as the mutex makes it.
pub mod Traffic
mod Tests
use shmipc_cpp.Common.{
  ℕ, Bool, true, false, ◌&&◌, ◌||◌, not, leb, ◌==◌, if◌then◌else◌, Option, none, some, List, [],
  ◌∷◌, ◌++◌, length,
}

pub record Channel {ℓ} (A : Type ℓ) : Type ℓ where
  pub queue : List A
  pub cap : ℕ
  pub stopped : Bool

module _ {ℓ} {A : Type ℓ} where
  unfoldable pub new_channel : ℕ → Channel A
  new_channel cap = record { queue = []; cap = cap; stopped = false }

  unfoldable pub is_full : Channel A → Bool
  is_full c = not (c.cap == 0) && leb c.cap (length c.queue)

  -- Behind the wait.
  unfoldable pub enqueue : Channel A → A → Bool × Channel A
  enqueue c x = if c.stopped then (false, c) else (true, record c { queue = c.queue ++ (x ∷ []) })

  unfoldable pub push : Channel A → A → Option (Bool × Channel A)
  push c x = if c.stopped || not (is_full c) then some (enqueue c x) else none

  -- At the moment when wait_for ends: because the test holds, or because the time is over.
  unfoldable pub push_timeout : Channel A → A → Bool × Channel A
  push_timeout c x = if c.stopped || not (is_full c) then enqueue c x else (false, c)

  pop_front : Channel A → List A → Option A × Channel A
  pop_front c [] = (none, c)
  pop_front c (x ∷ xs) = (some x, record c { queue = xs })

  unfoldable pub is_empty : List A → Bool
  is_empty [] = true
  is_empty (x ∷ xs) = false

  unfoldable pub pop : Channel A → Option (Option A × Channel A)
  unfolding pop_front
  pop c = if c.stopped || not (is_empty c.queue) then some (pop_front c c.queue) else none

  unfoldable pub stop : Channel A → Channel A
  stop c = record c { stopped = true }
