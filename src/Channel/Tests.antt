-- ===== src/Channel/Tests.antt =====
-- A channel of capacity 2.
use shmipc_cpp.Common.{ℕ, ◌≤◌, ◌≡◌, ◌⊎◌, refl, List, [], ◌∷◌, ◌++◌, length, true}
use shmipc_cpp.Channel.{
  new_channel, is_full, enqueue, push, push_timeout, pop, pop_front, is_empty, stop,
}
use shmipc_cpp.Channel.Traffic.{
  Act, sends, tries, receives, stops, Traffic, acts, fresh, channel_lem, stopped_lem,
}

abbrev todo : List (Act ℕ)
todo = sends 1 ∷ sends 2 ∷ sends 3 ∷ tries 4 ∷ receives ∷ sends 5 ∷ stops ∷ sends 6 ∷ receives ∷ []

-- The third send waits, the fourth times out, the sixth comes too late.
todo-received :
    ((acts (fresh 2) todo).accepted ≡ 1 ∷ 2 ∷ 5 ∷ [])
    × ((acts (fresh 2) todo).received ≡ 1 ∷ 2 ∷ [])
unfolding new_channel is_full enqueue push push_timeout pop pop_front is_empty stop
todo-received = (refl, refl)

channel_lem_example :
    let t = acts (fresh 2) todo in
    (t.accepted ≡ t.received ++ t.channel.queue)
    × ((◌≡◌ {A = ℕ} 2 0) ⊎ (length t.channel.queue ≤ 2))
channel_lem_example = channel_lem 2 todo

abbrev shut : Traffic ℕ
shut = record {
  channel = record { queue = 7 ∷ []; cap = 2; stopped = true };
  accepted = 7 ∷ [];
  received = [];
}

stopped_lem_example :
    ((acts shut todo).accepted ≡ shut.accepted) × ((acts shut todo).channel.stopped ≡ true)
stopped_lem_example = stopped_lem shut todo refl
