-- ===== src/Examples/Channels.antt =====
-- Tests of the pools of channels and of connections.

use bns_node.Common.{ℕ, ◌<◌, ◌≡◌, refl, true, [], ◌∷◌, length, ok, arith}
use bns_node.Swarm.{WebrtcConnectionState}
use bns_node.Connections.RoundRobin.{RoundRobinPool, IsValid, select, select_times, select_turn}
use bns_node.Connections.Pool.{Pool, safely_insert, IsInserted, safely_insert_lem}

-- The third of four channels is the next one.
abbrev channels : RoundRobinPool ℕ
channels = record { pool = 1 ∷ 2 ∷ 3 ∷ 4 ∷ []; idx = 2 }

channels-IsValid : IsValid channels
channels-IsValid = record { inside = omega arith; fits = omega arith }

select_test : (select (select_times 3 channels)).1 ≡ ok 2
unfolding select select_times
select_test = refl

select_turn_example :
    (i : ℕ) × (i < length channels.pool) × ((select (select_times i channels)).1 ≡ ok 2)
select_turn_example = select_turn channels 1 2 channels-IsValid refl

-- A connection is its state.
abbrev state : WebrtcConnectionState → WebrtcConnectionState
state s = s

abbrev known : Pool WebrtcConnectionState
known = ("a", WebrtcConnectionState.connected) ∷ ("b", WebrtcConnectionState.closed) ∷ []

safely_insert_lem_example :
    IsInserted state known "b" WebrtcConnectionState.new
      (safely_insert state true known "b" WebrtcConnectionState.new)
safely_insert_lem_example = safely_insert_lem state true known "b" WebrtcConnectionState.new
