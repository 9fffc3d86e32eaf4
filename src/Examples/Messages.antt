-- ===== src/Examples/Messages.antt =====
-- Tests of message relays, chunks and counters.
use bns_node.Common.{
  ℕ, ◌≡◌, refl, inl, inr, true, false, List, [], ◌∷◌, ◌++◌, length, Member, some, none, ok, err,
  Error, arith,
}
use bns_node.Measure
use bns_node.Measure.{PeriodicCounter}
use bns_node.Measure.Periods.{incr_all, get-incr_all}
use bns_node.Relay.{MessageRelay, has_repeat, validate, report}
use bns_node.Relay.Loops.{validate-cycle}
use bns_node.Relay.Paths.{forward_all, forward-report}
use bns_node.Chunk
use bns_node.Chunk.{Chunk, ChunkMeta, from_bytes, get, handle, only}
use bns_node.Chunk.Copies.{get-copies}
use bns_node.Chunk.Whole.{IsWhole, handle-IsWhole}

abbrev counter : PeriodicCounter
counter = record { period = 60; count = 0; previous = 100; previous_count = 4 }

abbrev calls : List ℕ
calls = 110 ∷ 120 ∷ 159 ∷ []

abbrev later_calls : List ℕ
later_calls = 170 ∷ []

abbrev sent : MessageRelay
sent = record { path = 10 ∷ []; next_hop = 20; destination = 40 }

abbrev way : List ℕ
way = 30 ∷ 40 ∷ []

-- 10, then three times 20 and 30.
abbrev circling : MessageRelay
circling = record { path = 10 ∷ 20 ∷ 30 ∷ 20 ∷ 30 ∷ 20 ∷ 30 ∷ []; next_hop = 20; destination = 40 }

abbrev meta : ChunkMeta
meta = record { id = 7; ts_ms = 5000; ttl_ms = 600000 }

abbrev message : List ℕ
message = 1 ∷ 2 ∷ 3 ∷ []

abbrev front : Chunk
front = record { position = 0; total = 2; payload = 1 ∷ 2 ∷ []; meta = meta }

abbrev back : Chunk
back = record { position = 1; total = 2; payload = 3 ∷ []; meta = meta }

abbrev stranger : Chunk
stranger = record { position = 0; total = 2; payload = 9 ∷ []; meta = record meta { id = 8 } }

abbrev pieces : List Chunk
pieces = front ∷ back ∷ []

abbrev swapped : List Chunk
swapped = back ∷ front ∷ []

abbrev pool : List Chunk
pool = back ∷ stranger ∷ []

made : from_bytes 2 meta message ≡ ok pieces
unfolding from_bytes
made = refl

swapped-IsWhole : IsWhole pieces swapped
swapped-IsWhole = record {
  apart = ((omega arith, tt), (tt, tt));
  members = (inr (inl refl), (inl refl, tt));
  all_there = refl;
}

selected : only 7 (Chunk.remove_expired (pool ++ front ∷ []) 6000) ≡ swapped
unfolding only Chunk.remove_expired
selected = refl

-- The front comes twice, with the back between.
abbrev crowded : List Chunk
crowded = front ∷ back ∷ stranger ∷ front ∷ []

in_crowd : only 7 crowded ≡ front ∷ back ∷ front ∷ []
unfolding only
in_crowd = refl

known_crowd : (c : Chunk) → Member c (only 7 crowded) → Member c pieces
known_crowd c = rw in_crowd λ m. elim m [
  | inl e ↦ inl e
  | inr (inl e) ↦ inr (inl e)
  | inr (inr (inl e)) ↦ inl e
  | inr (inr (inr n)) ↦ absurd n
]

not_later : ¬ Member 10 (20 ∷ way)
not_later (inl e) = omega (arith, e)
not_later (inr (inl e)) = omega (arith, e)
not_later (inr (inr (inl e))) = omega (arith, e)
not_later (inr (inr (inr m))) = m

not_last : ¬ Member 20 way
not_last (inl e) = omega (arith, e)
not_last (inr (inl e)) = omega (arith, e)
not_last (inr (inr m)) = m

abbrev end : List ℕ
end = 40 ∷ []

not_end : ¬ Member 30 end
not_end (inl e) = omega (arith, e)
not_end (inr m) = m

forward-report_example :
    (t : MessageRelay) × (us : List ℕ) × (y : ℕ) × (forward_all sent way ≡ ok t)
    × (t.path ++ t.next_hop ∷ [] ≡ sent.path ++ sent.next_hop ∷ way)
    × (t.destination ≡ sent.destination)
    × (t.path ≡ us ++ y ∷ [])
    × (report t t.next_hop ≡ ok (record { path = t.next_hop ∷ []; next_hop = y; destination = 10 }))
forward-report_example =
    forward-report sent 10 [] way refl (not_later, (not_last, (not_end, ((λ m. m), tt))))

validate-cycle_example : validate circling circling.next_hop ≡ err Error.infinite_relay_path
validate-cycle_example =
    validate-cycle circling (10 ∷ []) (20 ∷ []) 30
      (λ m. elim m [ inl e ↦ absurd (omega (arith, e)) | inr q ↦ q ]) refl
      (unfold has_repeat in refl)

handle-IsWhole_example :
    (kept : List Chunk) × (handle pool 6000 front ≡ ok (kept, some message))
    × (only front.meta.id kept ≡ [])
handle-IsWhole_example =
    handle-IsWhole 1 6000 meta message pieces pool front (λ e. cc) made (omega arith) (omega arith)
      (omega arith) (rw selected swapped-IsWhole)

get-copies_example :
    (((c : Chunk) → Member c pieces → Member c (only 7 crowded)) → get crowded 7 ≡ some message)
    × ((c : Chunk) → Member c pieces → ¬ Member c (only 7 crowded) → get crowded 7 ≡ none)
get-copies_example = get-copies 1 meta message pieces crowded 7 (λ e. cc) made known_crowd

get-incr_all_example :
    (d : PeriodicCounter) × (e : PeriodicCounter) × (Measure.get (incr_all counter calls) 165
      ≡ (d, length calls, true))
    × (Measure.get (incr_all d later_calls) 180 ≡ (e, length calls, false))
    × (e.count ≡ length later_calls)
get-incr_all_example =
    get-incr_all counter calls later_calls 165 180 refl
      (omega arith, (omega arith, (omega arith, tt))) (omega arith) (omega arith) (omega arith)
      (omega arith, tt) (omega arith) (omega arith)
