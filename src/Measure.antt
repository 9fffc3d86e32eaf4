-- ===== src/Measure.antt =====
-- crates/node/src/measure.rs and crates/core/src/measure.rs: how often a peer does what, by period.
-- Times are numbers of one unit, the time of a call is an argument, and counts that are cast to
-- i64 are taken to be below 2 ^ 63.
pub mod Periods
use Prim.Native.String.{String, ◌++◌}
use bns_node.Common.{
  ℕ, ◌+◌, ◌%◌, ◌^◌, Bool, true, false, not, ◌&&◌, Option, none, some, List, [], ◌∷◌, ltb, ◌==◌,
  if◌then◌else◌, Result, ok, err, panic,
}
use bns_node.Storage.{KvStorage}

pub data MeasureCounter : Type 0 where
  sent failed_to_send received failed_to_receive connect disconnected : MeasureCounter

-- The derived Debug form, which also tells the counters apart.
abbrev pub debug : MeasureCounter → String
debug sent = "Sent"
debug failed_to_send = "FailedToSend"
debug received = "Received"
debug failed_to_receive = "FailedToReceive"
debug connect = "Connect"
debug disconnected = "Disconnected"

abbrev pub tag : MeasureCounter → ℕ
tag sent = 0
tag failed_to_send = 1
tag received = 2
tag failed_to_receive = 3
tag connect = 4
tag disconnected = 5

pub record PeriodicCounter : Type 0 where
  pub period : ℕ
  pub count : ℕ
  pub previous : ℕ
  pub previous_count : ℕ

unfoldable pub new_counter : ℕ → ℕ → ℕ → PeriodicCounter
new_counter now period previous_count = record {
  period = period;
  count = 0;
  previous = now;
  previous_count = previous_count;
}

unfoldable pub refresh : PeriodicCounter → ℕ → PeriodicCounter × Bool
refresh c now =
    if ltb now (c.previous + c.period)
    then (c, false)
    else (record c { previous_count = c.count; count = 0; previous = now }, true)

unfoldable pub barely_get : PeriodicCounter → ℕ
barely_get c = if c.previous_count == 0 then c.count else c.previous_count

abbrev pub increased : PeriodicCounter → PeriodicCounter
increased c = record c { count = (c.count + 1) % 2 ^ 64 }

-- The counter, what is returned of it, and whether a period has ended.
unfoldable pub incr : PeriodicCounter → ℕ → PeriodicCounter × ℕ × Bool
unfolding refresh barely_get
incr c now = let p = refresh c now in (increased p.0, barely_get (increased p.0), p.1)

unfoldable pub get : PeriodicCounter → ℕ → PeriodicCounter × ℕ × Bool
unfolding refresh barely_get
get c now = let p = refresh c now in (p.0, barely_get p.0, p.1)

-- The counters by peer and kind.
pub record PeriodicMeasure (S : Type 0) : Type 0 where
  pub storage : S
  pub counters : List ((ℕ × MeasureCounter) × PeriodicCounter)

abbrev pub is_key : ℕ → MeasureCounter → ℕ × MeasureCounter → Bool
is_key did counter k = k.0 == did && tag k.1 == tag counter

unfoldable pub find :
    List ((ℕ × MeasureCounter) × PeriodicCounter) → ℕ → MeasureCounter → Option PeriodicCounter
find [] did counter = none
find ((k, c) ∷ cs) did counter = if is_key did counter k then some c else find cs did counter

unfoldable pub store :
    List ((ℕ × MeasureCounter) × PeriodicCounter)
    → ℕ
    → MeasureCounter
    → PeriodicCounter
    → List ((ℕ × MeasureCounter) × PeriodicCounter)
store [] did counter c = ((did, counter), c) ∷ []
store ((k, d) ∷ cs) did counter c =
    let rest = store cs did counter c in if is_key did counter k then (k, c) ∷ cs else (k, d) ∷ rest

abbrev pub saved_count : Result (Option ℕ) → Result ℕ
saved_count (ok (some n)) = ok n
saved_count (ok none) = ok 0
saved_count (err e) = ok 0
saved_count panic = panic

-- DURATION
abbrev pub duration : ℕ
duration = 3600

-- The tests of ConnectBehaviour and of the two message behaviours, with their thresholds.
abbrev pub good_connect : ℕ → ℕ → ℕ → Bool
good_connect threshold conn disconn = ltb conn (threshold + disconn)

abbrev pub good_messages : ℕ → ℕ → Bool
good_messages threshold failed = ltb failed threshold

abbrev pub connect_failed_limit : ℕ
connect_failed_limit = 3

abbrev pub message_failed_limit : ℕ
message_failed_limit = 10

module _ {S : Type 0} (did_to_string : ℕ → String) (kv : KvStorage ℕ S) where
  unfoldable pub gen_storage_key : ℕ → MeasureCounter → String
  gen_storage_key did counter =
      "PeriodicMeasure/counters/" ++ (did_to_string did ++ ("/" ++ debug counter))

  -- The counter in use, or a new one that starts from what was saved.
  unfoldable pub ensure_counter :
      PeriodicMeasure S → ℕ → MeasureCounter → ℕ → Result PeriodicCounter
  unfolding find gen_storage_key
  ensure_counter m did counter now =
      elim (saved_count (kv.get m.storage (gen_storage_key did counter))) [
        | err e ↦ err e
        | panic ↦ panic
        | ok count ↦ elim (find m.counters did counter) [
          | some c ↦ ok c
          | none ↦ ok (new_counter now duration count)
        ]
      ]

  unfoldable pub save_counter : S → ℕ → MeasureCounter → ℕ → S
  unfolding gen_storage_key
  save_counter s did counter count = (kv.put s (gen_storage_key did counter) count).0

  keep : PeriodicMeasure S → ℕ → MeasureCounter → PeriodicCounter × ℕ × Bool → PeriodicMeasure S × ℕ
  unfolding store save_counter
  keep m did counter (c, count, is_refreshed) = (
    record {
      storage = if is_refreshed then save_counter m.storage did counter count else m.storage;
      counters = store m.counters did counter c;
    },
    count,
  )

  unfoldable pub incr_count :
      PeriodicMeasure S → ℕ → MeasureCounter → ℕ → Result (PeriodicMeasure S)
  unfolding ensure_counter keep incr
  incr_count m did counter now = elim (ensure_counter m did counter now) [
    | ok c ↦ ok (keep m did counter (incr c now)).0
    | err e ↦ err e
    | panic ↦ panic
  ]

  unfoldable pub get_count :
      PeriodicMeasure S → ℕ → MeasureCounter → ℕ → Result (PeriodicMeasure S × ℕ)
  unfolding ensure_counter keep get
  get_count m did counter now = elim (ensure_counter m did counter now) [
    | ok c ↦ ok (keep m did counter (get c now))
    | err e ↦ err e
    | panic ↦ panic
  ]

  -- One test of counters, each of which is brought up to date.
  abbrev Judged : Type 0
  Judged = PeriodicMeasure S → Result (PeriodicMeasure S × Bool)

  abbrev and_then : Judged → Judged → Judged
  and_then first second m = elim (first m) [
    | ok (n, good) ↦ if good then second n else ok (n, false)
    | err e ↦ err e
    | panic ↦ panic
  ]

  unfoldable pub judge_connect : ℕ → ℕ → Judged
  judge_connect did now m = elim (get_count m did MeasureCounter.connect now) [
    | ok (n, conn) ↦ elim (get_count n did MeasureCounter.disconnected now) [
      | ok (o, disconn) ↦ ok (o, good_connect connect_failed_limit conn disconn)
      | err e ↦ err e
      | panic ↦ panic
    ]
    | err e ↦ err e
    | panic ↦ panic
  ]

  unfoldable pub judge_messages : ℕ → MeasureCounter → ℕ → Judged
  judge_messages did counter now m = elim (get_count m did counter now) [
    | ok (n, failed) ↦ ok (n, good_messages message_failed_limit failed)
    | err e ↦ err e
    | panic ↦ panic
  ]

  -- BehaviourJudgement: the three tests, up to the first that fails.
  unfoldable pub good : ℕ → ℕ → Judged
  unfolding judge_connect judge_messages
  good did now = and_then (judge_connect did now) (
      and_then (judge_messages did MeasureCounter.failed_to_send now)
        (judge_messages did MeasureCounter.failed_to_receive now))
