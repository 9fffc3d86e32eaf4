-- ===== src/Examples/Nodes.antt =====
-- Tests of a network of the three nodes 10, 20 and 30.
use bns_node.Common.{
  ℕ, ◌<◌, ◌≤◌, ◌≡◌, ◌≢◌, refl, sym, ap, inl, inr, ◌⊎◌, List, [], ◌∷◌, length, replicate, Option,
  none, some, All, All-replicate, Member, get_elem?, get_elem?-All, ◌==◌, if◌then◌else◌, ok, arith,
  subst,
}
use bns_node.Did.{IsDid, sub}
use bns_node.Did.Bias
use bns_node.Successor
use bns_node.Chord
use bns_node.Finger
use bns_node.Finger.Table.{IsEntry}
use bns_node.Successor.{SuccessorSeq}
use bns_node.Successor.Ordered.{IsRising}
use bns_node.Successor.Update.{IsOther}
use bns_node.Action.{some_did}
use bns_node.Chord.{PeerRing, find_successor}
use bns_node.Chord.Ring.{IsValid}
use bns_node.Chord.Lookup.{head}
use bns_node.Chord.Synced.{IsLinked}
use bns_node.Chord.Route.{found, route, IsNetwork, IsStable, route_ends, route_finds}
use bns_node.Examples.{Store}

abbrev Live : ℕ → Type 0
Live n = Member n (10 ∷ 20 ∷ 30 ∷ [])

abbrev peer : ℕ → List (Option ℕ) → List ℕ → PeerRing Store
peer d fingers successors = record {
  did = d;
  finger = record { did = d; size = 160; finger = fingers; fix_finger_index = 0 };
  successor_seq = record { did = d; max = 3; successors = successors };
  predecessor = none;
  storage = [];
  cache = [];
}

peer-IsValid :
    (d : ℕ) (fingers : List (Option ℕ)) (successors : List ℕ)
    → IsDid d
    → length fingers ≡ 160
    → All (IsEntry d) fingers
    → length successors ≤ 3
    → IsRising (λ e. sub e d) successors
    → All (IsOther d) successors
    → IsValid (peer d fingers successors)
peer-IsValid d fingers successors own full entries few rising others = record {
  own = own;
  finger_own = refl;
  finger_size = refl;
  finger_valid = record { own = own; fits = omega arith; full_length = full; entries = entries };
  succ_own = refl;
  succ_valid = record {
    own = own;
    max_byte = omega arith;
    bounded = few;
    rising = rising;
    others = others;
  };
  pred_valid = tt;
  index_valid = omega arith;
}

abbrev fingers_10 : List (Option ℕ)
fingers_10 = some 20 ∷ some 20 ∷ some 20 ∷ some 20 ∷ some 30 ∷ replicate 155 none

abbrev fingers_20 : List (Option ℕ)
fingers_20 = some 30 ∷ some 30 ∷ some 30 ∷ some 30 ∷ replicate 156 (some 10)

abbrev fingers_30 : List (Option ℕ)
fingers_30 = replicate 160 (some 10)

abbrev net : ℕ → PeerRing Store
net n =
    if n == 10
    then peer 10 fingers_10 (20 ∷ 30 ∷ [])
    else if n == 20
    then peer 20 fingers_20 (30 ∷ 10 ∷ [])
    else peer 30 fingers_30 (10 ∷ 20 ∷ [])

-- What holds of the three nodes holds of all live ones.
each : (P : ℕ → Type 0) → P 10 → P 20 → P 30 → (n : ℕ) → Live n → P n
each P a b c n (inl e) = subst P (sym e) a
each P a b c n (inr (inl e)) = subst P (sym e) b
each P a b c n (inr (inr (inl e))) = subst P (sym e) c
each P a b c n (inr (inr (inr m))) = absurd m

entry : (d n : ℕ) → d < 1000 → d ≢ n → IsEntry n (some d)
entry d n low ne = (omega arith, ne)

abbrev IsLiveEntry : Option ℕ → Type 0
IsLiveEntry none = Unit
IsLiveEntry (some v) = Live v

finger_alive :
    (fs : List (Option ℕ)) (i v : ℕ) → All IsLiveEntry fs → get_elem? fs i ≡ some (some v) → Live v
finger_alive fs i v h e = get_elem?-All IsLiveEntry fs i (some v) h e

entries_10 : All (IsEntry 10) fingers_10
entries_10 =
    let e = entry 20 10 (omega arith) (omega arith) in
    (
      e,
      (
        e,
        (e, (e, (entry 30 10 (omega arith) (omega arith), All-replicate (IsEntry 10) 155 none tt))),
      ),
    )

entries_20 : All (IsEntry 20) fingers_20
entries_20 =
    let e = entry 30 20 (omega arith) (omega arith) in
    (
      e,
      (
        e,
        (
          e,
          (e, All-replicate (IsEntry 20) 156 (some 10) (entry 10 20 (omega arith) (omega arith))),
        ),
      ),
    )

entries_30 : All (IsEntry 30) fingers_30
entries_30 = All-replicate (IsEntry 30) 160 (some 10) (entry 10 30 (omega arith) (omega arith))

live_10 : All IsLiveEntry fingers_10
live_10 =
    let e : Live 20 = inr (inl refl) in
    (e, (e, (e, (e, (inr (inr (inl refl)), All-replicate IsLiveEntry 155 none tt)))))

live_20 : All IsLiveEntry fingers_20
live_20 =
    let e : Live 30 = inr (inr (inl refl)) in
    (e, (e, (e, (e, All-replicate IsLiveEntry 156 (some 10) (inl refl)))))

live_30 : All IsLiveEntry fingers_30
live_30 = All-replicate IsLiveEntry 160 (some 10) (inl refl)

least :
    (n s h x : ℕ)
    → some s ≡ some h
    → x ≢ n
    → (x ≡ 10) ⊎ (x ≡ 20) ⊎ (x ≡ 30) ⊎ ⊥
    → sub s n ≤ sub 10 n ⊎ (n ≡ 10)
    → sub s n ≤ sub 20 n ⊎ (n ≡ 20)
    → sub s n ≤ sub 30 n ⊎ (n ≡ 30)
    → sub h n ≤ sub x n
least n s h x e ne m a b c = grind arith

net-IsNetwork : IsNetwork net Live
unfolding sub
net-IsNetwork = record {
  live_did = each IsDid (omega arith) (omega arith) (omega arith);
  valid =
      each (λ n. IsValid (net n))
        (peer-IsValid 10 fingers_10 (20 ∷ 30 ∷ []) (omega arith) refl entries_10 (omega arith)
          ((omega arith, tt), (tt, tt))
          ((omega arith, omega arith), ((omega arith, omega arith), tt)))
        (peer-IsValid 20 fingers_20 (30 ∷ 10 ∷ []) (omega arith) refl entries_20 (omega arith)
          ((omega arith, tt), (tt, tt))
          ((omega arith, omega arith), ((omega arith, omega arith), tt)))
        (peer-IsValid 30 fingers_30 (10 ∷ 20 ∷ []) (omega arith) refl entries_30 (omega arith)
          ((omega arith, tt), (tt, tt))
          ((omega arith, omega arith), ((omega arith, omega arith), tt)));
  own = each (λ n. (net n).did ≡ n) refl refl refl;
  linked =
      each (λ n. IsLinked (net n)) (λ h e. (0, omega arith, ap some e))
        (λ h e. (0, omega arith, ap some e)) (λ h e. (0, omega arith, ap some e));
  closed = λ n i v live.
      each (λ n. get_elem? (net n).finger.finger i ≡ some (some v) → Live v)
        (finger_alive fingers_10 i v live_10) (finger_alive fingers_20 i v live_20)
        (finger_alive fingers_30 i v live_30) n live;
}

net-IsStable : IsStable net Live
unfolding sub
net-IsStable = record {
  alone = λ n x live.
      each (λ n. head (net n).successor_seq ≡ none → Live x → x ≡ n) (λ e. absurd (cc))
        (λ e. absurd (cc)) (λ e. absurd (cc)) n live;
  next_live = λ n h live.
      each (λ n. head (net n).successor_seq ≡ some h → Live h) (λ e. inr (inl (cc)))
        (λ e. inr (inr (inl (cc)))) (λ e. inl (cc)) n live;
  next_least = λ n h x live.
      each (λ n. head (net n).successor_seq ≡ some h → Live x → x ≢ n → sub h n ≤ sub x n)
        (λ e m ne. least 10 20 h x e ne m (inr refl) (inl (omega arith)) (inl (omega arith)))
        (λ e m ne. least 20 30 h x e ne m (inl (omega arith)) (inr refl) (inl (omega arith)))
        (λ e m ne. least 30 10 h x e ne m (inl (omega arith)) (inl (omega arith)) (inr refl)) n
        live;
}

abbrev target : ℕ
target = 40

abbrev start : ℕ
start = 10

route_test : route net Live 31 10 40 ≡ found 10
unfolding route find_successor Successor.min_succ Bias.le Chord.bias sub Finger.closest_predecessor
    Bias.lt Bias.bias
route_test = refl

route_finds_example :
    (v : ℕ) × (route net Live 31 start target ≡ found v)
    × Live v
    × ((x : ℕ) → Live x → sub v target ≤ sub x target)
route_finds_example =
    route_finds net Live 31 start target net-IsNetwork net-IsStable (inl refl) (omega arith)
      (omega arith) (unfold sub in omega arith)

route_ends_example :
    (m v : ℕ) × (route net Live 31 start target ≡ found v)
    × Live m
    × (target ≢ m)
    × (find_successor (net m) target ≡ ok (some_did v))
route_ends_example =
    route_ends net Live 31 start target net-IsNetwork (inl refl) (omega arith) (omega arith)
      (unfold sub in omega arith)
