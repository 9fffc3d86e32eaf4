-- ===== src/Finger/Table.antt =====
-- Well-formed finger tables, and that the operations of finger.rs keep them so.
use mathlib.Core.Option
use bns_node.Common.{
  ap, ℕ, zero, suc, ◌+◌, ◌-◌, ◌≤◌, ◌<◌, ◌≡◌, ◌≢◌, refl, ◌∙◌, inl, inr, Option, none, some, List, [],
  ◌∷◌, All, length, get_elem?, set, arith, leb, ◌==◌, Bool-cases, ==_false→ne, subst, length-set,
  length-replicate, get_elem?-set_self, All-set, All-replicate, All-of_get_elem?, get_elem?-All,
  get_elem?-in_range, lt-length_of_get_elem?, ok,
}
use bns_node.Did.{IsDid}
use bns_node.Did.Ring.{sub_self}
use bns_node.Finger.{
  first, first_some, FingerTable, new, slot, set_at, fill, positions, remove, join, last_or,
  remove_at,
}
use bns_node.Finger.Join.{joined, join_lem, from_biguint-pow}

-- An entry is empty or holds another identifier than the node's own.
abbrev pub IsEntry : ℕ → Option ℕ → Type 0
IsEntry self none = Unit
IsEntry self (some v) = IsDid v × (v ≢ self)

pub record IsValid (t : FingerTable) : Type 0 where
  pub own : IsDid t.did
  pub fits : t.size ≤ 160
  pub full_length : length t.finger ≡ t.size
  pub entries : All (IsEntry t.did) t.finger

pub new-IsValid : (did size : ℕ) → IsDid did → size ≤ 160 → IsValid (new did size)
unfolding new
new-IsValid did size h k = record {
  own = h;
  fits = k;
  full_length = length-replicate size none;
  entries = All-replicate (IsEntry did) size none tt;
}

pub set_at-IsValid :
    (t : FingerTable) (index did : ℕ) → IsDid did → IsValid t → IsValid (set_at t index did)
unfolding set_at
set_at-IsValid t index did h v = elim (Bool-cases (leb (length t.finger) index)) [
  | inl e ↦ rw e v
  | inr e ↦ elim (Bool-cases (did == t.did)) [
    | inl e' ↦ rw (e, e') v
    | inr e' ↦
        rw (e, e')
          (record {
            own = v.own;
            fits = v.fits;
            full_length = length-set t.finger index (some did) ∙ v.full_length;
            entries =
                All-set (IsEntry t.did) t.finger index (some did) (h, ==_false→ne did t.did e')
                  v.entries;
          })
  ]
]

pub set_at_same :
    (t : FingerTable) (index did : ℕ)
    → ((set_at t index did).did ≡ t.did)
      × ((set_at t index did).size ≡ t.size)
      × ((set_at t index did).fix_finger_index ≡ t.fix_finger_index)
unfolding set_at
set_at_same t index did = ground arith

-- A write in range of another identifier is found.
pub set_at_lem :
    (t : FingerTable) (index did : ℕ)
    → index < length t.finger
    → did ≢ t.did
    → get_elem? (set_at t index did).finger index ≡ some (some did)
unfolding set_at
set_at_lem t index did h ne = ground (arith, get_elem?-set_self t.finger index (some did))

fill-length :
    (f : List (Option ℕ)) (o : Option ℕ) (start count : ℕ)
    → length (fill f o start count) ≡ length f
unfolding fill
fill-length f o start zero = refl
fill-length f o start (suc count) =
    fill-length (set f start o) o (suc start) count ∙ length-set f start o

All-fill :
    (P : Option ℕ → Type 0) (f : List (Option ℕ)) (o : Option ℕ) (start count : ℕ)
    → P o
    → All P f
    → All P (fill f o start count)
unfolding fill
All-fill P f o start zero p h = h
All-fill P f o start (suc count) p h =
    All-fill P (set f start o) o (suc start) count p (All-set P f start o p h)

slot-IsEntry :
    (self : ℕ) (f : List (Option ℕ)) (i : ℕ) → All (IsEntry self) f → IsEntry self (slot f i)
slot-IsEntry self [] i h = tt
slot-IsEntry self (x ∷ xs) zero h = h.0
slot-IsEntry self (x ∷ xs) (suc i) h = slot-IsEntry self xs i h.1

pub remove_same :
    (t : FingerTable) (did : ℕ)
    → ((remove t did).did ≡ t.did)
      × ((remove t did).size ≡ t.size)
      × ((remove t did).fix_finger_index ≡ t.fix_finger_index)
unfolding remove
remove_same t did = go (positions did 0 t.finger)
  where
    go :
        (ixs : List ℕ)
        → ((remove_at t ixs).did ≡ t.did)
          × ((remove_at t ixs).size ≡ t.size)
          × ((remove_at t ixs).fix_finger_index ≡ t.fix_finger_index)
    go [] = (refl, refl, refl)
    go (a ∷ rest) = unfold remove_at in (refl, refl, refl)

pub remove-IsValid : (t : FingerTable) (did : ℕ) → IsValid t → IsValid (remove t did)
unfolding remove
remove-IsValid t did v = go (positions did 0 t.finger)
  where
    go : (ixs : List ℕ) → IsValid (remove_at t ixs)
    go [] = v
    go (first_idx ∷ rest) =
        unfold remove_at in
        let end_idx = last_or first_idx rest + 1 in
        let fix_id : Option ℕ = slot t.finger end_idx in
        record {
          own = v.own;
          fits = v.fits;
          full_length = fill-length t.finger fix_id first_idx (end_idx - first_idx) ∙ v.full_length;
          entries =
              All-fill (IsEntry t.did) t.finger fix_id first_idx (end_idx - first_idx)
                (slot-IsEntry t.did t.finger end_idx v.entries) v.entries;
        }

joined-IsEntry :
    (self did k : ℕ) (o : Option ℕ)
    → IsDid self
    → IsDid did
    → k < 160
    → IsEntry self o
    → IsEntry self (joined self did k o)
unfolding joined
joined-IsEntry self did k none hs hd hk h = ground (arith, from_biguint-pow k hk, sub_self self hs)
joined-IsEntry self did k (some v) hs hd hk h =
    ground (arith, from_biguint-pow k hk, sub_self self hs)

-- A join, with the entries of the new table.
pub join_entries :
    (t : FingerTable) (did : ℕ)
    → IsDid did
    → IsValid t
    → (f : List (Option ℕ)) × (join t did ≡ ok (record t { finger = f }))
      × IsValid (record t { finger = f })
      × ((j : ℕ)
          → j < t.size
          → get_elem? f j ≡ Option.map (joined t.did did j) (get_elem? t.finger j))
join_entries t did h v =
    let done = join_lem t did v.full_length (omega arith) in
    (
      done.0,
      done.1,
      record {
        own = v.own;
        fits = v.fits;
        full_length = done.2;
        entries = All-of_get_elem? (IsEntry t.did) done.0 λ i o e.
            let hi : i < t.size = omega (arith, lt-length_of_get_elem? done.0 i o e) in
            let (p, old) = get_elem?-in_range t.finger i (omega arith) in
            subst (IsEntry t.did) (ground (arith, done.3 i hi, e, old)) (
              joined-IsEntry t.did did i p v.own h (omega arith)
                (get_elem?-All (IsEntry t.did) t.finger i p v.entries old));
      },
      done.3,
    )

pub join-IsValid :
    (t : FingerTable) (did : ℕ)
    → IsDid did
    → IsValid t
    → (t' : FingerTable) × (join t did ≡ ok t') × IsValid t'
join-IsValid t did h v =
    let done = join_entries t did h v in (record t { finger = done.0 }, done.1, done.2)

-- `first` gives an entry of the table, if there is any.
pub first_lem :
    (t : FingerTable)
    → ((x : ℕ) → first t ≡ some x → (i : ℕ) × (get_elem? t.finger i ≡ some (some x)))
      × (first t ≡ none → (i x : ℕ) → get_elem? t.finger i ≢ some (some x))
unfolding first
first_lem t = (found t.finger, missing t.finger)
  where
    found :
        (f : List (Option ℕ)) (x : ℕ)
        → first_some f ≡ some x
        → (i : ℕ) × (get_elem? f i ≡ some (some x))
    found [] x e = absurd (cc)
    found (none ∷ f) x e = let (i, q) = found f x e in (suc i, q)
    found (some v ∷ f) x e = (0, ap some e)

    missing :
        (f : List (Option ℕ)) → first_some f ≡ none → (i x : ℕ) → get_elem? f i ≢ some (some x)
    missing [] e i x q = cc
    missing (none ∷ f) e zero x q = cc
    missing (none ∷ f) e (suc i) x q = missing f e i x q
    missing (some v ∷ f) e i x q = cc
