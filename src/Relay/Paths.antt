-- ===== src/Relay/Paths.antt =====
-- Relaying and reporting in crates/core/src/message/protocols/relay.rs, hop by hop.
use mathlib.Core.List.{reverse, append_assoc}
use bns_node.Common.{
  ℕ, ◌≡◌, refl, ap, sym, ◌∙◌, inl, inr, false, List, [], ◌∷◌, ◌++◌, Member, ==_self, ==_ne, Result,
  ok, ◌>>=◌, subst,
}
use bns_node.Relay.{
  MessageRelay, indexes_of, loops_back, loops_at, has_infinite_loop, has_repeat, validate, forward,
  report, origin_sender, last_hop,
}
use bns_node.Relay.Loops.{indexes_of-fresh, Member-reverse, reverse-snoc}

-- No node occurs twice.
abbrev pub IsDistinct : List ℕ → Type 0
IsDistinct [] = Unit
IsDistinct (x ∷ xs) = ¬ Member x xs × IsDistinct xs

Member-left : (v : ℕ) (xs ys : List ℕ) → Member v xs → Member v (xs ++ ys)
Member-left v [] ys m = absurd m
Member-left v (x ∷ xs) ys (inl e) = inl e
Member-left v (x ∷ xs) ys (inr m) = inr (Member-left v xs ys m)

Member-right : (v : ℕ) (xs ys : List ℕ) → Member v ys → Member v (xs ++ ys)
Member-right v [] ys m = m
Member-right v (x ∷ xs) ys m = inr (Member-right v xs ys m)

IsDistinct-left : (xs ys : List ℕ) → IsDistinct (xs ++ ys) → IsDistinct xs
IsDistinct-left [] ys h = tt
IsDistinct-left (x ∷ xs) ys h = ((λ m. h.0 (Member-left x xs ys m)), IsDistinct-left xs ys h.1)

IsDistinct-snoc : (xs : List ℕ) (y : ℕ) → IsDistinct (xs ++ y ∷ []) → ¬ Member y xs
IsDistinct-snoc [] y h m = absurd m
IsDistinct-snoc (x ∷ xs) y h (inl e) = h.0 (Member-right x xs (y ∷ []) (inl (sym e)))
IsDistinct-snoc (x ∷ xs) y h (inr m) = IsDistinct-snoc xs y h.1 m

-- A path that is not empty has a last node.
snoc_cases : (s : ℕ) (ps : List ℕ) → (us : List ℕ) × (y : ℕ) × (s ∷ ps ≡ us ++ y ∷ [])
snoc_cases s [] = ([], s, refl)
snoc_cases s (p ∷ ps) =
    let (us, y, e) = snoc_cases p ps in (s ∷ us, y, ap (λ (l : List ℕ). s ∷ l) e)

last_hop-snoc : (us : List ℕ) (y : ℕ) → last_hop (us ++ y ∷ []) ≡ ok y
last_hop-snoc [] y = refl
last_hop-snoc (u ∷ []) y = refl
last_hop-snoc (u ∷ w ∷ us) y = last_hop-snoc (w ∷ us) y

has_repeat-IsDistinct : (xs : List ℕ) → IsDistinct xs → has_repeat xs ≡ false
unfolding has_repeat
has_repeat-IsDistinct [] h = refl
has_repeat-IsDistinct (x ∷ []) h = refl
has_repeat-IsDistinct (x ∷ y ∷ xs) h =
    rw (==_ne x y (λ e. h.0 (inl e))) (has_repeat-IsDistinct (y ∷ xs) h.1)

loops_back-fresh : (y : ℕ) (ys : List ℕ) → ¬ Member y ys → loops_back (y ∷ ys) ≡ false
unfolding loops_back loops_at indexes_of
loops_back-fresh y ys h = rw (==_self y, indexes_of-fresh y 1 ys h) refl

-- A path of different nodes is accepted.
validate-IsDistinct :
    (self : MessageRelay) (s : ℕ) (ps : List ℕ)
    → self.path ≡ s ∷ ps
    → IsDistinct (s ∷ ps)
    → validate self self.next_hop ≡ ok tt
unfolding validate
validate-IsDistinct self s ps e h =
    rw (==_self self.next_hop, e, has_repeat-IsDistinct (s ∷ ps) h, straight (snoc_cases s ps)) refl
  where
    straight :
        (us : List ℕ) × (y : ℕ) × (s ∷ ps ≡ us ++ y ∷ []) → has_infinite_loop (s ∷ ps) ≡ false
    straight (us, y, q) =
        unfold has_infinite_loop in
        ap loops_back (ap reverse q ∙ reverse-snoc us y)
        ∙ loops_back-fresh y (reverse us)
            (λ m. IsDistinct-snoc us y (subst IsDistinct q h) (Member-reverse y us m))

-- The message goes on to the nodes of the list, one after the other.
unfoldable pub forward_all : MessageRelay → List ℕ → Result MessageRelay
forward_all self [] = ok self
forward_all self (hop ∷ hops) = forward self self.next_hop hop >>= λ next. forward_all next hops

forward_ok :
    (self : MessageRelay) (s hop : ℕ) (ps : List ℕ)
    → self.path ≡ s ∷ ps
    → IsDistinct (s ∷ ps)
    → forward self self.next_hop hop
      ≡ ok (record self { path = self.path ++ self.next_hop ∷ []; next_hop = hop })
unfolding forward
forward_ok self s hop ps e h = rw (validate-IsDistinct self s ps e h, ==_self self.next_hop) refl

report_ok :
    (self : MessageRelay) (s y : ℕ) (ps us : List ℕ)
    → self.path ≡ s ∷ ps
    → IsDistinct (s ∷ ps)
    → s ∷ ps ≡ us ++ y ∷ []
    → report self self.next_hop
      ≡ ok (record { path = self.next_hop ∷ []; next_hop = y; destination = s })
unfolding report origin_sender
report_ok self s y ps us e h q =
    let hop : last_hop (s ∷ ps) ≡ ok y = ap last_hop q ∙ last_hop-snoc us y in
    rw (validate-IsDistinct self s ps e h, e, hop) refl

-- A message that starts at a node and is relayed over different nodes arrives with the whole way
-- on its path and its destination unchanged, and the report of the node that it arrives at goes to
-- the node before it, with the node that sent the message first as its destination.
pub forward-report :
    (self : MessageRelay) (s : ℕ) (ps hops : List ℕ)
    → self.path ≡ s ∷ ps
    → IsDistinct ((s ∷ ps) ++ self.next_hop ∷ hops)
    → (t : MessageRelay) × (us : List ℕ) × (y : ℕ) × (forward_all self hops ≡ ok t)
      × (t.path ++ t.next_hop ∷ [] ≡ self.path ++ self.next_hop ∷ hops)
      × (t.destination ≡ self.destination)
      × (t.path ≡ us ++ y ∷ [])
      × (report t t.next_hop
          ≡ ok (record { path = t.next_hop ∷ []; next_hop = y; destination = s }))
unfolding forward_all
forward-report self s ps [] e h =
    let (us, y, q) = snoc_cases s ps in
    (
      self,
      us,
      y,
      refl,
      refl,
      refl,
      e ∙ q,
      report_ok self s y ps us e (IsDistinct-left (s ∷ ps) (self.next_hop ∷ []) h) q,
    )
forward-report self s ps (hop ∷ hops) e h =
    let here = self.next_hop in
    let moved : (s ∷ (ps ++ here ∷ [])) ++ hop ∷ hops ≡ (s ∷ ps) ++ here ∷ hop ∷ hops =
      append_assoc (s ∷ ps) (here ∷ []) (hop ∷ hops) in
    let next = record self { path = self.path ++ here ∷ []; next_hop = hop } in
    let (t, us, y, run, whole, to, last, back) =
      forward-report next s (ps ++ here ∷ []) hops (ap (λ (l : List ℕ). l ++ here ∷ []) e)
        (subst IsDistinct (sym moved) h) in
    (
      t,
      us,
      y,
      rw (forward_ok self s hop ps e (IsDistinct-left (s ∷ ps) (here ∷ hop ∷ hops) h)) run,
      whole ∙ append_assoc self.path (here ∷ []) (hop ∷ hops),
      to,
      last,
      back,
    )
