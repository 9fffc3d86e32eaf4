-- ===== src/Effect/Keeps.antt =====
-- What holds of the state before an effect and still holds after it, however the effect ends.
use bns_node.Common.{
  Bool, true, false, if◌then◌else◌, List, [], ◌∷◌, All, Option, none, some, Result, ok, err, panic,
  Error,
}
use bns_node.Effect.{Effect, continue, ◌>>=◌, caught, attempt, unwrapped, unwrap, or_fail, for_each}

pub record Keeps {W A : Type 0} (Inv : W → Type 0) (m : Effect W A) : Type 0 where
  pub keeps : (w : W) → Inv w → Inv (m w).0

branch-Inv :
    {W A : Type 0} (Inv : W → Type 0) (b : Bool) (p q : W × Result A)
    → Inv p.0
    → Inv q.0
    → Inv (if b then p else q).0
branch-Inv Inv true p q i j = i
branch-Inv Inv false p q i j = j

caught-Inv : {W A : Type 0} (Inv : W → Type 0) (p : W × Result A) → Inv p.0 → Inv (caught p).0
unfolding caught
caught-Inv Inv (w, ok a) i = i
caught-Inv Inv (w, err e) i = i
caught-Inv Inv (w, panic) i = i

unwrapped-Inv : {W A : Type 0} (Inv : W → Type 0) (p : W × Result A) → Inv p.0 → Inv (unwrapped p).0
unfolding unwrapped
unwrapped-Inv Inv (w, ok a) i = i
unwrapped-Inv Inv (w, err e) i = i
unwrapped-Inv Inv (w, panic) i = i

module _ {W : Type 0} {Inv : W → Type 0} where
  continue-Inv :
      {A B : Type 0} (p : W × Result A) (next : A → Effect W B)
      → Inv p.0
      → ((a : A) → Keeps Inv (next a))
      → Inv (continue p next).0
  unfolding continue
  continue-Inv (w, ok a) next i k = (k a).keeps w i
  continue-Inv (w, err e) next i k = i
  continue-Inv (w, panic) next i k = i

  -- What leaves the state alone.
  pub same-Keeps : {A : Type 0} {f : W → Result A} → Keeps Inv (λ w. (w, f w))
  same-Keeps = record { keeps = λ w i. i }

  pub or_fail-Keeps : {A : Type 0} (o : Option A) (e : Error) → Keeps Inv (or_fail o e)
  or_fail-Keeps none e = record { keeps = λ w i. i }
  or_fail-Keeps (some a) e = record { keeps = λ w i. i }

  pub then-Keeps :
      {A B : Type 0} {m : Effect W A} {next : A → Effect W B}
      → Keeps Inv m
      → ((a : A) → Keeps Inv (next a))
      → Keeps Inv (m >>= next)
  then-Keeps {m} {next} k h = record { keeps = λ w i. continue-Inv (m w) next (k.keeps w i) h }

  pub attempt-Keeps : {A : Type 0} {m : Effect W A} → Keeps Inv m → Keeps Inv (attempt m)
  attempt-Keeps {m} k = record { keeps = λ w i. caught-Inv Inv (m w) (k.keeps w i) }

  pub unwrap-Keeps : {A : Type 0} {m : Effect W A} → Keeps Inv m → Keeps Inv (unwrap m)
  unwrap-Keeps {m} k = record { keeps = λ w i. unwrapped-Inv Inv (m w) (k.keeps w i) }

  pub for_each-Keeps {ℓ κ} :
      {A : Type ℓ} (P : A → Type κ) (body : A → Effect W (Unit {0})) (xs : List A)
      → ((x : A) → P x → Keeps Inv (body x))
      → All P xs
      → Keeps Inv (for_each xs body)
  unfolding for_each
  for_each-Keeps P body [] k h = record { keeps = λ w i. i }
  for_each-Keeps P body (x ∷ xs) k h = record {
    keeps = λ w i.
        continue-Inv (body x w) (λ u. for_each xs body) ((k x h.0).keeps w i)
          (λ u. for_each-Keeps P body xs k h.1);
  }

  -- An effect that is chosen by looking at the state.
  pub here-Keeps :
      {A : Type 0} {m : W → Effect W A} → ((w : W) → Keeps Inv (m w)) → Keeps Inv (λ w. m w w)
  here-Keeps k = record { keeps = λ w i. (k w).keeps w i }

  -- A choice by a test of the state, or by one that is known.
  pub test-Keeps :
      {A : Type 0} (b : W → Bool) {m n : Effect W A}
      → Keeps Inv m
      → Keeps Inv n
      → Keeps Inv (λ w. if b w then m w else n w)
  test-Keeps b {m} {n} k h = record {
    keeps = λ w i. branch-Inv Inv (b w) (m w) (n w) (k.keeps w i) (h.keeps w i);
  }

  pub if-Keeps :
      {A : Type 0} (b : Bool) {m n : Effect W A}
      → Keeps Inv m
      → Keeps Inv n
      → Keeps Inv (if b then m else n)
  if-Keeps true k h = k
  if-Keeps false k h = h
