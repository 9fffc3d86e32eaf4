-- ===== src/Connections/Entries.antt =====
-- The entries of a concurrent map, as an association list with one entry to a key; the order of its
-- entries is that of the last writes.
use Prim.Native.String.{String}
use text.Mathlib.Text.{◌==◌ as str_eq}
use text.Mathlib.TextEquality.{eq_iff}
use text.Mathlib.TextPositions.{eq_refl}
use bns_node.Common.{
  ◌≡◌, ap, inl, inr, Option, none, some, List, [], ◌∷◌, Member, arith, if◌then◌else◌, Bool-cases,
}

module _ {V : Type 0} where
  unfoldable pub lookup : String → List (String × V) → Option V
  lookup k [] = none
  lookup k ((j, v) ∷ m) = if str_eq j k then some v else lookup k m

  pub without : String → List (String × V) → List (String × V)
  without k [] = []
  without k ((j, v) ∷ m) = let rest = without k m in if str_eq j k then rest else (j, v) ∷ rest

  -- No key occurs twice.
  abbrev pub IsUnique : List (String × V) → Type 0
  IsUnique [] = Unit
  IsUnique ((k, v) ∷ m) = (lookup k m ≡ none) × IsUnique m

  pub lookup-without :
      (k j : String) (m : List (String × V))
      → lookup j (without k m) ≡ (if str_eq k j then none else lookup j m)
  unfolding lookup without
  lookup-without k j [] = ground arith
  lookup-without k j ((i, v) ∷ m) =
      ground (arith, lookup-without k j m, eq_iff i k, eq_iff i j, eq_iff k j)

  pub without-IsUnique : (k : String) (m : List (String × V)) → IsUnique m → IsUnique (without k m)
  unfolding without
  without-IsUnique k [] h = tt
  without-IsUnique k ((j, v) ∷ m) h = elim (Bool-cases (str_eq j k)) [
    | inl e ↦ rw e (without-IsUnique k m h.1)
    | inr e ↦ rw e (ground (arith, lookup-without k j m, h.0), without-IsUnique k m h.1)
  ]

  pub lookup-Member :
      (k : String) (v : V) (m : List (String × V)) → lookup k m ≡ some v → Member (k, v) m
  unfolding lookup
  lookup-Member k v [] h = cc
  lookup-Member k v ((j, w) ∷ m) h = elim (Bool-cases (str_eq j k)) [
    | inl e ↦ inl (ground (arith, eq_iff j k))
    | inr e ↦ inr (lookup-Member k v m (ground arith))
  ]

  pub Member-lookup :
      (k : String) (v : V) (m : List (String × V))
      → IsUnique m
      → Member (k, v) m
      → lookup k m ≡ some v
  unfolding lookup
  Member-lookup k v [] u h = absurd h
  Member-lookup k v ((j, w) ∷ m) u (inl e) =
      ground (arith, eq_iff j k, ap (λ (p : String × V). p.0) e, ap (λ (p : String × V). p.1) e)
  Member-lookup k v ((j, w) ∷ m) u (inr h) =
      ground (arith, eq_iff j k, u.0, Member-lookup k v m u.1 h)

  pub put-IsUnique :
      (k : String) (v : V) (m : List (String × V)) → IsUnique m → IsUnique ((k, v) ∷ without k m)
  put-IsUnique k v m u = (rw lookup-without (ground (arith, eq_refl k)), without-IsUnique k m u)
