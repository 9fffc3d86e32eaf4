-- ===== src/VNode/Subrings.antt =====
-- Joining a subring that is stored as a virtual node.
use Prim.Native.String.{String}
use bns_node.Common.{
  ℕ, ◌≡◌, refl, arith, Option, none, some, [], ◌∷◌, Result, ok, err, panic, Error, >>=-eq-ok, ◌>>=◌,
}
use bns_node.Subring.{Subring, External}
use bns_node.VNode.{
  VirtualNode, join_subring, subring, gen_did, new_subring, from_subring, store_subring, to_subring,
  parse_subring, gen_default_vnode, operate,
}

-- The node that a subring is turned into has the kind and the one JSON entry.
store_subring-eq-ok :
    (x : External) (r : Subring) (json : Option String) (v : VirtualNode)
    → store_subring x r json ≡ ok v
    → (text : String) × (json ≡ some text) × (v.kind ≡ subring) × (v.entries ≡ text ∷ [])
unfolding store_subring
store_subring-eq-ok x r none v made = absurd (cc)
store_subring-eq-ok x r (some text) v made = go (gen_did x r.name) made
  where
    go :
        (m : Result ℕ)
        → (m >>= λ d. ok (record { did = d; entries = text ∷ []; kind = subring })) ≡ ok v
        → (t : String) × (some text ≡ some t) × (v.kind ≡ subring) × (v.entries ≡ t ∷ [])
    go (ok d) e = (text, refl, ground arith, ground arith)
    go (err e') e = absurd (cc)
    go panic e = absurd (cc)

-- A subring is stored as plain JSON, and is read as base58. If base58 with a checksum accepts no
-- JSON text of a subring, which starts with a brace, then no node that was created for joining a
-- subring can be joined: the operation ends in an error of decoding.
pub join_stored_subring :
    (x : External) (name : String) (creator d : ℕ) (v : VirtualNode)
    → ((r : Subring) (text : String) → x.to_json r ≡ some text → x.b58_decode text ≡ none)
    → gen_default_vnode x (join_subring name creator) ≡ ok v
    → operate x v (join_subring name d) ≡ err Error.decode_failed
unfolding gen_default_vnode operate to_subring from_subring
join_stored_subring x name creator d v no_json made =
    go (>>=-eq-ok (new_subring x name creator) (from_subring x) made)
  where
    go :
        (r : Subring) × (new_subring x name creator ≡ ok r) × (from_subring x r ≡ ok v)
        → operate x v (join_subring name d) ≡ err Error.decode_failed
    go (r, e, eq) = decoded r (store_subring-eq-ok x r (x.to_json r) v eq)
      where
        decoded :
            (r : Subring)
            → (text : String) × (x.to_json r ≡ some text)
              × (v.kind ≡ subring)
              × (v.entries ≡ text ∷ [])
            → operate x v (join_subring name d) ≡ err Error.decode_failed
        decoded r (text, json, kind, entries) =
            rw (kind, entries, no_json r text json, parse_subring)
