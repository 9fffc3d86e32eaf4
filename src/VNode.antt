-- ===== src/VNode.antt =====
-- crates/core/src/dht/vnode.rs and the conversions of subring.rs: virtual nodes, the units that
-- the ring stores, and the operations on them. An `Encoded` is the text that it wraps. Lengths
-- are usize, and their sums stay below 2 ^ 63, so that the casts to i64 change nothing.
pub mod Data
pub mod Laws
pub mod Subrings
use Prim.Native.String.{String}
use text.Mathlib.Text.{◌==◌ as str_eq}
use bns_node.Common.{
  ℕ, ◌+◌, ◌-◌, ◌%◌, ◌^◌, Bool, true, false, not, ◌||◌, Option, none, some, List, [], ◌∷◌, ◌++◌, map,
  length, drop, ◌==◌, if◌then◌else◌, Result, ok, err, panic, ◌>>=◌, Error,
}
use bns_node.Did.{from_biguint}
use bns_node.Did.Rotate.{rotate_affine}
use bns_node.Finger
use bns_node.Subring.{Subring, External}

pub data VNodeType : Type 0 where
  data_type subring relay_message : VNodeType

abbrev pub kind_eq : VNodeType → VNodeType → Bool
kind_eq data_type data_type = true
kind_eq subring subring = true
kind_eq relay_message relay_message = true
kind_eq _ _ = false

pub record VirtualNode : Type 0 where
  pub did : ℕ
  pub entries : List String
  pub kind : VNodeType

pub data VNodeOperation : Type 0 where
  overwrite extend touch : VirtualNode → VNodeOperation
  join_subring : String → ℕ → VNodeOperation

-- VNodeOperation::kind
abbrev pub kind : VNodeOperation → VNodeType
kind (overwrite v) = v.kind
kind (extend v) = v.kind
kind (touch v) = v.kind
kind (join_subring name d) = subring

abbrev pub max_len : ℕ
max_len = 1024

unfoldable pub contains : List String → String → Bool
contains [] e = false
contains (x ∷ xs) e = str_eq x e || contains xs e

-- The entries that are not among `others`.
unfoldable pub remains : List String → List String → List String
remains others [] = []
remains others (e ∷ es) =
    let rest = remains others es in if contains others e then rest else e ∷ rest

module _ (x : External) where
  unfoldable pub gen_did : String → Result ℕ
  gen_did topic = elim (x.did_from_str (x.hash_str topic)) [
    | none ↦ err Error.bad_c_hex_in_cache
    | some d ↦ ok d
  ]

  -- VNodeOperation::did
  unfoldable pub did : VNodeOperation → Result ℕ
  did (overwrite v) = ok v.did
  did (extend v) = ok v.did
  did (touch v) = ok v.did
  did (join_subring name d) = gen_did name

  -- Subring::new
  unfoldable pub new_subring : String → ℕ → Result Subring
  new_subring name creator = do
    d ← gen_did name
    ok (record { name = name; finger = Finger.new d 1; creator = creator })

  store_subring : Subring → Option String → Result VirtualNode
  store_subring ring none = err Error.serialize_to_string
  store_subring ring (some text) = do
    d ← gen_did ring.name
    ok (record { did = d; entries = text ∷ []; kind = subring })

  -- TryFrom<Subring> for VirtualNode
  unfoldable pub from_subring : Subring → Result VirtualNode
  unfolding store_subring
  from_subring ring = store_subring ring (x.to_json ring)

  parse_subring : List String → Result Subring
  parse_subring [] = panic
  parse_subring (e ∷ es) = elim (x.b58_decode e) [
    | none ↦ err Error.decode_failed
    | some text ↦ elim (x.from_json text) [ none ↦ err Error.deserialize | some r ↦ ok r ]
  ]

  -- TryFrom<VirtualNode> for Subring
  unfoldable pub to_subring : VirtualNode → Result Subring
  unfolding parse_subring
  to_subring v =
      if kind_eq v.kind subring then parse_subring v.entries else err Error.invalid_vnode_type

  unfoldable pub gen_default_vnode : VNodeOperation → Result VirtualNode
  gen_default_vnode (join_subring name d) = new_subring name d >>= λ r. from_subring r
  gen_default_vnode (overwrite v) = ok (record { did = v.did; entries = []; kind = v.kind })
  gen_default_vnode (extend v) = ok (record { did = v.did; entries = []; kind = v.kind })
  gen_default_vnode (touch v) = ok (record { did = v.did; entries = []; kind = v.kind })

  -- TryFrom<(String, Encoded)> for VirtualNode
  unfoldable pub from_topic : String → String → Result VirtualNode
  from_topic topic e = do
    d ← gen_did topic
    ok (record { did = d; entries = e ∷ []; kind = data_type })

  -- TryFrom<(String, String)> for VirtualNode
  unfoldable pub from_topic_text : String → String → Result VirtualNode
  from_topic_text topic s = elim (x.b58_encode s) [
    | none ↦ err Error.encode_failed
    | some e ↦ from_topic topic e
  ]

  -- TryFrom<String> for VirtualNode
  unfoldable pub from_text : String → Result VirtualNode
  from_text topic = from_topic_text topic topic

-- TryFrom<MessagePayload> for VirtualNode, of the signer and the encoded payload.
unfoldable pub from_payload : ℕ → Result String → Result VirtualNode
from_payload signer encoded = do
  e ← encoded
  ok (record { did = from_biguint (signer + 1); entries = e ∷ []; kind = relay_message })

unfoldable pub clone_with_did : VirtualNode → ℕ → VirtualNode
clone_with_did v d = record v { did = d }

-- `none` is the panic of a division by the scalar 0.
unfoldable pub affine : VirtualNode → ℕ → Option (List VirtualNode)
unfolding clone_with_did
affine v scalar = elim (rotate_affine v.did scalar) [
  | none ↦ none
  | some ds ↦ some (map (clone_with_did v) ds)
]

-- The three tests that the operations on data share, with the error of the first.
unfoldable pub check_data : Error → VirtualNode → VirtualNode → VirtualNode → Result VirtualNode
check_data e self other result =
    if not (kind_eq self.kind data_type)
    then err e
    else if not (kind_eq self.kind other.kind)
    then err Error.vnode_kind_not_equal
    else if not (self.did == other.did)
    then err Error.vnode_did_not_equal
    else ok result

unfoldable pub overwrite_with : VirtualNode → VirtualNode → Result VirtualNode
unfolding check_data
overwrite_with self other = check_data Error.vnode_not_overwritable self other other

-- The oldest entries give way, so that the list has at most `max_len`, if the new ones have.
abbrev pub trimmed : List String → List String → List String
trimmed old added = drop (length old + length added - max_len) old ++ added

unfoldable pub extend_with : VirtualNode → VirtualNode → Result VirtualNode
unfolding check_data
extend_with self other =
    check_data Error.vnode_not_appendable self other
      (record self { entries = trimmed self.entries other.entries })

unfoldable pub touch_with : VirtualNode → VirtualNode → Result VirtualNode
unfolding check_data remains
touch_with self other =
    check_data Error.vnode_not_appendable self other
      (record self { entries = trimmed (remains other.entries self.entries) other.entries })

unfoldable pub join_subring_with : External → VirtualNode → ℕ → Result VirtualNode
join_subring_with x self d =
    if not (kind_eq self.kind subring) then err Error.vnode_not_joinable else do
      r ← to_subring x self
      f ← Finger.join r.finger d
      from_subring x (record r { finger = f })

unfoldable pub operate : External → VirtualNode → VNodeOperation → Result VirtualNode
unfolding overwrite_with extend_with touch_with join_subring_with
operate x self (overwrite v) = overwrite_with self v
operate x self (extend v) = extend_with self v
operate x self (touch v) = touch_with self v
operate x self (join_subring name d) = join_subring_with x self d
