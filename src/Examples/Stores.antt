-- ===== src/Examples/Stores.antt =====
-- Tests of virtual nodes and of their storage.
use Prim.Native.String.{String}
use bns_node.Common.{
  ℕ, ◌<◌, ◌≤◌, ◌≡◌, refl, sym, ◌∙◌, List, [], ◌∷◌, ◌++◌, length, replicate, none, some, All,
  All-of_Member, Member, ok, err, Error, arith, subst,
}
use bns_node.Did.{sub}
use bns_node.Did.Rotate.{rotate_affine}
use bns_node.Did.Bias
use bns_node.Successor
use bns_node.Chord
use bns_node.Examples.Texts
use bns_node.VNode.{
  VirtualNode, VNodeType, data_type, VNodeOperation, extend, join_subring, max_len, contains,
  extend_with, touch_with, gen_did, new_subring, from_subring, gen_default_vnode, operate,
}
use bns_node.VNode.Data.{keep_last, kept, extend_with_lem, extend_with_overlong, touch_with_lem}
use bns_node.VNode.Subrings.{join_stored_subring}
use bns_node.Examples.Tables.{memory, memory-IsStorage, view_lem}
use bns_node.Connections.Entries.{lookup, IsUnique}
use bns_node.Action.{PeerRingAction, some_did, some_vnode}
use bns_node.Chord.{PeerRing, new_with_storage, find_successor}
use bns_node.Chord.Vnodes.{vnode_operate, vnode_lookup, sync_action, sync_vnode_with_successor}
use bns_node.Chord.Vnodes.Loop.{IsData, extending, makes, entry}
use bns_node.Chord.Vnodes.RoundTrip.{operate-lookup}
use bns_node.Chord.Sync.{HasKey, sync-IsSplit}
use bns_node.Examples.{Store, node, node-IsValid}
use bns_node.Examples.Texts.{external, external-IsParsed}

abbrev kind : VNodeType
kind = data_type

abbrev old : VirtualNode
old = record { did = 15; entries = "a" ∷ "b" ∷ "c" ∷ []; kind = kind }

abbrev added : VirtualNode
added = record { did = 15; entries = "b" ∷ "d" ∷ []; kind = kind }

abbrev flood : VirtualNode
flood = record { did = 15; entries = replicate 1025 "x"; kind = kind }

abbrev operation : VNodeOperation
operation = extend added

touch_test : touch_with old added ≡ ok (record old { entries = "a" ∷ "c" ∷ "b" ∷ "d" ∷ [] })
unfolding touch_with contains
touch_test = refl

extend_with_lem_example :
    (extend_with old added
      ≡ ok (record old { entries = keep_last max_len (old.entries ++ added.entries) }))
    × (length (keep_last max_len (old.entries ++ added.entries)) ≤ max_len)
extend_with_lem_example = extend_with_lem old added refl refl refl (omega arith)

extend_with_overlong_example : extend_with old flood ≡ ok (record old { entries = flood.entries })
extend_with_overlong_example = extend_with_overlong old flood refl refl refl (omega arith)

touch_with_lem_example :
    (r : VirtualNode) × (touch_with old added ≡ ok r)
    × (r.entries ≡ kept old added ++ added.entries)
    × ((e : String) → Member e (kept old added) → ¬ Member e added.entries)
    × (touch_with r added ≡ ok r)
touch_with_lem_example = touch_with_lem old added refl refl refl

abbrev extended : VirtualNode
extended = record old { entries = "a" ∷ "b" ∷ "c" ∷ "b" ∷ "d" ∷ [] }

abbrev stored : VirtualNode
stored = record { did = 0; entries = "{}" ∷ []; kind = VNodeType.subring }

made : gen_default_vnode external (join_subring "ring" 10) ≡ ok stored
unfolding gen_default_vnode external gen_did new_subring from_subring
made = refl

join_stored_subring_example :
    operate external stored (join_subring "ring" 20) ≡ err Error.decode_failed
join_stored_subring_example =
    join_stored_subring external "ring" 10 20 stored (λ r text e. unfold external in refl) made

nothing : (key : String) → memory-IsStorage.view node.storage key ≡ none
nothing key = view_lem node.storage key tt ∙ (unfold lookup in refl)

empty_entries :
    (l : List ℕ)
    → rotate_affine 15 6 ≡ some l
    → All (λ k. IsData 15 (entry external memory memory-IsStorage node.storage k)) l
empty_entries l e =
    All-of_Member (λ k. IsData 15 (entry external memory memory-IsStorage node.storage k)) l
      λ k m. subst (IsData 15) (sym (nothing (external.did_to_string k))) tt

near : find_successor node 15 ≡ ok (some_did 20)
unfolding find_successor Successor.min_succ Bias.le Chord.bias sub
near = refl

operate-lookup_example :
    (s : Store) × (act : PeerRingAction) × (vnode_operate external memory 6 node operation
      ≡ (record node { storage = s }, ok act))
    × ((w : VirtualNode) × (makes external operation
            (entry external memory memory-IsStorage node.storage added.did)
          ≡ ok w)
        × (vnode_lookup external memory 6 (record node { storage = s }) added.did
            ≡ ok (some_vnode w)))
operate-lookup_example =
    operate-lookup external memory memory-IsStorage node added operation 6 20 external-IsParsed
      extending refl (omega arith) (omega arith) (omega arith) node-IsValid tt empty_entries near

-- An entry before the new successor and one beyond it.
abbrev full : PeerRing Store
full = record node {
  storage = (external.did_to_string 15, added) ∷ (external.did_to_string 40, old) ∷ [];
}

unique : IsUnique full.storage
unfolding lookup external Texts.spell
unique = (refl, (refl, tt))

keys :
    (key : String) (v : VirtualNode)
    → memory-IsStorage.view full.storage key ≡ some v
    → HasKey external (key, v)
keys key v e = unfold external in (_, refl)

sync-IsSplit_example :
    (t : Store) × (vs : List VirtualNode) × (sync_vnode_with_successor external memory full 20
      ≡ (record full { storage = t }, ok (sync_action 20 vs)))
    × IsUnique t
    × ((key : String) (d : ℕ)
        → external.did_from_str key ≡ some d
        → sub d full.did ≤ sub 20 full.did
        → memory-IsStorage.view t key ≡ memory-IsStorage.view full.storage key)
    × ((key : String) (v : VirtualNode) (d : ℕ)
        → memory-IsStorage.view full.storage key ≡ some v
        → external.did_from_str key ≡ some d
        → sub 20 full.did < sub d full.did
        → (memory-IsStorage.view t key ≡ none) × Member v vs)
    × ((v : VirtualNode)
        → Member v vs
        → (key : String) × (d : ℕ) × (memory-IsStorage.view full.storage key ≡ some v)
          × (external.did_from_str key ≡ some d)
          × (sub 20 full.did < sub d full.did))
sync-IsSplit_example = sync-IsSplit external memory memory-IsStorage 20 full unique keys
