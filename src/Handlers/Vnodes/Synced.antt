-- ===== src/Handlers/Vnodes/Synced.antt =====
-- What a node does with the virtual nodes that another one has handed over.
use bns_node.Common.{ℕ, ◌≡◌, ◌≢◌, refl, Option, none, some, List, [], ◌∷◌, ok, err, Error}
use bns_node.Did.{IsDid}
use bns_node.Did.Rotate.{rotate_affine_one}
use bns_node.Effect.{continue, for_each}
use bns_node.Subring.{External}
use bns_node.VNode.{
  VirtualNode, VNodeType, data_type, subring, relay_message, overwrite, gen_default_vnode, operate,
  overwrite_with, check_data,
}
use bns_node.Storage.{IsStorage}
use bns_node.Action.{some_did}
use bns_node.Chord.{PeerRing, find_successor}
use bns_node.Chord.Vnodes.{vnode_operate, operate_loop, operate_at, write_back, proceed}
use bns_node.Chord.Vnodes.Loop.{overwriting, makes, entry}
use bns_node.Chord.Vnodes.RoundTrip.{did_of}
use bns_node.Swarm.{Env, SwarmTransport, put_dht}
use bns_node.Handlers.Vnodes.{operate_and_store, handle_sync_vnode_with_successor}

-- Nothing but data is overwritten or overwrites.
overwrite_refused :
    (self v : VirtualNode) → v.kind ≢ data_type → (e : Error) × (overwrite_with self v ≡ err e)
unfolding overwrite_with check_data
overwrite_refused self v ne = by_kind self.kind v.kind refl refl
  where
    by_kind :
        (a b : VNodeType)
        → self.kind ≡ a
        → v.kind ≡ b
        → (e : Error) × (overwrite_with self v ≡ err e)
    by_kind data_type data_type p q = absurd (ne q)
    by_kind data_type subring p q = (Error.vnode_kind_not_equal, rw (p, q) refl)
    by_kind data_type relay_message p q = (Error.vnode_kind_not_equal, rw (p, q) refl)
    by_kind subring b p q = (Error.vnode_not_overwritable, rw p refl)
    by_kind relay_message b p q = (Error.vnode_not_overwritable, rw p refl)

makes_refused :
    (env : External) (v : VirtualNode) (o : Option VirtualNode)
    → v.kind ≢ data_type
    → (e : Error) × (makes env (overwrite v) o ≡ err e)
unfolding operate gen_default_vnode
makes_refused env v none ne =
    overwrite_refused (record { did = v.did; entries = []; kind = v.kind }) v ne
makes_refused env v (some this) ne = overwrite_refused this v ne

module _ {S T C : Type 0} (env : Env S T C) {Good : S → Type 0} (st : IsStorage env.kv Good) where
  operate_refused :
      (r : PeerRing S) (v : VirtualNode) (h : ℕ) (e : Error)
      → IsDid v.did
      → Good r.storage
      → find_successor r v.did ≡ ok (some_did h)
      → makes env.ext (overwrite v) (entry env.ext env.kv st r.storage v.did) ≡ err e
      → vnode_operate env.ext env.kv 1 r (overwrite v) ≡ (r, err e)
  unfolding vnode_operate operate_loop operate_at write_back proceed
  operate_refused r v h e own good near refused =
      rw
        (
          vnode_operate,
          did_of env.ext v (overwrite v) overwriting,
          rotate_affine_one v.did own,
          near,
          st.get-view r.storage (env.ext.did_to_string v.did) good,
          refused,
        )
        refl

  -- A node that is handed virtual nodes, the first of which is not one of data (a subring, or a
  -- message kept for another node) and is one that it answers for, on a storage that works, stores
  -- none of them: the handler returns with an error before it has changed anything.
  pub handle_sync_refused :
      (w : SwarmTransport S T) (v : VirtualNode) (vs : List VirtualNode) (h : ℕ)
      → v.kind ≢ data_type
      → IsDid v.did
      → Good w.dht.storage
      → find_successor w.dht v.did ≡ ok (some_did h)
      → (e : Error) × (handle_sync_vnode_with_successor env (v ∷ vs) w ≡ (w, err e))
  unfolding handle_sync_vnode_with_successor operate_and_store for_each continue put_dht
  handle_sync_refused w v vs h ne own good near =
      let (e, refused) = makes_refused env.ext v (entry env.ext env.kv st w.dht.storage v.did) ne in
      (e, rw (operate_refused w.dht v h e own good near refused) refl)
