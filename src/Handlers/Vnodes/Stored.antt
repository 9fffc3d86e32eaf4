-- ===== src/Handlers/Vnodes/Stored.antt =====
-- Storing and fetching on the node that answers for an identifier.
use text.Mathlib.TextPositions.{eq_refl}
use bns_node.Common.{ℕ, ◌≡◌, refl, ◌∙◌, some, ok}
use bns_node.Did.{IsDid}
use bns_node.Did.Rotate.{rotate_affine_one}
use bns_node.Effect.{continue}
use bns_node.VNode.{VirtualNode, data_type, VNodeOperation}
use bns_node.Storage.{IsStorage}
use bns_node.Action.{some_did, none_action, some_vnode}
use bns_node.Chord.{PeerRing, find_successor}
use bns_node.Chord.Vnodes.{
  vnode_operate, vnode_lookup, operate_loop, operate_at, write_back, proceed, lookup_loop, look_at,
  found, local_cache_put, local_cache_get,
}
use bns_node.Chord.Vnodes.Loop.{IsOn, IsData, makes, makes_lem, entry, find_successor-storage}
use bns_node.Chord.Vnodes.RoundTrip.{did_of}
use bns_node.Swarm.{Env, SwarmTransport, put_dht}
use bns_node.Handlers.Vnodes.{
  operate_and_store, storage_fetch, storage_check_cache, handle_storage_store_act,
  handle_storage_fetch_act,
}

abbrev pub stored : {S T : Type 0} → SwarmTransport S T → S → SwarmTransport S T
stored w s = record w { dht = record w.dht { storage = s } }

module _ {S T C : Type 0} (env : Env S T C) {Good : S → Type 0} (st : IsStorage env.kv Good) where
  operated_once :
      (r : PeerRing S) (v : VirtualNode) (op : VNodeOperation) (h : ℕ) (m : VirtualNode)
      → IsOn v op
      → IsDid v.did
      → Good r.storage
      → find_successor r v.did ≡ ok (some_did h)
      → makes env.ext op (entry env.ext env.kv st r.storage v.did) ≡ ok m
      → vnode_operate env.ext env.kv 1 r op ≡ (
        record r { storage = (env.kv.put r.storage (env.ext.did_to_string v.did) m).0 },
        ok none_action,
      )
  unfolding vnode_operate operate_loop operate_at write_back proceed
  operated_once r v op h m on own good near made =
      rw
        (
          vnode_operate,
          did_of env.ext v op on,
          rotate_affine_one v.did own,
          near,
          st.get-view r.storage (env.ext.did_to_string v.did) good,
          made,
          st.put-ok r.storage (env.ext.did_to_string v.did) m good,
        )
        refl

  stored_at :
      (w : SwarmTransport S T) (v : VirtualNode) (op : VNodeOperation) (h : ℕ) (m : VirtualNode)
      → IsOn v op
      → IsDid v.did
      → Good w.dht.storage
      → find_successor w.dht v.did ≡ ok (some_did h)
      → makes env.ext op (entry env.ext env.kv st w.dht.storage v.did) ≡ ok m
      → operate_and_store env 1 op w
        ≡ (stored w (env.kv.put w.dht.storage (env.ext.did_to_string v.did) m).0, ok tt)
  unfolding operate_and_store handle_storage_store_act continue put_dht
  stored_at w v op h m on own good near made =
      rw (operated_once w.dht v op h m on own good near made) refl

  looked_up :
      (r : PeerRing S) (vid h : ℕ) (m : VirtualNode)
      → IsDid vid
      → Good r.storage
      → find_successor r vid ≡ ok (some_did h)
      → entry env.ext env.kv st r.storage vid ≡ some m
      → vnode_lookup env.ext env.kv 1 r vid ≡ ok (some_vnode m)
  unfolding vnode_lookup lookup_loop look_at found
  looked_up r vid h m own good near at =
      rw
        (
          vnode_lookup,
          rotate_affine_one vid own,
          near,
          st.get-view r.storage (env.ext.did_to_string vid) good,
          at,
        )
        refl

  fetched_at :
      (w : SwarmTransport S T) (vid h : ℕ) (m : VirtualNode)
      → IsDid vid
      → Good w.dht.storage
      → Good w.dht.cache
      → find_successor w.dht vid ≡ ok (some_did h)
      → entry env.ext env.kv st w.dht.storage vid ≡ some m
      → storage_fetch env 1 vid w ≡ (
        record w {
          dht = record w.dht { cache = (env.kv.put w.dht.cache (env.ext.did_to_string m.did) m).0 };
        },
        ok tt,
      )
  unfolding storage_fetch handle_storage_fetch_act local_cache_put continue put_dht
  fetched_at w vid h m own good fresh near at =
      rw
        (
          looked_up w.dht vid h m own good near at,
          st.put-ok w.dht.cache (env.ext.did_to_string m.did) m fresh,
        )
        refl

  -- Take a well-formed node that answers for the identifier of a virtual node of data, whose storage
  -- and cache work, and which stores nothing but data of that identifier under its key. Storing the
  -- virtual node once, extending or touching what is stored by it, then fetching the identifier, both
  -- end well and send nothing; what the cache then gives for the identifier is what the operation
  -- makes of what was stored before, or of an empty node.
  pub operate_and_store-fetch :
      (w : SwarmTransport S T) (v : VirtualNode) (op : VNodeOperation) (h : ℕ)
      → IsOn v op
      → v.kind ≡ data_type
      → IsDid v.did
      → Good w.dht.storage
      → Good w.dht.cache
      → IsData v.did (entry env.ext env.kv st w.dht.storage v.did)
      → find_successor w.dht v.did ≡ ok (some_did h)
      → (s : S) × (c : S) × (m : VirtualNode) × (makes env.ext op
            (entry env.ext env.kv st w.dht.storage v.did)
          ≡ ok m)
        × (operate_and_store env 1 op w ≡ (stored w s, ok tt))
        × (storage_fetch env 1 v.did (stored w s)
            ≡ (record w { dht = record w.dht { storage = s; cache = c } }, ok tt))
        × (storage_check_cache env
              (record w { dht = record w.dht { storage = s; cache = c } })
              v.did
            ≡ some m)
  unfolding storage_check_cache local_cache_get
  operate_and_store-fetch w v op h on kind own good fresh known near =
      let (m, made, same) =
        makes_lem env.ext v op (entry env.ext env.kv st w.dht.storage v.did) on kind known in
      let key = env.ext.did_to_string v.did in
      let s = (env.kv.put w.dht.storage key m).0 in
      let c = (env.kv.put w.dht.cache (env.ext.did_to_string m.did) m).0 in
      let here : entry env.ext env.kv st s v.did ≡ some m =
        rw (st.view-put w.dht.storage key key m good, eq_refl key) refl in
      (
        s,
        c,
        m,
        made,
        stored_at w v op h m on own good near made,
        fetched_at (stored w s) v.did h m own (st.put-Good w.dht.storage key m good) fresh
            (find_successor-storage env.ext env.kv st w.dht s v.did ∙ near) here,
        rw
            (
              st.get-view c key (st.put-Good w.dht.cache (env.ext.did_to_string m.did) m fresh),
              st.view-put w.dht.cache (env.ext.did_to_string m.did) key m fresh,
              same.0,
              eq_refl key,
            )
            refl,
      )
