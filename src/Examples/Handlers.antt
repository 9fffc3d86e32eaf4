-- ===== src/Examples/Handlers.antt =====
-- Tests of the messages that one node handles.

use bns_node.Common.{
  ℕ, ◌^◌, ◌≤◌, ◌≡◌, ◌≢◌, refl, sym, ◌∙◌, ◌⊎◌, true, false, ◌==◌, List, [], ◌∷◌, take, length, subst,
  Option, none, some, Member, ok, err, panic, Error, arith,
}
use bns_node.Did.{sub}
use bns_node.Did.Bias
use bns_node.Effect.{unwrap, discard, logged}
use bns_node.Successor
use bns_node.Successor.{SuccessorSeq}
use bns_node.Successor.Nearest.{IsNearest}
use bns_node.VNode.{VirtualNode, VNodeType, data_type, VNodeOperation, extend}
use bns_node.Examples.Tables.{memory, memory-IsStorage, view_lem}
use bns_node.Connections.Entries.{lookup}
use bns_node.Action.{some_did}
use bns_node.Chord
use bns_node.Chord.{PeerRing, find_successor, fix_fingers}
use bns_node.Chord.Ring.{IsValid}
use bns_node.Chord.Fix.{next_index}
use bns_node.Chord.Vnodes.Loop.{extending, IsData, makes, entry}
use bns_node.Message.{Message, QueryFor}
use bns_node.Payload.{MessagePayload}
use bns_node.Swarm.{SwarmTransport, is_connected, get_connection}
use bns_node.Swarm.Send.{
  infer_next_hop, send_direct_message, send_report_message, send_message_by_hop,
}
use bns_node.Swarm.Hops.{IsHop, infer_next_hop_lem}
use bns_node.Handlers.{join_dht, for_connect}
use bns_node.Handlers.Join.{connect_by, join_dht-send}
use bns_node.Handlers.Notice.{stabilized-notice}
use bns_node.Handlers.Connection.{handle_query_for_topo_info_report}
use bns_node.Handlers.Stabilization.{handle_notify_predecessor_send}
use bns_node.Handlers.Stabilization.Told.{handle_notify_predecessor_send_lem}
use bns_node.Handlers.Vnodes.{
  operate_and_store, storage_fetch, storage_check_cache, handle_sync_vnode_with_successor,
}
use bns_node.Handlers.Vnodes.Stored.{stored, operate_and_store-fetch}
use bns_node.Handlers.Vnodes.Synced.{handle_sync_refused}
use bns_node.Stabilizer as Stab
use bns_node.Stabilizer.{send_to, send_all, for_fix, notify_predecessor}
use bns_node.Stabilizer.Rounds.{fix_fingers-send}
use bns_node.Examples.Texts
use bns_node.Examples.{Store, node-IsValid}
use bns_node.Examples.World.{strict, payload, Outbox, env, swarm}

abbrev request : MessagePayload
request = payload (1 ∷ [])

abbrev target : ℕ
target = 25

abbrev nowhere : Option ℕ
nowhere = none

abbrev peer : ℕ
peer = 40

abbrev told : ℕ
told = 7

abbrev others : List ℕ
others = 40 ∷ []

unconnected : (t : PeerRing Store) → is_connected env (record swarm { dht = t }) 10 ≡ false
unfolding is_connected get_connection Texts.spell
unconnected t = refl

abbrev note : VirtualNode
note = record { did = 15; entries = "a" ∷ []; kind = VNodeType.data_type }

abbrev writing : VNodeOperation
writing = extend note

nothing_known : IsData 15 (entry strict memory memory-IsStorage swarm.dht.storage 15)
nothing_known =
    subst (IsData 15) (sym (view_lem swarm.dht.storage (strict.did_to_string 15) tt ∙ nothing)) tt
  where
    nothing : lookup (strict.did_to_string 15) swarm.dht.storage ≡ none
    nothing = unfold lookup in refl

near : find_successor swarm.dht 15 ≡ ok (some_did 20)
unfolding find_successor Successor.min_succ Bias.le Chord.bias sub
near = refl

abbrev ring : VirtualNode
ring = record { did = 15; entries = "{}" ∷ []; kind = VNodeType.subring }

abbrev left : List VirtualNode
left = note ∷ []

not_data : ring.kind ≢ data_type
not_data e = cc

infer_next_hop_lem_example :
    (h : ℕ) × (infer_next_hop env swarm target nowhere ≡ ok h)
    × (is_connected env swarm target ≡ true → h ≡ target)
    × ((g : ℕ) → is_connected env swarm target ≡ false → nowhere ≡ some g → h ≡ g)
    × (is_connected env swarm target ≡ false → nowhere ≡ none → IsHop swarm.dht target h)
infer_next_hop_lem_example = infer_next_hop_lem env swarm target nowhere node-IsValid

join_dht-send_example :
    (peer ≡ swarm.dht.did → join_dht env peer swarm ≡ (swarm, ok tt))
    × (peer ≢ swarm.dht.did
        → (t : PeerRing Store) × (Chord.join swarm.dht peer ≡ ok (t, connect_by peer swarm.dht.did))
          × IsValid t
          × (join_dht env peer swarm
              ≡ unwrap
                  (discard (
                    send_direct_message env
                      (Message.find_successor_send (for_connect swarm.dht.did))
                      peer))
                  (record swarm { dht = t }))
          × ((u : SwarmTransport Store Outbox) (e : Error)
              → send_direct_message env
                  (Message.find_successor_send (for_connect swarm.dht.did))
                  peer
                  (record swarm { dht = t })
                ≡ (u, err e)
              → join_dht env peer swarm ≡ (u, panic)))
join_dht-send_example = join_dht-send env swarm peer refl (omega arith) node-IsValid

stabilized-notice_example :
    (s : SuccessorSeq) × (h : ℕ) × (handle_query_for_topo_info_report env
        (record {
          info = record { successors = 30 ∷ others; predecessor = some peer };
          then_do = QueryFor.stabilization;
        })
        swarm
      ≡ logged
          (discard (
            send_message_by_hop env
              (Message.notify_predecessor_send swarm.dht.did)
              swarm.dht.did
              h))
          (record swarm { dht = record swarm.dht { successor_seq = s } }))
    × IsValid (record swarm.dht { successor_seq = s })
    × (Successor.min_succ s ≡ ok h)
    × (h ≢ swarm.dht.did)
    × IsNearest s (λ e.
      (Member e swarm.dht.successor_seq.successors ⊎ (e ≡ peer))
      ⊎ Member e (take (length others) (30 ∷ others)))
stabilized-notice_example =
    stabilized-notice env swarm 30 others peer ((omega arith), ((omega arith), tt)) (omega arith)
      (omega arith) node-IsValid (omega arith) unconnected

handle_notify_predecessor_send_lem_example :
    (n : ℕ) × ((n ≡ told) ⊎ (swarm.dht.predecessor ≡ some n))
    × (sub told swarm.dht.did ≤ sub n swarm.dht.did)
    × (let t : SwarmTransport Store Outbox = record swarm {
      dht = record swarm.dht { predecessor = some n };
    } in
        ((origin : ℕ) (path : List ℕ)
          → request.relay.path ≡ origin ∷ path
          → (n ≡ origin → handle_notify_predecessor_send env request told swarm ≡ (t, ok tt))
            × ((n == origin) ≡ false
                → handle_notify_predecessor_send env request told swarm
                  ≡ send_report_message env request (Message.notify_predecessor_report n) t))
        × (request.relay.path ≡ []
            → handle_notify_predecessor_send env request told swarm ≡ (t, panic)))
handle_notify_predecessor_send_lem_example =
    handle_notify_predecessor_send_lem env request told swarm

operate_and_store-fetch_example :
    (s : Store) × (c : Store) × (m : VirtualNode) × (makes env.ext writing
        (entry env.ext env.kv memory-IsStorage swarm.dht.storage note.did)
      ≡ ok m)
    × (operate_and_store env 1 writing swarm ≡ (stored swarm s, ok tt))
    × (storage_fetch env 1 note.did (stored swarm s)
        ≡ (record swarm { dht = record swarm.dht { storage = s; cache = c } }, ok tt))
    × (storage_check_cache env
          (record swarm { dht = record swarm.dht { storage = s; cache = c } })
          note.did
        ≡ some m)
operate_and_store-fetch_example =
    operate_and_store-fetch env memory-IsStorage swarm note writing 20 extending refl (omega arith)
      tt tt nothing_known near

handle_sync_refused_example :
    (e : Error) × (handle_sync_vnode_with_successor env (ring ∷ left) swarm ≡ (swarm, err e))
handle_sync_refused_example =
    handle_sync_refused env memory-IsStorage swarm ring left 20 not_data (omega arith) tt near

fix_fingers-send_example :
    let fixed : SwarmTransport Store Outbox = record swarm { dht = (fix_fingers swarm.dht).0 } in
    (Stab.fix_fingers env swarm ≡ (fixed, ok tt))
    ⊎ ((c : ℕ) × (Stab.fix_fingers env swarm
          ≡ send_to env
              (Message.find_successor_send
                (for_fix (2 ^ next_index swarm.dht.finger.fix_finger_index)))
              c
              fixed))
fix_fingers-send_example = fix_fingers-send env swarm node-IsValid
