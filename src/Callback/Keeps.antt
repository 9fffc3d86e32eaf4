-- ===== src/Callback/Keeps.antt =====
-- Handling messages and changes of connections keeps a node well-formed.
use Prim.Native.String.{String}
use bns_node.Common.{
  ℕ, zero, suc, ◌≡◌, refl, Bool, true, false, Option, none, some, List, Result, ok, err, panic,
}
use bns_node.Did.{IsDid}
use bns_node.Effect.{Effect, continue}
use bns_node.Effect.Keeps.{
  Keeps, test-Keeps, if-Keeps, same-Keeps, then-Keeps, attempt-Keeps, here-Keeps,
}
use bns_node.Subring.{External}
use bns_node.Chunk.{Chunk}
use bns_node.Message.{Message}
use bns_node.Payload.{MessagePayload, Codec, message_of}
use bns_node.Chord.Ring.{IsValid}
use bns_node.Swarm.{Env, SwarmTransport, WebrtcConnectionState}
use bns_node.Handlers.Keeps.{IsSound, join_dht-Keeps, leave_dht-Keeps}
use bns_node.Handlers.Connection.Keeps.{
  IsTopoInfo, topo_info_send-Keeps, topo_info_report-Keeps, connect_node_send-Keeps,
  connect_node_report-Keeps, find_successor_send-Keeps, find_successor_report-Keeps,
  custom_message-Keeps,
}
use bns_node.Handlers.Stabilization.Keeps.{notify_send-Keeps, notify_report-Keeps}
use bns_node.Handlers.Vnodes.Keeps.{
  search_vnode-Keeps, found_vnode-Keeps, operate_vnode-Keeps, sync_vnode-Keeps,
}
use bns_node.Callback.Fuel.{read_message}
use bns_node.Callback.{
  InnerSwarmCallback, SwarmCallback, Progress, release, connection_state_change, put_swarm, put_app,
  in_swarm, in_app, put_pool, handle_message, inbound, handle_and_tell, add_chunk, whole, dispatch,
  handle_payload, if_verified, on_message, receive, leave_gone, on_peer_connection_state_change,
  on_data_channel_open,
}

-- What a message tells of the ring is identifiers.
abbrev pub IsOfDids : Message → Type 0
IsOfDids (Message.notify_predecessor_send did) = IsDid did
IsOfDids (Message.query_for_topo_info_report msg) = IsTopoInfo msg.info
IsOfDids _ = Unit

-- What is deserialized as a Did is one.
abbrev pub IsTyped : Codec → Type 0
IsTyped codec = (bytes : List ℕ) (msg : Message) → codec.deserialize bytes ≡ some msg → IsOfDids msg

-- What is parsed as a Did is one.
abbrev pub IsParser : External → Type 0
IsParser x = (s : String) (d : ℕ) → x.did_from_str s ≡ some d → IsDid d

abbrev pub IsWell : {S T P : Type 0} → InnerSwarmCallback S T P → Type 0
IsWell c = IsValid c.swarm.dht

module _ {S T C P : Type 0} (env : Env S T C) (app : SwarmCallback P) where
  pub in_swarm-Keeps :
      {A : Type 0} {m : Effect (SwarmTransport S T) A}
      → Keeps IsSound m
      → Keeps {W = InnerSwarmCallback S T P} IsWell (in_swarm m)
  unfolding put_swarm
  in_swarm-Keeps k = record { keeps = λ c v. k.keeps c.swarm v }

  in_app-Keeps :
      {A : Type 0} (f : P → P × Result A) → Keeps {W = InnerSwarmCallback S T P} IsWell (in_app f)
  unfolding put_app
  in_app-Keeps f = record { keeps = λ c v. v }

  handle_message-Keeps :
      (ctx : MessagePayload) (msg : Message)
      → IsOfDids msg
      → Keeps IsSound (handle_message env app ctx msg)
  unfolding handle_message
  handle_message-Keeps ctx (Message.connect_node_send msg) h = connect_node_send-Keeps env ctx msg
  handle_message-Keeps ctx (Message.connect_node_report msg) h =
      connect_node_report-Keeps env ctx msg
  handle_message-Keeps ctx (Message.find_successor_send msg) h =
      find_successor_send-Keeps env ctx msg
  handle_message-Keeps ctx (Message.find_successor_report msg) h =
      find_successor_report-Keeps env ctx msg
  handle_message-Keeps ctx (Message.notify_predecessor_send did) h = notify_send-Keeps env ctx did h
  handle_message-Keeps ctx (Message.notify_predecessor_report did) h = notify_report-Keeps env did
  handle_message-Keeps ctx (Message.search_vnode vid) h = search_vnode-Keeps env ctx vid
  handle_message-Keeps ctx (Message.found_vnode vs) h = found_vnode-Keeps env ctx vs
  handle_message-Keeps ctx (Message.sync_vnode_with_successor vs) h = sync_vnode-Keeps env vs
  handle_message-Keeps ctx (Message.operate_vnode op) h = operate_vnode-Keeps env ctx op
  handle_message-Keeps ctx (Message.custom_message bytes) h = custom_message-Keeps env ctx
  handle_message-Keeps ctx (Message.query_for_topo_info_send msg) h =
      topo_info_send-Keeps env ctx msg
  handle_message-Keeps ctx (Message.query_for_topo_info_report msg) h =
      topo_info_report-Keeps env msg h
  handle_message-Keeps ctx (Message.chunk ch) h = same-Keeps

  inbound-Keeps : (p : MessagePayload) → Keeps IsWell (inbound env app p)
  unfolding inbound
  inbound-Keeps p = test-Keeps _ (in_app-Keeps _) same-Keeps

  handle_and_tell-Keeps :
      (p : MessagePayload) (msg : Message)
      → IsOfDids msg
      → Keeps IsWell (handle_and_tell env app p msg)
  unfolding handle_and_tell
  handle_and_tell-Keeps p msg h =
      then-Keeps (attempt-Keeps (in_swarm-Keeps (handle_message-Keeps p msg h)))
        λ r. inbound-Keeps p

  add_chunk-Keeps : (ch : Chunk) → Keeps IsWell (add_chunk env app ch)
  unfolding add_chunk put_pool
  add_chunk-Keeps ch = record { keeps = λ c v. pool c v _ }
    where
      pool :
          (c : InnerSwarmCallback S T P)
          → IsWell c
          → (r : Result (List Chunk × Option (List ℕ))) → IsWell (put_pool c r).0
      pool c v (ok r) = v
      pool c v (err e) = v
      pool c v panic = v

  release-IsWell :
      (p : InnerSwarmCallback S T P × Result Progress) → IsWell p.0 → IsWell (release p).0
  unfolding release
  release-IsWell (c, ok Progress.waits) v = v
  release-IsWell (c, ok Progress.returned) v = v
  release-IsWell (c, err e) v = v
  release-IsWell (c, panic) v = v

  unlock-Keeps :
      Keeps {W = InnerSwarmCallback S T P} {A = Unit {0}} IsWell
        (λ c. (record c { locked = false }, ok tt))
  unlock-Keeps = record { keeps = λ c v. v }

  dispatch-Keeps :
      (next : List ℕ → Effect (InnerSwarmCallback S T P) Progress) (p : MessagePayload)
      (msg : Message)
      → ((bytes : List ℕ) → Keeps IsWell (next bytes))
      → IsOfDids msg
      → Keeps IsWell (dispatch env app next p msg)
  unfolding dispatch whole
  dispatch-Keeps next p (Message.chunk ch) k h =
      test-Keeps _ same-Keeps (then-Keeps (add_chunk-Keeps ch) put)
    where
      put : (o : Option (List ℕ)) → Keeps IsWell (whole env app next p o)
      put none = then-Keeps unlock-Keeps λ u. then-Keeps (inbound-Keeps p) λ v. same-Keeps
      put (some bytes) = record {
        keeps = λ c v. release-IsWell (next bytes c) ((k bytes).keeps c v);
      }
  dispatch-Keeps next p msg k h = then-Keeps (handle_and_tell-Keeps p msg h) λ u. same-Keeps

  handle_payload-Keeps :
      (next : List ℕ → Effect (InnerSwarmCallback S T P) Progress) (p : MessagePayload)
      → IsTyped env.codec
      → ((bytes : List ℕ) → Keeps IsWell (next bytes))
      → Keeps IsWell (handle_payload env app next p)
  unfolding handle_payload continue
  handle_payload-Keeps next p typed k = read (message_of env.signers env.codec p.transaction) refl
    where
      read :
          (r : Result Message)
          → message_of env.signers env.codec p.transaction ≡ r
          → Keeps IsWell (handle_payload env app next p)
      read (ok msg) e =
          rw (handle_payload, e)
            (dispatch-Keeps next p msg k
              (typed p.transaction.bytes msg (read_message env app p msg e)))
      read (err w) e = rw (handle_payload, e) same-Keeps
      read panic e = rw (handle_payload, e) same-Keeps

  if_verified-Keeps :
      (b : Bool) (next : Effect (InnerSwarmCallback S T P) Progress)
      → Keeps IsWell next
      → Keeps IsWell (if_verified env app b next)
  unfolding if_verified
  if_verified-Keeps true next k = k
  if_verified-Keeps false next k = same-Keeps

  pub on_message-Keeps :
      (fuel : ℕ) (bytes : List ℕ) → IsTyped env.codec → Keeps IsWell (on_message env app fuel bytes)
  unfolding on_message receive
  on_message-Keeps zero bytes typed = same-Keeps
  on_message-Keeps (suc fuel) bytes typed = then-Keeps same-Keeps λ p. then-Keeps same-Keeps λ good.
      if_verified-Keeps good _ (
        then-Keeps (in_app-Keeps _) λ u.
          handle_payload-Keeps (on_message env app fuel) p typed
            λ put. on_message-Keeps fuel put typed)

  leave_gone-Keeps : (b : Bool) (did : ℕ) → Keeps IsWell (leave_gone env app b did)
  unfolding leave_gone
  leave_gone-Keeps true did = in_swarm-Keeps (leave_dht-Keeps env did)
  leave_gone-Keeps false did = same-Keeps

  pub state_change-Keeps :
      (cid : String) (s : WebrtcConnectionState)
      → Keeps IsWell (on_peer_connection_state_change env app cid s)
  unfolding on_peer_connection_state_change
  state_change-Keeps cid s = parsed (env.ext.did_from_str cid) refl
    where
      parsed :
          (o : Option ℕ)
          → env.ext.did_from_str cid ≡ o
          → Keeps IsWell (on_peer_connection_state_change env app cid s)
      parsed none e = rw (on_peer_connection_state_change, e) same-Keeps
      parsed (some did) e =
          rw (on_peer_connection_state_change, e)
            (then-Keeps (leave_gone-Keeps _ did) λ u. if-Keeps _ (in_app-Keeps _) same-Keeps)

  pub channel_open-Keeps :
      (cid : String) → IsParser env.ext → Keeps IsWell (on_data_channel_open env app cid)
  unfolding on_data_channel_open
  channel_open-Keeps cid parser = parsed (env.ext.did_from_str cid) refl
    where
      parsed :
          (o : Option ℕ)
          → env.ext.did_from_str cid ≡ o
          → Keeps IsWell (on_data_channel_open env app cid)
      parsed none e = rw (on_data_channel_open, e) same-Keeps
      parsed (some did) e =
          rw (on_data_channel_open, e)
            (then-Keeps (in_swarm-Keeps (join_dht-Keeps env did (parser cid did e))) λ u.
              here-Keeps λ c. in_app-Keeps (λ (q : P).
                app.on_event q
                  (connection_state_change c.swarm.dht.did WebrtcConnectionState.connected)))
