-- ===== src/Callback.antt =====
-- crates/core/src/swarm/callback.rs: what a node does when its transport receives bytes, or tells
-- that the state of a connection has changed. The application's callback is a parameter over its
-- states `P`.
pub mod Guard
pub mod Fuel
pub mod Nested
pub mod Keeps
pub mod Sound
use Prim.Native.String.{String}
use bns_node.Common.{
  ℕ, zero, suc, Bool, true, false, not, ◌&&◌, Option, none, some, List, ◌==◌, if◌then◌else◌, Result,
  ok, err, panic, ◌>>=◌ as then_result, Error,
}
use bns_node.Effect.{Effect, ◌>>=◌, ◌>>◌, pure, lift, asks, fail, attempt}
use bns_node.Chunk
use bns_node.Chunk.{Chunk}
use bns_node.Message
use bns_node.Message.{Message}
use bns_node.Payload
use bns_node.Payload.{MessagePayload, verify_payload, verify_transaction}
use bns_node.Swarm.{Env, SwarmTransport, WebrtcConnectionState, is_open}
use bns_node.Handlers.{join_dht, leave_dht}
use bns_node.Handlers.Connection.{
  handle_connect_node_send, handle_connect_node_report, handle_find_successor_send,
  handle_find_successor_report, handle_query_for_topo_info_send, handle_query_for_topo_info_report,
  handle_custom_message,
}
use bns_node.Handlers.Stabilization.{
  handle_notify_predecessor_send, handle_notify_predecessor_report,
}
use bns_node.Handlers.Vnodes.{
  handle_search_vnode, handle_found_vnode, handle_operate_vnode, handle_sync_vnode_with_successor,
}

pub data SwarmEvent : Type 0 where
  connection_state_change : ℕ → WebrtcConnectionState → SwarmEvent

pub record SwarmCallback (P : Type 0) : Type 0 where
  pub on_validate : P → MessagePayload → P × Result (Unit {0})
  pub on_inbound : P → MessagePayload → P × Result (Unit {0})
  pub on_event : P → SwarmEvent → P × Result (Unit {0})

-- The callback of one connection: the transport and the application are those of the node, which all
-- of its connections share; the pool of chunks, and whether its lock is held, are its own.
pub record InnerSwarmCallback (S T P : Type 0) : Type 0 where
  pub swarm : SwarmTransport S T
  pub app : P
  pub chunk_list : List Chunk
  pub locked : Bool

-- A call that does not fail returns, or it waits for a lock that is never released.
pub data Progress : Type 0 where
  returned waits : Progress

module _ {S T P : Type 0} where
  unfoldable pub put_swarm :
      {A : Type 0}
      → InnerSwarmCallback S T P
      → SwarmTransport S T × Result A
      → InnerSwarmCallback S T P × Result A
  put_swarm c (w, a) = (record c { swarm = w }, a)

  unfoldable pub put_app :
      {A : Type 0} → InnerSwarmCallback S T P → P × Result A → InnerSwarmCallback S T P × Result A
  put_app c (p, a) = (record c { app = p }, a)

  abbrev pub in_swarm :
      {A : Type 0} → Effect (SwarmTransport S T) A → Effect (InnerSwarmCallback S T P) A
  in_swarm m c = put_swarm c (m c.swarm)

  abbrev pub in_app : {A : Type 0} → (P → P × Result A) → Effect (InnerSwarmCallback S T P) A
  in_app f c = put_app c (f c.app)

  -- What a chunk does to the pool; the lock is held afterwards, unless there is a panic.
  put_pool :
      InnerSwarmCallback S T P
      → Result (List Chunk × Option (List ℕ))
      → InnerSwarmCallback S T P × Result (Option (List ℕ))
  put_pool c (ok (pool, bytes)) = (record c { chunk_list = pool; locked = true }, ok bytes)
  put_pool c (err e) = (c, err e)
  put_pool c panic = (c, panic)

  -- The lock is released however a call ends, if it does.
  release : InnerSwarmCallback S T P × Result Progress → InnerSwarmCallback S T P × Result Progress
  release (c, ok Progress.waits) = (c, ok Progress.waits)
  release (c, r) = (record c { locked = false }, r)

module _ {S T C P : Type 0} (env : Env S T C) (app : SwarmCallback P) where
  -- The handlers of all messages but chunks.
  unfoldable pub handle_message : MessagePayload → Message → Effect (SwarmTransport S T) (Unit {0})
  handle_message ctx (Message.connect_node_send msg) = handle_connect_node_send env ctx msg
  handle_message ctx (Message.connect_node_report msg) = handle_connect_node_report env ctx msg
  handle_message ctx (Message.find_successor_send msg) = handle_find_successor_send env ctx msg
  handle_message ctx (Message.find_successor_report msg) = handle_find_successor_report env ctx msg
  handle_message ctx (Message.notify_predecessor_send did) =
      handle_notify_predecessor_send env ctx did
  handle_message ctx (Message.notify_predecessor_report did) =
      handle_notify_predecessor_report env did
  handle_message ctx (Message.search_vnode vid) = handle_search_vnode env ctx vid
  handle_message ctx (Message.found_vnode vs) = handle_found_vnode env ctx vs
  handle_message ctx (Message.sync_vnode_with_successor vs) =
      handle_sync_vnode_with_successor env vs
  handle_message ctx (Message.operate_vnode op) = handle_operate_vnode env ctx op
  handle_message ctx (Message.custom_message bytes) = handle_custom_message env ctx
  handle_message ctx (Message.query_for_topo_info_send msg) =
      handle_query_for_topo_info_send env ctx msg
  handle_message ctx (Message.query_for_topo_info_report msg) =
      handle_query_for_topo_info_report env msg
  handle_message ctx (Message.chunk c) = pure tt

  inbound : MessagePayload → Effect (InnerSwarmCallback S T P) (Unit {0})
  inbound payload c =
      if payload.transaction.destination == c.swarm.dht.did
      then in_app (λ p. app.on_inbound p payload) c
      else (c, ok tt)

  -- An error of a handler is logged.
  handle_and_tell : MessagePayload → Message → Effect (InnerSwarmCallback S T P) (Unit {0})
  unfolding inbound handle_message
  handle_and_tell payload msg = do
    logged ← attempt (in_swarm (handle_message payload msg))
    inbound payload

  add_chunk : Chunk → Effect (InnerSwarmCallback S T P) (Option (List ℕ))
  unfolding put_pool
  add_chunk chunk c =
      put_pool c (Chunk.handle c.chunk_list (env.net.get_epoch_ms c.swarm.transport) chunk)

  -- What a chunk completes is received while the lock is held.
  whole :
      (List ℕ → Effect (InnerSwarmCallback S T P) Progress)
      → MessagePayload
      → Option (List ℕ)
      → Effect (InnerSwarmCallback S T P) Progress
  unfolding inbound release
  whole on_message payload none = do
    λ c. (record c { locked = false }, ok tt)
    inbound payload
    pure Progress.returned
  whole on_message payload (some bytes) = λ c. release (on_message bytes c)

  dispatch :
      (List ℕ → Effect (InnerSwarmCallback S T P) Progress)
      → MessagePayload
      → Message
      → Effect (InnerSwarmCallback S T P) Progress
  unfolding add_chunk whole handle_and_tell
  dispatch on_message payload (Message.chunk chunk) = λ c.
      if c.locked then (c, ok Progress.waits) else (add_chunk chunk >>= whole on_message payload) c
  dispatch on_message payload msg = do handle_and_tell payload msg; pure Progress.returned

  unfoldable pub handle_payload :
      (List ℕ → Effect (InnerSwarmCallback S T P) Progress)
      → MessagePayload
      → Effect (InnerSwarmCallback S T P) Progress
  unfolding dispatch
  handle_payload on_message payload = do
    message ← lift (Payload.message_of env.signers env.codec payload.transaction)
    dispatch on_message payload message

  -- The payload is verified before the transaction.
  unfoldable pub verified : InnerSwarmCallback S T P → MessagePayload → Result Bool
  verified c payload =
      let now = env.net.get_epoch_ms c.swarm.transport in
      then_result (verify_payload env.ext env.signers payload now) λ first.
        if not first
        then ok false
        else verify_transaction env.ext env.signers payload.transaction now

  unfoldable pub if_verified :
      Bool → Effect (InnerSwarmCallback S T P) Progress → Effect (InnerSwarmCallback S T P) Progress
  if_verified true next = next
  if_verified false next = fail Error.callback_failed

  -- The body of `on_message`, over the call of it for a message that a chunk completes.
  unfoldable pub receive :
      (List ℕ → Effect (InnerSwarmCallback S T P) Progress)
      → List ℕ
      → Effect (InnerSwarmCallback S T P) Progress
  unfolding verified if_verified handle_payload
  receive on_message bytes = do
    payload ← lift (Payload.from_bincode env.signers env.codec bytes)
    good ← asks λ c. verified c payload
    if_verified good do in_app λ p. app.on_validate p payload; handle_payload on_message payload

  -- A message that a chunk completes is received in turn, on fuel.
  unfoldable pub on_message : ℕ → List ℕ → Effect (InnerSwarmCallback S T P) Progress
  unfolding receive
  on_message zero bytes = lift panic
  on_message (suc fuel) bytes = receive (on_message fuel) bytes

  unfoldable pub has_gone : WebrtcConnectionState → Bool
  has_gone WebrtcConnectionState.failed = true
  has_gone WebrtcConnectionState.disconnected = true
  has_gone WebrtcConnectionState.closed = true
  has_gone _ = false

  leave_gone : Bool → ℕ → Effect (InnerSwarmCallback S T P) (Unit {0})
  leave_gone true did = in_swarm (leave_dht env did)
  leave_gone false did = pure tt

  unfoldable pub on_peer_connection_state_change :
      String → WebrtcConnectionState → Effect (InnerSwarmCallback S T P) (Unit {0})
  unfolding has_gone leave_gone
  on_peer_connection_state_change cid s = elim (env.ext.did_from_str cid) [
    | none ↦ pure tt
    | some did ↦
        leave_gone (has_gone s) did
        >> (if not (is_open s)
            then in_app (λ p. app.on_event p (connection_state_change did s))
            else pure tt)
  ]

  unfoldable pub on_data_channel_open : String → Effect (InnerSwarmCallback S T P) (Unit {0})
  on_data_channel_open cid = elim (env.ext.did_from_str cid) [
    | none ↦ pure tt
    | some did ↦ in_swarm (join_dht env did) >> (λ c.
        in_app
          (λ p.
            app.on_event p
              (connection_state_change c.swarm.dht.did WebrtcConnectionState.connected))
          c)
  ]
