-- ===== src/Callback/Nested.antt =====
-- A chunk that completes a message which is itself a chunk, in crates/core/src/swarm/callback.rs: the
-- guard of `chunk_list` lives as long as the `if let` whose scrutinee takes it.
use bns_node.Common.{ℕ, suc, ◌≡◌, refl, true, false, List, some, Result, ok, ◌∙◌, ap}
use bns_node.Effect.{continue}
use bns_node.Chunk
use bns_node.Chunk.{Chunk}
use bns_node.Message.{Message}
use bns_node.Payload.{MessagePayload, from_bincode, message_of}
use bns_node.Swarm.{Env}
use bns_node.Callback.{
  InnerSwarmCallback, SwarmCallback, Progress, on_message, receive, handle_payload, dispatch,
  add_chunk, whole, release, put_pool, put_app, if_verified, verified,
}

module _ {S T C P : Type 0} (env : Env S T C) (app : SwarmCallback P) where
  -- The bytes are a chunk that verifies and that the application lets through.
  pub record IsChunk (c : InnerSwarmCallback S T P) (bytes : List ℕ) (ch : Chunk) : Type 0 where
    pub payload : MessagePayload
    pub reads : from_bincode env.signers env.codec bytes ≡ ok payload
    pub verifies : verified env app c payload ≡ ok true
    pub passes : (app.on_validate c.app payload).1 ≡ ok tt
    pub carries : message_of env.signers env.codec payload.transaction ≡ ok (Message.chunk ch)

  -- The state after the application has seen the payload.
  abbrev pub validated : InnerSwarmCallback S T P → MessagePayload → InnerSwarmCallback S T P
  validated c p = record c { app = (app.on_validate c.app p).0 }

  -- While the lock is held, a chunk waits and changes nothing but the application's state.
  waits_for_lock :
      (n : ℕ) (bytes : List ℕ) (ch : Chunk) (c : InnerSwarmCallback S T P)
      → c.locked ≡ true
      → (k : IsChunk c bytes ch)
      → on_message env app (suc n) bytes c ≡ (validated c k.payload, ok Progress.waits)
  unfolding on_message receive continue if_verified handle_payload put_app dispatch
  waits_for_lock n bytes ch c held k = rw (k.reads, k.verifies, k.passes, k.carries, held) refl

  completes :
      (n : ℕ) (bytes put : List ℕ) (ch : Chunk) (left : List Chunk) (c : InnerSwarmCallback S T P)
      → c.locked ≡ false
      → (k : IsChunk c bytes ch)
      → Chunk.handle c.chunk_list (env.net.get_epoch_ms c.swarm.transport) ch ≡ ok (left, some put)
      → on_message env app (suc n) bytes c
        ≡ release (
            on_message env app n put
              (record (validated c k.payload) { chunk_list = left; locked = true }))
  unfolding on_message receive continue if_verified handle_payload put_app put_pool dispatch
      add_chunk whole
  completes n bytes put ch left c free k run =
      rw (k.reads, k.verifies, k.passes, k.carries, free, run) refl

  -- If a chunk that verifies and that the application lets through completes a message, while the
  -- lock of its connection's pool is free, and this message is, in turn, a chunk that verifies and
  -- that the application lets through, then receiving it never returns: it waits for the lock of the
  -- pool, which it holds itself, and the node and its transport are as before. From then on no chunk
  -- that the connection receives and that gets as far as the pool is handled either: receiving it
  -- waits as well.
  pub on_message-nested :
      (n : ℕ) (bytes put : List ℕ) (ch inside : Chunk) (left : List Chunk)
      (c : InnerSwarmCallback S T P)
      → c.locked ≡ false
      → (k : IsChunk c bytes ch)
      → Chunk.handle c.chunk_list (env.net.get_epoch_ms c.swarm.transport) ch ≡ ok (left, some put)
      → IsChunk (record (validated c k.payload) { chunk_list = left; locked = true }) put inside
      → let (d, r) = on_message env app (suc (suc n)) bytes c in
        (r ≡ ok Progress.waits)
        × (d.swarm ≡ c.swarm)
        × ((m : ℕ) (more : List ℕ) (another : Chunk)
            → IsChunk d more another
            → ((on_message env app (suc m) more d).1 ≡ ok Progress.waits)
              × ((on_message env app (suc m) more d).0.chunk_list ≡ d.chunk_list))
  unfolding release
  on_message-nested n bytes put ch inside left c free k run l =
      let stopped : on_message env app (suc (suc n)) bytes c ≡ (
        validated (record (validated c k.payload) { chunk_list = left; locked = true }) l.payload,
        ok Progress.waits,
      ) =
        completes (suc n) bytes put ch left c free k run
        ∙ ap (λ (p : InnerSwarmCallback S T P × Result Progress). release p)
            (waits_for_lock n put inside
              (record (validated c k.payload) { chunk_list = left; locked = true }) refl l) in
      rw stopped (
        refl,
        refl,
        λ m more another q.
            let again = waits_for_lock m more another _ refl q in
            (
              ap (λ (p : InnerSwarmCallback S T P × Result Progress). p.1) again,
              ap (λ (p : InnerSwarmCallback S T P × Result Progress). p.0.chunk_list) again,
            ),
      )
