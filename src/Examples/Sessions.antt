-- ===== src/Examples/Sessions.antt =====
-- Tests of sessions, of verification and of all that a node receives.
use bns_node.Common.{
  Error, ℕ, suc, ◌≡◌, ◌≢◌, ◌+◌, refl, ◌⊎◌, true, false, some, if◌then◌else◌, ◌==◌, not, ◌&&◌, ltb,
  List, [], ◌∷◌, ok, arith,
}
use bns_node.Effect.{Effect, fail}
use bns_node.Session
use bns_node.Session.{SessionSk, build, verify}
use bns_node.Verification
use bns_node.Verification.{MessageVerification, verify_ext, new, pack_msg, default_ttl_ms}
use bns_node.Verification.Life.{new-verify_ext, verify_ext_overlong}
use bns_node.Relay
use bns_node.Message.{Message}
use bns_node.Payload.{
  MessagePayload, from_bincode, new_send, message_of, verify_payload, verify_transaction,
}
use bns_node.Payload.Sent.{new_send-verify}
use bns_node.Chunk
use bns_node.Chunk.{Chunk}
use bns_node.Chord.Ring.{IsValid}
use bns_node.Callback.{InnerSwarmCallback, Progress, receive, on_message, verified}
use bns_node.Callback.Guard.{IsAuthentic, on_message-IsAuthentic}
use bns_node.Callback.Fuel.{on_message_enough}
use bns_node.Callback.Nested.{IsChunk, on_message-nested}
use bns_node.Callback.Sound.{
  Node, callback, after, Reach-IsValid, start, later, connected, received, asked,
}
use bns_node.Facade.Request.{Request, perform}
use bns_node.Examples.Texts
use bns_node.Examples.{Store, node-IsValid}
use bns_node.Examples.World.{
  strict, signers, builder, session_sk, seal, Outbox, codec, env, app, inner, strict-IsParser,
  codec-IsTyped, wrapped, payload, swarm,
}

abbrev bytes : List ℕ
bytes = 1 ∷ 2 ∷ []

abbrev sent : ℕ
sent = 5000

abbrev now : ℕ
now = 6000

abbrev built : ℕ
built = 5000

building : build strict signers builder built ≡ ok session_sk
unfolding build Session.try_from Session.verify_self Session.is_expired Session.add_u128
    Session.signed_by Session.parse_did Texts.spell Texts.read
building = refl

abbrev lasting : MessageVerification
lasting = record seal { ttl_ms = 7000000 }

lasting_signed :
    Session.verify strict signers lasting.session now
      (pack_msg bytes lasting.ts_ms lasting.ttl_ms)
      lasting.sig
    ≡ ok tt
unfolding verify Session.verify_self Session.is_expired Session.add_u128 Session.signed_by
lasting_signed = refl

-- A chunk of one part, in which there is another one.
abbrev nested : List ℕ
nested = 0 ∷ 0 ∷ 1 ∷ []

abbrev start_node : Node Store Outbox ℕ
start_node = record { swarm = swarm; app = 0; pools = λ i. ([], false) }

abbrev third : Node Store Outbox ℕ
third = record start_node { pools = λ i. if i == 3 then ([], false) else start_node.pools i }

abbrev told : Node Store Outbox ℕ
told = after third 3 (on_message env app 9 nested (callback third 3)).0

abbrev afterwards : Node Store Outbox ℕ
afterwards = record told { swarm = (perform env Request.stabilizing told.swarm).0 }

-- What the outer chunk holds, which is a chunk too.
abbrev inside : List ℕ
inside = 0 ∷ 1 ∷ []

abbrev stopped : InnerSwarmCallback Store Outbox ℕ
stopped = record inner { chunk_list = []; locked = true }

nested-IsChunk : IsChunk env app inner nested (wrapped inside)
unfolding from_bincode message_of verified verify_payload verify_transaction verify_ext
    Verification.is_expired Verification.verify verify Session.verify_self Session.is_expired
    Session.add_u128 Session.signed_by
nested-IsChunk = record {
  payload = payload nested;
  reads = refl;
  verifies = refl;
  passes = refl;
  carries = refl;
}

inside-IsChunk : IsChunk env app stopped inside (wrapped (1 ∷ []))
unfolding from_bincode message_of verified verify_payload verify_transaction verify_ext
    Verification.is_expired Verification.verify verify Session.verify_self Session.is_expired
    Session.add_u128 Session.signed_by
inside-IsChunk = record {
  payload = payload inside;
  reads = refl;
  verifies = refl;
  passes = refl;
  carries = refl;
}

completing :
    Chunk.handle inner.chunk_list (env.net.get_epoch_ms inner.swarm.transport) (wrapped inside)
    ≡ ok ([], some inside)
unfolding Chunk.handle Chunk.remove
completing = refl

new-verify_ext_example :
    verify_ext strict signers (new signers bytes session_sk sent) now bytes
    ≡ ok (not (ltb (sent + default_ttl_ms) now) && not (ltb (builder.ts_ms + builder.ttl_ms) now))
new-verify_ext_example =
    new-verify_ext strict signers builder built session_sk bytes sent now building refl
      (omega arith) (omega arith)

verify_ext_overlong_example : verify_ext strict signers lasting now bytes ≡ ok true
verify_ext_overlong_example =
    verify_ext_overlong strict signers lasting now bytes (omega arith) lasting_signed

on_message-IsAuthentic_example :
    ((p : MessagePayload) × (from_bincode env.signers env.codec bytes ≡ ok p)
      × IsAuthentic env app (env.net.get_epoch_ms inner.swarm.transport) p)
    ⊎ (((on_message env app (suc 0) bytes inner).0 ≡ inner)
        × ((r : Progress) → (on_message env app (suc 0) bytes inner).1 ≢ ok r))
on_message-IsAuthentic_example = on_message-IsAuthentic env app 0 bytes inner

-- What is done in place of a third message: it fails.
abbrev fails : List ℕ → Effect (InnerSwarmCallback Store Outbox ℕ) Progress
fails more = fail Error.callback_failed

on_message_enough_example :
    on_message env app (suc (suc 7)) nested inner
    ≡ receive env app (receive env app fails) nested inner
on_message_enough_example = on_message_enough env app fails 7 nested inner

on_message-nested_example :
    let (d, r) = on_message env app (suc (suc 0)) nested inner in
    (r ≡ ok Progress.waits)
    × (d.swarm ≡ inner.swarm)
    × ((m : ℕ) (more : List ℕ) (another : Chunk)
        → IsChunk env app d more another
        → ((on_message env app (suc m) more d).1 ≡ ok Progress.waits)
          × ((on_message env app (suc m) more d).0.chunk_list ≡ d.chunk_list))
on_message-nested_example =
    on_message-nested env app 0 nested inside (wrapped inside) (wrapped (1 ∷ [])) [] inner refl
      nested-IsChunk completing inside-IsChunk

Reach-IsValid_example : IsValid afterwards.swarm.dht
Reach-IsValid_example = Reach-IsValid env app codec-IsTyped strict-IsParser node-IsValid (
    later (later (later start (connected 3 start_node)) (received 3 9 nested third))
      (asked Request.stabilizing told))

abbrev greeting : Message
greeting = Message.custom_message []

signs : (m : List ℕ) → signers.secp256k1_verify m 10 (signers.sign 10 (signers.keccak256 m)) ≡ true
signs m = refl

new_send-verify_example :
    (p : MessagePayload) × (new_send signers codec greeting session_sk 20 30 7 sent ≡ ok p)
    × (verify_payload strict signers p now ≡ ok true)
    × (verify_transaction strict signers p.transaction now ≡ ok true)
    × (message_of signers codec p.transaction ≡ ok greeting)
    × (p.relay ≡ Relay.new (Session.account_did signers session_sk.session ∷ []) 20 30)
new_send-verify_example =
    new_send-verify strict signers codec builder built session_sk greeting (1 ∷ []) 20 30 7 sent now
      building signs refl refl (omega arith) (omega arith) (omega arith) (omega arith)
