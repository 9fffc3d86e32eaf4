-- ===== src/Payload/Sent.antt =====
-- What a node sends, another one takes.
use bns_node.Common.{
  ℕ, ◌+◌, ◌^◌, ◌<◌, ◌≤◌, ◌≡◌, refl, ap, ◌∙◌, true, not, ◌&&◌, ltb, List, [], ◌∷◌, some, ok, arith,
}
use bns_node.Subring.{External}
use bns_node.Relay.{MessageRelay}
use bns_node.Relay
use bns_node.Session
use bns_node.Session.{Signers, SessionSk, SessionSkBuilder, build}
use bns_node.Chunk.{ts_offset_tolerance_ms}
use bns_node.Verification
use bns_node.Verification.{default_ttl_ms, verify_ext}
use bns_node.Verification.Life.{new-verify_ext}
use bns_node.Message.{Message}
use bns_node.Payload.{
  Codec, MessagePayload, new_transaction, new, new_send, message_of, verify_payload,
  verify_transaction, hash_transaction,
}

still_good : (a b now : ℕ) → now ≤ a → now ≤ b → (not (ltb a now) && not (ltb b now)) ≡ true
still_good a b now h k = ground arith

module _ (x : External) (g : Signers) (c : Codec) where
  -- Take a session key that was built, signatures that verify under the key's address, and a message
  -- that is read back from its bytes. A payload made of the message verifies for its receiver, as does
  -- its transaction, until its own time and that of the session are over; the message is read back
  -- from it, and it goes from the key's account to the next hop and the destination.
  pub new_send-verify :
      (b : SessionSkBuilder) (built : ℕ) (k : SessionSk) (msg : Message) (bytes : List ℕ)
      (next_hop destination tx_id sent now : ℕ)
      → build x g b built ≡ ok k
      → ((m : List ℕ)
          → g.secp256k1_verify m (g.secret_address b.sk) (g.sign b.sk (g.keccak256 m)) ≡ true)
      → c.serialize msg ≡ some bytes
      → c.deserialize bytes ≡ some msg
      → ts_offset_tolerance_ms ≤ sent
      → sent + default_ttl_ms < 2 ^ 128
      → now ≤ sent + default_ttl_ms
      → now ≤ b.ts_ms + b.ttl_ms
      → (p : MessagePayload) × (new_send g c msg k next_hop destination tx_id sent ≡ ok p)
        × (verify_payload x g p now ≡ ok true)
        × (verify_transaction x g p.transaction now ≡ ok true)
        × (message_of g c p.transaction ≡ ok msg)
        × (p.relay ≡ Relay.new (Session.account_did g k.session ∷ []) next_hop destination)
  unfolding new_send new_transaction new message_of verify_payload verify_transaction
  new_send-verify b built k msg bytes next_hop destination tx_id sent now made signs written read
        early fits fresh valid =
      let h = hash_transaction g destination tx_id bytes in
      let v = Verification.new g h k sent in
      let p : MessagePayload = record {
        transaction = record {
          destination = destination;
          tx_id = tx_id;
          bytes = bytes;
          verification = v;
        };
        relay = Relay.new (Session.account_did g k.session ∷ []) next_hop destination;
        verification = v;
      } in
      let good : verify_ext x g v now h ≡ ok true =
        new-verify_ext x g b built k h sent now made (signs _) early fits
        ∙ ap ok (still_good (sent + default_ttl_ms) (b.ts_ms + b.ttl_ms) now fresh valid) in
      (p, rw written refl, good, good, rw read refl, refl)
