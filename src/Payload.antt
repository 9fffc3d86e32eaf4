-- ===== src/Payload.antt =====
-- crates/core/src/message/payload.rs: messages wrapped, addressed and signed. `Codec` is what the
-- code uses of bincode, and JSON for the descriptions of connections; uuids are numbers.
pub mod Sent
use Prim.Native.String.{String}
use bns_node.Common.{
  ℕ, Bool, Option, none, some, List, [], ◌∷◌, ◌++◌, Result, ok, err, ◌>>=◌, Error,
}
use bns_node.Subring.{External}
use bns_node.Session
use bns_node.Session.{SessionSk, Signers}
use bns_node.Verification
use bns_node.Verification.{MessageVerification, be_bytes, verify_ext}
use bns_node.Relay
use bns_node.Relay.{MessageRelay}
use bns_node.Message.{Message}

pub record Transaction : Type 0 where
  pub destination : ℕ
  pub tx_id : ℕ
  pub bytes : List ℕ
  pub verification : MessageVerification

pub record MessagePayload : Type 0 where
  pub transaction : Transaction
  pub relay : MessageRelay
  pub verification : MessageVerification

pub record Codec : Type 0 where
  pub serialize : Message → Option (List ℕ)
  pub deserialize : List ℕ → Option Message
  pub serialize_payload : MessagePayload → Option (List ℕ)
  pub deserialize_payload : List ℕ → Option MessagePayload
  pub sdp_to_json : String → Option String
  pub sdp_from_json : String → Option String

-- A Did has 20 bytes and a uuid 16.
unfoldable pub hash_transaction : Signers → ℕ → ℕ → List ℕ → List ℕ
unfolding be_bytes
hash_transaction g destination tx_id bytes =
    g.keccak256 (be_bytes 20 destination ++ (be_bytes 16 tx_id ++ bytes))

abbrev pub encoded : Option (List ℕ) → Result (List ℕ)
encoded none = err Error.bincode_serialize
encoded (some bytes) = ok bytes

abbrev pub decoded {ℓ} : {A : Type ℓ} → Option A → Result A
decoded none = err Error.bincode_deserialize
decoded (some a) = ok a

module _ (g : Signers) (c : Codec) where
  -- Transaction::new
  unfoldable pub new_transaction : ℕ → ℕ → Message → SessionSk → ℕ → Result Transaction
  unfolding hash_transaction
  new_transaction destination tx_id msg k now = do
    bytes ← encoded (c.serialize msg)
    ok (record {
      destination = destination;
      tx_id = tx_id;
      bytes = bytes;
      verification = Verification.new g (hash_transaction g destination tx_id bytes) k now;
    })

  -- Transaction::data
  unfoldable pub message_of : Transaction → Result Message
  message_of t = decoded (c.deserialize t.bytes)

  -- MessagePayload::new
  unfoldable pub new : Transaction → SessionSk → MessageRelay → ℕ → MessagePayload
  unfolding hash_transaction
  new t k relay now = record {
    transaction = t;
    relay = relay;
    verification = Verification.new g (hash_transaction g t.destination t.tx_id t.bytes) k now;
  }

  -- MessagePayload::new_send, of a new uuid.
  unfoldable pub new_send : Message → SessionSk → ℕ → ℕ → ℕ → ℕ → Result MessagePayload
  unfolding new_transaction new
  new_send msg k next_hop destination tx_id now = do
    t ← new_transaction destination tx_id msg k now
    ok (new t k (Relay.new (Session.account_did g k.session ∷ []) next_hop t.destination) now)

  unfoldable pub from_bincode : List ℕ → Result MessagePayload
  from_bincode bytes = decoded (c.deserialize_payload bytes)

  unfoldable pub to_bincode : MessagePayload → Result (List ℕ)
  to_bincode p = encoded (c.serialize_payload p)

module _ (x : External) (g : Signers) where
  abbrev pub transaction_hash : Transaction → List ℕ
  transaction_hash t = hash_transaction g t.destination t.tx_id t.bytes

  -- `verify` of MessageVerificationExt, for Transaction and for MessagePayload.
  unfoldable pub verify_transaction : Transaction → ℕ → Result Bool
  unfolding hash_transaction
  verify_transaction t now = verify_ext x g t.verification now (transaction_hash t)

  unfoldable pub verify_payload : MessagePayload → ℕ → Result Bool
  unfolding hash_transaction
  verify_payload p now = verify_ext x g p.verification now (transaction_hash p.transaction)
