-- ===== src/Examples/World.antt =====
-- A small world for the tests: a transport that keeps what it is to send, a clock that stands, keys
-- whose signatures name them, and a codec of custom messages and chunks.
use Prim.Native.String.{String}
use text.Mathlib.Text.{◌==◌ as str_eq}
use bns_node.Common.{
  ℕ, suc, ◌^◌, ◌≡◌, Bool, true, false, Option, none, some, List, [], ◌∷◌, ltb, ◌==◌, if◌then◌else◌,
  sym, subst, ◌⊎◌, inl, inr, arith, ok,
}
use bns_node.Did.{IsDid}
use bns_node.Subring.{External}
use bns_node.Examples.Tables.{memory}
use bns_node.Session.{Account, SessionSk, SessionSkBuilder, Signers}
use bns_node.Verification.{MessageVerification}
use bns_node.Chunk.{Chunk}
use bns_node.Message.{Message}
use bns_node.Payload.{Codec, MessagePayload}
use bns_node.Swarm.{Env, SwarmTransport, TransportInterface, WebrtcConnectionState}
use bns_node.Callback.{InnerSwarmCallback, SwarmCallback}
use bns_node.Callback.Keeps.{IsTyped, IsParser, IsOfDids}
use bns_node.Examples.{Store, node}
use bns_node.Examples.Texts.{spell, read}

abbrev checked : ℕ → Option ℕ
checked n = if ltb n (2 ^ 160) then some n else none

-- What is out of range is not parsed.
abbrev pub strict : External
strict = record {
  did_to_string = spell 160;
  did_from_str = λ s. checked (read s);
  hash_str = λ s. s;
  to_json = λ r. some "{}";
  from_json = λ s. none;
  b58_encode = λ s. some s;
  b58_decode = λ s. none;
}

abbrev names : List ℕ → ℕ → Bool
names [] address = false
names (a ∷ sig) address = a == address

-- An address is the secret key, and a signature begins with it.
abbrev pub signers : Signers
signers = record {
  keccak256 = λ bytes. bytes;
  secret_address = λ sk. sk;
  address = λ pk. 0;
  sign = λ sk bytes. sk ∷ [];
  secp256k1_verify = λ msg address sig. names sig address;
  eip191_verify = λ msg address sig. names sig address;
  bip137_verify = λ msg address sig. names sig address;
  ed25519_verify = λ msg address sig pk. false;
  secp256r1_verify = λ msg address sig pk. false;
  secp256k1_recover = λ msg sig. ok sig;
  bip137_recover = λ msg sig. ok sig;
  eip191_recover = λ msg sig. ok sig;
  from_hex_string = λ s. none;
  try_from_b58t = λ s. none;
}

abbrev pub builder : SessionSkBuilder
builder = record {
  sk = 10;
  account_entity = spell 160 10;
  account_type = "secp256k1";
  ttl_ms = 1000000;
  ts_ms = 4000;
  sig = 10 ∷ [];
}

abbrev pub session_sk : SessionSk
session_sk = record {
  session = record {
    session_id = 10;
    account = Account.secp256k1 10;
    ttl_ms = 1000000;
    ts_ms = 4000;
    sig = 10 ∷ [];
  };
  sk = 10;
}

abbrev pub seal : MessageVerification
seal = record { session = session_sk.session; ttl_ms = 600000; ts_ms = 5000; sig = 10 ∷ [] }

abbrev pub payload : List ℕ → MessagePayload
payload bytes = record {
  transaction = record { destination = 10; tx_id = 7; bytes = bytes; verification = seal };
  relay = record { path = 20 ∷ []; next_hop = 10; destination = 10 };
  verification = seal;
}

abbrev pub wrapped : List ℕ → Chunk
wrapped bytes = record {
  position = 0;
  total = 1;
  payload = bytes;
  meta = record { id = 1; ts_ms = 5000; ttl_ms = 600000 };
}

abbrev message : List ℕ → Option Message
message [] = none
message (b ∷ bytes) =
    if b == 0 then some (Message.chunk (wrapped bytes)) else some (Message.custom_message bytes)

abbrev pub codec : Codec
codec = record {
  serialize = λ msg. some (1 ∷ []);
  deserialize = message;
  serialize_payload = λ p. some p.transaction.bytes;
  deserialize_payload = λ bytes. some (payload bytes);
  sdp_to_json = λ s. some s;
  sdp_from_json = λ s. some s;
}

abbrev pub Outbox : Type 0
Outbox = List (List ℕ)

abbrev reach : String → Option String
reach cid = if str_eq cid (spell 160 10) then none else some cid

-- There are connections to all nodes but 10.
abbrev pub net : TransportInterface Outbox String
net = record {
  new_connection = λ t cid. (t, ok tt);
  connection = λ t cid. reach cid;
  connections = λ t. [];
  close_connection = λ t cid. (t, ok tt);
  wait_for_data_channel_open = λ t c. (t, ok tt);
  connection_state = λ t c. WebrtcConnectionState.connected;
  create_offer = λ t c. (t, ok "offer");
  answer_offer = λ t c s. (t, ok "answer");
  accept_answer = λ t c s. (t, ok tt);
  send_message = λ t c bytes. (bytes ∷ t, ok tt);
  get_epoch_ms = λ t. 5000;
  new_uuid = λ t. (t, ok 7);
}

abbrev pub env : Env Store Outbox String
env = record {
  ext = strict;
  signers = signers;
  codec = codec;
  net = net;
  kv = memory;
  experimental = false;
}

abbrev pub swarm : SwarmTransport Store Outbox
swarm = record { network_id = 1; transport = []; session_sk = session_sk; dht = node }

-- An application that counts what it is told.
abbrev pub app : SwarmCallback ℕ
app = record {
  on_validate = λ n p. (n, ok tt);
  on_inbound = λ n p. (suc n, ok tt);
  on_event = λ n e. (suc n, ok tt);
}

abbrev pub inner : InnerSwarmCallback Store Outbox ℕ
inner = record { swarm = swarm; app = 0; chunk_list = []; locked = false }

some-injective : {A : Type 0} {a b : A} → some a ≡ some b → a ≡ b
some-injective e = cc

checked-IsDid : (n d : ℕ) → checked n ≡ some d → IsDid d
checked-IsDid n d e = ground arith

pub strict-IsParser : IsParser strict
strict-IsParser s d e = checked-IsDid (read s) d e

either :
    (b : Bool) (bytes : List ℕ) (msg : Message)
    → (if b then some (Message.chunk (wrapped bytes)) else some (Message.custom_message bytes))
      ≡ some msg
    → (msg ≡ Message.chunk (wrapped bytes)) ⊎ (msg ≡ Message.custom_message bytes)
either true bytes msg e = inl (sym (some-injective e))
either false bytes msg e = inr (sym (some-injective e))

pub codec-IsTyped : IsTyped codec
codec-IsTyped [] msg e = absurd (cc)
codec-IsTyped (b ∷ bytes) msg e = elim (either (b == 0) bytes msg e) [
  | inl q ↦ subst IsOfDids (sym q) tt
  | inr q ↦ subst IsOfDids (sym q) tt
]
