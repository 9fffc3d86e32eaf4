-- ===== src/Common/Errors.antt =====
-- What a fallible function returns: a value, one of the errors of crates/core/src/error.rs that
-- the modelled code raises, or a panic (an index out of range, an arithmetic overflow).
use mathlib.Core.Path.{◌≡◌, refl}

pub data Error : Type 0 where
  dht_sync_lock_error peer_ring_invalid_action peer_ring_find_successor : Error
  peer_ring_unexpected_action : Error
  bad_c_hex_in_cache : Error
  vnode_not_overwritable vnode_not_appendable vnode_not_joinable : Error
  vnode_kind_not_equal vnode_did_not_equal invalid_vnode_type : Error
  serialize_to_string deserialize encode_failed decode_failed : Error
  invalid_next_hop invalid_relay_path infinite_relay_path cannot_infer_next_hop : Error
  storage_failed : Error
  transport_failed swarm_miss_did_in_table no_next_hop already_connected message_too_large : Error
  bincode_serialize bincode_deserialize : Error
  session_expired verify_signature_failed unknown_account bad_public_key : Error
  callback_failed should_not_connect_self invalid_message : Error
  connection_already_exists connection_not_found : Error

-- A panic unwinds the thread: whatever follows is skipped.
pub data Result {ℓ} (A : Type ℓ) : Type ℓ where
  panic : Result A
  ok : A → Result A
  err : Error → Result A

infixl 5 ◌>>=◌
abbrev pub ◌>>=◌ {i j} : {X : Type i} {Y : Type j} → Result X → (X → Result Y) → Result Y
panic >>= next = panic
ok x >>= next = next x
err why >>= next = err why

-- What a chain of fallible calls yields comes from a first call that succeeded.
pub >>=-eq-ok {i j} :
    {X : Type i} {Y : Type j} {y : Y} (first : Result X) (next : X → Result Y)
    → (first >>= next) ≡ ok y
    → (x : X) × (first ≡ ok x) × (next x ≡ ok y)
>>=-eq-ok panic next run = cc
>>=-eq-ok (ok x) next run = (x, refl, run)
>>=-eq-ok (err why) next run = cc
