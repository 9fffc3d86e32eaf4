-- ===== src/Verification.antt =====
-- crates/core/src/message/protocols/verify.rs: signatures on messages, with the time for which they
-- hold. The time of a call is an argument.
pub mod Life
use bns_node.Common.{
  ℕ, zero, suc, ◌+◌, ◌-◌, ◌*◌, ◌/◌, ◌%◌, ◌^◌, Bool, true, false, List, [], ◌∷◌, ◌++◌, ltb,
  if◌then◌else◌, Result, ok, err, panic, ◌>>=◌,
}
use bns_node.Chunk.{max_ttl_ms, ts_offset_tolerance_ms}
use bns_node.Subring.{External}
use bns_node.Session
use bns_node.Session.{Session, SessionSk, Signers, add_u128}

pub record MessageVerification : Type 0 where
  pub session : Session
  pub ttl_ms : ℕ
  pub ts_ms : ℕ
  pub sig : List ℕ

abbrev pub default_ttl_ms : ℕ
default_ttl_ms = 600000

-- `to_be_bytes`, of a number of so many bytes.
unfoldable pub be_bytes : ℕ → ℕ → List ℕ
be_bytes zero n = []
be_bytes (suc k) n = (n / 256 ^ k) % 256 ∷ be_bytes k n

unfoldable pub pack_msg : List ℕ → ℕ → ℕ → List ℕ
unfolding be_bytes
pack_msg bytes ts_ms ttl_ms = be_bytes 16 ts_ms ++ (be_bytes 8 ttl_ms ++ bytes)

abbrev pub is_ok : Result (Unit {0}) → Result Bool
is_ok (ok u) = ok true
is_ok (err e) = ok false
is_ok panic = panic

module _ (g : Signers) where
  unfoldable pub new : List ℕ → SessionSk → ℕ → MessageVerification
  unfolding pack_msg
  new bytes k now = record {
    session = k.session;
    ttl_ms = default_ttl_ms;
    ts_ms = now;
    sig = Session.sign g k (pack_msg bytes now default_ttl_ms);
  }

  -- MessageVerification::verify
  unfoldable pub verify : External → MessageVerification → ℕ → List ℕ → Result Bool
  unfolding pack_msg
  verify x v now bytes =
      is_ok (Session.verify x g v.session now (pack_msg bytes v.ts_ms v.ttl_ms) v.sig)

-- MessageVerificationExt::is_expired. A time below the tolerance makes the subtraction overflow.
unfoldable pub is_expired : MessageVerification → ℕ → Result Bool
is_expired v now =
    if ltb max_ttl_ms v.ttl_ms
    then ok false
    else if ltb v.ts_ms ts_offset_tolerance_ms
    then panic
    else if ltb now (v.ts_ms - ts_offset_tolerance_ms)
    then ok false
    else add_u128 v.ts_ms v.ttl_ms >>= λ end. ok (ltb end now)

-- MessageVerificationExt::verify, of what holds the data and the verification.
unfoldable pub verify_ext : External → Signers → MessageVerification → ℕ → List ℕ → Result Bool
unfolding is_expired
verify_ext x g v now bytes = do
  expired ← is_expired v now
  if expired then ok false else verify g x v now bytes

unfoldable pub signer : Signers → MessageVerification → ℕ
signer g v = Session.account_did g v.session
