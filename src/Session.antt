-- ===== src/Session.antt =====
-- crates/core/src/session.rs: a key pair that an account lends its name to for a while. Keys and
-- signatures are the ecc module's: the algorithms that a session uses of it are a parameter. A
-- secret key is a number, a public key the list of its bytes.
pub mod Life
use Prim.Native.Char.{code}
use Prim.Native.String.{String}
use Prim.Native.String as Text
use text.Mathlib.Text.{◌==◌ as str_eq}
use bns_node.Common.{
  ℕ, zero, suc, ◌+◌, ◌-◌, ◌*◌, ◌/◌, ◌%◌, ◌^◌, Bool, true, false, not, Option, none, some, List, [],
  ◌∷◌, ◌++◌, ltb, if◌then◌else◌, Result, ok, err, panic, ◌>>=◌, Error,
}
use bns_node.Subring.{External}

pub data Account : Type 0 where
  secp256k1 : ℕ → Account
  secp256r1 : List ℕ → Account
  eip191 bip137 : ℕ → Account
  ed25519 : List ℕ → Account

pub record Session : Type 0 where
  pub session_id : ℕ
  pub account : Account
  pub ttl_ms : ℕ
  pub ts_ms : ℕ
  pub sig : List ℕ

pub record SessionSk : Type 0 where
  pub session : Session
  pub sk : ℕ

pub record SessionSkBuilder : Type 0 where
  pub sk : ℕ
  pub account_entity : String
  pub account_type : String
  pub ttl_ms : ℕ
  pub ts_ms : ℕ
  pub sig : List ℕ

-- crates/core/src/ecc: verification of a signature on a message against an address (and a public
-- key), recovery of a public key, addresses, the signature on a hash, and parsers of public keys.
pub record Signers : Type 0 where
  pub keccak256 : List ℕ → List ℕ
  pub secret_address : ℕ → ℕ
  pub address : List ℕ → ℕ
  pub sign : ℕ → List ℕ → List ℕ
  pub secp256k1_verify : List ℕ → ℕ → List ℕ → Bool
  pub eip191_verify : List ℕ → ℕ → List ℕ → Bool
  pub bip137_verify : List ℕ → ℕ → List ℕ → Bool
  pub ed25519_verify : List ℕ → ℕ → List ℕ → List ℕ → Bool
  pub secp256r1_verify : List ℕ → ℕ → List ℕ → List ℕ → Bool
  pub secp256k1_recover : List ℕ → List ℕ → Result (List ℕ)
  pub bip137_recover : List ℕ → List ℕ → Result (List ℕ)
  pub eip191_recover : List ℕ → List ℕ → Result (List ℕ)
  pub from_hex_string : String → Option (List ℕ)
  pub try_from_b58t : String → Option (List ℕ)

abbrev pub default_session_ttl_ms : ℕ
default_session_ttl_ms = 30 * 24 * 3600 * 1000

-- The decimal digits of a number below 10 ^ fuel.
digits : ℕ → ℕ → List ℕ
digits zero n = []
digits (suc fuel) n =
    let rest = digits fuel (n / 10) in
    if ltb n 10 then (48 + n) ∷ [] else rest ++ (48 + n % 10) ∷ []

-- A u128 has at most 39 digits.
unfoldable pub decimal : ℕ → List ℕ
unfolding digits
decimal n = digits 39 n

-- The bytes of a text, all of whose characters are ASCII.
unfoldable pub as_bytes : String → List ℕ
as_bytes Text.[] = []
as_bytes (Text.◌∷◌ c s) = code c ∷ as_bytes s

-- A sum of u128.
unfoldable pub add_u128 : ℕ → ℕ → Result ℕ
add_u128 a b = if ltb (a + b) (2 ^ 128) then ok (a + b) else panic

parse_key : (List ℕ → Account) → Option (List ℕ) → Result Account
parse_key kind none = err Error.bad_public_key
parse_key kind (some key) = ok (kind key)

unfoldable pub parse_did : (ℕ → Account) → Option ℕ → Result Account
parse_did kind none = err Error.bad_c_hex_in_cache
parse_did kind (some d) = ok (kind d)

unfoldable pub new_builder : ℕ → ℕ → String → String → SessionSkBuilder
new_builder sk now account_entity account_type = record {
  sk = sk;
  account_entity = account_entity;
  account_type = account_type;
  ttl_ms = default_session_ttl_ms;
  ts_ms = now;
  sig = [];
}

unfoldable pub set_session_sig : SessionSkBuilder → List ℕ → SessionSkBuilder
set_session_sig b sig = record b { sig = sig }

unfoldable pub set_ttl : SessionSkBuilder → ℕ → SessionSkBuilder
set_ttl b ttl_ms = record b { ttl_ms = ttl_ms }

unfoldable pub is_expired : Session → ℕ → Result Bool
unfolding add_u128
is_expired s now = do end ← add_u128 s.ts_ms s.ttl_ms; ok (ltb end now)

module _ (g : Signers) where
  unfoldable pub signed_by : Account → List ℕ → List ℕ → Bool
  signed_by (secp256k1 d) auth sig = g.secp256k1_verify auth d sig
  signed_by (eip191 d) auth sig = g.eip191_verify auth d sig
  signed_by (bip137 d) auth sig = g.bip137_verify auth d sig
  signed_by (ed25519 pk) auth sig = g.ed25519_verify auth (g.address pk) sig pk
  signed_by (secp256r1 pk) auth sig = g.secp256r1_verify auth (g.address pk) sig pk

  unfoldable pub account_did : Session → ℕ
  account_did s = elim s.account [
    | secp256k1 d ↦ d
    | bip137 d ↦ d
    | eip191 d ↦ d
    | ed25519 pk ↦ g.address pk
    | secp256r1 pk ↦ g.address pk
  ]

  -- SessionSk::sign
  unfoldable pub sign : SessionSk → List ℕ → List ℕ
  sign k msg = g.sign k.sk (g.keccak256 msg)

module _ (x : External) (g : Signers) where
  -- TryFrom<(String, String)> for Account
  unfoldable pub try_from : String → String → Result Account
  unfolding parse_key parse_did
  try_from entity kind =
      if str_eq kind "secp256k1"
      then parse_did secp256k1 (x.did_from_str entity)
      else if str_eq kind "secp256r1"
      then parse_key secp256r1 (g.from_hex_string entity)
      else if str_eq kind "eip191"
      then parse_did eip191 (x.did_from_str entity)
      else if str_eq kind "bip137"
      then parse_did bip137 (x.did_from_str entity)
      else if str_eq kind "ed25519"
      then parse_key ed25519 (g.try_from_b58t entity)
      else err Error.unknown_account

  -- The lines of the three values; a line ends with the byte 10.
  unfoldable pub pack_session : ℕ → ℕ → ℕ → List ℕ
  unfolding as_bytes decimal
  pack_session session_id ts_ms ttl_ms =
      as_bytes (x.did_to_string session_id) ++ 10 ∷ decimal ts_ms ++ 10 ∷ decimal ttl_ms

  unfoldable pub validate_account : SessionSkBuilder → Bool
  validate_account b = elim (try_from b.account_entity b.account_type) [
    | ok a ↦ true
    | err e ↦ false
    | panic ↦ false
  ]

  unfoldable pub unsigned_proof : SessionSkBuilder → List ℕ
  unsigned_proof b = pack_session (g.secret_address b.sk) b.ts_ms b.ttl_ms

  unfoldable pub pack : Session → List ℕ
  pack s = pack_session s.session_id s.ts_ms s.ttl_ms

  unfoldable pub verify_self : Session → ℕ → Result (Unit {0})
  unfolding is_expired signed_by
  verify_self s now = do
    expired ← is_expired s now
    if expired
        then err Error.session_expired
        else if not (signed_by g s.account (pack s) s.sig)
        then err Error.verify_signature_failed
        else ok tt

  unfoldable pub verify : Session → ℕ → List ℕ → List ℕ → Result (Unit {0})
  unfolding verify_self
  verify s now msg sig = do
    u ← verify_self s now
    if not (g.secp256k1_verify msg s.session_id sig)
        then err Error.verify_signature_failed
        else ok tt

  -- SessionSkBuilder::build
  unfoldable pub build : SessionSkBuilder → ℕ → Result SessionSk
  unfolding try_from verify_self
  build b now = do
    account ← try_from b.account_entity b.account_type
    let session : Session = record {
      session_id = g.secret_address b.sk;
      account = account;
      ttl_ms = b.ttl_ms;
      ts_ms = b.ts_ms;
      sig = b.sig;
    }
    u ← verify_self session now
    ok (record { session = session; sk = b.sk })

  unfoldable pub account_pubkey : Session → Result (List ℕ)
  account_pubkey s = elim s.account [
    | secp256k1 d ↦ g.secp256k1_recover (pack s) s.sig
    | bip137 d ↦ g.bip137_recover (pack s) s.sig
    | eip191 d ↦ g.eip191_recover (pack s) s.sig
    | ed25519 pk ↦ ok pk
    | secp256r1 pk ↦ ok pk
  ]
