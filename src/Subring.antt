-- ===== src/Subring.antt =====
-- crates/core/src/dht/subring.rs, the data: a named finger table that is stored as a virtual node.
use Prim.Native.String.{String}
use bns_node.Common.{ℕ, Option}
use bns_node.Finger.{FingerTable}

pub record Subring : Type 0 where
  pub name : String
  pub finger : FingerTable
  pub creator : ℕ

-- What the modelled code takes from libraries: the hexadecimal form of an H160 and its parser,
-- SHA-1 as a hexadecimal text, JSON for subrings, and base58 with a checksum.
pub record External : Type 0 where
  pub did_to_string : ℕ → String
  pub did_from_str : String → Option ℕ
  pub hash_str : String → String
  pub to_json : Subring → Option String
  pub from_json : String → Option Subring
  pub b58_encode : String → Option String
  pub b58_decode : String → Option String
