-- ===== src/Examples.antt =====
-- Tests: small rings, tables and stores to which the theorems are applied. The forms of an
-- identifier and of a subring are stand-ins for those of the libraries.
pub mod Texts
pub mod Dids
pub mod Fingers
pub mod Rings
pub mod Nodes
pub mod Tables
pub mod Stores
pub mod Messages
pub mod World
pub mod Handlers
pub mod Sessions
pub mod Offers
pub mod Channels
use Prim.Native.String.{String}
use bns_node.Common.{
  ℕ, zero, suc, ◌^◌, ◌<◌, ◌≡◌, ◌≢◌, refl, Option, none, some, List, [], ◌∷◌, ◌++◌, replicate, All,
  All-replicate, arith, length,
}
use bns_node.Did.{IsDid, sub}
use bns_node.Finger.{FingerTable}
use bns_node.Finger.Table
use bns_node.Successor.{SuccessorSeq}
use bns_node.Successor.Update
use bns_node.VNode.{VirtualNode, VNodeType, data_type}
use bns_node.Chord.{PeerRing}
use bns_node.Chord.Ring.{IsValid}

abbrev pub Store : Type 0
Store = List (String × VirtualNode)

-- The node 10 knows 20 and 30.
abbrev pub fingers : FingerTable
fingers = record {
  did = 10;
  size = 160;
  finger = some 20 ∷ some 20 ∷ some 20 ∷ some 20 ∷ some 30 ∷ replicate 155 none;
  fix_finger_index = 3;
}

abbrev pub successors : SuccessorSeq
successors = record { did = 10; max = 3; successors = 20 ∷ 30 ∷ [] }

abbrev pub node : PeerRing Store
node = record {
  did = 10;
  finger = fingers;
  successor_seq = successors;
  predecessor = some 5;
  storage = [];
  cache = [];
}

abbrev pub below : (n : ℕ) → n < 1000 → IsDid n
below n h = omega arith

pub fingers-IsValid : Table.IsValid fingers
fingers-IsValid = record {
  own = omega arith;
  fits = omega arith;
  full_length = refl;
  entries = (
    entry 20 (omega arith) (omega arith),
    (
      entry 20 (omega arith) (omega arith),
      (
        entry 20 (omega arith) (omega arith),
        (
          entry 20 (omega arith) (omega arith),
          (entry 30 (omega arith) (omega arith), All-replicate (Table.IsEntry 10) 155 none tt),
        ),
      ),
    ),
  );
}
  where
    entry : (d : ℕ) → 10 < d → d < 1000 → Table.IsEntry 10 (some d)
    entry d low high = (omega arith, omega arith)

pub successors-IsValid : Update.IsValid successors
unfolding sub
successors-IsValid = record {
  own = omega arith;
  max_byte = omega arith;
  bounded = omega arith;
  rising = ((omega arith, tt), (tt, tt));
  others = ((omega arith, omega arith), ((omega arith, omega arith), tt));
}

pub node-IsValid : IsValid node
node-IsValid = record {
  own = omega arith;
  finger_own = refl;
  finger_size = refl;
  finger_valid = fingers-IsValid;
  succ_own = refl;
  succ_valid = successors-IsValid;
  pred_valid = omega arith;
  index_valid = omega arith;
}
