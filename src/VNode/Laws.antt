-- ===== src/VNode/Laws.antt =====
-- Every branch of `VirtualNode::operate` on the operations that carry a virtual node.
use bns_node.Common.{◌≡◌, ◌≢◌, arith, ok, err, Error}
use bns_node.Subring.{External}
use bns_node.VNode.{
  VirtualNode, data_type, VNodeOperation, overwrite, extend, touch, trimmed, remains, operate,
}

-- The node that an operation on data carries, its error on other kinds, and what it leaves.
pub data IsDataOp (self : VirtualNode)
    : VNodeOperation → Error → VirtualNode → VirtualNode → Type 0 where
  overwriting : (v : VirtualNode) → IsDataOp self (overwrite v) Error.vnode_not_overwritable v v
  extending :
      (v : VirtualNode)
      → IsDataOp self
          (extend v)
          Error.vnode_not_appendable
          v
          (record self { entries = trimmed self.entries v.entries })
  touching :
      (v : VirtualNode)
      → IsDataOp self
          (touch v)
          Error.vnode_not_appendable
          v
          (record self { entries = trimmed (remains v.entries self.entries) v.entries })

-- An operation on data fails, in this order, on a node that holds no data, on a node of another
-- kind than the carried one, and on another identifier; otherwise it succeeds, and the result has
-- the identifier and the kind of the node that was operated on.
pub operate_lem :
    (x : External) (self : VirtualNode) {op : VNodeOperation} {e : Error}
    {other result : VirtualNode}
    → IsDataOp self op e other result
    → (self.kind ≢ data_type → operate x self op ≡ err e)
      × (self.kind ≡ data_type
          → other.kind ≢ data_type
          → operate x self op ≡ err Error.vnode_kind_not_equal)
      × (self.kind ≡ data_type
          → other.kind ≡ data_type
          → self.did ≢ other.did
          → operate x self op ≡ err Error.vnode_did_not_equal)
      × (self.kind ≡ data_type
          → other.kind ≡ data_type
          → self.did ≡ other.did
          → (operate x self op ≡ ok result) × (result.did ≡ self.did) × (result.kind ≡ self.kind))
unfolding operate
operate_lem x self (overwriting v) = ground arith
operate_lem x self (extending v) = ground arith
operate_lem x self (touching v) = ground arith
