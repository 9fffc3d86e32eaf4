-- ===== src/Callback/Sound.antt =====
-- Whatever happens to a node, its part of the ring stays well-formed.
use Prim.Native.String.{String}
use bns_node.Common.{ℕ, Bool, false, List, [], ◌==◌, if◌then◌else◌}
use bns_node.Chunk.{Chunk}
use bns_node.Chord.Ring.{IsValid}
use bns_node.Swarm.{Env, SwarmTransport, WebrtcConnectionState}
use bns_node.Facade.Request.{Request, perform, perform-Keeps}
use bns_node.Callback.{
  InnerSwarmCallback, SwarmCallback, on_message, on_peer_connection_state_change,
  on_data_channel_open,
}
use bns_node.Callback.Keeps.{
  IsTyped, IsParser, on_message-Keeps, state_change-Keeps, channel_open-Keeps,
}

-- A node with its connections: each has a pool of chunks and the lock of that, by a number that tells
-- the callbacks apart.
pub record Node (S T P : Type 0) : Type 0 where
  pub swarm : SwarmTransport S T
  pub app : P
  pub pools : ℕ → List Chunk × Bool

module _ {S T P : Type 0} where
  abbrev pub callback : Node S T P → ℕ → InnerSwarmCallback S T P
  callback n i = record {
    swarm = n.swarm;
    app = n.app;
    chunk_list = (n.pools i).0;
    locked = (n.pools i).1;
  }

  abbrev put_pool_of : Node S T P → ℕ → List Chunk × Bool → ℕ → List Chunk × Bool
  put_pool_of n i pool j = if j == i then pool else n.pools j

  -- The node after a call of one of its callbacks.
  abbrev pub after : Node S T P → ℕ → InnerSwarmCallback S T P → Node S T P
  after n i c = record {
    swarm = c.swarm;
    app = c.app;
    pools = put_pool_of n i (c.chunk_list, c.locked);
  }

module _ {S T C P : Type 0} (env : Env S T C) (app : SwarmCallback P) where
  -- What happens to a node: it makes a callback for a connection; the transport tells a callback of
  -- bytes that are received, of a connection whose state changes and of one that opens; the
  -- application or a timer asks something of the node.
  pub data Step : Node S T P → Node S T P → Type 0 where
    connected : (i : ℕ) (n : Node S T P) → Step n (record n { pools = put_pool_of n i ([], false) })
    received :
        (i fuel : ℕ) (bytes : List ℕ) (n : Node S T P)
        → Step n (after n i (on_message env app fuel bytes (callback n i)).0)
    state_changed :
        (i : ℕ) (cid : String) (s : WebrtcConnectionState) (n : Node S T P)
        → Step n (after n i (on_peer_connection_state_change env app cid s (callback n i)).0)
    opened :
        (i : ℕ) (cid : String) (n : Node S T P)
        → Step n (after n i (on_data_channel_open env app cid (callback n i)).0)
    asked : (q : Request) (n : Node S T P) → Step n (record n { swarm = (perform env q n.swarm).0 })

  pub data Reach (n : Node S T P) : Node S T P → Type 0 where
    start : Reach n n
    later : {d e : Node S T P} → Reach n d → Step d e → Reach n e

  Step-IsWell :
      {c d : Node S T P}
      → IsTyped env.codec
      → IsParser env.ext
      → Step c d
      → IsValid c.swarm.dht
      → IsValid d.swarm.dht
  Step-IsWell typed parser (connected i n) v = v
  Step-IsWell typed parser (received i fuel bytes n) v =
      (on_message-Keeps env app fuel bytes typed).keeps (callback n i) v
  Step-IsWell typed parser (state_changed i cid s n) v =
      (state_change-Keeps env app cid s).keeps (callback n i) v
  Step-IsWell typed parser (opened i cid n) v =
      (channel_open-Keeps env app cid parser).keeps (callback n i) v
  Step-IsWell typed parser (asked q n) v = (perform-Keeps env q).keeps n.swarm v

  -- If whatever is parsed or deserialized as an identifier is one, then a node that starts with a
  -- well-formed part of the ring has one after any messages, of any kind and from anybody and on any
  -- of its connections, opened connections, changes of connections, requests of the application and
  -- rounds of stabilization, in any order, whether they end well, fail, panic or wait for good.
  pub Reach-IsValid :
      {c d : Node S T P}
      → IsTyped env.codec
      → IsParser env.ext
      → IsValid c.swarm.dht
      → Reach c d
      → IsValid d.swarm.dht
  Reach-IsValid typed parser v start = v
  Reach-IsValid typed parser v (later r step) =
      Step-IsWell typed parser step (Reach-IsValid typed parser v r)
