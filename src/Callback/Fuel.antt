-- ===== src/Callback/Fuel.antt =====
-- Receiving a message: how often a completed message is received in turn.
use bns_node.Common.{
  ℕ, suc, ◌≡◌, refl, Bool, true, false, Option, none, some, List, ap, if◌then◌else◌, Result, ok,
  err, panic,
}
use bns_node.Effect.{Effect, ◌>>=◌, continue}
use bns_node.Chunk
use bns_node.Chunk.{Chunk}
use bns_node.Message.{Message}
use bns_node.Payload.{MessagePayload, decoded, from_bincode, message_of}
use bns_node.Swarm.{Env}
use bns_node.Callback.{
  InnerSwarmCallback, SwarmCallback, Progress, on_message, receive, handle_payload, dispatch,
  add_chunk, whole, release, put_pool, put_app, if_verified, verified,
}

module _ {S T C P : Type 0} (env : Env S T C) (app : SwarmCallback P) where
  abbrev Receive : Type 0
  Receive = List ℕ → Effect (InnerSwarmCallback S T P) Progress

  -- The two agree on a completed message, which is received with the lock held.
  abbrev IsSame : InnerSwarmCallback S T P → Receive → Receive → Type 0
  IsSame c f g =
      (bytes : List ℕ) (d : InnerSwarmCallback S T P)
      → c.locked ≡ false
      → d.locked ≡ true
      → f bytes d ≡ g bytes d

  dispatch-same :
      (f g : Receive) (p : MessagePayload) (msg : Message) (c : InnerSwarmCallback S T P)
      → IsSame c f g
      → dispatch env app f p msg c ≡ dispatch env app g p msg c
  unfolding dispatch add_chunk whole continue put_pool
  dispatch-same f g p (Message.chunk ch) c h = asked c.locked refl
    where
      added :
          c.locked ≡ false
          → (r : Result (List Chunk × Option (List ℕ)))
          → continue (put_pool c r) (whole env app f p)
            ≡ continue (put_pool c r) (whole env app g p)
      added free (ok (left, some bytes)) =
          ap (λ (q : InnerSwarmCallback S T P × Result Progress). release q)
            (h bytes (record c { chunk_list = left; locked = true }) free refl)
      added free (ok (left, none)) = refl
      added free (err w) = refl
      added free panic = refl

      asked :
          (b : Bool)
          → c.locked ≡ b
          → (if b then (c, ok Progress.waits) else (add_chunk env app ch >>= whole env app f p) c)
            ≡ (if b then (c, ok Progress.waits) else (add_chunk env app ch >>= whole env app g p) c)
      asked true held = refl
      asked false free =
          added free (Chunk.handle c.chunk_list (env.net.get_epoch_ms c.swarm.transport) ch)
  dispatch-same f g p _ c h = refl

  receive-same :
      (f g : Receive) (bytes : List ℕ) (c : InnerSwarmCallback S T P)
      → IsSame c f g
      → receive env app f bytes c ≡ receive env app g bytes c
  unfolding receive continue if_verified handle_payload put_app
  receive-same f g bytes c h = decode (from_bincode env.signers env.codec bytes) refl
    where
      Goal : Type 0
      Goal = receive env app f bytes c ≡ receive env app g bytes c

      read :
          (p : MessagePayload) (r : Result Message)
          → from_bincode env.signers env.codec bytes ≡ ok p
          → verified env app c p ≡ ok true
          → (app.on_validate c.app p).1 ≡ ok tt
          → message_of env.signers env.codec p.transaction ≡ r
          → Goal
      read p (ok msg) d e v k =
          rw (d, e, v, k)
            (dispatch-same f g p msg (record c { app = (app.on_validate c.app p).0 }) h)
      read p (err w) d e v k = rw (d, e, v, k) refl
      read p panic d e v k = rw (d, e, v, k) refl

      validate :
          (p : MessagePayload) (r : Result (Unit {0}))
          → from_bincode env.signers env.codec bytes ≡ ok p
          → verified env app c p ≡ ok true
          → (app.on_validate c.app p).1 ≡ r
          → Goal
      validate p (ok u) d e v = read p (message_of env.signers env.codec p.transaction) d e v refl
      validate p (err w) d e v = rw (d, e, v) refl
      validate p panic d e v = rw (d, e, v) refl

      check :
          (p : MessagePayload) (r : Result Bool)
          → from_bincode env.signers env.codec bytes ≡ ok p
          → verified env app c p ≡ r
          → Goal
      check p (ok true) d e = validate p (app.on_validate c.app p).1 d e refl
      check p (ok false) d e = rw (d, e) refl
      check p (err w) d e = rw (d, e) refl
      check p panic d e = rw (d, e) refl

      decode : (r : Result MessagePayload) → from_bincode env.signers env.codec bytes ≡ r → Goal
      decode (ok p) d = check p (verified env app c p) d refl
      decode (err w) d = rw d refl
      decode panic d = rw d refl

  pub read_message :
      (p : MessagePayload) (msg : Message)
      → message_of env.signers env.codec p.transaction ≡ ok msg
      → env.codec.deserialize p.transaction.bytes ≡ some msg
  unfolding message_of
  read_message p msg e = decoded-ok (env.codec.deserialize p.transaction.bytes) e
    where
      decoded-ok : (o : Option Message) → decoded o ≡ ok msg → o ≡ some msg
      decoded-ok none q = absurd (cc)
      decoded-ok (some a) q = cc

  -- A message that a chunk completes is received in turn, and that is as deep as it goes: on any
  -- state of the node and of the connection, with any fuel of two or more, receiving a message is
  -- running the body of `on_message` with itself for the completed message and with anything at
  -- all for a message completed inside that one, which is never received. So the fuel does not run
  -- out.
  pub on_message_enough :
      (f : Receive) (n : ℕ) (bytes : List ℕ) (c : InnerSwarmCallback S T P)
      → on_message env app (suc (suc n)) bytes c ≡ receive env app (receive env app f) bytes c
  unfolding on_message
  on_message_enough f n bytes c =
      receive-same (on_message env app (suc n)) (receive env app f) bytes c λ put d free held.
        receive-same (on_message env app n) f put d λ more e free' held'. absurd (cc)
