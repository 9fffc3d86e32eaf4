-- ===== src/Callback/Guard.antt =====
-- What a received message must carry before it is looked at.
use bns_node.Common.{
  ℕ, suc, ◌≡◌, ◌≢◌, refl, ap, ◌∙◌, Bool, true, false, not, List, inl, inr, ◌⊎◌, Result, ok, err,
  panic, >>=-eq-ok, if◌then◌else◌,
}
use bns_node.Effect.{continue}
use bns_node.Session
use bns_node.Verification.{MessageVerification, pack_msg}
use bns_node.Verification.Life.{verify_ext_lem}
use bns_node.Payload.{
  MessagePayload, from_bincode, transaction_hash, verify_payload, verify_transaction,
}
use bns_node.Swarm.{Env}
use bns_node.Callback.{
  InnerSwarmCallback, SwarmCallback, Progress, on_message, receive, verified, if_verified,
}

module _ {S T C P : Type 0} (env : Env S T C) (app : SwarmCallback P) where
  abbrev IsSigned : ℕ → MessageVerification → List ℕ → Type 0
  IsSigned now v bytes =
      Session.verify env.ext env.signers v.session now (pack_msg bytes v.ts_ms v.ttl_ms) v.sig
      ≡ ok tt

  -- The session of the last sender has signed the payload, and that of the author the transaction,
  -- both over the hash of the transaction.
  pub record IsAuthentic (now : ℕ) (p : MessagePayload) : Type 0 where
    pub by_sender : IsSigned now p.verification (transaction_hash env.ext env.signers p.transaction)
    pub by_author :
        IsSigned now p.transaction.verification (transaction_hash env.ext env.signers p.transaction)

  split :
      (b : Bool) (r : Result Bool)
      → (if not b then ok false else r) ≡ ok true
      → (b ≡ true) × (r ≡ ok true)
  split true r e = (refl, e)
  split false r e = absurd (cc)

  verified-IsAuthentic :
      (c : InnerSwarmCallback S T P) (p : MessagePayload)
      → verified env app c p ≡ ok true
      → IsAuthentic (env.net.get_epoch_ms c.swarm.transport) p
  unfolding verified verify_payload verify_transaction
  verified-IsAuthentic c p e =
      let now = env.net.get_epoch_ms c.swarm.transport in
      let (first, told, rest) = >>=-eq-ok (verify_payload env.ext env.signers p now) _ e in
      let (one, two) =
        split first (verify_transaction env.ext env.signers p.transaction now) rest in
      record {
        by_sender = (verify_ext_lem env.ext env.signers p.verification now _ (told ∙ ap ok one)).0;
        by_author = (verify_ext_lem env.ext env.signers p.transaction.verification now _ two).0;
      }

  -- A received message is looked at only if it is a payload that both the last sender and the author
  -- have signed with sessions that hold: otherwise nothing at all changes, neither the node, nor the
  -- transport, nor the application, nor the pool of chunks, and receiving it does not end well.
  pub on_message-IsAuthentic :
      (fuel : ℕ) (bytes : List ℕ) (c : InnerSwarmCallback S T P)
      → ((p : MessagePayload) × (from_bincode env.signers env.codec bytes ≡ ok p)
          × IsAuthentic (env.net.get_epoch_ms c.swarm.transport) p)
        ⊎ (((on_message env app (suc fuel) bytes c).0 ≡ c)
            × ((r : Progress) → (on_message env app (suc fuel) bytes c).1 ≢ ok r))
  unfolding on_message receive continue if_verified
  on_message-IsAuthentic fuel bytes c = decode (from_bincode env.signers env.codec bytes) refl
    where
      Goal : Type 0
      Goal =
          ((p : MessagePayload) × (from_bincode env.signers env.codec bytes ≡ ok p)
            × IsAuthentic (env.net.get_epoch_ms c.swarm.transport) p)
          ⊎ (((on_message env app (suc fuel) bytes c).0 ≡ c)
              × ((r : Progress) → (on_message env app (suc fuel) bytes c).1 ≢ ok r))

      check :
          (p : MessagePayload) (r : Result Bool)
          → from_bincode env.signers env.codec bytes ≡ ok p
          → verified env app c p ≡ r
          → Goal
      check p (ok true) d e = inl (p, d, verified-IsAuthentic c p e)
      check p (ok false) d e = inr (rw (d, e) (refl, λ r q. cc))
      check p (err w) d e = inr (rw (d, e) (refl, λ r q. cc))
      check p panic d e = inr (rw (d, e) (refl, λ r q. cc))

      decode : (r : Result MessagePayload) → from_bincode env.signers env.codec bytes ≡ r → Goal
      decode (ok p) d = check p (verified env app c p) d refl
      decode (err w) d = inr (rw d (refl, λ r q. cc))
      decode panic d = inr (rw d (refl, λ r q. cc))
