-- ===== src/Verification/Life.antt =====
-- How long a signed message is accepted.
use bns_node.Common.{
  ℕ, ◌+◌, ◌≤◌, ◌<◌, ◌^◌, ◌≡◌, refl, ap, ◌∙◌, Bool, true, false, not, ◌&&◌, List, ltb, lt→ltb,
  if◌then◌else◌, inl, inr, Bool-cases, arith, Result, ok, err, panic, >>=-eq-ok,
}
use bns_node.Chunk.{max_ttl_ms, ts_offset_tolerance_ms}
use bns_node.Subring.{External}
use bns_node.Session
use bns_node.Session.{Session, SessionSk, SessionSkBuilder, Signers, build, add_u128}
use bns_node.Session.Life.{sign-verify}
use bns_node.Verification.{
  MessageVerification, default_ttl_ms, pack_msg, new, verify, is_ok, is_expired, verify_ext,
}

is_expired-over :
    (v : MessageVerification) (now : ℕ) → max_ttl_ms < v.ttl_ms → is_expired v now ≡ ok false
unfolding is_expired
is_expired-over v now h = rw (lt→ltb max_ttl_ms v.ttl_ms h) refl

is_expired-in :
    (v : MessageVerification) (now : ℕ)
    → is_expired v now ≡ ok false
    → v.ttl_ms ≤ max_ttl_ms
    → v.ts_ms ≤ now + ts_offset_tolerance_ms
    → now ≤ v.ts_ms + v.ttl_ms
unfolding is_expired add_u128
is_expired-in v now e h k = ground arith

-- Of a message with the usual life.
is_expired-own :
    (v : MessageVerification) (now : ℕ)
    → v.ttl_ms ≡ default_ttl_ms
    → ts_offset_tolerance_ms ≤ v.ts_ms
    → v.ts_ms + default_ttl_ms < 2 ^ 128
    → is_expired v now ≡ ok (ltb (v.ts_ms + default_ttl_ms) now)
unfolding is_expired add_u128
is_expired-own v now e le fits = ground arith

is_ok-eq : (r : Result (Unit {0})) → is_ok r ≡ ok true → r ≡ ok tt
is_ok-eq (ok u) e = refl
is_ok-eq (err w) e = absurd (cc)
is_ok-eq panic e = absurd (cc)

pick :
    (b : Bool) (r : Result Bool)
    → (if b then ok false else r) ≡ ok true
    → (b ≡ false) × (r ≡ ok true)
pick true r e = absurd (cc)
pick false r e = (refl, e)

module _ (x : External) (g : Signers) where
  -- A message that is accepted carries a signature that its session verifies at that time; and if
  -- its life is not over the maximum, and its time not ahead of the clock by more than the
  -- tolerance, then its life is not over.
  pub verify_ext_lem :
      (v : MessageVerification) (now : ℕ) (bytes : List ℕ)
      → verify_ext x g v now bytes ≡ ok true
      → (Session.verify x g v.session now (pack_msg bytes v.ts_ms v.ttl_ms) v.sig ≡ ok tt)
        × (v.ttl_ms ≤ max_ttl_ms
            → v.ts_ms ≤ now + ts_offset_tolerance_ms
            → now ≤ v.ts_ms + v.ttl_ms)
  unfolding verify_ext verify
  verify_ext_lem v now bytes e =
      let (expired, told, rest) = >>=-eq-ok (is_expired v now) _ e in
      let (fresh, good) = pick expired (verify g x v now bytes) rest in
      (is_ok-eq _ good, is_expired-in v now (told ∙ ap ok fresh))

  -- A message whose life is over the maximum is not refused for that: it is accepted whenever its
  -- session verifies it, however long its life has been over.
  pub verify_ext_overlong :
      (v : MessageVerification) (now : ℕ) (bytes : List ℕ)
      → max_ttl_ms < v.ttl_ms
      → Session.verify x g v.session now (pack_msg bytes v.ts_ms v.ttl_ms) v.sig ≡ ok tt
      → verify_ext x g v now bytes ≡ ok true
  unfolding verify_ext verify
  verify_ext_overlong v now bytes h good = rw (is_expired-over v now h, good) refl

  -- A message signed at some time with the key of a session that has been built is accepted exactly
  -- up to the end of its life or of the session, whichever is first, if the signature of the key on
  -- it is verified against the key's address.
  pub new-verify_ext :
      (b : SessionSkBuilder) (built : ℕ) (k : SessionSk) (bytes : List ℕ) (sent now : ℕ)
      → build x g b built ≡ ok k
      → g.secp256k1_verify
          (pack_msg bytes sent default_ttl_ms)
          (g.secret_address b.sk)
          (g.sign b.sk (g.keccak256 (pack_msg bytes sent default_ttl_ms)))
        ≡ true
      → ts_offset_tolerance_ms ≤ sent
      → sent + default_ttl_ms < 2 ^ 128
      → verify_ext x g (new g bytes k sent) now bytes
        ≡ ok (not (ltb (sent + default_ttl_ms) now) && not (ltb (b.ts_ms + b.ttl_ms) now))
  unfolding verify_ext verify new
  new-verify_ext b built k bytes sent now e good le fits =
      let msg = pack_msg bytes sent default_ttl_ms in
      let ended = is_expired-own (new g bytes k sent) now refl le fits in
      let life = sign-verify x g b built k msg e good now in
      elim (Bool-cases (ltb (sent + default_ttl_ms) now)) [
        | inl late ↦ rw (ended, late) refl
        | inr early ↦ rw (ended, early, life) (ground arith)
      ]
