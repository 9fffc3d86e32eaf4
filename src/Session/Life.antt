-- ===== src/Session/Life.antt =====
-- For how long a session holds.
use bns_node.Common.{
  ℕ, ◌+◌, ◌≤◌, ◌<◌, ◌^◌, ◌≡◌, refl, true, List, ltb, if◌then◌else◌, inl, inr, Bool-cases, arith,
  lt→ltb, ap, sym, ◌∙◌, ok, err, >>=-eq-ok, Error,
}
use bns_node.Subring.{External}
use bns_node.Session.{
  Session, SessionSk, SessionSkBuilder, Signers, build, verify_self, verify, sign, try_from,
  is_expired, add_u128, signed_by, pack,
}

module _ (x : External) (g : Signers) where
  -- What a session that is verified says: its time is not over, and the account has signed it.
  pub record Holds (s : Session) (now : ℕ) : Type 0 where
    pub fits : s.ts_ms + s.ttl_ms < 2 ^ 128
    pub in_time : now ≤ s.ts_ms + s.ttl_ms
    pub signed : signed_by g s.account (pack x g s) s.sig ≡ true

  pub verify_self-Holds : (s : Session) (now : ℕ) → verify_self x g s now ≡ ok tt → Holds s now
  unfolding verify_self is_expired add_u128
  verify_self-Holds s now e = record {
    fits = ground arith;
    in_time = ground arith;
    signed = ground arith;
  }

  -- What held once holds exactly up to its end.
  pub Holds-verify_self :
      (s : Session) (now t : ℕ)
      → Holds s now
      → verify_self x g s t
        ≡ (if ltb (s.ts_ms + s.ttl_ms) t then err Error.session_expired else ok tt)
  unfolding verify_self is_expired add_u128
  Holds-verify_self s now t h = rw (lt→ltb (s.ts_ms + s.ttl_ms) (2 ^ 128) h.fits, h.signed) refl

  -- A session that has been built, at whatever time, is verified at a time exactly if that is not
  -- after its end; after its end it is refused as expired. Its key is the builder's and its
  -- identifier is that key's address.
  pub build-verify_self :
      (b : SessionSkBuilder) (now : ℕ) (k : SessionSk)
      → build x g b now ≡ ok k
      → (k.sk ≡ b.sk)
        × (k.session.session_id ≡ g.secret_address b.sk)
        × ((t : ℕ)
            → verify_self x g k.session t
              ≡ (if ltb (b.ts_ms + b.ttl_ms) t then err Error.session_expired else ok tt))
  unfolding build
  build-verify_self b now k e =
      let (account, parsed, rest) = >>=-eq-ok (try_from x g b.account_entity b.account_type) _ e in
      let s : Session = record {
        session_id = g.secret_address b.sk;
        account = account;
        ttl_ms = b.ttl_ms;
        ts_ms = b.ts_ms;
        sig = b.sig;
      } in
      let (u, held, made) = >>=-eq-ok (verify_self x g s now) _ rest in
      let same : k ≡ record { session = s; sk = b.sk } = ok-injective (sym made) in
      (
        ap (λ (y : SessionSk). y.sk) same,
        ap (λ (y : SessionSk). y.session.session_id) same,
        λ t.
            ap (λ (y : SessionSk). verify_self x g y.session t) same
            ∙ Holds-verify_self s now t (verify_self-Holds s now held),
      )
    where
      ok-injective : {p q : SessionSk} → ok p ≡ ok q → p ≡ q
      ok-injective e = cc

  -- A message signed with the key of a session that has been built is verified exactly up to the
  -- session's end, if the signature of a key on the hash of a message is verified against the key's
  -- address.
  pub sign-verify :
      (b : SessionSkBuilder) (now : ℕ) (k : SessionSk) (msg : List ℕ)
      → build x g b now ≡ ok k
      → g.secp256k1_verify msg (g.secret_address b.sk) (g.sign b.sk (g.keccak256 msg)) ≡ true
      → (t : ℕ)
      → verify x g k.session t msg (sign g k msg)
        ≡ (if ltb (b.ts_ms + b.ttl_ms) t then err Error.session_expired else ok tt)
  unfolding verify sign
  sign-verify b now k msg e good t =
      let (key, id, life) = build-verify_self b now k e in
      elim (Bool-cases (ltb (b.ts_ms + b.ttl_ms) t)) [
        | inl late ↦ rw (life t, late) refl
        | inr early ↦ rw (life t, early, key, id, good) refl
      ]
