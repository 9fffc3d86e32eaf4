-- ===== src/Connections/Pool.antt =====
-- crates/transport/src/pool.rs: the connections of a node by their names, and
-- crates/transport/src/notifier.rs. A connection's state, and closing it, are those of the library;
-- `free` tells whether the entry could be locked.
use Prim.Native.String.{String}
use text.Mathlib.Text.{◌==◌ as str_eq}
use text.Mathlib.TextEquality.{eq_iff}
use text.Mathlib.TextPositions.{eq_refl}
use bns_node.Common.{
  ◌≡◌, refl, ap, subst, ◌∙◌, inl, inr, ◌⊎◌, Bool, true, false, Option, none, some, List, [], ◌∷◌,
  ◌++◌, if◌then◌else◌, Bool-cases, Result, ok, err, Error,
}
use bns_node.Connections.Entries.{lookup, without, lookup-without}
use bns_node.Swarm.{WebrtcConnectionState}

abbrev pub Pool : Type 0 → Type 0
Pool C = List (String × C)

abbrev or_missing : {C : Type 0} → Option C → Result C
or_missing none = err Error.connection_not_found
or_missing (some conn) = ok conn

unfoldable pub connection : {C : Type 0} → Pool C → String → Result C
connection m cid = or_missing (lookup cid m)

abbrev pub is_live : WebrtcConnectionState → Bool
is_live WebrtcConnectionState.new = true
is_live WebrtcConnectionState.connecting = true
is_live WebrtcConnectionState.connected = true
is_live _ = false

module _ {C : Type 0} (state : C → WebrtcConnectionState) where
  abbrev put : Pool C → String → C → Pool C
  put m cid conn = (cid, conn) ∷ without cid m

  -- An entry that is there is replaced only when its connection is no longer of use.
  abbrev insert_at : Option C → Pool C → String → C → Pool C × Result (Unit {0})
  insert_at none m cid conn = (put m cid conn, ok tt)
  insert_at (some existed) m cid conn =
      if is_live (state existed)
      then (m, err Error.connection_already_exists)
      else (put m cid conn, ok tt)

  unfoldable pub safely_insert : Bool → Pool C → String → C → Pool C × Result (Unit {0})
  safely_insert free m cid conn =
      if free then insert_at (lookup cid m) m cid conn else (m, err Error.connection_already_exists)

  -- What inserting a connection does, and what it leaves alone.
  abbrev pub IsInserted : Pool C → String → C → Pool C × Result (Unit {0}) → Type 0
  IsInserted m cid conn p =
      ((key : String) (c : C)
        → lookup key m ≡ some c
        → is_live (state c) ≡ true
        → lookup key p.0 ≡ some c)
      × (((p.1 ≡ ok tt)
            × (lookup cid p.0 ≡ some conn)
            × ((key : String) → str_eq cid key ≡ false → lookup key p.0 ≡ lookup key m))
          ⊎ ((p.1 ≡ err Error.connection_already_exists) × (p.0 ≡ m)))

  refused-IsInserted :
      (m : Pool C) (cid : String) (conn : C)
      → IsInserted m cid conn (m, err Error.connection_already_exists)
  refused-IsInserted m cid conn = ((λ key c e live. e), inr (refl, refl))

  other_key :
      (m : Pool C) (cid : String) (conn : C) (key : String)
      → str_eq cid key ≡ false
      → lookup key (put m cid conn) ≡ lookup key m
  unfolding lookup
  other_key m cid conn key e = rw e (lookup-without cid key m ∙ rw e refl)

  put-IsInserted :
      (m : Pool C) (cid : String) (conn : C)
      → ((c : C) → lookup cid m ≡ some c → is_live (state c) ≡ false)
      → IsInserted m cid conn (put m cid conn, ok tt)
  unfolding lookup
  put-IsInserted m cid conn dead = (keep, inl (refl, rw (eq_refl cid) refl, other_key m cid conn))
    where
      keep :
          (key : String) (c : C)
          → lookup key m ≡ some c
          → is_live (state c) ≡ true
          → lookup key (put m cid conn) ≡ some c
      keep key c e live = elim (Bool-cases (str_eq cid key)) [
        | inl same ↦
            let here : lookup cid m ≡ some c =
              ap (λ (k : String). lookup k m) ((eq_iff cid key).0 same) ∙ e in
            let gone : is_live (state c) ≡ false = dead c here in absurd (cc)
        | inr differ ↦ other_key m cid conn key differ ∙ e
      ]

  -- Inserting a connection never drops a live one: under every name with a live connection there is
  -- the same one afterwards. If it ends well then the new connection is found by its name, and what
  -- is found by any other name is the same as before; otherwise nothing has changed.
  pub safely_insert_lem :
      (free : Bool) (m : Pool C) (cid : String) (conn : C)
      → IsInserted m cid conn (safely_insert free m cid conn)
  unfolding safely_insert
  safely_insert_lem false m cid conn = refused-IsInserted m cid conn
  safely_insert_lem true m cid conn = at (lookup cid m) refl
    where
      at : (o : Option C) → lookup cid m ≡ o → IsInserted m cid conn (insert_at o m cid conn)
      at none e = put-IsInserted m cid conn λ c q. absurd (cc)
      at (some existed) e = test (is_live (state existed)) refl
        where
          test :
              (b : Bool)
              → is_live (state existed) ≡ b
              → IsInserted m cid conn
                  (if b then (m, err Error.connection_already_exists) else (put m cid conn, ok tt))
          test true q = refused-IsInserted m cid conn
          test false q =
              put-IsInserted m cid conn
                λ c h. let same : existed ≡ c = cc in subst (λ d. is_live (state d) ≡ false) same q

  -- A connection that is removed is closed as well, however that ends.
  unfoldable pub safely_remove :
      (C → Result (Unit {0})) → Pool C → String → Pool C × Result (Unit {0})
  safely_remove close m cid = elim (lookup cid m) [
    | none ↦ (m, err Error.connection_not_found)
    | some conn ↦ (without cid m, close conn)
  ]

-- `Notifier`: those that wait are told once, and whoever polls afterwards is ready.
pub record NotifierState (W : Type 0) : Type 0 where
  pub woken : Bool
  pub wakers : List W

pub data Poll : Type 0 where
  pending ready : Poll

-- The wakers that are called are returned.
unfoldable pub wake : {W : Type 0} → NotifierState W → NotifierState W × List W
wake s = (record { woken = true; wakers = [] }, s.wakers)

unfoldable pub poll : {W : Type 0} → NotifierState W → W → NotifierState W × Poll
poll s waker =
    if s.woken
    then (s, Poll.ready)
    else (record s { wakers = s.wakers ++ waker ∷ [] }, Poll.pending)
