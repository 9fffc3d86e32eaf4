-- ===== src/VNode/Data.antt =====
-- What extending and touching do to the entries of a virtual node.
use Prim.Native.String.{String}
use text.Mathlib.Text.{◌==◌ as str_eq}
use text.Mathlib.TextEquality.{eq_iff}
use mathlib.Core.List.{append-nil}
use bns_node.Common.{
  ℕ, zero, suc, ◌+◌, ◌-◌, ◌≤◌, ◌<◌, ◌≡◌, refl, ap, ap₂, sym, ◌∙◌, inl, inr, ◌⊎◌, true, false, List,
  [], ◌∷◌, ◌++◌, length, drop, Member, arith, ==_self, Bool-cases, leb, leb→le, not-leb→lt, subst,
  length-append, length-drop, ok,
}
use bns_node.VNode.{
  VirtualNode, data_type, max_len, contains, remains, trimmed, extend_with, touch_with,
}

Member-contains : (xs : List String) (e : String) → contains xs e ≡ true → Member e xs
unfolding contains
Member-contains [] e h = cc
Member-contains (x ∷ xs) e h = elim (Bool-cases (str_eq x e)) [
  | inl q ↦ inl (sym ((eq_iff x e).0 q))
  | inr q ↦ inr (Member-contains xs e (ground arith))
]

contains-Member : (xs : List String) (e : String) → Member e xs → contains xs e ≡ true
unfolding contains
contains-Member [] e m = absurd m
contains-Member (x ∷ xs) e (inl q) = ground (arith, eq_iff x e)
contains-Member (x ∷ xs) e (inr m) = ground (arith, contains-Member xs e m)

drop-append : (k : ℕ) (xs ys : List String) → k ≤ length xs → drop k (xs ++ ys) ≡ drop k xs ++ ys
drop-append zero xs ys h = refl
drop-append (suc k) [] ys h = absurd (omega arith)
drop-append (suc k) (x ∷ xs) ys h = drop-append k xs ys (omega arith)

-- The last `n` entries.
abbrev pub keep_last : ℕ → List String → List String
keep_last n xs = drop (length xs - n) xs

trimmed-keep_last :
    (old added : List String)
    → length added ≤ max_len
    → trimmed old added ≡ keep_last max_len (old ++ added)
trimmed-keep_last old added h =
    rw (length-append old added)
      (sym (drop-append (length old + length added - max_len) old added (omega arith)))

pub length-trimmed :
    (old added : List String) → length added ≤ max_len → length (trimmed old added) ≤ max_len
length-trimmed old added h = omega (
  arith,
  length-append {0} (drop (length old + length added - max_len) old) added,
  length-drop {0} (length old + length added - max_len) old,
)

-- On nodes of data with the same identifier, extending by at most `max_len` entries gives the
-- last `max_len` entries of the old ones followed by the new ones, and no more than that.
pub extend_with_lem :
    (self other : VirtualNode)
    → self.kind ≡ data_type
    → other.kind ≡ data_type
    → self.did ≡ other.did
    → length other.entries ≤ max_len
    → (extend_with self other
        ≡ ok (record self { entries = keep_last max_len (self.entries ++ other.entries) }))
      × (length (keep_last max_len (self.entries ++ other.entries)) ≤ max_len)
unfolding extend_with
extend_with_lem self other hk ho hd h = (
  rw (hk, ho, hd, ==_self other.did, trimmed-keep_last self.entries other.entries h),
  subst (λ l. length l ≤ max_len) (trimmed-keep_last self.entries other.entries h)
      (length-trimmed self.entries other.entries h),
)

drop_all : (k : ℕ) (xs : List String) → length xs ≤ k → drop k xs ≡ []
drop_all zero [] h = refl
drop_all zero (x ∷ xs) h = absurd (omega arith)
drop_all (suc k) [] h = refl
drop_all (suc k) (x ∷ xs) h = drop_all k xs (omega arith)

-- An extension by more than `max_len` entries breaks the bound: all of them are kept.
pub extend_with_overlong :
    (self other : VirtualNode)
    → self.kind ≡ data_type
    → other.kind ≡ data_type
    → self.did ≡ other.did
    → max_len < length other.entries
    → extend_with self other ≡ ok (record self { entries = other.entries })
unfolding extend_with
extend_with_overlong self other hk ho hd h = rw (
  hk,
  ho,
  hd,
  ==_self other.did,
  drop_all (length self.entries + length other.entries - max_len) self.entries (omega arith),
)

remains-append :
    (others xs ys : List String)
    → remains others (xs ++ ys) ≡ remains others xs ++ remains others ys
unfolding remains
remains-append others [] ys = refl
remains-append others (x ∷ xs) ys = ground (arith, remains-append others xs ys)

-- Entries none of which is among `others`.
Apart : List String → List String → Type 0
Apart others [] = Unit
Apart others (e ∷ es) = (contains others e ≡ false) × Apart others es

remains-Apart : (others xs : List String) → Apart others (remains others xs)
unfolding remains Apart
remains-Apart others [] = tt
remains-Apart others (x ∷ xs) = elim (Bool-cases (contains others x)) [
  | inl e ↦ rw e (remains-Apart others xs)
  | inr e ↦ rw e (e, remains-Apart others xs)
]

drop-Apart :
    (others : List String) (k : ℕ) (xs : List String) → Apart others xs → Apart others (drop k xs)
unfolding Apart
drop-Apart others zero xs h = h
drop-Apart others (suc k) [] h = tt
drop-Apart others (suc k) (x ∷ xs) h = drop-Apart others k xs h.1

Apart-remains : (others xs : List String) → Apart others xs → remains others xs ≡ xs
unfolding remains Apart
Apart-remains others [] h = refl
Apart-remains others (x ∷ xs) h =
    rw h.0 (ap (λ (es : List String). x ∷ es) (Apart-remains others xs h.1))

Apart-Member :
    (others xs : List String) (e : String) → Apart others xs → Member e xs → ¬ Member e others
unfolding Apart
Apart-Member others [] e h m k = m
Apart-Member others (x ∷ xs) e h (inl q) k =
    cc (contains-Member others e k, h.0, ap (contains others) q)
Apart-Member others (x ∷ xs) e h (inr m) k = Apart-Member others xs e h.1 m k

remains_all :
    (others xs : List String)
    → ((e : String) → Member e xs → Member e others)
    → remains others xs ≡ []
unfolding remains
remains_all others [] h = refl
remains_all others (x ∷ xs) h =
    rw (contains-Member others x (h x (inl refl))) (remains_all others xs (λ e m. h e (inr m)))

-- What touching leaves of the old entries.
abbrev pub kept : VirtualNode → VirtualNode → List String
kept self other =
    drop (length (remains other.entries self.entries) + length other.entries - max_len)
      (remains other.entries self.entries)

remains-touched :
    (self other : VirtualNode)
    → remains other.entries (kept self other ++ other.entries) ≡ kept self other
remains-touched self other =
    remains-append other.entries (kept self other) other.entries
    ∙ ap₂ ◌++◌
        (Apart-remains other.entries (kept self other)
          (drop-Apart other.entries _ _ (remains-Apart other.entries self.entries)))
        (remains_all other.entries other.entries (λ e m. m))
    ∙ append-nil (kept self other)

drop_short : (k : ℕ) (xs : List String) → (k ≡ 0) ⊎ (xs ≡ []) → drop k xs ≡ xs
drop_short zero xs h = refl
drop_short (suc k) [] h = refl
drop_short (suc k) (x ∷ xs) h = ground arith

drop_again :
    (n : ℕ) (xs : List String)
    → drop
        (length (drop (length xs + n - max_len) xs) + n - max_len)
        (drop (length xs + n - max_len) xs)
      ≡ drop (length xs + n - max_len) xs
drop_again n xs = drop_short (length rest + n - max_len) rest (elim (Bool-cases (leb n max_len)) [
  | inl h ↦ inl (omega (arith, leb→le n max_len h, length-drop {0} k xs))
  | inr h ↦ inr (drop_all k xs (omega (arith, not-leb→lt n max_len h)))
])
  where
    k : ℕ
    k = length xs + n - max_len

    rest : List String
    rest = drop k xs

-- Touching a node of data with the same identifier keeps, of the old entries, none that is
-- touched, puts the touched entries at the end, and has no further effect if done again.
pub touch_with_lem :
    (self other : VirtualNode)
    → self.kind ≡ data_type
    → other.kind ≡ data_type
    → self.did ≡ other.did
    → (r : VirtualNode) × (touch_with self other ≡ ok r)
      × (r.entries ≡ kept self other ++ other.entries)
      × ((e : String) → Member e (kept self other) → ¬ Member e other.entries)
      × (touch_with r other ≡ ok r)
unfolding touch_with
touch_with_lem self other hk ho hd = (
  record self { entries = kept self other ++ other.entries },
  rw (hk, ho, hd, ==_self other.did),
  refl,
  λ e m.
      Apart-Member other.entries (kept self other) e
        (drop-Apart other.entries _ _ (remains-Apart other.entries self.entries)) m,
  rw (hk, ho, hd, ==_self other.did, remains-touched self other)
      (ap
        (λ (l : List String).
          ok (record { did = other.did; entries = l ++ other.entries; kind = data_type }))
        (drop_again (length other.entries) (remains other.entries self.entries))),
)
