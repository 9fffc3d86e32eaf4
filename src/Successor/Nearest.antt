-- ===== src/Successor/Nearest.antt =====
-- What the list of successors is for: it holds the `max` known nodes that follow the node most
-- closely, whatever the order in which they were heard of.
use bns_node.Common.{
  ℕ, ◌^◌, ◌<◌, ◌≡◌, ◌≢◌, refl, ap, sym, ◌∙◌, inl, inr, ◌⊎◌, Option, List, [], ◌∷◌, All, Member,
  length, take, arith, ◌↔◌, All-Member, All-of_Member, length-take, subst, ok, All-without,
  length-without, Member-without, without-Member,
}
use bns_node.Common.Sort.{insert_by, length-insert_by}
use bns_node.Did.{IsDid, sub}
use bns_node.Successor.{SuccessorSeq, new, extend, remove, keep_some}
use bns_node.Successor.Ordered.{
  IsRising, insert_by-IsRising, take-IsRising, take-cases, Member-insert_by, insert_by-Member,
  Member-take, length-lt, rising_ext, without-IsRising,
}
use bns_node.Successor.Update.{
  IsValid, IsOther, distance, distinct, new-IsValid, IsUpdate, known, too_far, inserted,
  update-IsUpdate,
}

-- The list holds known nodes only, and a known node that is not in it is farther than all in it,
-- which are then as many as are allowed.
pub record IsNearest (s : SuccessorSeq) (Known : ℕ → Type 0) : Type 0 where
  pub sound : (d : ℕ) → Member d s.successors → Known d
  pub complete :
      (d : ℕ)
      → Known d
      → d ≢ s.did
      → Member d s.successors
        ⊎ ((length s.successors ≡ s.max) × All (λ y. sub y s.did < sub d s.did) s.successors)

abbrev pub Or : (ℕ → Type 0) → ℕ → ℕ → Type 0
Or Known d e = Known e ⊎ (e ≡ d)

module _ (s : SuccessorSeq) (d : ℕ) (v : IsValid s) (h : IsDid d) where
  abbrev grown : List ℕ
  grown = insert_by (distance s) d s.successors

  Member-grown : (x : ℕ) → Member x (take s.max grown) → (x ≡ d) ⊎ Member x s.successors
  Member-grown x m =
      Member-insert_by (distance s) x d s.successors (Member-take (distance s) x s.max grown m)

  pub IsUpdate-IsValid : {t : SuccessorSeq} {o : Option ℕ} → IsUpdate s d t o → IsValid t
  IsUpdate-IsValid (known k) = v
  IsUpdate-IsValid (too_far f a) = v
  IsUpdate-IsValid (inserted l e ne fresh there room) = record {
    own = v.own;
    max_byte = v.max_byte;
    bounded = rw e (omega (arith, length-take {0} s.max grown));
    rising = rw e (
        take-IsRising (distance s) s.max grown
          (insert_by-IsRising (distance s) d s.successors (distinct s d v h fresh) v.rising));
    others = rw e (
        All-of_Member (IsOther s.did) (take s.max grown) λ x m. elim (Member-grown x m) [
          | inl p ↦ subst (IsOther s.did) (sym p) (h, ne)
          | inr p ↦ All-Member (IsOther s.did) x s.successors v.others p
        ]);
  }

  -- An update brings in no other node.
  pub IsUpdate-Member :
      (x : ℕ) {t : SuccessorSeq} {o : Option ℕ}
      → IsUpdate s d t o
      → Member x t.successors
      → (x ≡ d) ⊎ Member x s.successors
  IsUpdate-Member x (known k) m = inr m
  IsUpdate-Member x (too_far f a) m = inr m
  IsUpdate-Member x (inserted l e ne fresh there room) m =
      Member-grown x (subst (λ k. Member x k) e m)

  -- What an inserted list leaves out is far away.
  left_out :
      (e : ℕ)
      → (length s.successors < s.max)
        ⊎ ((y : ℕ) × Member y s.successors × (sub d s.did < sub y s.did))
      → length s.successors ≡ s.max
      → All (λ y. sub y s.did < sub e s.did) s.successors
      → (length (take s.max grown) ≡ s.max)
        × All (λ y. sub y s.did < sub e s.did) (take s.max grown)
  left_out e (inl room) full far = absurd (omega arith)
  left_out e (inr (y, m, lt)) full far = (
    omega (arith, length-take {0} s.max grown, length-insert_by {0} (distance s) d s.successors),
    All-of_Member (λ x. sub x s.did < sub e s.did) (take s.max grown)
        λ x k. elim (Member-grown x k) [
          | inl p ↦ ground (
            arith,
            ap (λ (z : ℕ). sub z s.did) p,
            lt,
            All-Member (λ z. sub z s.did < sub e s.did) y s.successors far m,
          )
          | inr p ↦ All-Member (λ z. sub z s.did < sub e s.did) x s.successors far p
        ],
  )

  pub IsUpdate-IsNearest :
      (Known : ℕ → Type 0) {t : SuccessorSeq} {o : Option ℕ}
      → IsUpdate s d t o
      → IsNearest s Known
      → IsNearest t (Or Known d)
  IsUpdate-IsNearest Known (known k) n = record {
    sound = λ e m. inl (n.sound e m);
    complete = λ e q ne. elim q [
      | inl old ↦ n.complete e old ne
      | inr new ↦ elim k [
        | inl p ↦ absurd (ne (new ∙ p))
        | inr p ↦ inl (subst (λ x. Member x s.successors) (sym new) p)
      ]
    ];
  }
  IsUpdate-IsNearest Known (too_far f a) n = record {
    sound = λ e m. inl (n.sound e m);
    complete = λ e q ne. elim q [
      | inl old ↦ n.complete e old ne
      | inr new ↦
          inr (f, subst (λ x. All (λ y. sub y s.did < sub x s.did) s.successors) (sym new) a)
    ];
  }
  IsUpdate-IsNearest Known (inserted l eq ne fresh there room) n = record {
    sound = λ e m. elim (Member-grown e (subst (λ k. Member e k) eq m)) [
      | inl p ↦ inr p
      | inr p ↦ inl (n.sound e p)
    ];
    complete = λ e q other. elim q [
      | inl old ↦ elim (n.complete e old other) [
        | inl m ↦ rw eq (
            take-cases (distance s) e s.max grown rises
              (insert_by-Member (distance s) e d s.successors (inr m)))
        | inr far ↦ inr (rw eq (left_out e room far.0 far.1))
      ]
      | inr new ↦ inl (subst (λ x. Member x l) (sym new) there)
    ];
  }
    where
      rises : IsRising (distance s) grown
      rises = insert_by-IsRising (distance s) d s.successors (distinct s d v h fresh) v.rising

  pub IsUpdate-same :
      {t : SuccessorSeq} {o : Option ℕ} → IsUpdate s d t o → (t.did ≡ s.did) × (t.max ≡ s.max)
  IsUpdate-same (known k) = (refl, refl)
  IsUpdate-same (too_far f a) = (refl, refl)
  IsUpdate-same (inserted l e ne fresh there room) = (refl, refl)

IsNearest-iff :
    (s : SuccessorSeq) (P Q : ℕ → Type 0)
    → ((d : ℕ) → P d → Q d)
    → ((d : ℕ) → Q d → P d)
    → IsNearest s P
    → IsNearest s Q
IsNearest-iff s P Q f g n = record {
  sound = λ d m. f d (n.sound d m);
  complete = λ d q. n.complete d (g d q);
}

pub extend-IsNearest :
    (ds : List ℕ) (s : SuccessorSeq) (Known : ℕ → Type 0)
    → All IsDid ds
    → IsValid s
    → IsNearest s Known
    → (u : SuccessorSeq × List ℕ) × (extend s ds ≡ ok u)
      × IsValid u.0
      × (u.0.did ≡ s.did)
      × (u.0.max ≡ s.max)
      × IsNearest u.0 (λ e. Known e ⊎ Member e ds)
unfolding extend
extend-IsNearest [] s Known hs v n = (
  (s, []),
  refl,
  v,
  refl,
  refl,
  IsNearest-iff s Known (λ e. Known e ⊎ ⊥) (λ d m. inl m)
      (λ d m. elim m [ inl x ↦ x | inr x ↦ absurd x ]) n,
)
extend-IsNearest (d ∷ ds) s Known hs v n =
    let (u, e, up) = update-IsUpdate s d v hs.0 in
    let same = IsUpdate-same s d v hs.0 up in
    let (w, e', v', own, mx, n') =
      extend-IsNearest ds u.0 (Or Known d) hs.1 (IsUpdate-IsValid s d v hs.0 up)
        (IsUpdate-IsNearest s d v hs.0 Known up n) in
    (
      (w.0, keep_some u.1 w.1),
      rw (e, e'),
      v',
      own ∙ same.0,
      mx ∙ same.1,
      IsNearest-iff w.0 (λ x. Or Known d x ⊎ Member x ds) (λ x. Known x ⊎ Member x (d ∷ ds))
          (λ x m. elim m [
            | inl y ↦ elim y [ inl z ↦ inl z | inr z ↦ inr (inl z) ]
            | inr y ↦ inr (inr y)
          ])
          (λ x m. elim m [
            | inl y ↦ inl (inl y)
            | inr y ↦ elim y [ inl z ↦ inl (inr z) | inr z ↦ inr z ]
          ])
          n',
    )

-- A list holds the nearest ones of those that it holds.
pub IsNearest-self : (s : SuccessorSeq) → IsNearest s (λ d. Member d s.successors)
IsNearest-self s = record { sound = λ d m. m; complete = λ d m ne. inl m }

pub IsNearest-new : (did max : ℕ) → IsNearest (new did max) (λ d. ⊥)
unfolding new
IsNearest-new did max = record { sound = λ d m. absurd m; complete = λ d q. absurd q }

-- However many nodes an empty list is extended by, no access panics, and the list holds the `max`
-- of them that follow the node most closely: it stays well-formed, holds none but these nodes,
-- and one that it leaves out is the node itself or is farther than all in a full list.
pub extend_nearest :
    (did max : ℕ) (ds : List ℕ)
    → IsDid did
    → max < 2 ^ 8
    → All IsDid ds
    → (u : SuccessorSeq × List ℕ) × (extend (new did max) ds ≡ ok u)
      × IsValid u.0
      × (u.0.did ≡ did)
      × (u.0.max ≡ max)
      × IsNearest u.0 (λ d. Member d ds)
unfolding new
extend_nearest did max ds hd hm h =
    let (u, e, v, own, mx, n) =
      extend-IsNearest ds (new did max) (λ d. ⊥) h (new-IsValid did max hd hm)
        (IsNearest-new did max) in
    (
      u,
      e,
      v,
      own,
      mx,
      IsNearest-iff u.0 (λ d. ⊥ ⊎ Member d ds) (λ d. Member d ds)
          (λ d m. elim m [ inl x ↦ absurd x | inr x ↦ x ]) (λ d m. inr m) n,
    )

-- Of two such lists for the same node, each holds what the other holds.
subset :
    (s t : SuccessorSeq) (Known : ℕ → Type 0)
    → s.did ≡ t.did
    → s.max ≡ t.max
    → IsValid s
    → IsValid t
    → IsNearest s Known
    → IsNearest t Known
    → (d : ℕ) → Member d s.successors
    → Member d t.successors
subset s t Known own mx v w n m d k =
    elim (m.complete d (n.sound d k)
      (rw (← own) (All-Member (IsOther s.did) d s.successors v.others k).1)) [
        | inl here ↦ here
        | inr far ↦ absurd (
            omega (
              arith,
              far.0,
              v.bounded,
              length-lt (distance t) d t.successors s.successors w.rising
                  (subst (λ o. IsRising (λ x. sub x o) s.successors) own v.rising)
                  (All-of_Member (λ x. Member x s.successors) t.successors (inside far.1)) far.1 k,
            ))
      ]
  where
    inside :
        All (λ y. sub y t.did < sub d t.did) t.successors
        → (x : ℕ) → Member x t.successors
        → Member x s.successors
    inside far x p =
        elim (n.complete x (m.sound x p)
          (rw own (All-Member (IsOther t.did) x t.successors w.others p).1)) [
            | inl here ↦ here
            | inr q ↦
                let near = All-Member (λ y. sub y t.did < sub d t.did) x t.successors far p in
                let back = All-Member (λ y. sub y s.did < sub x s.did) d s.successors q.1 k in
                absurd (omega (arith, near, subst (λ o. sub d o < sub x o) own back))
          ]

-- The order in which nodes are heard of, and how often, does not matter: two lists of the same
-- nodes leave an empty list of successors in the same state.
pub extend_order :
    (did max : ℕ) (ds es : List ℕ)
    → IsDid did
    → max < 2 ^ 8
    → All IsDid ds
    → All IsDid es
    → ((d : ℕ) → Member d ds → Member d es)
    → ((d : ℕ) → Member d es → Member d ds)
    → (u w : SuccessorSeq × List ℕ) × (extend (new did max) ds ≡ ok u)
      × (extend (new did max) es ≡ ok w)
      × (u.0 ≡ w.0)
extend_order did max ds es hd hm h k f g =
    let (u, e, v, own, mx, n) = extend_nearest did max ds hd hm h in
    let (w, e', v', own', mx', n') = extend_nearest did max es hd hm k in
    let m = IsNearest-iff w.0 (λ d. Member d es) (λ d. Member d ds) g f n' in
    let same = own ∙ sym own' in
    let bound = mx ∙ sym mx' in
    let lists : u.0.successors ≡ w.0.successors =
      rising_ext (distance u.0) u.0.successors w.0.successors v.rising
        (subst (λ o. IsRising (λ x. sub x o) w.0.successors) (sym same) v'.rising)
        (subset u.0 w.0 (λ d. Member d ds) same bound v v' n m)
        (subset w.0 u.0 (λ d. Member d ds) (sym same) (sym bound) v' v m n) in
    (u, w, e, e', λ i. record { did = same i; max = bound i; successors = lists i })

-- Removing a node takes out that node alone, and keeps the list well-formed.
pub Member-remove :
    (s : SuccessorSeq) (d : ℕ)
    → IsValid s
    → IsValid (remove s d)
      × ((e : ℕ) → Member e (remove s d).successors ↔ (Member e s.successors × (e ≢ d)))
unfolding remove
Member-remove s d v = (
  record {
    own = v.own;
    max_byte = v.max_byte;
    bounded = omega (arith, length-without s.successors d, v.bounded);
    rising = without-IsRising (distance s) d s.successors v.rising;
    others = All-without (IsOther s.did) s.successors d v.others;
  },
  λ e. (Member-without s.successors e d, λ m. without-Member s.successors e d m.0 m.1),
)
