-- ===== src/Did/Rotate.antt =====
-- `Rotate` and `rotate_affine` of crates/core/src/dht/did.rs. Angles are u16; the products
-- `i * angle` are at most 360 and do not wrap.
use bns_node.Common.{
  ℕ, zero, suc, ◌+◌, ◌*◌, ◌/◌, ◌^◌, ◌≤◌, ◌<◌, ◌≡◌, ◌≢◌, refl, ap, ◌∙◌, List, [], ◌∷◌, Option, none,
  some, length, get_elem?, All, lt-length_of_get_elem?, sym, arith,
}
use native.Mathlib.Nat.{
  le-div_iff_mul-le, lt_of_lt_of_le, mul-lt-mul_of_pos_right, mul-div-le, ne_of_lt,
}
use bns_node.Did.{IsDid, from_biguint, add}

unfoldable pub rotate : ℕ → ℕ → ℕ
rotate self angle = add self (from_biguint (2 ^ 160 * angle / 360))

-- `count` rotations by the multiples of `angle` from the `i`-th on.
unfoldable pub rotations : ℕ → ℕ → ℕ → ℕ → List ℕ
rotations self angle i zero = []
rotations self angle i (suc count) = rotate self (i * angle) ∷ rotations self angle (suc i) count

-- `none` is the panic of `360 / 0`.
unfoldable pub rotate_affine : ℕ → ℕ → Option (List ℕ)
unfolding rotations
rotate_affine self zero = none
rotate_affine self (suc n) = some (rotations self (360 / suc n) 0 (suc n))

pub rotate-zero : (d : ℕ) → IsDid d → rotate d 0 ≡ d
unfolding rotate add
rotate-zero d h = omega arith

rotate-injective : (d k m : ℕ) → IsDid d → k < 360 → m < 360 → rotate d k ≡ rotate d m → k ≡ m
unfolding rotate add
rotate-injective d k m h hk hm e = omega arith

get_elem?-rotations :
    (d angle i count j : ℕ)
    → j < count
    → get_elem? (rotations d angle i count) j ≡ some (rotate d ((i + j) * angle))
unfolding rotations
get_elem?-rotations d angle i zero j h = absurd (omega arith)
get_elem?-rotations d angle i (suc count) zero h =
    ap (λ (t : ℕ). some (rotate d (t * angle))) (omega arith)
get_elem?-rotations d angle i (suc count) (suc j) h =
    rw (get_elem?-rotations d angle (suc i) count j (omega arith))
      (ap (λ (t : ℕ). some (rotate d (t * angle))) (omega arith))

length-rotations : (d angle i count : ℕ) → length (rotations d angle i count) ≡ count
unfolding rotations
length-rotations d angle i zero = refl
length-rotations d angle i (suc count) = ap suc (length-rotations d angle (suc i) count)

step-pos : (n : ℕ) → 0 < n → n ≤ 360 → 0 < 360 / n
step-pos n pos le = (le-div_iff_mul-le pos).1 (omega arith)

step-lt : (n i : ℕ) → i < n → n ≤ 360 → i * (360 / n) < 360
step-lt n i h le =
    lt_of_lt_of_le (mul-lt-mul_of_pos_right h (step-pos n (omega arith) le)) (mul-div-le 360 n)

step-ne : (n i j : ℕ) → i < j → j < n → n ≤ 360 → i * (360 / n) ≢ j * (360 / n)
step-ne n i j h hn le = ne_of_lt (mul-lt-mul_of_pos_right h (step-pos n (omega arith) le))

rotations_at :
    (d angle n i : ℕ) → i < n → get_elem? (rotations d angle 0 n) i ≡ some (rotate d (i * angle))
rotations_at d angle n i h =
    get_elem?-rotations d angle 0 n i h ∙ ap (λ (t : ℕ). some (rotate d (t * angle))) (omega arith)

rotations_first : (d angle n : ℕ) → IsDid d → get_elem? (rotations d angle 0 (suc n)) 0 ≡ some d
rotations_first d angle n hd =
    rotations_at d angle (suc n) 0 (omega arith)
    ∙ ap (λ (t : ℕ). some (rotate d t)) (omega arith)
    ∙ ap some (rotate-zero d hd)

rotations-ne :
    (d n i j : ℕ)
    → IsDid d
    → i < j
    → j < n
    → n ≤ 360
    → get_elem? (rotations d (360 / n) 0 n) i ≢ get_elem? (rotations d (360 / n) 0 n) j
rotations-ne d n i j hd h hn le e = step-ne n i j h hn le (
    rotate-injective d (i * (360 / n)) (j * (360 / n)) hd (step-lt n i (omega arith) le)
      (step-lt n j hn le)
      (ground
        (arith, e, get_elem?-rotations d (360 / n) 0 n i, get_elem?-rotations d (360 / n) 0 n j)))

-- With a scalar from 1 to 360 there are that many rotations, the first of which is the
-- identifier itself; the `i`-th is turned by `i` times the rounded-down angle, and no two of
-- them are the same.
pub rotate_affine_lem :
    (d n : ℕ)
    → IsDid d
    → 0 < n
    → n ≤ 360
    → (l : List ℕ) × (rotate_affine d n ≡ some l)
      × (length l ≡ n)
      × (get_elem? l 0 ≡ some d)
      × ((i : ℕ) → i < n → get_elem? l i ≡ some (rotate d (i * (360 / n))))
      × ((i j : ℕ) → i < j → j < n → get_elem? l i ≢ get_elem? l j)
unfolding rotate_affine
rotate_affine_lem d zero hd pos le = absurd (omega arith)
rotate_affine_lem d (suc n) hd pos le = (
  rotations d (360 / suc n) 0 (suc n),
  refl,
  length-rotations d (360 / suc n) 0 (suc n),
  rotations_first d (360 / suc n) n hd,
  λ i h. rotations_at d (360 / suc n) (suc n) i h,
  λ i j h hn. rotations-ne d (suc n) i j hd h hn le,
)

-- Rotations are identifiers.
pub rotations-IsDid : (d angle i count : ℕ) → All IsDid (rotations d angle i count)
unfolding rotations rotate add
rotations-IsDid d angle i zero = tt
rotations-IsDid d angle i (suc count) = (omega arith, rotations-IsDid d angle (suc i) count)

-- The identifier itself comes first, and is not among the others.
pub rotate_affine-cons :
    (d n : ℕ)
    → IsDid d
    → 0 < n
    → n ≤ 360
    → (l : List ℕ) × (rotate_affine d n ≡ some (d ∷ l))
      × All IsDid l
      × ((i : ℕ) → get_elem? l i ≢ some d)
unfolding rotate_affine rotations
rotate_affine-cons d zero hd pos le = absurd (omega arith)
rotate_affine-cons d (suc n) hd pos le =
    let angle = 360 / suc n in
    let rest = rotations d angle 1 n in
    let first : rotate d (0 * angle) ≡ d =
      ap (λ (t : ℕ). rotate d t) (omega arith) ∙ rotate-zero d hd in
    let fresh : (i : ℕ) → get_elem? rest i ≢ some d = λ i e.
      rotations-ne d (suc n) 0 (suc i) hd (omega arith)
        (omega (arith, lt-length_of_get_elem? rest i d e, length-rotations d angle 1 n)) le
        (ap some first ∙ sym e) in
    (rest, ap (λ (a : ℕ). some (a ∷ rest)) first, rotations-IsDid d angle 1 n, fresh)

-- One copy is the identifier alone.
pub rotate_affine_one : (d : ℕ) → IsDid d → rotate_affine d 1 ≡ some (d ∷ [])
unfolding rotate_affine rotations
rotate_affine_one d h = ap (λ (a : ℕ). some (a ∷ [])) (rotate-zero d h)
