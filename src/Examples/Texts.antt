-- ===== src/Examples/Texts.antt =====
-- Stand-ins for the texts of the libraries: identifiers in binary, lowest digit first.
use Prim.Native.String.{String, [], ◌∷◌}
use Prim.Native.Char.{Char, code}
use native.Mathlib.Nat.{pow-suc}
use bns_node.Common.{
  ℕ, zero, suc, ◌+◌, ◌*◌, ◌/◌, ◌%◌, ◌^◌, ◌<◌, ◌≡◌, ap, none, some, arith, ◌==◌, if◌then◌else◌,
  Bool-cases, ==_iff, ==_false→ne, sym, inl, inr,
}
use bns_node.Subring.{External}
use bns_node.Chord.Vnodes.RoundTrip.{IsParsed}

abbrev digit : ℕ → Char
digit n = if n % 2 == 1 then "1" else "0"

unfoldable pub spell : ℕ → ℕ → String
spell zero n = []
spell (suc fuel) n = digit n ∷ spell fuel (n / 2)

abbrev value : Char → ℕ
value c = if code c == 49 then 1 else 0

unfoldable pub read : String → ℕ
read [] = 0
read (c ∷ s) = value c + 2 * read s

value-digit : (n : ℕ) → value (digit n) ≡ n % 2
value-digit n = elim (Bool-cases (n % 2 == 1)) [
  | inl e ↦ rw e (sym ((==_iff (n % 2) 1).0 e))
  | inr e ↦ rw e (omega (arith, ==_false→ne (n % 2) 1 e))
]

read-spell : (fuel n : ℕ) → n < 2 ^ fuel → read (spell fuel n) ≡ n
unfolding read spell
read-spell zero n h = omega arith
read-spell (suc fuel) n h =
    omega (arith, value-digit n, read-spell fuel (n / 2) (omega (arith, pow-suc 2 fuel)))

-- Any subring has the same text, which base58 refuses.
unfoldable pub external : External
unfolding spell read
external = record {
  did_to_string = spell 160;
  did_from_str = λ s. some (read s);
  hash_str = λ s. s;
  to_json = λ r. some "{}";
  from_json = λ s. none;
  b58_encode = λ s. some s;
  b58_decode = λ s. none;
}

pub external-IsParsed : IsParsed external
unfolding external
external-IsParsed d h = ap some (read-spell 160 d h)
