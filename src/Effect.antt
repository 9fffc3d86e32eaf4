-- ===== src/Effect.antt =====
-- Code that changes a state `W` and may fail: what was changed before an error stays changed. An
-- `.await` lets other tasks run; here each operation is one step.
pub mod Keeps
use bns_node.Common.{List, [], ◌∷◌, Option, none, some, Result, ok, err, panic, Error}

abbrev pub Effect : Type 0 → Type 0 → Type 0
Effect W A = W → W × Result A

-- Go on from a success; an error is handed on, and after a panic nothing runs.
unfoldable pub continue : {W A B : Type 0} → W × Result A → (A → Effect W B) → W × Result B
continue (w, ok a) next = next a w
continue (w, err e) next = (w, err e)
continue (w, panic) next = (w, panic)

infixl 5 ◌>>=◌ ◌>>◌
abbrev pub ◌>>=◌ : {W A B : Type 0} → Effect W A → (A → Effect W B) → Effect W B
◌>>=◌ m next w = continue (m w) next

abbrev pub ◌>>◌ : {W B : Type 0} → Effect W (Unit {0}) → Effect W B → Effect W B
◌>>◌ m next w = continue (m w) λ u. next

abbrev pub pure : {W A : Type 0} → A → Effect W A
pure a w = (w, ok a)

-- A calculation that changes nothing.
abbrev pub lift : {W A : Type 0} → Result A → Effect W A
lift a w = (w, a)

-- A calculation on the state that changes nothing.
abbrev pub asks : {W A : Type 0} → (W → Result A) → Effect W A
asks f w = (w, f w)

abbrev pub fail : {W A : Type 0} → Error → Effect W A
fail e w = (w, err e)

-- `ok_or`
abbrev pub or_fail : {W A : Type 0} → Option A → Error → Effect W A
or_fail none e w = (w, err e)
or_fail (some a) e w = (w, ok a)

unfoldable pub caught : {W A : Type 0} → W × Result A → W × Result (Result A)
caught (w, ok a) = (w, ok (ok a))
caught (w, err e) = (w, ok (err e))
caught (w, panic) = (w, panic)

-- An error is a value for what follows; a panic is not.
abbrev pub attempt : {W A : Type 0} → Effect W A → Effect W (Result A)
attempt m w = caught (m w)

unfoldable pub unwrapped : {W A : Type 0} → W × Result A → W × Result A
unwrapped (w, ok a) = (w, ok a)
unwrapped (w, err e) = (w, panic)
unwrapped (w, panic) = (w, panic)

-- `unwrap`
abbrev pub unwrap : {W A : Type 0} → Effect W A → Effect W A
unwrap m w = unwrapped (m w)

-- For each element in order, up to the first that fails.
unfoldable pub for_each {ℓ} :
    {W : Type 0} {A : Type ℓ} → List A → (A → Effect W (Unit {0})) → Effect W (Unit {0})
for_each [] body w = (w, ok tt)
for_each (x ∷ xs) body w = continue (body x w) λ u. for_each xs body

-- Without the result.
abbrev pub discard : {W A : Type 0} → Effect W A → Effect W (Unit {0})
discard m = m >>= λ a. pure tt

-- An error is logged.
abbrev pub logged : {W A : Type 0} → Effect W A → Effect W (Unit {0})
logged m = attempt m >>= λ r. pure tt
