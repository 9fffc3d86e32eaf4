-- ===== src/Measure/Periods.antt =====
-- What a `PeriodicCounter` of crates/node/src/measure.rs tells over two periods.
use bns_node.Common.{
  ℕ, ◌+◌, ◌^◌, ◌≤◌, ◌<◌, ◌≡◌, refl, ap, ◌∙◌, true, false, List, [], ◌∷◌, length, All, lt→ltb,
  le→not-ltb, ==_ne, arith,
}
use bns_node.Measure.{PeriodicCounter, refresh, barely_get, incr, get}

-- A call of `incr` at each of the times.
unfoldable pub incr_all : PeriodicCounter → List ℕ → PeriodicCounter
incr_all c [] = c
incr_all c (t ∷ ts) = incr_all (incr c t).0 ts

incr-within :
    (c : PeriodicCounter) (t : ℕ)
    → t < c.previous + c.period
    → c.count + 1 < 2 ^ 64
    → (incr c t).0 ≡ record c { count = c.count + 1 }
unfolding incr refresh
incr-within c t h small =
    rw (lt→ltb t (c.previous + c.period) h) (ap (λ (n : ℕ). record c { count = n }) (omega arith))

incr_all-within :
    (ts : List ℕ) (c : PeriodicCounter)
    → All (λ t. t < c.previous + c.period) ts
    → c.count + length ts < 2 ^ 64
    → incr_all c ts ≡ record c { count = c.count + length ts }
unfolding incr_all
incr_all-within [] c h small =
    let e : c.count ≡ c.count + 0 = omega arith in ap (λ (n : ℕ). record c { count = n }) e
incr_all-within (t ∷ ts) c h small =
    ap (λ (d : PeriodicCounter). incr_all d ts) (incr-within c t h.0 (omega (arith, small)))
    ∙ incr_all-within ts (record c { count = c.count + 1 }) h.1 (omega (arith, small))
    ∙ ap (λ (n : ℕ). record c { count = n }) (omega arith)

get-over :
    (c : PeriodicCounter) (n now : ℕ)
    → c.count ≡ n
    → 0 < n
    → c.previous + c.period ≤ now
    → get c now ≡ (record c { count = 0; previous = now; previous_count = n }, n, true)
unfolding get refresh barely_get
get-over c n now e pos over =
    rw (le→not-ltb (c.previous + c.period) now over, e, ==_ne n 0 (omega arith)) refl

get-within :
    (c : PeriodicCounter) (n now : ℕ)
    → c.previous_count ≡ n
    → 0 < n
    → now < c.previous + c.period
    → get c now ≡ (c, n, false)
unfolding get refresh barely_get
get-within c n now e pos soon =
    rw (lt→ltb now (c.previous + c.period) soon, e, ==_ne n 0 (omega arith)) refl

-- A counter that starts a period at nothing counts the calls of the period. When the period is
-- over it starts a new one, and during the new period, until the end of that, it tells the number
-- of calls in the one before, if there were any, whatever is counted in the meantime.
pub get-incr_all :
    (c : PeriodicCounter) (ts us : List ℕ) (now later : ℕ)
    → c.count ≡ 0
    → All (λ t. t < c.previous + c.period) ts
    → 0 < length ts
    → length ts < 2 ^ 64
    → c.previous + c.period ≤ now
    → All (λ t. t < now + c.period) us
    → length us < 2 ^ 64
    → later < now + c.period
    → (d : PeriodicCounter) × (e : PeriodicCounter) × (get (incr_all c ts) now
        ≡ (d, length ts, true))
      × (get (incr_all d us) later ≡ (e, length ts, false))
      × (e.count ≡ length us)
get-incr_all c ts us now later start within some_call few over within' few' soon =
    let n = length ts in
    let d = record c { count = 0; previous = now; previous_count = n } in
    let e = record d { count = 0 + length us } in
    (
      d,
      e,
      ap (λ (b : PeriodicCounter). get b now)
            (incr_all-within ts c within (omega (arith, start, few)))
          ∙ get-over (record c { count = c.count + n }) n now (omega (arith, start)) some_call over,
      ap (λ (b : PeriodicCounter). get b later) (incr_all-within us d within' (omega (arith, few')))
          ∙ get-within e n later refl some_call soon,
      omega arith,
    )
