-- ===== src/Sync/Delay.antt =====
-- The schedule stays within its bounds.
use sub2api5hlimit.Base.{
  ℕ, zero, suc, ◌+◌, ◌-◌, ◌*◌, ◌/◌, ◌≤◌, ◌<◌, leb, ◌==◌, Bool-cases, inl, inr, arith,
}
use sub2api5hlimit.Sync.{max_backoff, doubled, min, span, jitter, next_delay}

doubled_ge : (n delay : ℕ) → delay ≤ max_backoff → delay ≤ doubled n delay
unfolding doubled
doubled_ge zero delay h = omega arith
doubled_ge (suc n) delay h = elim (Bool-cases (leb (max_backoff / 2) delay)) [
  | inl e ↦ rw e h
  | inr e ↦ let rest = doubled_ge n (delay * 2) (ground arith) in rw e (omega arith)
]

jitter_bounded :
    (base value random : ℕ)
    → 0 < base
    → base ≤ value
    → value ≤ max_backoff
    → random < span value
    → (base - base / 10 ≤ jitter value random)
      × (jitter value random ≤ max_backoff + max_backoff / 10)
unfolding jitter
jitter_bounded base value random positive le most small = elim (Bool-cases (value == 0)) [
  | inl e ↦ absurd (ground arith)
  | inr e ↦ rw e (elim (Bool-cases (leb 1 (value / 5))) [
    | inl f ↦ let less : random < value / 5 = rw f at small in (omega arith, omega arith)
    | inr f ↦ let less : random < 1 = rw f at small in (omega arith, omega arith)
  ])
]

min_bounds : (a b base : ℕ) → base ≤ a → base ≤ b → (base ≤ min a b) × (min a b ≤ b)
min_bounds a b base h h' = ground arith

-- After any number of failures the next synchronisation comes after at least nine tenths of the base
-- interval, and within the five minutes and a tenth of them.
pub next_delay_bounded :
    (base failures random : ℕ)
    → 0 < base
    → base ≤ max_backoff
    → random < span (min (doubled (min failures 8) base) max_backoff)
    → (base - base / 10 ≤ next_delay base failures random)
      × (next_delay base failures random ≤ max_backoff + max_backoff / 10)
unfolding next_delay jitter
next_delay_bounded base failures random positive le small =
    let value = min (doubled (min failures 8) base) max_backoff in
    let more = doubled_ge (min failures 8) base le in
    let bounds = min_bounds (doubled (min failures 8) base) max_backoff base more le in
    jitter_bounded base value random positive bounds.0 bounds.1 small
