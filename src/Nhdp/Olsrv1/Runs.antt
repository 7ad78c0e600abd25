-- ===== src/Nhdp/Olsrv1/Runs.antt =====
-- Rows of events of hysteresis_olsrv1.c: which of them make a link usable, or lose it.
use olsrd.Base.{
  ℕ, ◌+◌, ◌*◌, ◌≤◌, ◌<◌, ◌≡◌, refl, ap, ◌∙◌, sym, subst, true, false, arith, List, [], ◌∷◌, length,
  All, Bool-cases, inl, inr,
}
use native.Mathlib.Nat.{mul-le-mul_right}
use native.Mathlib.Decide.{dec_lt}
use olsrd.Nhdp.Olsrv1.{Config, HysteresisData, Event, handle, run, usable, aged}
use olsrd.Nhdp.Olsrv1.Aging.{IsConfig, aged-raises, aged-top, aged-lowers, aged-stalls}
use olsrd.Nhdp.Olsrv1.Links.{IsLink, handle-IsLink, handle-Settled, lost_by}

module _ (config : Config) (ok : IsConfig config) where
  pub run-IsLink :
      (events : List Event) (link : HysteresisData)
      → IsLink config link
      → IsLink config (run config events link)
  unfolding run
  run-IsLink [] link valid = valid
  run-IsLink (e ∷ events) link valid =
      run-IsLink events (handle config e link).0 (handle-IsLink config ok e link valid)

  -- HELLOs only.
  abbrev pub Hears : Event → Type 0
  Hears e = lost_by e ≡ false

  -- Timeouts only.
  abbrev pub Misses : Event → Type 0
  Misses e = lost_by e ≡ true

  abbrev pub quality_of : List Event → HysteresisData → ℕ
  quality_of events link = (run config events link).quality

  Hears-raises :
      (events : List Event) (link : HysteresisData)
      → IsLink config link
      → All Hears events
      → 1000 ≤ length events + link.quality
      → quality_of events link ≡ 1000
  unfolding run
  Hears-raises [] link valid all enough = let b = valid.bounded in omega arith
  Hears-raises (e ∷ events) link valid all enough =
      let s = handle-Settled config e link in
      let next = handle-IsLink config ok e link valid in
      let up = aged-raises config ok link.quality valid.bounded in
      let top = aged-top config ok link.quality valid.bounded in
      let rest = Hears-raises events (handle config e link).0 next all.1 in
      grind (arith, s.quality, all.0, valid.bounded)

  -- With an upper threshold below 1, a link is usable after as many HELLOs in a row as its quality is
  -- thousandths short of 1, whatever its state was.
  pub run-Hears :
      (events : List Event) (link : HysteresisData)
      → IsLink config link
      → All Hears events
      → config.accept < 1000
      → 1000 ≤ length events + link.quality
      → usable (run config events link) ≡ true
  run-Hears events link valid all possible enough =
      let after = run-IsLink events link valid in
      let top = Hears-raises events link valid all enough in
      elim (Bool-cases (usable (run config events link))) [
        | inl h ↦ h
        | inr h ↦ let low = after.down h in absurd (omega arith)
      ]

  below_threshold :
      (q : ℕ)
      → 1000 ≤ config.reject * config.scaling
      → q * config.scaling < 1000
      → q < config.reject
  below_threshold q coarse fine = elim (dec_lt q config.reject) [
    | yes h ↦ h
    | no h ↦
        let more : config.reject * config.scaling ≤ q * config.scaling =
          mul-le-mul_right config.scaling (omega arith) in
        absurd (omega arith)
  ]

  Misses-lowers :
      (events : List Event) (link : HysteresisData)
      → IsLink config link
      → All Misses events
      → 1000 ≤ config.reject * config.scaling
      → link.quality < length events + config.reject
      → quality_of events link < config.reject
  unfolding run
  Misses-lowers [] link valid all coarse enough = omega arith
  Misses-lowers (e ∷ events) link valid all coarse enough =
      let s = handle-Settled config e link in
      let next = handle-IsLink config ok e link valid in
      let rest = Misses-lowers events (handle config e link).0 next all.1 coarse in
      elim (dec_lt (link.quality * config.scaling) 1000) [
        | yes fine ↦
            let same = aged-stalls config ok link.quality valid.bounded fine in
            let below = below_threshold link.quality coarse fine in grind (arith, s.quality, all.0)
        | no k ↦
            let less = aged-lowers config ok link.quality valid.bounded (omega arith) in
            grind (arith, s.quality, all.0)
      ]

  -- If the lower threshold is not too small for the aging, a link is unusable after as many timeouts in
  -- a row as its quality is thousandths above that threshold, and one more.
  pub run-Misses :
      (events : List Event) (link : HysteresisData)
      → IsLink config link
      → All Misses events
      → 1000 ≤ config.reject * config.scaling
      → link.quality < length events + config.reject
      → usable (run config events link) ≡ false
  run-Misses events link valid all coarse enough =
      let after = run-IsLink events link valid in
      let low = Misses-lowers events link valid all coarse enough in
      elim (Bool-cases (usable (run config events link))) [
        | inl h ↦ let high = after.up h in absurd (omega arith)
        | inr h ↦ h
      ]

  -- A quality at or above the lower threshold that the aging does not lower any more: no number of
  -- timeouts makes the link unusable.
  pub run-stalled :
      (events : List Event) (link : HysteresisData)
      → IsLink config link
      → All Misses events
      → link.quality * config.scaling < 1000
      → config.reject ≤ link.quality
      → usable link ≡ true
      → (usable (run config events link) ≡ true) × (quality_of events link ≡ link.quality)
  unfolding run
  run-stalled [] link valid all fine enough h = (h, refl)
  run-stalled (e ∷ events) link valid all fine enough h =
      let s = handle-Settled config e link in
      let next = handle-IsLink config ok e link valid in
      let same : (handle config e link).0.quality ≡ link.quality =
        s.quality
        ∙ ap (aged config link.quality) all.0
        ∙ aged-stalls config ok link.quality valid.bounded fine in
      let up = (s.stays_up h (subst (λ x. config.reject ≤ x) (sym same ∙ s.quality) enough)).0 in
      let rest =
        run-stalled events (handle config e link).0 next all.1
          (subst (λ x. x * config.scaling < 1000) (sym same) fine)
          (subst (λ x. config.reject ≤ x) (sym same) enough) up in
      (rest.0, rest.1 ∙ same)
