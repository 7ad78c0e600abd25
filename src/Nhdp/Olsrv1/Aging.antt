-- ===== src/Nhdp/Olsrv1/Aging.antt =====
-- The exponential aging of hysteresis_olsrv1.c in its rounded arithmetic.
use olsrd.Base.{ℕ, ◌-◌, ◌*◌, ◌≤◌, ◌<◌, ◌≡◌, Bool, true, false, arith}
use native.Mathlib.Nat.{mul-sub, mul-le-mul_right}
use olsrd.Nhdp.Olsrv1.{Config, aged}

-- What the schema and the validation let through.
pub record IsConfig (config : Config) : Type 0 where
  pub least : 1 ≤ config.scaling
  pub most : config.scaling ≤ 1000
  pub high : config.accept ≤ 1000
  pub apart : config.reject < config.accept

module _ (config : Config) (ok : IsConfig config) (q : ℕ) (bounded : q ≤ 1000) where
  pub aged-bounded : (lost : Bool) → aged config q lost ≤ 1000
  unfolding aged
  aged-bounded lost = let u = mul-le-mul_right (1000 - config.scaling) bounded in ground (arith, ok)

  -- A received HELLO raises every quality below 1000.
  pub aged-raises : q < 1000 → q < aged config q false
  unfolding aged
  aged-raises h =
      let p : q * config.scaling ≤ 999 * config.scaling =
        mul-le-mul_right config.scaling (omega arith) in
      ground (arith, ok, mul-sub q 1000 config.scaling)

  pub aged-top : q ≡ 1000 → aged config q false ≡ 1000
  unfolding aged
  aged-top h = ground (arith, ok)

  -- A lost HELLO lowers the quality where its share is a whole unit,
  pub aged-lowers : 1000 ≤ q * config.scaling → aged config q true < q
  unfolding aged
  aged-lowers h = ground (arith, ok, mul-sub q 1000 config.scaling)

  -- and leaves it where it is otherwise.
  pub aged-stalls : q * config.scaling < 1000 → aged config q true ≡ q
  unfolding aged
  aged-stalls h = ground (arith, ok, mul-sub q 1000 config.scaling)
