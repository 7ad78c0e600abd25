-- ===== src/Nhdp/Olsrv1/Links.antt =====
-- What one event does to a link of hysteresis_olsrv1.c.
use native.Mathlib.Decide.{dec_lt}
use olsrd.Base.{
  Bool-cases, inl, inr, ℕ, ◌≤◌, ◌<◌, ◌≡◌, ◌≢◌, refl, Bool, true, false, ◌&&◌, arith, some, negsuc,
  ◌↔◌, leb,
}
use olsrd.Nhdp.Olsrv1.{
  Config, HysteresisData, Event, hello, timeout, aged, settle, update_hysteresis,
  cb_update_hysteresis, cb_timer_hello_lost, cb_link_added, hysteresis_handler, handle, usable,
  cb_cfg_validate,
}
use olsrd.Nhdp.Olsrv1.Aging.{IsConfig, aged-bounded}

-- The quality is within range, no link is pending and lost at once, a usable link has not fallen
-- below the lower threshold and the others have not risen above the upper one.
pub record IsLink (config : Config) (link : HysteresisData) : Type 0 where
  pub bounded : link.quality ≤ 1000
  pub exclusive : link.pending && link.lost ≡ false
  pub up : usable link ≡ true → config.reject ≤ link.quality
  pub down : usable link ≡ false → link.quality ≤ config.accept

pub added-IsLink : (config : Config) → IsLink config cb_link_added
added-IsLink config = record {
  bounded = omega arith;
  exclusive = refl;
  up = λ h. ground arith;
  down = λ h. omega arith;
}

abbrev pub lost_by : Event → Bool
lost_by (hello itime vtime) = false
lost_by timeout = true

-- An event, up to the timer.
pub record Settled (config : Config) (before : HysteresisData) (q : ℕ) (after : HysteresisData)
    (updated : Bool) : Type 0 where
  pub quality : after.quality ≡ q
  pub stays_up :
      usable before ≡ true → config.reject ≤ q → (usable after ≡ true) × (updated ≡ false)
  pub goes_down :
      usable before ≡ true → q < config.reject → (usable after ≡ false) × (updated ≡ true)
  pub stays_down :
      usable before ≡ false → q ≤ config.accept → (usable after ≡ false) × (updated ≡ false)
  pub goes_up : usable before ≡ false → config.accept < q → (usable after ≡ true) × (updated ≡ true)
  pub excludes : before.pending && before.lost ≡ false → after.pending && after.lost ≡ false

settle-Settled :
    (config : Config) (link : HysteresisData)
    → Settled config link link.quality (settle config link).0 (settle config link).1
unfolding settle
settle-Settled config link = record {
  quality = ground arith;
  stays_up = λ h k. ground arith;
  goes_down = λ h k. ground arith;
  stays_down = λ h k. ground arith;
  goes_up = λ h k. ground arith;
  excludes = λ h. ground arith;
}

pub handle-Settled :
    (config : Config) (event : Event) (link : HysteresisData)
    → Settled config link
        (aged config link.quality (lost_by event))
        (handle config event link).0
        (handle config event link).1
unfolding handle hysteresis_handler cb_update_hysteresis cb_timer_hello_lost update_hysteresis
handle-Settled config (hello itime vtime) link =
    let s = settle-Settled config (record link { quality = aged config link.quality false }) in
    record {
      quality = s.quality;
      stays_up = s.stays_up;
      goes_down = s.goes_down;
      stays_down = s.stays_down;
      goes_up = s.goes_up;
      excludes = s.excludes;
    }
handle-Settled config timeout link =
    let s = settle-Settled config (record link { quality = aged config link.quality true }) in
    record {
      quality = s.quality;
      stays_up = s.stays_up;
      goes_down = s.goes_down;
      stays_down = s.stays_down;
      goes_up = s.goes_up;
      excludes = s.excludes;
    }

module _ (config : Config) (ok : IsConfig config) (event : Event) (link : HysteresisData)
    (valid : IsLink config link) where
  abbrev pub after : HysteresisData
  after = (handle config event link).0

  -- Every event keeps the link well formed.
  pub handle-IsLink : IsLink config after
  handle-IsLink =
      let s = handle-Settled config event link in
      let b = aged-bounded config ok link.quality valid.bounded (lost_by event) in
      record {
        bounded = ground (arith, s, b);
        exclusive = s.excludes valid.exclusive;
        up = λ h. ground (arith, s, b);
        down = λ h. ground (arith, s, b);
      }

-- The same from the conditions on the outcome alone.
updates :
    (config : Config) (before : HysteresisData) (q : ℕ) (later : HysteresisData) (updated : Bool)
    → Settled config before q later updated
    → (updated ≡ true) ↔ (usable later ≢ usable before)
updates config before q later updated s = elim (Bool-cases (usable before)) [
  | inl h ↦ elim (dec_lt q config.reject) [
    | yes k ↦ let r = s.goes_down h k in grind arith
    | no k ↦ let r = s.stays_up h (omega arith) in grind arith
  ]
  | inr h ↦ elim (dec_lt config.accept q) [
    | yes k ↦ let r = s.goes_up h k in grind arith
    | no k ↦ let r = s.stays_down h (omega arith) in grind arith
  ]
]

-- The link status is recomputed exactly when an event makes the link usable or unusable.
pub handle-updates :
    (config : Config) (event : Event) (link : HysteresisData)
    → ((handle config event link).1 ≡ true) ↔ (usable (handle config event link).0 ≢ usable link)
handle-updates config event link =
    updates config link (aged config link.quality (lost_by event)) (handle config event link).0
      (handle config event link).1 (handle-Settled config event link)

pub cb_cfg_validate_lem :
    (cfg : Config) → (cb_cfg_validate (some cfg) ≡ negsuc 0) ↔ (cfg.accept ≤ cfg.reject)
unfolding cb_cfg_validate
cb_cfg_validate_lem cfg = elim (Bool-cases (leb cfg.accept cfg.reject)) [
  | inl h ↦ ground arith
  | inr h ↦ ground arith
]
