-- ===== src/Nhdp/Olsrv1.antt =====
-- The link hysteresis in the style of OLSR version 1:
-- src-plugins/nhdp/hysteresis_olsrv1/hysteresis_olsrv1.c.
pub mod Aging
pub mod Links
pub mod Runs
use olsrd.Base.{
  ℕ, suc, ◌+◌, ◌-◌, ◌*◌, ◌/◌, ◌%◌, ◌^◌, Bool, true, false, not, ◌&&◌, ltb, leb, ◌==◌, if◌then◌else◌,
  Option, none, some, ℤ, pos, negsuc, List, [], ◌∷◌,
}
use olsrd.Nhdp.Hysteresis.{Handler}

-- `struct _config`, its values in thousandths.
pub record Config : Type 0 where
  pub accept : ℕ
  pub reject : ℕ
  pub scaling : ℕ

-- `struct link_hysteresis_data` without the pointer to its link; `interval_timer` is what the timer was
-- last set to, 0 for a stopped one. The schema keeps `scaling` within 1 to 1000, so that no value is
-- ever negative.
pub record HysteresisData : Type 0 where
  pub interval_timer : ℕ
  pub itime : ℕ
  pub quality : ℕ
  pub pending : Bool
  pub lost : Bool

-- `_update_hysteresis`: the exponential aging.
unfoldable pub aged : Config → ℕ → Bool → ℕ
aged config quality lost =
    let kept = (quality * (1000 - config.scaling) + 999) / 1000 in
    if lost then kept else kept + config.scaling

-- `_update_hysteresis`: the thresholds. The Boolean says whether the code calls
-- `nhdp_db_link_update_status`.
unfoldable pub settle : Config → HysteresisData → HysteresisData × Bool
settle config link =
    if not link.pending && not link.lost
    then (if ltb link.quality config.reject
        then (record link { lost = true }, true)
        else (link, false))
    else (if ltb config.accept link.quality
        then (record link { pending = false; lost = false }, true)
        else (link, false))

-- `_update_hysteresis`
unfoldable pub update_hysteresis : Config → HysteresisData → Bool → HysteresisData × Bool
update_hysteresis config link lost =
    settle config (record link { quality = aged config link.quality lost })

-- `_cb_link_added`
abbrev pub cb_link_added : HysteresisData
cb_link_added = record { interval_timer = 0; itime = 0; quality = 0; pending = true; lost = false }

-- `_cb_link_removed`
unfoldable pub cb_link_removed : HysteresisData → HysteresisData
cb_link_removed link = record link { interval_timer = 0 }

-- `_cb_update_hysteresis`, for a HELLO that was received, with the `itime_value` and the
-- `vtime_value` of the link.
unfoldable pub cb_update_hysteresis : Config → ℕ → ℕ → HysteresisData → HysteresisData × Bool
cb_update_hysteresis config itime_value vtime_value link =
    let (link', updated) = update_hysteresis config link false in
    let itime = if itime_value == 0 then vtime_value else itime_value in
    (record link' { itime = itime; interval_timer = itime * 3 % 2 ^ 64 / 2 }, updated)

-- `_cb_timer_hello_lost`
unfoldable pub cb_timer_hello_lost : Config → HysteresisData → HysteresisData × Bool
cb_timer_hello_lost config link =
    let (link', updated) = update_hysteresis config link true in
    (record link' { interval_timer = link'.itime }, updated)

-- `_cb_is_pending` and `_cb_is_lost` in the table of the handler.
unfoldable pub hysteresis_handler : Config → Handler HysteresisData
hysteresis_handler config = record {
  update_hysteresis = cb_update_hysteresis config;
  is_pending = λ link. link.pending;
  is_lost = λ link. link.lost;
}

-- `_cb_cfg_validate`; `none` for a section that `cfg_schema_tobin` does not convert.
unfoldable pub cb_cfg_validate : Option Config → ℤ
cb_cfg_validate none = negsuc 0
cb_cfg_validate (some cfg) = if leb cfg.accept cfg.reject then negsuc 0 else pos 0

-- What a link goes through: HELLOs with their interval and validity times, and timeouts.
pub data Event : Type 0 where
  hello : ℕ → ℕ → Event
  timeout : Event

unfoldable pub handle : Config → Event → HysteresisData → HysteresisData × Bool
handle config (hello itime vtime) link =
    (hysteresis_handler config).update_hysteresis itime vtime link
handle config timeout link = cb_timer_hello_lost config link

unfoldable pub run : Config → List Event → HysteresisData → HysteresisData
run config [] link = link
run config (event ∷ events) link = run config events (handle config event link).0

-- A link that takes part in the protocol.
abbrev pub usable : HysteresisData → Bool
usable link = not link.pending && not link.lost
