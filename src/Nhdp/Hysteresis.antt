-- ===== src/Nhdp/Hysteresis.antt =====
-- The interface of the link hysteresis, and the handler in use: src-plugins/nhdp/nhdp/nhdp_hysteresis.h
-- and nhdp_hysteresis.c.
use olsrd.Base.{ℕ, Bool, false, Option, none, some}

-- `struct nhdp_hysteresis_handler` without its text output, for a handler that keeps a `D` with each
-- link. An update gets the `itime_value` and the `vtime_value` of the link, and says whether it
-- called `nhdp_db_link_update_status`.
pub record Handler (D : Type 0) : Type 0 where
  pub update_hysteresis : ℕ → ℕ → D → D × Bool
  pub is_pending : D → Bool
  pub is_lost : D → Bool

-- `_handler`: no hysteresis. Its links are neither pending nor lost.
abbrev pub default_handler : {D : Type 0} → Handler D
default_handler = record {
  update_hysteresis = λ itime vtime d. (d, false);
  is_pending = λ d. false;
  is_lost = λ d. false;
}

-- `nhdp_hysteresis_set_handler`: `none` is NULL.
unfoldable pub set_handler : {D : Type 0} → Option (Handler D) → Handler D
set_handler none = default_handler
set_handler (some handler) = handler
