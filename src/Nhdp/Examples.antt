-- ===== src/Nhdp/Examples.antt =====
-- Examples that the theorems about the neighbourhood discovery apply to, and small runs.
use olsrd.Base.{
  pos, ◌-ℤ◌, ℕ, ◌≡◌, ◌≤◌, refl, List, [], ◌∷◌, true, false, ◌↔◌, some, negsuc, arith, zero, suc,
}
use olsrd.Common.Tree.{number_key, find}
use olsrd.Nhdp.Database.{
  Link, Neighbor, Database, link_symmetric, new_link, link_update_status, cb_link_vtime,
  link_set_unsymmetric,
}
use olsrd.Nhdp.Database.Count.{IsDatabase}
use olsrd.Nhdp.Database.Status.{link_update_status-IsDatabase}
use olsrd.Nhdp.Database.Expiry.{cb_link_vtime-IsDatabase}
use olsrd.Nhdp.Database.Unsymmetric.{link_update_status-link_set_unsymmetric}
use olsrd.Nhdp.Hysteresis.{Handler}
use olsrd.Common.Netaddr.{Netaddr, inet}
use olsrd.Nhdp.Olsrv1.{
  cb_link_added, hysteresis_handler, Config, HysteresisData, Event, hello, timeout, handle, run,
  usable, cb_cfg_validate,
}
use olsrd.Nhdp.Olsrv1.Aging.{IsConfig}
use olsrd.Nhdp.Olsrv1.Links.{IsLink, handle-IsLink, cb_cfg_validate_lem}
use olsrd.Nhdp.Olsrv1.Runs.{run-Hears, run-stalled}

-- The defaults.
abbrev standard : Config
standard = record { accept = 700; reject = 300; scaling = 250 }

standard-IsConfig : IsConfig standard
standard-IsConfig = record {
  least = omega arith;
  most = omega arith;
  high = omega arith;
  apart = omega arith;
}

abbrev timeouts : ℕ → List Event
timeouts zero = []
timeouts (suc n) = timeout ∷ timeouts n

abbrev hellos : ℕ → List Event
hellos zero = []
hellos (suc n) = hello 2000 20000 ∷ hellos n

abbrev good : HysteresisData
good = record { interval_timer = 3000; itime = 2000; quality = 998; pending = false; lost = false }

good-IsLink : IsLink standard good
good-IsLink = record {
  bounded = omega arith;
  exclusive = refl;
  up = λ h. omega arith;
  down = λ h. ground arith;
}

handle-IsLink_example : IsLink standard (handle standard timeout good).0
handle-IsLink_example = handle-IsLink standard standard-IsConfig timeout good good-IsLink

run-Hears_example : usable (run standard (hellos 2) good) ≡ true
run-Hears_example =
    run-Hears standard standard-IsConfig (hellos 2) good good-IsLink (refl, (refl, tt))
      (omega arith) (omega arith)

cb_cfg_validate_lem_example : (cb_cfg_validate (some standard) ≡ negsuc 0) ↔ (700 ≤ 300)
cb_cfg_validate_lem_example = cb_cfg_validate_lem standard

abbrev weak : HysteresisData
weak = record { interval_timer = 3000; itime = 2000; quality = 301; pending = false; lost = false }

weak-IsLink : IsLink standard weak
weak-IsLink = record {
  bounded = omega arith;
  exclusive = refl;
  up = λ h. omega arith;
  down = λ h. ground arith;
}

-- The slowest aging that the schema allows.
abbrev slow : Config
slow = record { accept = 700; reject = 300; scaling = 1 }

slow-IsConfig : IsConfig slow
slow-IsConfig = record {
  least = omega arith;
  most = omega arith;
  high = omega arith;
  apart = omega arith;
}

abbrev stuck : HysteresisData
stuck = good

stuck-IsLink : IsLink slow stuck
stuck-IsLink = record {
  bounded = omega arith;
  exclusive = refl;
  up = λ h. omega arith;
  down = λ h. ground arith;
}

run-stalled_example :
    (usable (run slow (timeouts 3) good) ≡ true) × ((run slow (timeouts 3) good).quality ≡ 998)
run-stalled_example =
    run-stalled slow slow-IsConfig (timeouts 3) good stuck-IsLink (refl, (refl, (refl, tt)))
      (omega arith) (omega arith) refl

abbrev host : Netaddr
host = record {
  addr = 10 ∷ 0 ∷ 0 ∷ 1 ∷ 0 ∷ 0 ∷ 0 ∷ 0 ∷ 0 ∷ 0 ∷ 0 ∷ 0 ∷ 0 ∷ 0 ∷ 0 ∷ 0 ∷ [];
  family = inet;
  prefix_len = 32;
}

-- A neighbour with two links, one of them symmetric.
abbrev two_links : Database HysteresisData
two_links = record {
  links =
      (
        10,
        record {
          sym_time = 6000;
          heard_time = 8000;
          vtime = 20000;
          status = link_symmetric;
          n_hold_time = 20000;
          neigh = 1;
          twohop = [];
          hysteresis = weak;
        },
      )
      ∷ (11, new_link 1 20000 cb_link_added)
      ∷ [];
  neighbors = (1, record { symmetric = pos 1; addresses = [] }) ∷ [];
}

two_links-IsDatabase : IsDatabase two_links
unfolding find
two_links-IsDatabase = record { tree = (refl, (refl, tt)); counted = λ n neighbor h. ground arith }

abbrev olsrv1 : Handler HysteresisData
olsrv1 = hysteresis_handler standard

link_update_status-IsDatabase_example : IsDatabase (link_update_status olsrv1 10 two_links)
link_update_status-IsDatabase_example =
    link_update_status-IsDatabase olsrv1 10 two_links two_links-IsDatabase

cb_link_vtime-IsDatabase_example : IsDatabase (cb_link_vtime 10 two_links)
cb_link_vtime-IsDatabase_example = cb_link_vtime-IsDatabase 10 two_links two_links-IsDatabase

link_update_status-link_set_unsymmetric_example :
    (after : Neighbor) × (find 1
        (link_update_status olsrv1 10 (link_set_unsymmetric 10 two_links)).neighbors
      ≡ some after)
    × (after.symmetric ≡ pos 1 -ℤ pos 1 -ℤ pos 1)
unfolding find
link_update_status-link_set_unsymmetric_example =
    link_update_status-link_set_unsymmetric olsrv1 10 _ _ two_links refl refl refl

-- The same with a quality that hysteresis has given up.
abbrev given_up : Link HysteresisData
given_up = record {
  sym_time = 6000;
  heard_time = 8000;
  vtime = 20000;
  status = link_symmetric;
  n_hold_time = 20000;
  neigh = 1;
  twohop = [];
  hysteresis = record weak { lost = true };
}

abbrev one_link : Database HysteresisData
one_link = record {
  links = (10, given_up) ∷ [];
  neighbors = (1, record { symmetric = pos 1; addresses = (host, 0) ∷ [] }) ∷ [];
}

one_link-IsDatabase : IsDatabase one_link
unfolding find
one_link-IsDatabase = record { tree = (refl, tt); counted = λ n neighbor h. ground arith }
