-- ===== src/Nhdp/Database/Unsymmetric.antt =====
-- Making a link unsymmetric in nhdp_db.c, and what comes after it.
use olsrd.Base.{ℕ, ◌≡◌, ◌∙◌, ap, refl, true, false, [], some, arith, ==_iff, pos, ◌-ℤ◌}
use olsrd.Common.Tree.{number_key, find, update, find-update}
use olsrd.Nhdp.Hysteresis.{Handler}
use olsrd.Nhdp.Database.{
  Link, Neighbor, Database, is_symmetric, with_neighbor, not_symmetric,
  link_status_not_symmetric_anymore, status_changes, update_status_of, link_update_status,
  link_calculate_status, link_set_unsymmetric,
}

module _ {D : Type 0} (handler : Handler D) (key : ℕ) (link : Link D) (neighbor : Neighbor)
    (db : Database D) (there : find key db.links ≡ some link)
    (neighbor_there : find link.neigh db.neighbors ≡ some neighbor)
    (symmetric : is_symmetric link.status ≡ true) where
  abbrev quiet : Link D
  quiet = record link { sym_time = 0; twohop = [] }

  abbrev reduced : Neighbor
  reduced = not_symmetric link.n_hold_time neighbor

  abbrev unsymmetric : Database D
  unsymmetric = record {
    links = update key quiet db.links;
    neighbors = update link.neigh reduced db.neighbors;
  }

  -- The counter goes down, and the status stays.
  set_unsymmetric : link_set_unsymmetric key db ≡ unsymmetric
  unfolding link_set_unsymmetric with_neighbor
  set_unsymmetric = rw (there, symmetric, neighbor_there, link_set_unsymmetric, with_neighbor) refl

  not_calculated : is_symmetric (link_calculate_status handler quiet) ≡ false
  unfolding link_calculate_status
  not_calculated = ground arith

  link_there : find key unsymmetric.links ≡ some quiet
  link_there = grind (arith, find-update key key quiet db.links, (==_iff key key).1 refl)

  reduced_there : find link.neigh unsymmetric.neighbors ≡ some reduced
  reduced_there = grind (
    arith,
    find-update link.neigh link.neigh reduced db.neighbors,
    (==_iff link.neigh link.neigh).1 refl,
  )

  next_neighbors :
      (link_update_status handler key unsymmetric).neighbors
      ≡ update link.neigh (not_symmetric link.n_hold_time reduced) unsymmetric.neighbors
  unfolding link_update_status update_status_of status_changes link_status_not_symmetric_anymore
      with_neighbor
  next_neighbors =
      rw
        (
          link_there, symmetric, not_calculated, reduced_there, link_update_status,
          update_status_of, status_changes, link_status_not_symmetric_anymore, with_neighbor,
        )
        refl

  -- A link that was symmetric is taken off the counter of its neighbour twice, by
  -- nhdp_db_link_set_unsymmetric and by the next nhdp_db_link_update_status.
  pub link_update_status-link_set_unsymmetric :
      (after : Neighbor) × (find link.neigh
          (link_update_status handler key (link_set_unsymmetric key db)).neighbors
        ≡ some after)
      × (after.symmetric ≡ neighbor.symmetric -ℤ pos 1 -ℤ pos 1)
  unfolding not_symmetric
  link_update_status-link_set_unsymmetric =
      let last = not_symmetric link.n_hold_time reduced in
      let found : find link.neigh (update link.neigh last unsymmetric.neighbors) ≡ some last =
        grind (
          arith,
          find-update link.neigh link.neigh last unsymmetric.neighbors,
          reduced_there,
          (==_iff link.neigh link.neigh).1 refl,
        ) in
      (last, rw set_unsymmetric (ap (λ n. find link.neigh n) next_neighbors ∙ found), refl)
