-- ===== src/Nhdp/Database/Lost.antt =====
-- The addresses of a neighbour in nhdp_db.c when one of its links loses its symmetry.
use olsrd.Base.{
  ℕ, ◌≡◌, ◌∙◌, ap, refl, true, false, some, arith, ◌==◌, ==_iff, ℤ, pos, ◌-ℤ◌, eq_ℤ, if◌then◌else◌,
}
use olsrd.Common.Tree.{number_key, find, update, find-update}
use olsrd.Nhdp.Hysteresis.{Handler}
use olsrd.Nhdp.Database.{
  Link, Neighbor, Database, set_lost, is_symmetric, with_neighbor, not_symmetric,
  link_status_not_symmetric_anymore, status_changes, update_status_of, link_update_status,
  link_calculate_status,
}
use olsrd.Nhdp.Database.Count.{IsDatabase, links_of}

last_link : (z : ℤ) (x : ℕ) → z ≡ pos x → eq_ℤ (z -ℤ pos 1) (pos 0) ≡ (x == 1)
last_link z x h = ground arith

module _ {D : Type 0} (handler : Handler D) (key : ℕ) (link : Link D) (neighbor : Neighbor)
    (db : Database D) (there : find key db.links ≡ some link)
    (neighbor_there : find link.neigh db.neighbors ≡ some neighbor)
    (was : is_symmetric link.status ≡ true)
    (now : is_symmetric (link_calculate_status handler link) ≡ false) where
  neighbors_after :
      (link_update_status handler key db).neighbors
      ≡ update link.neigh (not_symmetric link.n_hold_time neighbor) db.neighbors
  unfolding link_update_status update_status_of status_changes link_status_not_symmetric_anymore
      with_neighbor
  neighbors_after =
      rw
        (
          there, was, now, neighbor_there, link_update_status, update_status_of, status_changes,
          link_status_not_symmetric_anymore, with_neighbor,
        )
        refl

  -- Where nhdp_db_link_update_status takes the symmetry from a link of a database with right counters,
  -- and it was the last symmetric link of its neighbour, the addresses of the neighbour are marked as
  -- lost for the hold time of the interface; where it was not the last, they stay.
  pub link_update_status-addresses :
      IsDatabase db
      → (after : Neighbor) × (find link.neigh (link_update_status handler key db).neighbors
          ≡ some after)
        × (after.addresses ≡ (
            if links_of link.neigh db.links == 1
            then set_lost link.n_hold_time neighbor.addresses
            else neighbor.addresses))
  unfolding not_symmetric
  link_update_status-addresses valid =
      let last = not_symmetric link.n_hold_time neighbor in
      let found : find link.neigh (update link.neigh last db.neighbors) ≡ some last = grind (
        arith,
        find-update link.neigh link.neigh last db.neighbors,
        (==_iff link.neigh link.neigh).1 refl,
      ) in
      let c = last_link neighbor.symmetric _ (valid.counted link.neigh neighbor neighbor_there) in
      (
        last,
        ap (λ n. find link.neigh n) neighbors_after ∙ found,
        ap (λ b. if b then set_lost link.n_hold_time neighbor.addresses else neighbor.addresses) c,
      )
