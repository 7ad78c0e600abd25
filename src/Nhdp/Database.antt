-- ===== src/Nhdp/Database.antt =====
-- The database of links and neighbours, as far as the status of the links goes:
-- src-plugins/nhdp/nhdp/nhdp_db.c and nhdp_db.h. Links and neighbours are objects in a store, named by
-- numbers for their addresses in memory. Logging, events, the trees of originators and of the addresses
-- of the links, and the calls of the domains (nhdp_domain_*) and of nhdp_interface_update_status, which
-- read the database, are not in this model.
pub mod Count
pub mod Status
pub mod Expiry
pub mod Lost
pub mod Unsymmetric
use olsrd.Base.{
  ℕ, ◌+◌, Bool, true, false, not, ◌&&◌, ltb, ◌==◌, if◌then◌else◌, Option, none, some, List, [], ◌∷◌,
  ◌++◌, map, ℤ, pos, ◌+ℤ◌, ◌-ℤ◌, eq_ℤ,
}
use olsrd.Common.Tree.{number_key, find, insert, update, remove}
use olsrd.Common.Netaddr.{Netaddr}
use olsrd.Nhdp.Hysteresis.{Handler}

-- `enum nhdp_link_status`
pub data LinkStatus : Type 0 where
  link_pending link_lost link_symmetric link_heard : LinkStatus

abbrev pub is_symmetric : LinkStatus → Bool
is_symmetric link_symmetric = true
is_symmetric _ = false

-- `struct nhdp_link`: a timer is what it was last set to, 0 for a stopped one; `n_hold_time` is that of
-- the local interface.
pub record Link (D : Type 0) : Type 0 where
  pub sym_time : ℕ
  pub heard_time : ℕ
  pub vtime : ℕ
  pub status : LinkStatus
  pub n_hold_time : ℕ
  pub neigh : ℕ
  pub twohop : List Netaddr
  pub hysteresis : D

-- `struct nhdp_neighbor`: each address with its `_lost_vtime`. The counter is an `int`.
pub record Neighbor : Type 0 where
  pub symmetric : ℤ
  pub addresses : List (Netaddr × ℕ)

pub record Database (D : Type 0) : Type 0 where
  pub links : List (ℕ × Link D)
  pub neighbors : List (ℕ × Neighbor)

-- `nhdp_db_neighbor_addr_set_lost` for all addresses; `nhdp_db_neighbor_addr_not_lost` is the same with
-- a stopped timer.
unfoldable pub set_lost : ℕ → List (Netaddr × ℕ) → List (Netaddr × ℕ)
set_lost hold addresses = map (λ entry. (entry.0, hold)) addresses

-- `_link_status_now_symmetric`, at the neighbour.
unfoldable pub now_symmetric : Neighbor → Neighbor
now_symmetric neighbor =
    let symmetric = neighbor.symmetric +ℤ pos 1 in
    record {
      symmetric = symmetric;
      addresses =
          if eq_ℤ symmetric (pos 1) then set_lost 0 neighbor.addresses else neighbor.addresses;
    }

-- `_link_status_not_symmetric_anymore`, at the neighbour.
unfoldable pub not_symmetric : ℕ → Neighbor → Neighbor
not_symmetric hold neighbor =
    let symmetric = neighbor.symmetric -ℤ pos 1 in
    record {
      symmetric = symmetric;
      addresses =
          if eq_ℤ symmetric (pos 0) then set_lost hold neighbor.addresses else neighbor.addresses;
    }

module _ {D : Type 0} where
  -- A write to the neighbour that a link points to.
  unfoldable pub with_neighbor : ℕ → (Neighbor → Neighbor) → Database D → Database D
  with_neighbor n change db = elim (find n db.neighbors) [
    | none ↦ db
    | some neighbor ↦ record db { neighbors = update n (change neighbor) db.neighbors }
  ]

  -- `_link_status_not_symmetric_anymore` for a link `key` whose object is `link`.
  unfoldable pub link_status_not_symmetric_anymore : ℕ → Link D → Database D → Database D
  link_status_not_symmetric_anymore key link db =
      with_neighbor link.neigh (not_symmetric link.n_hold_time)
        (record db { links = update key (record link { twohop = [] }) db.links })

  -- `_nhdp_db_link_calculate_status`
  unfoldable pub link_calculate_status : Handler D → Link D → LinkStatus
  link_calculate_status handler link =
      if handler.is_pending link.hysteresis
      then link_pending
      else if handler.is_lost link.hysteresis
      then link_lost
      else if ltb 0 link.sym_time
      then link_symmetric
      else if ltb 0 link.heard_time
      then link_heard
      else link_lost

  -- `nhdp_db_link_update_status`: the changes of the database, once the link has its new status.
  unfoldable pub status_changes : Bool → ℕ → Link D → Database D → Database D
  status_changes was_symmetric key link db =
      if was_symmetric && not (is_symmetric link.status)
      then link_status_not_symmetric_anymore key link db
      else if not was_symmetric && is_symmetric link.status
      then with_neighbor link.neigh now_symmetric db
      else db

  -- `nhdp_db_link_update_status` of a link object.
  unfoldable pub update_status_of : Handler D → ℕ → Link D → Database D → Database D
  update_status_of handler key link db =
      let next = record link { status = link_calculate_status handler link } in
      status_changes (is_symmetric link.status) key next
        (record db { links = update key next db.links })

  -- `nhdp_db_link_update_status`
  unfoldable pub link_update_status : Handler D → ℕ → Database D → Database D
  link_update_status handler key db = elim (find key db.links) [
    | none ↦ db
    | some link ↦ update_status_of handler key link db
  ]

  -- `_cb_link_heard`; the scheduler has stopped the timer before.
  unfoldable pub cb_link_heard : Handler D → ℕ → Database D → Database D
  cb_link_heard handler key db = elim (find key db.links) [
    | none ↦ db
    | some link ↦
        link_update_status handler key
          (record db { links = update key (record link { heard_time = 0 }) db.links })
  ]

  -- `_cb_link_symtime`; the scheduler has stopped the timer before.
  unfoldable pub cb_link_symtime : Handler D → ℕ → Database D → Database D
  cb_link_symtime handler key db = elim (find key db.links) [
    | none ↦ db
    | some link ↦
        link_update_status handler key
          (record db { links = update key (record link { sym_time = 0 }) db.links })
  ]

  -- `nhdp_db_link_set_unsymmetric`
  unfoldable pub link_set_unsymmetric : ℕ → Database D → Database D
  link_set_unsymmetric key db = elim (find key db.links) [
    | none ↦ db
    | some link ↦
        let next = record link { sym_time = 0; twohop = [] } in
        let quiet = record db { links = update key next db.links } in
        if is_symmetric link.status
        then with_neighbor link.neigh (not_symmetric link.n_hold_time) quiet
        else quiet
  ]

  -- `nhdp_db_link_remove`
  unfoldable pub link_remove : ℕ → Database D → Database D
  link_remove key db = record db { links = remove key db.links }

  -- The list `_links` of a neighbour is empty.
  abbrev pub no_links : ℕ → List (ℕ × Link D) → Bool
  no_links n [] = true
  no_links n ((key, link) ∷ links) = not (link.neigh == n) && no_links n links

  -- The links of a neighbour, removed one by one.
  unfoldable pub remove_links : ℕ → List (ℕ × Link D) → List (ℕ × Link D)
  remove_links n [] = []
  remove_links n ((key, link) ∷ links) =
      if link.neigh == n then remove_links n links else (key, link) ∷ remove_links n links

  -- `nhdp_db_neighbor_remove`
  unfoldable pub neighbor_remove : ℕ → Database D → Database D
  neighbor_remove n db = record {
    links = remove_links n db.links;
    neighbors = remove n db.neighbors;
  }

  -- `_cb_link_vtime` for a link object.
  unfoldable pub link_expires : ℕ → Link D → Database D → Database D
  link_expires key link db =
      let before =
        if is_symmetric link.status then link_status_not_symmetric_anymore key link db else db in
      let after = link_remove key before in
      if no_links link.neigh after.links then neighbor_remove link.neigh after else after

  -- `_cb_link_vtime`; the scheduler has stopped the timer before.
  unfoldable pub cb_link_vtime : ℕ → Database D → Database D
  cb_link_vtime key db = elim (find key db.links) [
    | none ↦ db
    | some link ↦ link_expires key link db
  ]

  -- The fields that `nhdp_db_link_add` gives a new link.
  abbrev pub new_link : ℕ → ℕ → D → Link D
  new_link n hold hysteresis = record {
    sym_time = 0;
    heard_time = 0;
    vtime = 0;
    status = link_lost;
    n_hold_time = hold;
    neigh = n;
    twohop = [];
    hysteresis = hysteresis;
  }

  -- `nhdp_db_link_add` for a new object `key` on an interface with that hold time; the memory of a new
  -- object is zero.
  unfoldable pub link_add : ℕ → ℕ → ℕ → D → Database D → Database D
  link_add key n hold hysteresis db = record db {
    links = insert key (new_link n hold hysteresis) db.links;
  }
