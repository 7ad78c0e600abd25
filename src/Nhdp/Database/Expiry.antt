-- ===== src/Nhdp/Database/Expiry.antt =====
-- Links and neighbours that come and go in nhdp_db.c, and the counters of symmetric links.
use olsrd.Base.{
  ℕ, ◌≡◌, ◌≢◌, ◌∙◌, sym, ap, refl, subst, Bool, true, false, List, [], ◌∷◌, none, some,
  Option-cases, Bool-cases, inl, inr, arith, ◌==◌, ==_iff, if◌then◌else◌, pos,
}
use olsrd.Common.Tree.{number_key, find, update, remove, find-update, find-remove}
use olsrd.Common.Tree.Count.{IsTree, count-remove, count-insert, remove-IsTree, insert-IsTree}
use olsrd.Nhdp.Database.{
  Link, Neighbor, Database, is_symmetric, with_neighbor, not_symmetric,
  link_status_not_symmetric_anymore, link_remove, remove_links, neighbor_remove, link_expires,
  cb_link_vtime, link_add, new_link,
}
use olsrd.Nhdp.Database.Count.{
  IsDatabase, Replaced, links_of, counts, loses-IsDatabase, stays-IsDatabase, Replaced-update,
}

module _ {D : Type 0} where
  links_of-remove_links :
      (m n : ℕ) (links : List (ℕ × Link D))
      → m ≢ n
      → links_of m (remove_links n links) ≡ links_of m links
  unfolding remove_links
  links_of-remove_links m n [] other = refl
  links_of-remove_links m n ((key, link) ∷ links) other =
      let rest = links_of-remove_links m n links other in grind arith

  find-remove_links :
      (key n : ℕ) (links : List (ℕ × Link D))
      → find key links ≡ none
      → find key (remove_links n links) ≡ none
  unfolding remove_links find
  find-remove_links key n [] absent = refl
  find-remove_links key n ((a, link) ∷ links) absent = grind (arith, find-remove_links key n links)

  remove_links-IsTree :
      (n : ℕ) (links : List (ℕ × Link D)) → IsTree links → IsTree (remove_links n links)
  unfolding remove_links
  remove_links-IsTree n [] tree = tree
  remove_links-IsTree n ((key, link) ∷ links) tree =
      let rest = remove_links-IsTree n links tree.1 in
      elim (Bool-cases (link.neigh == n)) [
        | inl h ↦ rw h rest
        | inr h ↦ rw h (find-remove_links key n links tree.0, rest)
      ]

  -- A neighbour goes with all its links.
  pub neighbor_remove-IsDatabase :
      (n : ℕ) (db : Database D) → IsDatabase db → IsDatabase (neighbor_remove n db)
  unfolding neighbor_remove
  neighbor_remove-IsDatabase n db valid = record {
    tree = remove_links-IsTree n db.links valid.tree;
    counted = λ m neighbor h.
        let gone = find-remove n m db.neighbors in
        elim (Bool-cases (n == m)) [
          | inl same ↦ absurd (grind arith)
          | inr other ↦
              let found : find m db.neighbors ≡ some neighbor = grind arith in
              let differs : m ≢ n = λ e. ground arith in
              valid.counted m neighbor found
              ∙ ap pos (sym (links_of-remove_links m n db.links differs))
        ];
  }

  -- A new link is not symmetric.
  pub link_add-IsDatabase :
      (key n hold : ℕ) (hysteresis : D) (db : Database D)
      → IsDatabase db
      → find key db.links ≡ none
      → IsDatabase (link_add key n hold hysteresis db)
  unfolding link_add
  link_add-IsDatabase key n hold hysteresis db valid absent = record {
    tree = insert-IsTree key _ db.links valid.tree;
    counted = λ m neighbor h.
        let more = count-insert (counts m) key (new_link n hold hysteresis) db.links absent in
        valid.counted m neighbor h ∙ ap pos (sym (ground arith));
  }

  Replaced-remove :
      (db : Database D) (key : ℕ) (link : Link D)
      → IsDatabase db
      → find key db.links ≡ some link
      → Replaced db link false (remove key db.links)
  Replaced-remove db key link valid there = record {
    is_tree = remove-IsTree key db.links valid.tree;
    shifted =
        λ m. let less = count-remove (counts m) key link db.links valid.tree there in ground arith;
  }

  -- The same after a write that leaves the status alone.
  Replaced-remove_again :
      (db : Database D) (key : ℕ) (link : Link D)
      → IsDatabase db
      → find key db.links ≡ some link
      → Replaced db link false (remove key (update key (record link { twohop = [] }) db.links))
  Replaced-remove_again db key link valid there =
      let last : Link D = record link { twohop = [] } in
      let first = Replaced-update db key link last valid there refl in
      let last_there : find key (update key last db.links) ≡ some last =
        grind (arith, find-update key key last db.links, (==_iff key key).1 refl) in
      record {
        is_tree = remove-IsTree key (update key last db.links) first.is_tree;
        shifted = λ m.
            let step = first.shifted m in
            let less =
              count-remove (counts m) key last (update key last db.links) first.is_tree
                last_there in
            ground arith;
      }

  link_remove-with_neighbor :
      (key n : ℕ) (change : Neighbor → Neighbor) (db : Database D)
      → link_remove key (with_neighbor n change db) ≡ with_neighbor n change (link_remove key db)
  unfolding link_remove with_neighbor
  link_remove-with_neighbor key n change db = elim (Option-cases (find n db.neighbors)) [
    | inl absent ↦ rw (absent, with_neighbor, link_remove) refl
    | inr (old, there) ↦ rw (there, with_neighbor, link_remove) refl
  ]

  cleanup-IsDatabase :
      (empty : Bool) (n : ℕ) (db : Database D)
      → IsDatabase db
      → IsDatabase (if empty then neighbor_remove n db else db)
  cleanup-IsDatabase true n db valid = neighbor_remove-IsDatabase n db valid
  cleanup-IsDatabase false n db valid = valid

  remaining-IsDatabase :
      (key : ℕ) (link : Link D) (db : Database D)
      → IsDatabase db
      → find key db.links ≡ some link
      → IsDatabase (
          link_remove key (
            if is_symmetric link.status then link_status_not_symmetric_anymore key link db else db))
  unfolding link_remove link_status_not_symmetric_anymore
  remaining-IsDatabase key link db valid there = elim (Bool-cases (is_symmetric link.status)) [
    | inl was ↦
        let lost =
          loses-IsDatabase db link _ link.n_hold_time valid
            (Replaced-remove_again db key link valid there) was in
        rw was (
          subst IsDatabase
            (sym (link_remove-with_neighbor key link.neigh (not_symmetric link.n_hold_time) _))
            lost)
    | inr was ↦ rw was (
        stays-IsDatabase db link _ valid (
          subst (λ b. Replaced db link b (remove key db.links)) (sym was)
            (Replaced-remove db key link valid there)))
  ]

  link_expires-IsDatabase :
      (key : ℕ) (link : Link D) (db : Database D)
      → IsDatabase db
      → find key db.links ≡ some link
      → IsDatabase (link_expires key link db)
  unfolding link_expires
  link_expires-IsDatabase key link db valid there =
      cleanup-IsDatabase _ link.neigh _ (remaining-IsDatabase key link db valid there)

  -- The validity time of a link ends: the link goes, and its neighbour if that was the last one.
  pub cb_link_vtime-IsDatabase :
      (key : ℕ) (db : Database D) → IsDatabase db → IsDatabase (cb_link_vtime key db)
  unfolding cb_link_vtime
  cb_link_vtime-IsDatabase key db valid = elim (Option-cases (find key db.links)) [
    | inl absent ↦ rw (absent, cb_link_vtime) valid
    | inr (link, there) ↦
        rw (there, cb_link_vtime) (link_expires-IsDatabase key link db valid there)
  ]
