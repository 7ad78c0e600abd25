-- ===== src/Nhdp/Database/Status.antt =====
-- The recalculation of the status of a link in nhdp_db.c keeps the counters right.
use olsrd.Base.{
  ℕ, ◌≡◌, ◌∙◌, sym, ap, refl, subst, some, Option-cases, Bool-cases, inl, inr, arith, ◌==◌, ==_iff,
  List, [],
}
use olsrd.Common.Tree.{number_key, find, update, find-update}
use olsrd.Common.Tree.Count.{update-IsTree}
use olsrd.Nhdp.Hysteresis.{Handler}
use olsrd.Nhdp.Database.{
  Link, Database, is_symmetric, link_status_not_symmetric_anymore, status_changes, update_status_of,
  link_update_status, link_calculate_status, cb_link_heard, cb_link_symtime,
}
use olsrd.Nhdp.Database.Count.{
  IsDatabase, Replaced, links_of-update, loses-IsDatabase, gains-IsDatabase, stays-IsDatabase,
  Replaced-update,
}

module _ {D : Type 0} where
  find_updated :
      (key : ℕ) (link next : Link D) (links : List (ℕ × Link D))
      → find key links ≡ some link
      → find key (update key next links) ≡ some next
  find_updated key link next links there =
      grind (arith, find-update key key next links, (==_iff key key).1 refl)

  -- A second write to the same link that leaves its status alone.
  Replaced-update_again :
      (db : Database D) (key : ℕ) (link next last : Link D)
      → IsDatabase db
      → find key db.links ≡ some link
      → next.neigh ≡ link.neigh
      → last.neigh ≡ link.neigh
      → last.status ≡ next.status
      → Replaced db link (is_symmetric next.status) (update key last (update key next db.links))
  Replaced-update_again db key link next last valid there same same_again status =
      let first = Replaced-update db key link next valid there same in
      record {
        is_tree = update-IsTree key last (update key next db.links) first.is_tree;
        shifted = λ m.
            let one_step = first.shifted m in
            let again =
              links_of-update m key next last (update key next db.links) first.is_tree
                (find_updated key link next db.links there) (same_again ∙ sym same) in
            let a = ap is_symmetric status in let b = ap (λ x. x == m) same in grind arith;
      }

  pub update_status_of-IsDatabase :
      (handler : Handler D) (key : ℕ) (link : Link D) (db : Database D)
      → IsDatabase db
      → find key db.links ≡ some link
      → IsDatabase (update_status_of handler key link db)
  unfolding update_status_of status_changes link_status_not_symmetric_anymore
  update_status_of-IsDatabase handler key link db valid there =
      let next : Link D = record link { status = link_calculate_status handler link } in
      let last : Link D = record next { twohop = [] } in
      let once = Replaced-update db key link next valid there refl in
      let twice = Replaced-update_again db key link next last valid there refl refl refl in
      let links = update key next db.links in
      let links_again = update key last links in
      elim (Bool-cases (is_symmetric link.status)) [
        | inl was ↦ elim (Bool-cases (is_symmetric next.status)) [
          | inl now ↦
              rw (was, now)
                (stays-IsDatabase db link links valid
                  (subst (λ b. Replaced db link b links) (now ∙ sym was) once))
          | inr now ↦
              rw (was, now)
                (loses-IsDatabase db link links_again link.n_hold_time valid
                  (subst (λ b. Replaced db link b links_again) now twice) was)
        ]
        | inr was ↦ elim (Bool-cases (is_symmetric next.status)) [
          | inl now ↦
              rw (was, now)
                (gains-IsDatabase db link links valid
                  (subst (λ b. Replaced db link b links) now once) was)
          | inr now ↦
              rw (was, now)
                (stays-IsDatabase db link links valid
                  (subst (λ b. Replaced db link b links) (now ∙ sym was) once))
        ]
      ]

  pub link_update_status-IsDatabase :
      (handler : Handler D) (key : ℕ) (db : Database D)
      → IsDatabase db
      → IsDatabase (link_update_status handler key db)
  unfolding link_update_status
  link_update_status-IsDatabase handler key db valid = elim (Option-cases (find key db.links)) [
    | inl absent ↦ rw (absent, link_update_status) valid
    | inr (link, there) ↦
        rw (there, link_update_status) (update_status_of-IsDatabase handler key link db valid there)
  ]

  -- A write to a link that leaves its status and its neighbour alone.
  pub write-IsDatabase :
      (key : ℕ) (link next : Link D) (db : Database D)
      → IsDatabase db
      → find key db.links ≡ some link
      → next.neigh ≡ link.neigh
      → next.status ≡ link.status
      → IsDatabase (record db { links = update key next db.links })
  write-IsDatabase key link next db valid there same status =
      stays-IsDatabase db link (update key next db.links) valid (
        subst (λ s. Replaced db link (is_symmetric s) (update key next db.links)) status
          (Replaced-update db key link next valid there same))

  pub cb_link_heard-IsDatabase :
      (handler : Handler D) (key : ℕ) (db : Database D)
      → IsDatabase db
      → IsDatabase (cb_link_heard handler key db)
  unfolding cb_link_heard
  cb_link_heard-IsDatabase handler key db valid = elim (Option-cases (find key db.links)) [
    | inl absent ↦ rw (absent, cb_link_heard) valid
    | inr (link, there) ↦
        rw (there, cb_link_heard)
          (link_update_status-IsDatabase handler key _
            (write-IsDatabase key link (record link { heard_time = 0 }) db valid there refl refl))
  ]

  pub cb_link_symtime-IsDatabase :
      (handler : Handler D) (key : ℕ) (db : Database D)
      → IsDatabase db
      → IsDatabase (cb_link_symtime handler key db)
  unfolding cb_link_symtime
  cb_link_symtime-IsDatabase handler key db valid = elim (Option-cases (find key db.links)) [
    | inl absent ↦ rw (absent, cb_link_symtime) valid
    | inr (link, there) ↦
        rw (there, cb_link_symtime)
          (link_update_status-IsDatabase handler key _
            (write-IsDatabase key link (record link { sym_time = 0 }) db valid there refl refl))
  ]
