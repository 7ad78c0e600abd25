-- ===== src/Nhdp/Database/Count.antt =====
-- The counter of symmetric links of a neighbour in nhdp_db.c: it is the number of the links with that
-- status in the database.
use olsrd.Base.{
  ℕ, ◌+◌, ◌≡◌, ◌≢◌, ◌∙◌, sym, ap, refl, Bool, true, false, ◌&&◌, ◌==◌, ==_iff, some, List, pos,
  ◌+ℤ◌, ◌-ℤ◌, Bool-cases, Option-cases, inl, inr, arith,
}
use olsrd.Common.Tree.{number_key, find, update, find-update}
use olsrd.Common.Tree.Count.{IsTree, count, one, count-update, update-IsTree}
use olsrd.Nhdp.Database.{
  Link, Neighbor, Database, is_symmetric, with_neighbor, now_symmetric, not_symmetric,
}

abbrev pub counts : {D : Type 0} → ℕ → Link D → Bool
counts n link = link.neigh == n && is_symmetric link.status

suc_pos : (a b : ℕ) → b ≡ a + 1 → pos a +ℤ pos 1 ≡ pos b
suc_pos a b h = ground arith

pred_pos : (a b : ℕ) → a ≡ b + 1 → pos a -ℤ pos 1 ≡ pos b
pred_pos a b h = ground arith

-- The number of symmetric links of a neighbour.
abbrev pub links_of : {D : Type 0} → ℕ → List (ℕ × Link D) → ℕ
links_of n links = count (counts n) links

-- Every counter is right.
pub record IsDatabase {D : Type 0} (db : Database D) : Type 0 where
  pub tree : IsTree db.links
  pub counted :
      (n : ℕ) (neighbor : Neighbor)
      → find n db.neighbors ≡ some neighbor
      → neighbor.symmetric ≡ pos (links_of n db.links)

module _ {D : Type 0} where
  -- A change of the counter of neighbour `n` that follows a change of the links.
  with_neighbor-IsDatabase :
      (n : ℕ) (change : Neighbor → Neighbor) (db : Database D) (links : List (ℕ × Link D))
      → IsDatabase db
      → IsTree links
      → ((m : ℕ) → m ≢ n → links_of m links ≡ links_of m db.links)
      → ((neighbor : Neighbor)
          → neighbor.symmetric ≡ pos (links_of n db.links)
          → (change neighbor).symmetric ≡ pos (links_of n links))
      → IsDatabase (with_neighbor n change (record db { links = links }))
  unfolding with_neighbor
  with_neighbor-IsDatabase n change db links valid tree others changed =
      elim (Option-cases (find n db.neighbors)) [
        | inl absent ↦
            rw (absent, with_neighbor)
              (record {
                tree = tree;
                counted = λ m neighbor h.
                    let other : m ≢ n = λ e. grind (arith, ap (λ x. find x db.neighbors) e) in
                    valid.counted m neighbor h ∙ ap pos (sym (others m other));
              })
        | inr (old, there) ↦
            rw (there, with_neighbor)
              (record {
                tree = tree;
                counted = λ m neighbor h. elim (Bool-cases (n == m)) [
                  | inl same ↦
                      let e : n ≡ m = (==_iff n m).0 same in
                      let now : change old ≡ neighbor = grind (
                        arith,
                        find-update n m (change old) db.neighbors,
                        ap (λ x. find x db.neighbors) e,
                      ) in
                      sym (ap (λ x. x.symmetric) now)
                      ∙ changed old (valid.counted n old there)
                      ∙ ap (λ x. pos (links_of x links)) e
                  | inr other ↦
                      let found : find m db.neighbors ≡ some neighbor =
                        grind (arith, find-update n m (change old) db.neighbors) in
                      let differs : m ≢ n = λ e. ground arith in
                      valid.counted m neighbor found ∙ ap pos (sym (others m differs))
                ];
              })
      ]

  -- One link changes, its neighbour stays.
  pub links_of-update :
      (m key : ℕ) (link next : Link D) (links : List (ℕ × Link D))
      → IsTree links
      → find key links ≡ some link
      → next.neigh ≡ link.neigh
      → links_of m (update key next links) + one (counts m link)
        ≡ links_of m links + one (link.neigh == m && is_symmetric next.status)
  links_of-update m key link next links tree there same =
      count-update (counts m) key link next links tree there
      ∙ ap (λ x. links_of m links + one (x == m && is_symmetric next.status)) same

  -- The links after `link` was replaced by one that is or is not symmetric.
  pub record Replaced (db : Database D) (link : Link D) (now : Bool) (links : List (ℕ × Link D))
      : Type 0 where
    pub is_tree : IsTree links
    pub shifted :
        (m : ℕ)
        → links_of m links + one (counts m link)
          ≡ links_of m db.links + one (link.neigh == m && now)

  -- Its symmetry is lost,
  pub loses-IsDatabase :
      (db : Database D) (link : Link D) (links : List (ℕ × Link D)) (hold : ℕ)
      → IsDatabase db
      → Replaced db link false links
      → is_symmetric link.status ≡ true
      → IsDatabase (with_neighbor link.neigh (not_symmetric hold) (record db { links = links }))
  unfolding not_symmetric
  loses-IsDatabase db link links hold valid r was =
      with_neighbor-IsDatabase link.neigh (not_symmetric hold) db links valid r.is_tree
        (λ m other. let s = r.shifted m in grind arith)
        (λ neighbor h.
          let s = r.shifted link.neigh in
          ap (λ z. z -ℤ pos 1) h
          ∙ pred_pos _ _ (grind (arith, (==_iff link.neigh link.neigh).1 refl)))

  -- gained,
  pub gains-IsDatabase :
      (db : Database D) (link : Link D) (links : List (ℕ × Link D))
      → IsDatabase db
      → Replaced db link true links
      → is_symmetric link.status ≡ false
      → IsDatabase (with_neighbor link.neigh now_symmetric (record db { links = links }))
  unfolding now_symmetric
  gains-IsDatabase db link links valid r was =
      with_neighbor-IsDatabase link.neigh now_symmetric db links valid r.is_tree
        (λ m other. let s = r.shifted m in grind arith)
        (λ neighbor h.
          let s = r.shifted link.neigh in
          ap (λ z. z +ℤ pos 1) h
          ∙ suc_pos _ _ (grind (arith, (==_iff link.neigh link.neigh).1 refl)))

  -- or stays.
  pub stays-IsDatabase :
      (db : Database D) (link : Link D) (links : List (ℕ × Link D))
      → IsDatabase db
      → Replaced db link (is_symmetric link.status) links
      → IsDatabase (record db { links = links })
  stays-IsDatabase db link links valid r = record {
    tree = r.is_tree;
    counted =
        λ m neighbor h. valid.counted m neighbor h ∙ ap pos (let s = r.shifted m in omega arith);
  }

  pub Replaced-update :
      (db : Database D) (key : ℕ) (link next : Link D)
      → IsDatabase db
      → find key db.links ≡ some link
      → next.neigh ≡ link.neigh
      → Replaced db link (is_symmetric next.status) (update key next db.links)
  Replaced-update db key link next valid there same = record {
    is_tree = update-IsTree key next db.links valid.tree;
    shifted = λ m. links_of-update m key link next db.links valid.tree there same;
  }
