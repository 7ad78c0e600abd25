-- ===== src/Dupset/Window/Kept.antt =====
-- A number that an entry has seen stays seen while the numbers that `_test` takes up are not more than
-- 31 ahead of it.
use olsrd.Base.{ℕ, ◌<◌, ◌≡◌, ◌≢◌, refl, sym, ap, ◌∙◌, true, false, inl, inr, ◌⊎◌, arith}
use olsrd.Dupset.{
  DupsetType, DuplicateResult, too_old, DuplicateEntry, DuplicateSet, test, test_window, test_ahead,
}
use olsrd.Dupset.Difference.{modulus, behind, IsOfType}
use olsrd.Dupset.Window.{seen, IsEntry, cleared, at_current, in_window, ahead, distance}
use olsrd.Dupset.Window.Seen.{seen-test}
use olsrd.Dupset.Window.Triangle.{triangle}

window_current :
    (e : DuplicateEntry) (n : ℕ)
    → ((test_window e n true).0 ≢ too_old) × ((test_window e n true).1.current ≡ e.current)
unfolding test_window
window_current e n = (λ h. ground arith, ground arith)

module _ (set : DuplicateSet) (type : DupsetType) (e : DuplicateEntry) (t s : ℕ)
    (of_type : IsOfType set type) (valid : IsEntry type e) (t_fits : t < modulus type)
    (s_fits : s < modulus type) (known : seen (modulus type) e s ≡ true) where
  -- What is near the new current number stays seen.
  near_current :
      (out : DuplicateResult × DuplicateEntry) (c : ℕ)
      → test set e t true ≡ out
      → (out.0 ≢ too_old) × (out.1.current ≡ c)
      → behind (modulus type) c s < 32
      → seen (modulus type) (test set e t true).1 s ≡ true
  near_current out c e_out (accepted, at) near =
      let taken : (test set e t true).0 ≢ too_old = λ h. accepted (ap (λ o. o.0) (sym e_out) ∙ h) in
      let now : (test set e t true).1.current ≡ c =
        ap (λ (o : DuplicateResult × DuplicateEntry). o.1.current) e_out ∙ at in
      let close : behind (modulus type) (test set e t true).1.current s < 32 = rw now near in
      seen-test set type e t of_type valid t_fits taken s s_fits ∙ rw known (ground arith)

  pub seen-kept :
      behind (modulus type) t s < 32 → seen (modulus type) (test set e t true).1 s ≡ true
  unfolding test_ahead
  seen-kept near = elim (distance (behind (modulus type) e.current t) (modulus type)) [
    | inl zero_behind ↦ rw (at_current set type e t of_type valid t_fits true zero_behind) known
    | inr (inl (h, k)) ↦
        let b = behind (modulus type) e.current t in
        near_current (test_window (cleared e) b true) e.current
          (in_window set type e t of_type valid t_fits true h k) (window_current (cleared e) b)
          (ground arith)
    | inr (inr (inl (h, k))) ↦
        let far = (triangle type e.current t s valid.in_range t_fits s_fits).apart h k in
        absurd (ground (arith, far))
    | inr (inr (inr (h, k))) ↦
        near_current (test_ahead (cleared e) t (behind (modulus type) t e.current) true) t
          (ahead set type e t of_type valid t_fits true h) (λ r. cc, refl) near
  ]

  window_query : (n : ℕ) → (test_window (cleared e) n false).1 ≡ cleared e
  unfolding test_window
  window_query n = ground arith

  -- Without the set flag the entry stays but for its counter, where the number is no old one.
  pub test-query :
      behind (modulus type) t s < 32
      → ((test set e t false).1 ≡ e) ⊎ ((test set e t false).1 ≡ record e { too_old_count = 0 })
  unfolding test_ahead
  test-query near = elim (distance (behind (modulus type) e.current t) (modulus type)) [
    | inl zero_behind ↦
        inl (rw (at_current set type e t of_type valid t_fits false zero_behind) refl)
    | inr (inl (h, k)) ↦ inr (
        rw (in_window set type e t of_type valid t_fits false h k)
          (window_query (behind (modulus type) e.current t)))
    | inr (inr (inl (h, k))) ↦
        let far = (triangle type e.current t s valid.in_range t_fits s_fits).apart h k in
        absurd (ground (arith, far))
    | inr (inr (inr (h, k))) ↦ inr (rw (ahead set type e t of_type valid t_fits false h) refl)
  ]
