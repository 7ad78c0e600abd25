-- ===== src/Olsrv2/Dijkstra/Queue.antt =====
-- The working tree as a list in the order of the path costs.
use olsrd.Base.{
  All-map, ℕ, ◌≡◌, ◌≢◌, ◌≤◌, refl, false, not, ◌&&◌, ◌||◌, ◌==◌, List, [], ◌∷◌, All, arith,
  Bool-cases, inl, inr, ltb,
}
use olsrd.Olsrv2.Dijkstra.{enqueue, dequeue, is_queued}

-- Costs ascend, and no target stands twice.
abbrev pub IsQueue : List (ℕ × ℕ) → Type 0
IsQueue [] = Unit {0}
IsQueue ((c, i) ∷ rest) = All (λ e. c ≤ e.0) rest × (is_queued i rest ≡ false) × IsQueue rest

pub is_queued-enqueue :
    (i j c : ℕ) (q : List (ℕ × ℕ)) → is_queued i (enqueue c j q) ≡ (j == i || is_queued i q)
unfolding is_queued enqueue
is_queued-enqueue i j c [] = refl
is_queued-enqueue i j c ((d, k) ∷ q) = ground (arith, is_queued-enqueue i j c q)

pub is_queued-dequeue :
    (i j : ℕ) (q : List (ℕ × ℕ)) → is_queued i (dequeue j q) ≡ (not (j == i) && is_queued i q)
unfolding is_queued dequeue
is_queued-dequeue i j [] = ground arith
is_queued-dequeue i j ((d, k) ∷ q) = ground (arith, is_queued-dequeue i j q)

pub All-enqueue {κ} :
    (P : ℕ × ℕ → Type κ) (c j : ℕ) (q : List (ℕ × ℕ)) → P (c, j) → All P q → All P (enqueue c j q)
unfolding enqueue
All-enqueue P c j [] p all = (p, tt)
All-enqueue P c j ((d, k) ∷ q) p all = elim (Bool-cases (ltb d c)) [
  | inl h ↦ rw h (all.0, All-enqueue P c j q p all.1)
  | inr h ↦ elim (Bool-cases (d == c)) [
    | inl e ↦ rw (h, e) (all.0, (p, all.1))
    | inr e ↦ rw (h, e) (p, (all.0, all.1))
  ]
]

-- The others are kept, and are not the removed one.
pub All-dequeue {κ} :
    (P : ℕ × ℕ → Type κ) (j : ℕ) (q : List (ℕ × ℕ))
    → All P q
    → All (λ e. P e × (e.1 ≢ j)) (dequeue j q)
unfolding dequeue
All-dequeue P j [] all = tt
All-dequeue P j ((d, k) ∷ q) all = elim (Bool-cases (k == j)) [
  | inl h ↦ rw h (All-dequeue P j q all.1)
  | inr h ↦ rw h ((all.0, λ e. ground arith), All-dequeue P j q all.1)
]

pub dequeue-IsQueue : (j : ℕ) (q : List (ℕ × ℕ)) → IsQueue q → IsQueue (dequeue j q)
unfolding dequeue
dequeue-IsQueue j [] valid = tt
dequeue-IsQueue j ((d, k) ∷ q) valid = elim (Bool-cases (k == j)) [
  | inl h ↦ rw h (dequeue-IsQueue j q valid.2)
  | inr h ↦ rw h (
    All-map (λ e p. p.0) (dequeue j q) (All-dequeue (λ e. d ≤ e.0) j q valid.0),
    grind (arith, is_queued-dequeue k j q),
    dequeue-IsQueue j q valid.2,
  )
]

pub enqueue-IsQueue :
    (c j : ℕ) (q : List (ℕ × ℕ)) → IsQueue q → is_queued j q ≡ false → IsQueue (enqueue c j q)
unfolding enqueue is_queued
enqueue-IsQueue c j [] valid new = (tt, refl, tt)
enqueue-IsQueue c j ((d, k) ∷ q) valid new =
    let other : k ≢ j = λ e. ground arith in
    let rest : is_queued j q ≡ false = ground arith in
    elim (Bool-cases (ltb d c)) [
      | inl h ↦ rw h (
        All-enqueue (λ e. d ≤ e.0) c j q (ground arith) valid.0,
        grind (arith, is_queued-enqueue k j c q),
        enqueue-IsQueue c j q valid.2 rest,
      )
      | inr h ↦ elim (Bool-cases (d == c)) [
        | inl e ↦
            rw (h, e)
              (
                (ground arith, valid.0),
                ground arith,
                (All-map (λ x p. ground arith) q valid.0, rest, valid.2),
              )
        | inr e ↦
            rw (h, e) ((ground arith, All-map (λ x p. ground arith) q valid.0), ground arith, valid)
      ]
    ]
