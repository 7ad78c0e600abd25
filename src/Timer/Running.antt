-- ===== src/Timer/Running.antt =====
-- The tree of running timers of src-plugins/subsystems/oonf_timer.c, which is an AVL tree of
-- src-api/common/avl.c by the time at which they fire.
use Prim.Native.Nat.{compare}
use olsrd.Base.{
  ℕ, ◌≡◌, ◌≢◌, ◌∙◌, sym, ap, ◌==◌, ==_iff, if◌then◌else◌, All, All-map, All-zip, arith,
}
use olsrd.Common.Avl.{AvlNode}
use olsrd.Common.Avl.Cases.{is_true, is_false, bool_of}
use olsrd.Common.Avl.Distinct.{IsNamed, IsAbsent}
use olsrd.Common.Avl.Leaders.{members}
use olsrd.Common.Avl.Sound.{IsSound, avl_insert-IsSound, avl_remove-IsSound}
use olsrd.Common.Avl.Members.{avl_insert-members, avl_remove-members}
use olsrd.Common.Avl.Ops.{AvlTree, avl_insert, avl_remove}
use olsrd.Timer.{
  TimerInstance, Scheduler, put, draw, calc_clock, timer_start_ext, timer_stop, timer_set_ext,
}
use olsrd.Timer.Usage.{IsStart, started_clock}

-- A timer in the tree stands at the time at which it fires, which is not 0.
abbrev pub IsKeyed : (ℕ → TimerInstance) → AvlNode ℕ → Type 0
IsKeyed timers n = ((timers n.name).clock ≡ n.key) × (n.key ≢ 0)

-- The tree is sound and has running timers.
pub record IsReady (s : Scheduler) : Type 0 where
  pub sound : IsSound s.timer_tree
  pub keyed : All (IsKeyed s.timers) (members s.timer_tree.list_head)

-- A tree without a timer.
record IsWithout (timers : ℕ → TimerInstance) (name : ℕ) (tree : AvlTree ℕ) : Type 0 where
  sound : IsSound tree
  keyed : All (IsKeyed timers) (members tree.list_head)
  absent : IsAbsent name (members tree.list_head)

removed :
    (name : ℕ) (s : Scheduler) → IsReady s → IsWithout s.timers name (avl_remove name s.timer_tree)
removed name s ready =
    let (keyed, absent) =
      avl_remove-members (IsKeyed s.timers) name s.timer_tree ready.sound.linked.different
        ready.keyed in
    record {
      sound = avl_remove-IsSound name s.timer_tree ready.sound;
      keyed = keyed;
      absent = absent;
    }

idle :
    (name : ℕ) (s : Scheduler)
    → IsReady s
    → (s.timers name).clock ≡ 0
    → IsWithout s.timers name s.timer_tree
idle name s ready stopped = record {
  sound = ready.sound;
  keyed = ready.keyed;
  absent =
      All-map (λ n h same. h.1 (sym h.0 ∙ ap (λ x. (s.timers x).clock) same ∙ stopped))
        (members s.timer_tree.list_head) ready.keyed;
}

-- A write to a timer outside of the tree.
unchanged :
    (timers : ℕ → TimerInstance) (name : ℕ) (timer : TimerInstance) (tree : AvlTree ℕ)
    → IsWithout timers name tree
    → All (IsKeyed (put name timer timers)) (members tree.list_head)
unfolding put
unchanged timers name timer tree without =
    All-zip (IsKeyed timers) (IsNamed name) (IsKeyed (put name timer timers))
      (λ n h other. ground (arith, h, other, ==_iff n.name name)) (members tree.list_head)
      without.keyed without.absent

timer_stop-IsReady : (name : ℕ) (s : Scheduler) → IsReady s → IsReady (timer_stop name s)
unfolding timer_stop
timer_stop-IsReady name s ready = elim (bool_of ((s.timers name).clock == 0)) [
  | is_true e ↦ record {
    sound = rw (e, timer_stop) ready.sound;
    keyed = rw (e, timer_stop) ready.keyed;
  }
  | is_false e ↦
      let without = removed name s ready in
      record {
        sound = rw (e, timer_stop) without.sound;
        keyed =
            rw (e, timer_stop) (unchanged s.timers name _ (avl_remove name s.timer_tree) without);
      }
]

-- A timer that gets its place in the tree.
inserted :
    (timers : ℕ → TimerInstance) (name : ℕ) (timer : TimerInstance) (tree : AvlTree ℕ)
    → IsWithout timers name tree
    → timer.clock ≢ 0
    → let after = (avl_insert compare (record { name = name; key = timer.clock }) tree).0 in
      IsSound after × All (IsKeyed (put name timer timers)) (members after.list_head)
unfolding put
inserted timers name timer tree without running =
    let new : AvlNode ℕ = record { name = name; key = timer.clock } in
    (
      avl_insert-IsSound compare new tree without.sound without.absent,
      avl_insert-members compare (IsKeyed (put name timer timers)) new tree
          (ground (arith, ==_iff name name), running) (unchanged timers name timer tree without),
    )

timer_start_ext-IsReady :
    (now name first interval : ℕ) (s : Scheduler)
    → IsStart now name first s
    → IsReady s
    → IsReady (timer_start_ext now name first interval s)
unfolding timer_start_ext
timer_start_ext-IsReady now name first interval s fits ready =
    let old = s.timers name in
    let random = draw old s.draws in
    let timer : TimerInstance = record old {
      random = random;
      clock = calc_clock now (record old { random = random }) first;
      period = if (s.classes old.class).periodic then interval else 0;
    } in
    let running = started_clock now name first s fits in
    elim (bool_of (old.clock == 0)) [
      | is_true e ↦
          let (sound, keyed) =
            inserted s.timers name timer s.timer_tree (idle name s ready ((==_iff old.clock 0).0 e))
              running in
          record { sound = rw (e, timer_start_ext) sound; keyed = rw (e, timer_start_ext) keyed }
      | is_false e ↦
          let (sound, keyed) =
            inserted s.timers name timer (avl_remove name s.timer_tree) (removed name s ready)
              running in
          record { sound = rw (e, timer_start_ext) sound; keyed = rw (e, timer_start_ext) keyed }
    ]

-- `oonf_timer_set_ext` keeps the tree of timers sound, as avl_insert and avl_remove do, and each timer in
-- it at the time at which it fires; for a timer with a jitter of at most 100 percent and times that do
-- not overflow the clock.
pub timer_set_ext-IsReady :
    (now name first interval : ℕ) (s : Scheduler)
    → IsStart now name first s
    → IsReady s
    → IsReady (timer_set_ext now name first interval s)
unfolding timer_set_ext
timer_set_ext-IsReady now name first interval s fits ready = elim (bool_of (first == 0)) [
  | is_true e ↦ rw (e, timer_set_ext) (timer_stop-IsReady name s ready)
  | is_false e ↦
      rw (e, timer_set_ext) (timer_start_ext-IsReady now name first interval s fits ready)
]
