-- ===== src/Timer/Examples.antt =====
-- A running timer and one that is idle, that the theorems about timers apply to.
use olsrd.Base.{
  ◌+◌, ◌*◌, ◌/◌, ◌%◌, ◌<◌, ◌≤◌, ◌≡◌, refl, ◌==◌, true, false, if◌then◌else◌, none, some, [], ◌∷◌,
  here, there, pos, arith,
}
use olsrd.Common.Avl.{leaf, node}
use olsrd.Common.Avl.Balance.{even}
use olsrd.Common.Avl.Inorder.{inorder}
use olsrd.Common.Avl.Leaders.{members, leaders}
use olsrd.Timer.{TimerInstance, Scheduler, draw, calc_clock, timer_set_ext, timer_slice}
use olsrd.Timer.Clock.{calc_clock_due}
use olsrd.Timer.Usage.{IsUsage, timer_set_ext-IsUsage}
use olsrd.Timer.Running.{IsReady, timer_set_ext-IsReady}

abbrev hello_timer : TimerInstance
hello_timer = record {
  class = 0;
  jitter_pct = 25;
  period = 2000;
  random = 3000000000;
  clock = 1800;
}

abbrev idle_timer : TimerInstance
idle_timer = record { class = 0; jitter_pct = 0; period = 0; random = 0; clock = 0 }

calc_clock_due_example :
    (1000 + 2000 < calc_clock 1000 hello_timer 2000 + 25 * 2000 / 100)
    × (calc_clock 1000 hello_timer 2000 ≤ 1000 + 2000 + timer_slice)
    × (calc_clock 1000 hello_timer 2000 % timer_slice ≡ 0)
calc_clock_due_example =
    calc_clock_due 1000 2000 hello_timer (omega arith) (omega arith) (omega arith) (omega arith)

hello_clock : calc_clock 1000 hello_timer 2000 ≡ 2700
unfolding calc_clock
hello_clock = refl

abbrev scheduler : Scheduler
scheduler = record {
  timers = λ name. if name == 1 then hello_timer else idle_timer;
  classes = λ class. record {
    periodic = true;
    usage = if 0 == class then 1 else 0;
    changes = 1;
    timer_in_callback = none;
    timer_stopped = false;
  };
  timer_tree = record {
    list_head = (record { name = 1; key = 1800 }, false) ∷ [];
    root = node leaf (record { name = 1; key = 1800 }) (pos 0) leaf;
    count = 1;
    allow_dups = true;
  };
  draws = some 12345 ∷ [];
}

scheduler-IsUsage : IsUsage (1 ∷ 2 ∷ []) scheduler
scheduler-IsUsage class = ground arith

scheduler-IsReady : IsReady scheduler
unfolding inorder members leaders
scheduler-IsReady = record {
  sound = record {
    balanced = (1, (0, 0, refl, refl, even refl refl refl));
    linked = record { in_order = refl; different = ground arith };
  };
  keyed = ground arith;
}

drawn : draw (scheduler.timers 2) scheduler.draws ≡ 12345
unfolding draw
drawn = refl

timer_set_ext-IsUsage_example : IsUsage (1 ∷ 2 ∷ []) (timer_set_ext 1000 2 500 500 scheduler)
timer_set_ext-IsUsage_example =
    timer_set_ext-IsUsage (1 ∷ 2 ∷ []) 1000 2 500 500 scheduler (ground arith) (there here)
      (omega arith, omega (arith, drawn), omega arith, omega arith) scheduler-IsUsage

timer_set_ext-IsReady_example : IsReady (timer_set_ext 1000 2 500 500 scheduler)
timer_set_ext-IsReady_example =
    timer_set_ext-IsReady 1000 2 500 500 scheduler
      (omega arith, omega (arith, drawn), omega arith, omega arith) scheduler-IsReady
