-- ===== src/Timer.antt =====
-- The timers of src-plugins/subsystems/oonf_timer.c: the time at which a timer fires, and its start and
-- stop. Timers and their classes are numbers in place of addresses in memory.
mod Clock
mod Usage
mod Running
mod Examples
use Prim.Native.Nat.{compare}
use olsrd.Base.{
  ℕ, ◌+◌, ◌-◌, ◌*◌, ◌/◌, ◌%◌, ◌^◌, ◌==◌, Bool, true, false, if◌then◌else◌, Option, none, some, List,
  [], ◌∷◌,
}
use olsrd.Common.Avl.{AvlNode}
use olsrd.Common.Avl.Ops.{AvlTree, avl_insert, avl_remove}

-- `struct oonf_timer_instance`
pub record TimerInstance : Type 0 where
  pub class : ℕ
  pub jitter_pct : ℕ
  pub period : ℕ
  pub random : ℕ
  pub clock : ℕ

-- `struct oonf_timer_class`
pub record TimerClass : Type 0 where
  pub periodic : Bool
  pub usage : ℕ
  pub changes : ℕ
  pub timer_in_callback : Option ℕ
  pub timer_stopped : Bool

-- The timers and classes in memory, the tree of running timers by the time at which they fire, and what
-- the next calls of `os_core_get_random` give.
pub record Scheduler : Type 0 where
  pub timers : ℕ → TimerInstance
  pub classes : ℕ → TimerClass
  pub timer_tree : AvlTree ℕ
  pub draws : List (Option ℕ)

-- `OONF_TIMER_SLICE`
abbrev pub timer_slice : ℕ
timer_slice = 100

-- A write to an object.
unfoldable pub put {ℓ} : {A : Type ℓ} → ℕ → A → (ℕ → A) → ℕ → A
put name a memory other = if other == name then a else memory other

-- `_calc_clock`, at a time `now`.
unfoldable pub calc_clock : ℕ → TimerInstance → ℕ → ℕ
calc_clock now timer rel_time =
    let random_jitter = timer.random / ((2 ^ 32 - 1) / timer.jitter_pct) in
    let t = random_jitter * rel_time % 2 ^ 64 / 100 in
    let rest = if timer.jitter_pct == 0 then rel_time else (rel_time + (2 ^ 64 - t)) % 2 ^ 64 in
    let clock = ((now + rest) % 2 ^ 64 + timer_slice) % 2 ^ 64 in clock - clock % timer_slice

-- The random number of a timer, which is drawn if there is none.
unfoldable pub draw : TimerInstance → List (Option ℕ) → ℕ
draw timer [] = timer.random
draw timer (none ∷ draws) = timer.random
draw timer (some n ∷ draws) = if timer.random == 0 then n else timer.random

abbrev pub later_draws : TimerInstance → List (Option ℕ) → List (Option ℕ)
later_draws timer [] = []
later_draws timer (d ∷ draws) = if timer.random == 0 then draws else d ∷ draws

-- `oonf_timer_start_ext`
unfoldable pub timer_start_ext : ℕ → ℕ → ℕ → ℕ → Scheduler → Scheduler
timer_start_ext now name first interval s =
    let timer = s.timers name in
    let class = s.classes timer.class in
    let running = if timer.clock == 0 then false else true in
    let random = draw timer s.draws in
    let clock = calc_clock now (record timer { random = random }) first in
    let tree = if running then avl_remove name s.timer_tree else s.timer_tree in
    record {
      timers =
          put name
            (record timer {
              random = random;
              clock = clock;
              period = if class.periodic then interval else 0;
            })
            s.timers;
      classes =
          put timer.class
            (record class {
              usage = if running then class.usage else (class.usage + 1) % 2 ^ 32;
              changes = (class.changes + 1) % 2 ^ 32;
            })
            s.classes;
      timer_tree = (avl_insert compare (record { name = name; key = clock }) tree).0;
      draws = later_draws timer s.draws;
    }

-- `oonf_timer_stop`
unfoldable pub timer_stop : ℕ → Scheduler → Scheduler
timer_stop name s =
    let timer = s.timers name in
    let class = s.classes timer.class in
    let in_callback : Bool = elim class.timer_in_callback [
      | none ↦ false
      | some other ↦ other == name
    ] in
    if timer.clock == 0 then s else record s {
      timers = put name (record timer { clock = 0; random = 0 }) s.timers;
      classes =
          put timer.class
            (record class {
              usage = (class.usage + (2 ^ 32 - 1)) % 2 ^ 32;
              changes = (class.changes + 1) % 2 ^ 32;
              timer_stopped = if in_callback then true else class.timer_stopped;
            })
            s.classes;
      timer_tree = avl_remove name s.timer_tree;
    }

-- `oonf_timer_set_ext`
unfoldable pub timer_set_ext : ℕ → ℕ → ℕ → ℕ → Scheduler → Scheduler
timer_set_ext now name first interval s =
    let started = timer_start_ext now name first interval s in
    if first == 0 then timer_stop name s else started

-- `oonf_timer_getNextEvent`
unfoldable pub timer_get_next_event : Scheduler → ℕ
timer_get_next_event s = elim s.timer_tree.list_head [
  | [] ↦ 2 ^ 64 - 1
  | first ∷ rest ↦ first.0.key
]

-- `oonf_timer_is_active`
abbrev pub timer_is_active : TimerInstance → Bool
timer_is_active timer = if timer.clock == 0 then false else true
