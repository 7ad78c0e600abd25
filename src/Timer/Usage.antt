-- ===== src/Timer/Usage.antt =====
-- The number of running timers that a class of src-plugins/subsystems/oonf_timer.c counts.
use olsrd.Base.{
  ℕ, ◌+◌, ◌%◌, ◌^◌, ◌<◌, ◌≤◌, ◌*◌, ap₂, List, [], ◌∷◌, All, All-In, In, here, there, ◌≡◌, ◌≢◌, sym,
  ap, refl, ◌==◌, ==_iff, if◌then◌else◌, arith,
}
use olsrd.Common.Avl.Cases.{is_true, is_false, bool_of}
use olsrd.Timer.Clock.{calc_clock_due}
use olsrd.Timer.{
  TimerInstance, Scheduler, put, draw, calc_clock, timer_start_ext, timer_stop, timer_set_ext,
}

-- 1 for a running timer of a class.
abbrev pub counted : ℕ → TimerInstance → ℕ
counted class timer = if timer.class == class then (if timer.clock == 0 then 0 else 1) else 0

-- A change of a timer keeps the count of a class in step.
abbrev pub IsCounted : ℕ → ℕ → Scheduler → Scheduler → Type 0
IsCounted class name s after =
    ((after.classes class).usage + counted class (s.timers name)) % 2 ^ 32
    ≡ ((s.classes class).usage + counted class (after.timers name)) % 2 ^ 32

timer_stop-IsCounted : (class name : ℕ) (s : Scheduler) → IsCounted class name s (timer_stop name s)
unfolding timer_stop put
timer_stop-IsCounted class name s = ground (
  arith,
  ==_iff class (s.timers name).class,
  ==_iff (s.timers name).class class,
  ==_iff name name,
)

-- A start at a time and with a jitter that the clock holds. The time that it gives to the timer is not 0,
-- the mark of a timer that does not run.
abbrev pub IsStart : ℕ → ℕ → ℕ → Scheduler → Type 0
IsStart now name first s =
    ((s.timers name).jitter_pct ≤ 100)
    × (draw (s.timers name) s.draws < 2 ^ 32)
    × (first < 2 ^ 56)
    × (now < 2 ^ 62)

pub started_clock :
    (now name first : ℕ) (s : Scheduler)
    → IsStart now name first s
    → calc_clock now (record (s.timers name) { random = draw (s.timers name) s.draws }) first ≢ 0
started_clock now name first s (jitter, random, short, early) zero_clock =
    let timer = record (s.timers name) { random = draw (s.timers name) s.draws } in
    let (later, soon, round) = calc_clock_due now first timer jitter random short early in
    let part : (s.timers name).jitter_pct * first ≤ 100 * first = grind arith in
    omega (arith, later, zero_clock, part)

timer_start_ext-IsCounted :
    (class now name first interval : ℕ) (s : Scheduler)
    → IsStart now name first s
    → IsCounted class name s (timer_start_ext now name first interval s)
unfolding timer_start_ext put
timer_start_ext-IsCounted class now name first interval s fits = ground (
  arith,
  started_clock now name first s fits,
  ==_iff class (s.timers name).class,
  ==_iff (s.timers name).class class,
  ==_iff name name,
)

timer_set_ext-IsCounted :
    (class now name first interval : ℕ) (s : Scheduler)
    → IsStart now name first s
    → IsCounted class name s (timer_set_ext now name first interval s)
unfolding timer_set_ext
timer_set_ext-IsCounted class now name first interval s fits = elim (bool_of (first == 0)) [
  | is_true e ↦ rw (e, timer_set_ext) (timer_stop-IsCounted class name s)
  | is_false e ↦
      rw (e, timer_set_ext) (timer_start_ext-IsCounted class now name first interval s fits)
]

-- The other timers stay as they are.
timer_set_ext-others :
    (now name first interval other : ℕ) (s : Scheduler)
    → other ≢ name
    → (timer_set_ext now name first interval s).timers other ≡ s.timers other
unfolding timer_set_ext timer_start_ext timer_stop put
timer_set_ext-others now name first interval other s apart =
    ground (arith, ==_iff other name, apart)

-- The running timers of a class among those of a list.
abbrev pub count : ℕ → List ℕ → Scheduler → ℕ
count class [] s = 0
count class (x ∷ names) s = counted class (s.timers x) + count class names s

abbrev pub AreDistinct : List ℕ → Type 0
AreDistinct [] = Unit {0}
AreDistinct (x ∷ xs) = All (λ (y : ℕ). y ≢ x) xs × AreDistinct xs

-- All classes count the running ones of all timers.
abbrev pub IsUsage : List ℕ → Scheduler → Type 0
IsUsage names s = (class : ℕ) → (s.classes class).usage % 2 ^ 32 ≡ count class names s % 2 ^ 32

count_others :
    (class name : ℕ) (names : List ℕ) (s after : Scheduler)
    → ((other : ℕ) → other ≢ name → after.timers other ≡ s.timers other)
    → All (λ (y : ℕ). y ≢ name) names
    → count class names after ≡ count class names s
count_others class name [] s after same apart = refl
count_others class name (x ∷ names) s after same (p, apart) =
    ap₂ (λ a b. counted class a + b) (same x p) (count_others class name names s after same apart)

count_change :
    (class name : ℕ) (names : List ℕ) (s after : Scheduler)
    → ((other : ℕ) → other ≢ name → after.timers other ≡ s.timers other)
    → AreDistinct names
    → In name names
    → count class names after + counted class (s.timers name)
      ≡ count class names s + counted class (after.timers name)
count_change class name [] s after same distinct member = elim member [ ]
count_change class name (x ∷ names) s after same (apart, distinct) here =
    omega (arith, count_others class name names s after same apart)
count_change class name (x ∷ names) s after same (apart, distinct) (there member) =
    let other : x ≢ name = λ e. All-In (λ (y : ℕ). y ≢ x) apart member (sym e) in
    let kept : counted class (after.timers x) ≡ counted class (s.timers x) =
      ap (counted class) (same x other) in
    omega (arith, kept, count_change class name names s after same distinct member)

-- `oonf_timer_set_ext` keeps the usage counter of every class equal to the number of its timers that run,
-- for a timer with a jitter of at most 100 percent and times that do not overflow the clock. Starting a
-- timer that runs and stopping one that does not are included.
pub timer_set_ext-IsUsage :
    (names : List ℕ) (now name first interval : ℕ) (s : Scheduler)
    → AreDistinct names
    → In name names
    → IsStart now name first s
    → IsUsage names s
    → IsUsage names (timer_set_ext now name first interval s)
timer_set_ext-IsUsage names now name first interval s distinct member fits right class = omega (
  arith,
  timer_set_ext-IsCounted class now name first interval s fits,
  count_change class name names s (timer_set_ext now name first interval s)
      (λ other p. timer_set_ext-others now name first interval other s p) distinct member,
  right class,
)
