-- ===== src/Timer/Clock.antt =====
-- The time at which a timer of src-plugins/subsystems/oonf_timer.c fires.
use native.Mathlib.Nat.{div-lt_iff_lt-mul, le-div_iff_mul-le, div-add-mod, mod-lt}
use olsrd.Base.{ℕ, ◌+◌, ◌-◌, ◌*◌, ◌/◌, ◌%◌, ◌^◌, ◌≤◌, ◌<◌, ◌≡◌, ◌==◌, arith}
use olsrd.Common.Avl.Cases.{is_true, is_false, bool_of}
use olsrd.Timer.{TimerInstance, calc_clock, timer_slice}

-- The slice after a time.
slice_after :
    (x : ℕ)
    → x + 100 < 2 ^ 64
    → let up = (x % 2 ^ 64 + 100) % 2 ^ 64 in
      (x < up - up % 100) × (up - up % 100 ≤ x + 100) × ((up - up % 100) % 100 ≡ 0)
slice_after x small = (omega arith, omega arith, omega arith)

-- The jitter that is drawn is at most the one of the timer.
drawn_jitter :
    (random pct : ℕ) → random < 2 ^ 32 → pct ≤ 100 → 0 < pct → random / ((2 ^ 32 - 1) / pct) ≤ pct
drawn_jitter random pct small few some_pct =
    let q = (2 ^ 32 - 1) / pct in
    let large : 100 ≤ q = (le-div_iff_mul-le some_pct).1 (omega arith) in
    let whole = div-add-mod (2 ^ 32 - 1) pct in
    let rest : (2 ^ 32 - 1) % pct < pct = mod-lt (2 ^ 32 - 1) some_pct in
    let spread : (pct + 1) * q ≡ pct * q + q = grind arith in
    let below : random / q < pct + 1 =
      (div-lt_iff_lt-mul (omega arith)).1 (omega (arith, whole, rest, large, spread)) in
    omega (arith, below)

-- The jitter takes off at most its share of a time.
taken_off :
    (share pct rel : ℕ)
    → share ≤ pct
    → pct ≤ 100
    → rel < 2 ^ 56
    → let t = share * rel % 2 ^ 64 / 100 in (t ≤ pct * rel / 100) × (t ≤ rel)
taken_off share pct rel less few small =
    let product : share * rel ≤ pct * rel = grind arith in
    let whole : pct * rel ≤ 100 * rel = grind arith in
    (omega (arith, product, whole), omega (arith, product, whole))

-- A timer with a jitter of at most 100 percent and a 32-bit random number fires later than the asked time
-- less the share of the jitter, and at most one slice of 100 ms after the asked time, at a multiple of
-- the slice; for a relative time below 2^56 and a clock below 2^62, in milliseconds.
pub calc_clock_due :
    (now rel_time : ℕ) (timer : TimerInstance)
    → timer.jitter_pct ≤ 100
    → timer.random < 2 ^ 32
    → rel_time < 2 ^ 56
    → now < 2 ^ 62
    → let clock = calc_clock now timer rel_time in
      (now + rel_time < clock + timer.jitter_pct * rel_time / 100)
      × (clock ≤ now + rel_time + timer_slice)
      × (clock % timer_slice ≡ 0)
unfolding calc_clock
calc_clock_due now rel_time timer few small short early = elim (bool_of (timer.jitter_pct == 0)) [
  | is_true e ↦
      let (later, soon, round) = slice_after (now + rel_time) (omega arith) in
      rw (e, calc_clock) (omega (arith, later), soon, round)
  | is_false e ↦
      let some_pct : 0 < timer.jitter_pct = grind (arith, e) in
      let share = timer.random / ((2 ^ 32 - 1) / timer.jitter_pct) in
      let (off, within) =
        taken_off share timer.jitter_pct rel_time
          (drawn_jitter timer.random timer.jitter_pct small few some_pct) few short in
      let t = share * rel_time % 2 ^ 64 / 100 in
      let wrapped : (rel_time + (2 ^ 64 - t)) % 2 ^ 64 ≡ rel_time - t =
        omega (arith, within, short) in
      let (later, soon, round) = slice_after (now + (rel_time - t)) (omega (arith, early, short)) in
      rw (e, calc_clock, wrapped) (omega (arith, later, off, within), omega (arith, soon), round)
]
