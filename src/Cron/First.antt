-- ===== src/Cron/First.antt =====
-- `next_after` finds the first minute that the schedule matches.
use era_ai.Prelude.{
  ℕ, zero, suc, ◌+◌, ◌≤◌, ◌≡◌, refl, Bool, true, false, ◌&&◌, Bool-cases, inl, inr, arith,
}
use era_ai.Prelude.Results.{Result, ok, err}
use era_ai.Cron.{
  CronError, CronSchedule, Moment, next_minute, is_in, day_matches, Visit, found, jump, visit,
  then_visit, search, max_iterations, next_after,
}
use era_ai.Cron.Jumps.{Passes, Run, join, one, skip_hour, skip_day, skip_month}

-- Each of the five fields of the schedule has the minute's value: the day of the month and the weekday
-- both.
abbrev pub is_match : CronSchedule → Moment → Bool
is_match s m =
    is_in m.month s.months
    && (is_in m.day s.days_of_month
        && (is_in m.weekday s.days_of_week && (is_in m.hour s.hours && is_in m.minute s.minutes)))

abbrev pub IsMiss : CronSchedule → Moment → Type 0
IsMiss s m = is_match s m ≡ false

abbrev Seen : CronSchedule → Moment → Visit → Type 0
Seen s m found = is_match s m ≡ true
Seen s m (jump n) = Run (IsMiss s) m n

missed_day :
    (s : CronSchedule) (m : Moment) (h k : ℕ)
    → day_matches s m ≡ false
    → IsMiss s (record m { hour = h; minute = k })
unfolding day_matches
missed_day s m h k r = ground (arith, r)

missed_hour :
    (s : CronSchedule) (m : Moment) (k : ℕ)
    → is_in m.hour s.hours ≡ false
    → IsMiss s (record m { minute = k })
unfolding day_matches
missed_hour s m k r = ground (arith, r)

visit-Seen : (s : CronSchedule) (m : Moment) → Seen s m (visit s m)
unfolding visit
visit-Seen s m = elim (Bool-cases (is_in m.month s.months)) [
  | inr q ↦ rw q (skip_month (IsMiss s) m (λ d w h k. rw q refl))
  | inl q ↦ rw q (elim (Bool-cases (day_matches s m)) [
    | inr r ↦ rw r (skip_day (IsMiss s) m (λ h k. missed_day s m h k r))
    | inl r ↦ rw r (elim (Bool-cases (is_in m.hour s.hours)) [
      | inr t ↦ rw t (skip_hour (IsMiss s) m (λ k. missed_hour s m k t))
      | inl t ↦ rw t (elim (Bool-cases (is_in m.minute s.minutes)) [
        | inr u ↦ rw u (one (IsMiss s) m (next_minute m) (ground (arith, u)) refl)
        | inl u ↦ rw u (ground (arith, q, r, t, u))
      ])
    ])
  ])
]

-- What the search answers, with so many rounds left
abbrev pub Answers : CronSchedule → ℕ → Moment → Result CronError Moment → Type 0
Answers s left m (ok t) = (is_match s t ≡ true) × (n : ℕ) × Passes (IsMiss s) n m t
Answers s left m (err e) = (t : Moment) × (n : ℕ) × (left ≤ n) × Passes (IsMiss s) n m t

further :
    (s : CronSchedule) (left : ℕ) (m n : Moment) (r : Result CronError Moment)
    → Run (IsMiss s) m n
    → Answers s left n r
    → Answers s (suc left) m r
further s left m n (ok t) (k, p) (hit, j, q) = (hit, suc k + j, join (IsMiss s) (suc k) j m n t p q)
further s left m n (err e) (k, p) (t, j, l, q) =
    (t, suc k + j, omega (arith, l), join (IsMiss s) (suc k) j m n t p q)

after_visit :
    (s : CronSchedule) (left : ℕ) (m : Moment) (v : Visit)
    → Seen s m v
    → ((n : Moment) → Answers s left n (search s left n))
    → Answers s (suc left) m (then_visit v m (search s left))
unfolding then_visit
after_visit s left m found hit h = (hit, 0, refl)
after_visit s left m (jump n) run h = further s left m n (search s left n) run (h n)

search-Answers : (s : CronSchedule) (left : ℕ) (m : Moment) → Answers s left m (search s left m)
unfolding search
search-Answers s zero m = (m, 0, omega arith, refl)
search-Answers s (suc left) m =
    after_visit s left m (visit s m) (visit-Seen s m) (search-Answers s left)

-- What `next_after` returns is the first minute after the moment at which all five fields of the schedule
-- have the minute's value, the day of the month and the weekday both; where it raises, none of the next 2,635,200 minutes matches.
pub next_after-Answers :
    (s : CronSchedule) (m : Moment) → Answers s max_iterations (next_minute m) (next_after s m)
unfolding next_after
next_after-Answers s m = search-Answers s max_iterations (next_minute m)
