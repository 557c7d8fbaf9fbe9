-- ===== src/Cron/Tests.antt =====
-- `next_after` at concrete schedules.
use era_ai.Prelude.{◌≡◌, refl, [], ◌∷◌}
use era_ai.Prelude.Results.{ok, err}
use era_ai.Cron.{
  CronError, Part, Span, parse_field, CronSchedule, Moment, next_minute, search, max_iterations,
  next_after,
}
use era_ai.Cron.First.{Answers, next_after-Answers}

abbrev every_quarter : Part
every_quarter = record { span = Span.star; step = 15 }

quarters : parse_field 0 59 (every_quarter ∷ []) ≡ ok (0 ∷ 15 ∷ 30 ∷ 45 ∷ [])
unfolding parse_field
quarters = refl

abbrev backwards : Part
backwards = record { span = Span.between 5 3; step = 1 }

no_backwards : parse_field 0 23 (backwards ∷ []) ≡ err CronError.out_of_bounds
unfolding parse_field
no_backwards = refl

-- At nine on the 29th of February
abbrev leap_day : CronSchedule
leap_day = record {
  minutes = 0 ∷ [];
  hours = 9 ∷ [];
  days_of_month = 29 ∷ [];
  months = 2 ∷ [];
  days_of_week = 0 ∷ 1 ∷ 2 ∷ 3 ∷ 4 ∷ 5 ∷ 6 ∷ [];
}

-- Wednesday, the 28th of February 2024, one minute before midnight
abbrev eve : Moment
eve = record { year = 2024; month = 2; day = 28; weekday = 3; hour = 23; minute = 59 }

abbrev leap_morning : Moment
leap_morning = record { year = 2024; month = 2; day = 29; weekday = 4; hour = 9; minute = 0 }

ten_jumps : search leap_day 10 (next_minute eve) ≡ ok leap_morning
unfolding search next_minute
ten_jumps = refl

next_after-Answers_example :
    Answers leap_day max_iterations (next_minute eve) (next_after leap_day eve)
next_after-Answers_example = next_after-Answers leap_day eve
