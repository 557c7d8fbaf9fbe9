-- ===== src/Cron.antt =====
-- era/core/cron.py: the fields of a cron expression, once their texts are read as numbers, and
-- `next_after`. A moment is a minute of the Gregorian calendar in UTC.
pub mod First
mod Jumps
mod Tests
use era_ai.Prelude.{
  ℕ, zero, suc, ◌+◌, ◌-◌, ◌*◌, ◌%◌, Bool, true, false, not, ◌&&◌, ◌||◌, Option, none, some, List,
  [], ◌∷◌, ◌++◌, map, leb, ltb, ◌==◌, if◌then◌else◌,
}
use era_ai.Prelude.Results.{Result, ok, err, ◌>>=◌, ◌>>◌, refuse_if}

pub data CronError : Type 0 where
  bad_step out_of_bounds not_found : CronError

-- `*`, `a-b` or `a` of a part
pub data Span : Type 0 where
  star : Span
  between : ℕ → ℕ → Span
  exactly : ℕ → Span

pub record Part : Type 0 where
  pub span : Span
  pub step : ℕ

start_of : ℕ → Span → ℕ
start_of min_val star = min_val
start_of min_val (between a b) = a
start_of min_val (exactly a) = a

end_of : ℕ → Span → ℕ
end_of max_val star = max_val
end_of max_val (between a b) = b
end_of max_val (exactly a) = a

-- `range(start, end + 1, step)`; a step takes one at least, so there is fuel for every value.
range : ℕ → ℕ → ℕ → ℕ → List ℕ
range zero value last step = []
range (suc fuel) value last step =
    let rest = range fuel (value + step) last step in if ltb last value then [] else value ∷ rest

-- One part of `parse_field`
unfoldable pub parse_part : ℕ → ℕ → Part → Result CronError (List ℕ)
unfolding start_of end_of range
parse_part min_val max_val p =
    let first = start_of min_val p.span in
    let last = end_of max_val p.span in
    do
      refuse_if (p.step == 0) CronError.bad_step
      refuse_if (ltb first min_val || ltb max_val last || ltb last first) CronError.out_of_bounds
      ok (range (last + 1) first last p.step)

-- `parse_field`; a set is the list of its members.
unfoldable pub parse_field : ℕ → ℕ → List Part → Result CronError (List ℕ)
unfolding parse_part
parse_field min_val max_val [] = ok []
parse_field min_val max_val (p ∷ ps) = do
  here ← parse_part min_val max_val p
  rest ← parse_field min_val max_val ps
  ok (here ++ rest)

pub record CronSchedule : Type 0 where
  pub minutes : List ℕ
  pub hours : List ℕ
  pub days_of_month : List ℕ
  pub months : List ℕ
  pub days_of_week : List ℕ

-- `{(0 if d == 7 else d) for d in dow_raw}`
sunday_zero : ℕ → ℕ
sunday_zero d = if d == 7 then 0 else d

-- `CronSchedule.__init__`, from the parts of the five fields
unfoldable pub new_schedule :
    List Part → List Part → List Part → List Part → List Part → Result CronError CronSchedule
unfolding parse_field sunday_zero
new_schedule minute hour day month weekday = do
  minutes ← parse_field 0 59 minute
  hours ← parse_field 0 23 hour
  days ← parse_field 1 31 day
  months ← parse_field 1 12 month
  weekdays ← parse_field 0 7 weekday
  ok record {
    minutes = minutes;
    hours = hours;
    days_of_month = days;
    months = months;
    days_of_week = map sunday_zero weekdays;
  }

-- The weekday counts from Sunday, as `(dt.weekday() + 1) % 7` does.
pub record Moment : Type 0 where
  pub year : ℕ
  pub month : ℕ
  pub day : ℕ
  pub weekday : ℕ
  pub hour : ℕ
  pub minute : ℕ

unfoldable pub is_leap : ℕ → Bool
is_leap y = ((y % 4) == 0) && (not ((y % 100) == 0) || ((y % 400) == 0))

unfoldable pub days_in_month : ℕ → ℕ → ℕ
unfolding is_leap
days_in_month y m =
    if m == 2
    then (if is_leap y then 29 else 28)
    else if (m == 4) || (m == 6) || (m == 9) || (m == 11)
    then 30
    else 31

-- `dt.replace(month=dt.month + 1, day=1, hour=0, minute=0)`, or January of the next year
unfoldable pub next_month : Moment → Moment
unfolding days_in_month
next_month m = record {
  year = if m.month == 12 then m.year + 1 else m.year;
  month = if m.month == 12 then 1 else m.month + 1;
  day = 1;
  weekday = (m.weekday + (days_in_month m.year m.month - m.day + 1)) % 7;
  hour = 0;
  minute = 0;
}

-- `(dt + timedelta(days=1)).replace(hour=0, minute=0)`
unfoldable pub next_day : Moment → Moment
unfolding days_in_month next_month
next_day m =
    if ltb m.day (days_in_month m.year m.month)
    then record m { day = m.day + 1; weekday = (m.weekday + 1) % 7; hour = 0; minute = 0 }
    else next_month m

-- `(dt + timedelta(hours=1)).replace(minute=0)`
unfoldable pub next_hour : Moment → Moment
unfolding next_day
next_hour m = if ltb m.hour 23 then record m { hour = m.hour + 1; minute = 0 } else next_day m

-- `dt + timedelta(minutes=1)`
unfoldable pub next_minute : Moment → Moment
unfolding next_hour
next_minute m = if ltb m.minute 59 then record m { minute = m.minute + 1 } else next_hour m

unfoldable pub is_in : ℕ → List ℕ → Bool
is_in n [] = false
is_in n (k ∷ ks) = (k == n) || is_in n ks

unfoldable pub day_matches : CronSchedule → Moment → Bool
unfolding is_in
day_matches s m = is_in m.day s.days_of_month && is_in m.weekday s.days_of_week

-- What the loop of `next_after` does with a minute
pub data Visit : Type 0 where
  found : Visit
  jump : Moment → Visit

unfoldable pub visit : CronSchedule → Moment → Visit
unfolding is_in day_matches next_month next_day next_hour next_minute
visit s m =
    if not (is_in m.month s.months)
    then jump (next_month m)
    else if not (day_matches s m)
    then jump (next_day m)
    else if not (is_in m.hour s.hours)
    then jump (next_hour m)
    else if not (is_in m.minute s.minutes)
    then jump (next_minute m)
    else found

then_visit : Visit → Moment → (Moment → Result CronError Moment) → Result CronError Moment
then_visit found m rest = ok m
then_visit (jump n) m rest = rest n

-- `while iterations < max_iterations`
unfoldable pub search : CronSchedule → ℕ → Moment → Result CronError Moment
unfolding visit then_visit
search s zero m = err CronError.not_found
search s (suc left) m = then_visit (visit s m) m (search s left)

abbrev pub max_iterations : ℕ
max_iterations = 2635200

-- `next_after`, of a moment without its seconds
unfoldable pub next_after : CronSchedule → Moment → Result CronError Moment
unfolding search next_minute
next_after s m = search s max_iterations (next_minute m)
