-- ===== src/Cron/Jumps.antt =====
-- What `next_month`, `next_day` and `next_hour` skip, minute by minute.
use era_ai.Prelude.{
  ℕ, zero, suc, ◌+◌, ◌-◌, ◌%◌, ◌<◌, ◌≡◌, refl, sym, ap, subst, true, false, ltb, ◌==◌,
  if◌then◌else◌, arith,
}
use era_ai.Cron.{Moment, days_in_month, next_month, next_day, next_hour, next_minute}

-- So many minutes from one to another, that one not included, all of a kind
abbrev pub Passes : (Moment → Type 0) → ℕ → Moment → Moment → Type 0
Passes P zero m t = m ≡ t
Passes P (suc n) m t = P m × Passes P n (next_minute m) t

-- At least one minute
abbrev pub Run : (Moment → Type 0) → Moment → Moment → Type 0
Run P m t = (n : ℕ) × Passes P (suc n) m t

module _ (P : Moment → Type 0) where
  pub join : (n k : ℕ) (m t u : Moment) → Passes P n m t → Passes P k t u → Passes P (n + k) m u
  join zero k m t u p q =
      let same : k ≡ 0 + k = omega arith in
      subst (λ j. Passes P j m u) same (subst (λ x. Passes P k x u) (sym p) q)
  join (suc n) k m t u p q =
      let same : suc (n + k) ≡ suc n + k = omega arith in
      let rest : Passes P (suc (n + k)) m u = (p.0, join n k (next_minute m) t u p.1 q) in
      subst (λ j. Passes P j m u) same rest

  join-Run : (m t u : Moment) → Run P m t → Run P t u → Run P m u
  join-Run m t u (n, p) (k, q) =
      let same : suc n + suc k ≡ suc (n + suc k) = omega arith in
      (n + suc k, subst (λ j. Passes P j m u) same (join (suc n) (suc k) m t u p q))

  pub one : (m t : Moment) → P m → next_minute m ≡ t → Run P m t
  one m t p e = (0, (p, e))

  then_minute : (m n t : Moment) → P m → next_minute m ≡ n → Run P n t → Run P m t
  then_minute m n t p e r = join-Run m n t (one m n p e) r

  within_hour : (m : Moment) (k : ℕ) → next_hour (record m { minute = k }) ≡ next_hour m
  unfolding next_hour next_day next_month
  within_hour m k = refl

  early_minute :
      (m : Moment) → ltb m.minute 59 ≡ true → next_minute m ≡ (record m { minute = m.minute + 1 })
  unfolding next_minute
  early_minute m q = rw q refl

  last_minute : (m : Moment) → ltb m.minute 59 ≡ false → next_minute m ≡ next_hour m
  unfolding next_minute
  last_minute m q = rw q refl

  hour_from :
      (left : ℕ) (m : Moment)
      → 59 - m.minute ≡ left
      → ((k : ℕ) → P (record m { minute = k }))
      → Run P m (next_hour m)
  hour_from zero m e h = one m (next_hour m) (h m.minute) (last_minute m (ground (arith, e)))
  hour_from (suc left) m e h =
      let later : Moment = record m { minute = m.minute + 1 } in
      then_minute m later (next_hour m) (h m.minute) (early_minute m (ground (arith, e))) (
        subst (Run P later) (within_hour m (m.minute + 1))
          (hour_from left later (omega (arith, e)) h))

  -- All minutes of an hour are of the kind.
  pub skip_hour : (m : Moment) → ((k : ℕ) → P (record m { minute = k })) → Run P m (next_hour m)
  skip_hour m h = hour_from (59 - m.minute) m refl h

  within_day : (m : Moment) (h k : ℕ) → next_day (record m { hour = h; minute = k }) ≡ next_day m
  unfolding next_day next_month
  within_day m h k = refl

  early_hour :
      (m : Moment)
      → ltb m.hour 23 ≡ true
      → next_hour m ≡ (record m { hour = m.hour + 1; minute = 0 })
  unfolding next_hour
  early_hour m q = rw q refl

  last_hour : (m : Moment) → ltb m.hour 23 ≡ false → next_hour m ≡ next_day m
  unfolding next_hour
  last_hour m q = rw q refl

  day_from :
      (left : ℕ) (m : Moment)
      → 23 - m.hour ≡ left
      → ((h k : ℕ) → P (record m { hour = h; minute = k }))
      → Run P m (next_day m)
  day_from zero m e h = subst (Run P m) (last_hour m (ground (arith, e))) (skip_hour m (h m.hour))
  day_from (suc left) m e h =
      let later : Moment = record m { hour = m.hour + 1; minute = 0 } in
      join-Run m later (next_day m)
        (subst (Run P m) (early_hour m (ground (arith, e))) (skip_hour m (h m.hour)))
        (subst (Run P later) (within_day m (m.hour + 1) 0)
          (day_from left later (omega (arith, e)) h))

  -- All minutes of a day
  pub skip_day :
      (m : Moment) → ((h k : ℕ) → P (record m { hour = h; minute = k })) → Run P m (next_day m)
  skip_day m h = day_from (23 - m.hour) m refl h

  -- The next month is the same from every day of a month.
  within_month :
      (m : Moment)
      → m.day < days_in_month m.year m.month
      → next_month
          (record m { day = m.day + 1; weekday = (m.weekday + 1) % 7; hour = 0; minute = 0 })
        ≡ next_month m
  unfolding next_month
  within_month m l =
      ap
        (λ w. record {
          year = if m.month == 12 then m.year + 1 else m.year;
          month = if m.month == 12 then 1 else m.month + 1;
          day = 1;
          weekday = w;
          hour = 0;
          minute = 0;
        })
        (omega (arith, l))

  early_day :
      (m : Moment)
      → ltb m.day (days_in_month m.year m.month) ≡ true
      → next_day m
        ≡ (record m { day = m.day + 1; weekday = (m.weekday + 1) % 7; hour = 0; minute = 0 })
  unfolding next_day
  early_day m q = rw q refl

  last_day :
      (m : Moment) → ltb m.day (days_in_month m.year m.month) ≡ false → next_day m ≡ next_month m
  unfolding next_day
  last_day m q = rw q refl

  month_from :
      (left : ℕ) (m : Moment)
      → days_in_month m.year m.month - m.day ≡ left
      → ((d w h k : ℕ) → P (record m { day = d; weekday = w; hour = h; minute = k }))
      → Run P m (next_month m)
  month_from zero m e h =
      subst (Run P m) (last_day m (ground (arith, e))) (skip_day m (h m.day m.weekday))
  month_from (suc left) m e h =
      let later : Moment = record m {
        day = m.day + 1;
        weekday = (m.weekday + 1) % 7;
        hour = 0;
        minute = 0;
      } in
      join-Run m later (next_month m)
        (subst (Run P m) (early_day m (ground (arith, e))) (skip_day m (h m.day m.weekday)))
        (subst (Run P later) (within_month m (omega (arith, e)))
          (month_from left later (omega (arith, e)) h))

  -- All minutes of a month
  pub skip_month :
      (m : Moment)
      → ((d w h k : ℕ) → P (record m { day = d; weekday = w; hour = h; minute = k }))
      → Run P m (next_month m)
  skip_month m h = month_from (days_in_month m.year m.month - m.day) m refl h
