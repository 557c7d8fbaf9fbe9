-- ===== src/Limits/Window.antt =====
-- No actor gets more than the limit in any window.
use mathlib.Core.List.{append-nil, append_assoc}
use era_ai.Prelude.{
  ℕ, ◌≤◌, String, ◌≡◌, refl, ◌∙◌, ap, Bool, true, false, ◌&&◌, List, [], ◌∷◌, ◌++◌, ltb, max, subst,
  str_eq, if◌then◌else◌, arith,
}
use era_ai.Limits.{
  ActorRateLimiter, new_limiter, bucket_key, bucket_of, prune, repeat, set_bucket, consume,
  allow_many, remaining,
}
use era_ai.Limits.Uses.{
  Use, ask, look, time_of, step, taken, run, grants, IsOrdered, last_time, in_window, in_window-le,
  in_window_past, in_window-append,
}
use era_ai.Limits.Account.{IsAccounted, later, written_back, consumed}

asked :
    (b : Bool) (l : ActorRateLimiter) (key other : String) (count now : ℕ) (all : List ℕ)
    → IsAccounted l key now all
    → let c =
        if b
        then (false, l)
        else consume l other count now (prune l.window now (bucket_of l other)) in
      IsAccounted c.1 key now (all ++ (if c.0 && str_eq other key then repeat now count else []))
asked true l key other count now all h = rw (append-nil all) h
asked false l key other count now all h = consumed l key other count now all h

step-IsAccounted :
    (u : Use) (l : ActorRateLimiter) (key : String) (t : ℕ) (all : List ℕ)
    → t ≤ time_of u
    → IsAccounted l key t all
    → IsAccounted (step u l) key (time_of u) (all ++ taken key u l)
unfolding step taken allow_many remaining
step-IsAccounted (look actor now) l key t all p h =
    written_back l key (bucket_key actor) now all (later l key t now all p h)
step-IsAccounted (ask actor count now) l key t all p h =
    asked (ltb count 1) l key (bucket_key actor) count now all (later l key t now all p h)

step-limits :
    (u : Use) (l : ActorRateLimiter) → ((step u l).limit ≡ l.limit) × ((step u l).window ≡ l.window)
unfolding step allow_many remaining consume set_bucket
step-limits (ask actor count now) l = (ground arith, ground arith)
step-limits (look actor now) l = (refl, refl)

run-IsAccounted :
    (us : List Use) (l : ActorRateLimiter) (key : String) (t : ℕ) (all : List ℕ)
    → IsOrdered t us
    → IsAccounted l key t all
    → IsAccounted (run us l) key (last_time t us) (all ++ grants key us l)
      × ((run us l).limit ≡ l.limit)
      × ((run us l).window ≡ l.window)
unfolding run grants
run-IsAccounted [] l key t all o h = (rw (append-nil all) h, refl, refl)
run-IsAccounted (u ∷ us) l key t all (p, o) h =
    let (limit, window) = step-limits u l in
    let (k, limit', window') =
      run-IsAccounted us (step u l) key (time_of u) (all ++ taken key u l) o
        (step-IsAccounted u l key t all p h) in
    (
      rw⁻¹ (append_assoc all (taken key u l) (grants key us (step u l))) k,
      limit' ∙ limit,
      window' ∙ window,
    )

accounted_few :
    (l : ActorRateLimiter) (key : String) (now : ℕ) (all : List ℕ)
    → IsAccounted l key now all
    → in_window l.window now all ≤ l.limit
accounted_few l key now all h = omega (
  arith,
  h.few,
  ap (in_window l.window now) h.parts,
  in_window-append l.window now h.old (bucket_of l key),
  in_window_past l.window now h.old h.past,
  in_window-le l.window now (bucket_of l key),
)

-- Whatever the calls of a new limiter, by any actors and with times that do not go back, at the time of
-- the last call and at any later time no more slots than the limit were taken from a bucket in the
-- window that ends then.
pub grants-limit :
    (limit window : ℕ) (key : String) (us : List Use) (now : ℕ)
    → IsOrdered 0 us
    → last_time 0 us ≤ now
    → in_window (max 1 window) now (grants key us (new_limiter limit window)) ≤ max 1 limit
unfolding new_limiter bucket_of
grants-limit limit window key us now o p =
    let l = new_limiter limit window in
    let start : IsAccounted l key 0 [] = record {
      old = [];
      parts = refl;
      past = tt;
      few = ground arith;
    } in
    let (h, limits, windows) = run-IsAccounted us l key 0 [] o start in
    let few =
      accounted_few (run us l) key now (grants key us l)
        (later (run us l) key (last_time 0 us) now (grants key us l) p h) in
    let all = grants key us l in
    subst (λ w. in_window w now all ≤ max 1 limit) windows
      (subst (λ m. in_window (run us l).window now all ≤ m) limits few)
