-- ===== src/ApiLimits/Grants.antt =====
-- What an address is granted in one of its windows, whatever other addresses and keys ask for.
use era_ai.Prelude.{
  ℕ, suc, ◌+◌, ◌≤◌, ◌<◌, String, ◌≡◌, refl, sym, ap, ◌∙◌, subst, eq_iff, Bool, true, false, ◌&&◌,
  Option, none, some, List, [], ◌∷◌, All, leb, lookup, Bool-cases, Option-cases, inl, inr,
  if◌then◌else◌, arith,
}
use era_ai.ApiLimits.{
  Window, RateLimitDecision, FixedWindowRateLimiter, ip_identity, buckets, window_of, set_window,
  visit, charge, allowance, swept, settle, check,
}
use era_ai.ApiLimits.Windows.{
  Holds, Fixed, of_address, window_of-Holds, visit-Holds, charge-Holds, swept-Holds, visit-Fixed,
  charge-Fixed, swept-Fixed, visit-first, charged-buckets,
}

pub record Check : Type 0 where
  pub key_hash : Option String
  pub ip : String
  pub at : ℕ

-- The checks of an address that are allowed in a run.
unfoldable pub grants : String → List Check → FixedWindowRateLimiter → ℕ
grants ip [] l = 0
grants ip (c ∷ cs) l =
    let (decision, next) = check l c.key_hash c.ip c.at in
    let rest = grants ip cs next in
    if decision.allowed && of_address ip c.ip then suc rest else rest

visit-refuses :
    (bs : List (String × ℕ)) (l : FixedWindowRateLimiter) (now : ℕ) (d : RateLimitDecision)
    → (visit now bs l).0 ≡ some d
    → d.allowed ≡ false
unfolding visit
visit-refuses [] l now d h = ground (arith, h)
visit-refuses (b ∷ bs) l now d h = elim (Bool-cases (leb b.1 (window_of l now b.0).count)) [
  | inl q ↦ sym (ap (λ o. elim o [ none ↦ false | some e ↦ e.allowed ]) (rw q at h))
  | inr q ↦ visit-refuses bs (set_window b.0 (window_of l now b.0) l) now d (rw q at h)
]

-- The window of the address behind a check.
spent : Bool → Window → Window
spent taken w = if taken then record w { count = w.count + 1 } else w

record Spends (l : FixedWindowRateLimiter) (ip other : String) (now : ℕ) (w : Window)
    (r : RateLimitDecision × FixedWindowRateLimiter) : Type 0 where
  window_kept : Holds r.1 (ip_identity ip) now (spent (r.0.allowed && of_address ip other) w)
  fixed : Fixed r.1 l
  below : (spent (r.0.allowed && of_address ip other) w).count ≤ l.ip_limit

settle-refused :
    (now : ℕ) (bs : List (String × ℕ)) (p : Option RateLimitDecision × FixedWindowRateLimiter)
    (d : RateLimitDecision)
    → p.0 ≡ some d
    → settle now bs p ≡ (d, p.1)
unfolding settle
settle-refused now bs (some e, l) d h = ap (λ o. (elim o [ none ↦ d | some x ↦ x ], l)) h
settle-refused now bs (none, l) d h = ground (arith, h)

settle-passed :
    (now : ℕ) (bs : List (String × ℕ)) (p : Option RateLimitDecision × FixedWindowRateLimiter)
    → p.0 ≡ none
    → settle now bs p ≡ (allowance (charge now bs p.1) now bs, swept now (charge now bs p.1))
unfolding settle
settle-passed now bs (some e, l) h = ground (arith, h)
settle-passed now bs (none, l) h = refl

passed-below :
    (l m : FixedWindowRateLimiter) (hash : Option String) (other : String) (now : ℕ)
    → (visit now (buckets l hash other) m).0 ≡ none
    → (window_of m now (ip_identity other)).count < l.ip_limit
unfolding buckets
passed-below l m none other now h = visit-first _ [] m now h
passed-below l m (some hash) other now h = visit-first _ _ m now h

passed-room :
    (l m : FixedWindowRateLimiter) (hash : Option String) (ip other : String) (now : ℕ) (w : Window)
    → Holds m (ip_identity ip) now w
    → w.count ≤ l.ip_limit
    → (visit now (buckets l hash other) m).0 ≡ none
    → (spent (of_address ip other) w).count ≤ l.ip_limit
unfolding spent
passed-room l m hash ip other now w h k q = elim (Bool-cases (of_address ip other)) [
  | inl same ↦
      let below =
        subst (λ identity. (window_of m now identity).count < l.ip_limit)
          ((eq_iff (ip_identity other) (ip_identity ip)).0 same)
          (passed-below l m hash other now q) in
      rw same (
        omega
          (arith, below, ap (λ (v : Window). v.count) (window_of-Holds m (ip_identity ip) now w h)))
  | inr differs ↦ rw differs k
]

check-Spends :
    (l : FixedWindowRateLimiter) (hash : Option String) (ip other : String) (now : ℕ) (w : Window)
    → Holds l (ip_identity ip) now w
    → w.count ≤ l.ip_limit
    → Spends l ip other now w (check l hash other now)
unfolding check allowance spent
check-Spends l hash ip other now w h k =
    let bs = buckets l hash other in
    let m = record l { checks = l.checks + 1 } in
    let counted : Holds m (ip_identity ip) now w = record {
      found = h.found;
      open_still = h.open_still;
      begun = h.begun;
    } in
    let visited = visit-Holds bs m (ip_identity ip) now w counted in
    let same = visit-Fixed bs m now in
    elim (Option-cases (visit now bs m).0) [
      | inr (d, q) ↦
          subst (Spends l ip other now w) (sym (settle-refused now bs (visit now bs m) d q))
            record {
              window_kept = rw (visit-refuses bs m now d q) visited;
              fixed = same;
              below = rw (visit-refuses bs m now d q) k;
            }
      | inl q ↦
          let through = (visit now bs m).1 in
          let spends = charge-Fixed bs through now in
          let sweeps = swept-Fixed (charge now bs through) now in
          subst (Spends l ip other now w) (sym (settle-passed now bs (visit now bs m) q)) record {
            window_kept = swept-Holds (charge now bs through) (ip_identity ip) now _ (
                subst (Holds (charge now bs through) (ip_identity ip) now)
                  (charged-buckets l hash ip other w)
                  (charge-Holds bs through (ip_identity ip) now w visited));
            fixed = (sweeps.0 ∙ (spends.0 ∙ same.0), sweeps.1 ∙ (spends.1 ∙ same.1));
            below = passed-room l m hash ip other now w counted k q;
          }
    ]

spent-started_at : (taken : Bool) (w : Window) → (spent taken w).started_at ≡ w.started_at
unfolding spent
spent-started_at true w = refl
spent-started_at false w = refl

spent-count :
    (taken : Bool) (w : Window) (n : ℕ)
    → (spent taken w).count + n ≡ w.count + (if taken then suc n else n)
unfolding spent
spent-count true w n = omega arith
spent-count false w n = refl

-- For a window of an address within its limit, and any checks of any addresses and keys made before
-- the window ends: the allowed checks of the address, with those the window had counted, are within
-- the limit of an address.
pub grants-ip_limit :
    (l : FixedWindowRateLimiter) (ip : String) (w : Window) (cs : List Check)
    → lookup (ip_identity ip) l.windows ≡ some w
    → w.count ≤ l.ip_limit
    → All (λ c. (w.started_at ≤ c.at) × (c.at < w.started_at + l.window)) cs
    → w.count + grants ip cs l ≤ l.ip_limit
unfolding grants
grants-ip_limit l ip w [] f k t = omega (arith, k)
grants-ip_limit l ip w (c ∷ cs) f k ((b, o), t) =
    let s =
      check-Spends l c.key_hash ip c.ip c.at w record { found = f; open_still = o; begun = b } k in
    let next = (check l c.key_hash c.ip c.at).1 in
    let taken = (check l c.key_hash c.ip c.at).0.allowed && of_address ip c.ip in
    let rest =
      grants-ip_limit next ip (spent taken w) cs s.window_kept.found (rw s.fixed.1 s.below)
        (rw (s.fixed.0, spent-started_at taken w) t) in
    omega (arith, rest, s.fixed.1, spent-count taken w (grants ip cs next))
