-- ===== src/ApiLimits/Windows.antt =====
-- One window of an address.
use Prim.Native.Char.{code}
use era_ai.Prelude.{
  ℕ, ◌+◌, ◌%◌, ◌≤◌, ◌<◌, String, ◌≡◌, refl, sym, ap, ◌∙◌, subst, Bool, true, false, Option, none,
  some, List, [], ◌∷◌, ltb, lt→ltb, leb, ◌==◌, str_eq, eq_iff, Dict, lookup, lookup-insert,
  Bool-cases, inl, inr, if◌then◌else◌, arith,
}
use era_ai.ApiLimits.{
  Window, FixedWindowRateLimiter, ip_identity, key_identity, buckets, current, window_of,
  set_window, visit, charge, keep_active, remove_stale, swept,
}

starts_with_i : String → Bool
starts_with_i String.[] = false
starts_with_i (String.◌∷◌ c rest) = code c == b'i'

key_start : (hash : String) → starts_with_i (key_identity hash) ≡ false
unfolding key_identity starts_with_i
key_start hash = refl

ip_start : (ip : String) → starts_with_i (ip_identity ip) ≡ true
unfolding ip_identity starts_with_i
ip_start ip = refl

key-ip : (hash ip : String) → str_eq (key_identity hash) (ip_identity ip) ≡ false
key-ip hash ip = elim (Bool-cases (str_eq (key_identity hash) (ip_identity ip))) [
  | inl q ↦ ground (
    arith,
    ap starts_with_i ((eq_iff (key_identity hash) (ip_identity ip)).0 q),
    key_start hash,
    ip_start ip,
  )
  | inr q ↦ q
]

-- A window behind the charge of its identity in a list of buckets.
unfoldable pub charged : String → List (String × ℕ) → Window → Window
charged identity [] w = w
charged identity (b ∷ bs) w =
    charged identity bs (if str_eq b.0 identity then record w { count = w.count + 1 } else w)

-- The identity has this window, and it has not ended.
pub record Holds (l : FixedWindowRateLimiter) (identity : String) (now : ℕ) (w : Window)
    : Type 0 where
  pub found : lookup identity l.windows ≡ some w
  pub open_still : now < w.started_at + l.window
  pub begun : w.started_at ≤ now

pub window_of-Holds :
    (l : FixedWindowRateLimiter) (identity : String) (now : ℕ) (w : Window)
    → Holds l identity now w
    → window_of l now identity ≡ w
unfolding window_of current
window_of-Holds l identity now w h = rw h.found (ground (arith, h.open_still, h.begun))

lookup-set_window :
    (l : FixedWindowRateLimiter) (id identity : String) (v : Window)
    → lookup identity (set_window id v l).windows
      ≡ (if str_eq id identity then some v else lookup identity l.windows)
unfolding set_window
lookup-set_window l id identity v = lookup-insert id identity v l.windows

-- What is set for an identity, or for another.
set-Holds :
    (l : FixedWindowRateLimiter) (id identity : String) (now : ℕ) (w v : Window)
    → Holds l identity now w
    → v.started_at ≡ w.started_at
    → str_eq id identity ≡ true
    → Holds (set_window id v l) identity now v
unfolding set_window
set-Holds l id identity now w v h e q = record {
  found = lookup-set_window l id identity v ∙ rw q refl;
  open_still = rw e h.open_still;
  begun = rw e h.begun;
}

other-Holds :
    (l : FixedWindowRateLimiter) (id identity : String) (now : ℕ) (w v : Window)
    → Holds l identity now w
    → str_eq id identity ≡ false
    → Holds (set_window id v l) identity now w
unfolding set_window
other-Holds l id identity now w v h q = record {
  found = lookup-set_window l id identity v ∙ rw q h.found;
  open_still = h.open_still;
  begun = h.begun;
}

enter-Holds :
    (l : FixedWindowRateLimiter) (id identity : String) (now : ℕ) (w : Window)
    → Holds l identity now w
    → Holds (set_window id (window_of l now id) l) identity now w
enter-Holds l id identity now w h = elim (Bool-cases (str_eq id identity)) [
  | inl q ↦
      let same =
        ap (window_of l now) ((eq_iff id identity).0 q) ∙ window_of-Holds l identity now w h in
      subst (λ v. Holds (set_window id v l) identity now w) (sym same)
        (set-Holds l id identity now w w h refl q)
  | inr q ↦ other-Holds l id identity now w (window_of l now id) h q
]

pub visit-Holds :
    (bs : List (String × ℕ)) (l : FixedWindowRateLimiter) (identity : String) (now : ℕ) (w : Window)
    → Holds l identity now w
    → Holds (visit now bs l).1 identity now w
unfolding visit
visit-Holds [] l identity now w h = h
visit-Holds (b ∷ bs) l identity now w h =
    let opened = enter-Holds l b.0 identity now w h in
    elim (Bool-cases (leb b.1 (window_of l now b.0).count)) [
      | inl q ↦ rw q opened
      | inr q ↦ rw q (visit-Holds bs (set_window b.0 (window_of l now b.0) l) identity now w opened)
    ]

pub charge-Holds :
    (bs : List (String × ℕ)) (l : FixedWindowRateLimiter) (identity : String) (now : ℕ) (w : Window)
    → Holds l identity now w
    → Holds (charge now bs l) identity now (charged identity bs w)
unfolding charge charged
charge-Holds [] l identity now w h = h
charge-Holds (b ∷ bs) l identity now w h = elim (Bool-cases (str_eq b.0 identity)) [
  | inl q ↦
      let same =
        ap (window_of l now) ((eq_iff b.0 identity).0 q) ∙ window_of-Holds l identity now w h in
      let more = λ (v : Window). record v { count = v.count + 1 } in
      rw q (
        charge-Holds bs (set_window b.0 (more (window_of l now b.0)) l) identity now (more w) (
          subst (λ v. Holds (set_window b.0 (more v) l) identity now (more w)) (sym same)
            (set-Holds l b.0 identity now w (more w) h refl q)))
  | inr q ↦ rw q (charge-Holds bs _ identity now w (other-Holds l b.0 identity now w _ h q))
]

kept :
    (d : Dict Window) (identity : String) (now window : ℕ) (w : Window)
    → lookup identity d ≡ some w
    → now < w.started_at + window
    → lookup identity (keep_active now window d) ≡ some w
unfolding lookup keep_active
kept [] identity now window w h o = h
kept (entry ∷ rest) identity now window w h o = elim (Bool-cases (str_eq entry.0 identity)) [
  | inl q ↦
      let same = ap (λ v. elim v [ none ↦ w | some v ↦ v ]) (rw q at h) in
      let active =
        lt→ltb now (entry.1.started_at + window)
          (subst (λ (v : Window). now < v.started_at + window) (sym same) o) in
      rw active (rw q (ap some same))
  | inr q ↦
      let rest_kept = kept rest identity now window w (rw q at h) o in
      elim (Bool-cases (ltb now (entry.1.started_at + window))) [
        | inl p ↦ rw p (rw q rest_kept)
        | inr p ↦ rw p rest_kept
      ]
]

pub swept-Holds :
    (l : FixedWindowRateLimiter) (identity : String) (now : ℕ) (w : Window)
    → Holds l identity now w
    → Holds (swept now l) identity now w
unfolding swept remove_stale
swept-Holds l identity now w h = elim (Bool-cases ((l.checks % 256) == 0)) [
  | inl q ↦ rw q record {
    found = kept l.windows identity now l.window w h.found h.open_still;
    open_still = h.open_still;
    begun = h.begun;
  }
  | inr q ↦ rw q h
]

-- The limits and the length of the windows stay.
abbrev pub Fixed : FixedWindowRateLimiter → FixedWindowRateLimiter → Type 0
Fixed m l = (m.window ≡ l.window) × (m.ip_limit ≡ l.ip_limit)

pub visit-Fixed :
    (bs : List (String × ℕ)) (l : FixedWindowRateLimiter) (now : ℕ) → Fixed (visit now bs l).1 l
unfolding visit set_window
visit-Fixed [] l now = (refl, refl)
visit-Fixed (b ∷ bs) l now = elim (Bool-cases (leb b.1 (window_of l now b.0).count)) [
  | inl q ↦ rw q (refl, refl)
  | inr q ↦ rw q (visit-Fixed bs (set_window b.0 (window_of l now b.0) l) now)
]

pub charge-Fixed :
    (bs : List (String × ℕ)) (l : FixedWindowRateLimiter) (now : ℕ) → Fixed (charge now bs l) l
unfolding charge set_window
charge-Fixed [] l now = (refl, refl)
charge-Fixed (b ∷ bs) l now = charge-Fixed bs _ now

pub swept-Fixed : (l : FixedWindowRateLimiter) (now : ℕ) → Fixed (swept now l) l
unfolding swept remove_stale
swept-Fixed l now = elim (Bool-cases ((l.checks % 256) == 0)) [
  | inl q ↦ rw q (refl, refl)
  | inr q ↦ rw q (refl, refl)
]

-- The first bucket of a visit that refuses nothing is below its limit.
pub visit-first :
    (b : String × ℕ) (bs : List (String × ℕ)) (l : FixedWindowRateLimiter) (now : ℕ)
    → (visit now (b ∷ bs) l).0 ≡ none
    → (window_of l now b.0).count < b.1
unfolding visit
visit-first b bs l now h = ground (arith, h)

-- Whether the check is of the address.
abbrev pub of_address : String → String → Bool
of_address ip other = str_eq (ip_identity other) (ip_identity ip)

pub charged-buckets :
    (l : FixedWindowRateLimiter) (hash : Option String) (ip other : String) (w : Window)
    → charged (ip_identity ip) (buckets l hash other) w
      ≡ (if of_address ip other then record w { count = w.count + 1 } else w)
unfolding charged buckets
charged-buckets l none ip other w = refl
charged-buckets l (some hash) ip other w = elim (Bool-cases (str_eq hash "")) [
  | inl q ↦ rw q refl
  | inr q ↦ rw (q, key-ip hash ip) refl
]
