-- ===== src/Limits/Account.antt =====
-- What the bucket of an actor stands for, and that the methods keep to it.
use mathlib.Core.List.{append-nil, append_assoc}
use era_ai.Prelude.{
  ℕ, zero, suc, ◌+◌, ◌≤◌, String, ◌≡◌, refl, sym, ◌∙◌, ap, false, ◌&&◌, List, [], ◌∷◌, ◌++◌, length,
  length-append, All, All-append, All-map, ltb, leb, leb→le, str_eq, eq_iff, lookup-insert,
  Bool-cases, inl, inr, if◌then◌else◌, arith,
}
use era_ai.Limits.{ActorRateLimiter, bucket_of, prune, repeat, set_bucket, consume}

-- The slots taken so far are those that have left the window and those in the bucket.
pub record IsAccounted (l : ActorRateLimiter) (key : String) (now : ℕ) (all : List ℕ) : Type 0 where
  pub old : List ℕ
  pub parts : all ≡ old ++ bucket_of l key
  pub past : All (λ t. t + l.window ≤ now) old
  pub few : length (bucket_of l key) ≤ l.limit

-- What `prune` drops has left the window.
prune-drops :
    (window now : ℕ) (bucket : List ℕ)
    → (dropped : List ℕ) × (bucket ≡ dropped ++ prune window now bucket)
      × All (λ t. t + window ≤ now) dropped
unfolding prune
prune-drops window now [] = ([], refl, tt)
prune-drops window now (t ∷ bucket) = elim (Bool-cases (leb (t + window) now)) [
  | inl q ↦
      let (dropped, parts, past) = prune-drops window now bucket in
      rw q (t ∷ dropped, ap (λ ts. t ∷ ts) parts, (leb→le (t + window) now q, past))
  | inr q ↦ rw q ([], refl, tt)
]

bucket_of-set_bucket :
    (l : ActorRateLimiter) (key other : String) (bucket : List ℕ)
    → bucket_of (set_bucket l key bucket) other
      ≡ (if str_eq key other then bucket else bucket_of l other)
unfolding bucket_of set_bucket
bucket_of-set_bucket l key other bucket =
    ground (arith, lookup-insert key other bucket l.timestamps)

pub later :
    (l : ActorRateLimiter) (key : String) (t now : ℕ) (all : List ℕ)
    → t ≤ now
    → IsAccounted l key t all
    → IsAccounted l key now all
later l key t now all p h = record {
  old = h.old;
  parts = h.parts;
  past = All-map _ (λ g. g + l.window ≤ now) (λ g q. omega (arith, p, q)) h.old h.past;
  few = h.few;
}

-- The same behind `prune`.
pub pruned :
    (l : ActorRateLimiter) (key : String) (now : ℕ) (all : List ℕ)
    → IsAccounted l key now all
    → (old : List ℕ) × (all ≡ old ++ prune l.window now (bucket_of l key))
      × All (λ t. t + l.window ≤ now) old
      × (length (prune l.window now (bucket_of l key)) ≤ l.limit)
pruned l key now all h =
    let kept = prune l.window now (bucket_of l key) in
    let (dropped, parts, past) = prune-drops l.window now (bucket_of l key) in
    (
      h.old ++ dropped,
      h.parts ∙ ap (λ ts. h.old ++ ts) parts ∙ sym (append_assoc h.old dropped kept),
      All-append _ h.old dropped h.past past,
      omega (arith, h.few, ap length parts, length-append dropped kept),
    )

-- A bucket is written.
written :
    (l : ActorRateLimiter) (key other : String) (now : ℕ) (all new bucket : List ℕ)
    → IsAccounted l key now all
    → ((old : List ℕ) × (all ++ new ≡ old ++ bucket)
        × All (λ t. t + l.window ≤ now) old
        × (length bucket ≤ l.limit))
    → other ≡ key
    → IsAccounted (set_bucket l other bucket) key now (all ++ new)
unfolding set_bucket
written l key other now all new bucket h (old, parts, past, few) q =
    let same : bucket_of (set_bucket l other bucket) key ≡ bucket =
      bucket_of-set_bucket l other key bucket ∙ ground (arith, q, eq_iff other key) in
    record {
      old = old;
      parts = parts ∙ ap (λ ts. old ++ ts) (sym same);
      past = past;
      few = omega (arith, few, ap length same);
    }

-- Another bucket is written.
untouched :
    (l : ActorRateLimiter) (key other : String) (now : ℕ) (all bucket : List ℕ)
    → IsAccounted l key now all
    → str_eq other key ≡ false
    → IsAccounted (set_bucket l other bucket) key now (all ++ [])
unfolding set_bucket
untouched l key other now all bucket h q =
    let same : bucket_of (set_bucket l other bucket) key ≡ bucket_of l key =
      bucket_of-set_bucket l other key bucket ∙ ground (arith, q) in
    record {
      old = h.old;
      parts = append-nil all ∙ h.parts ∙ ap (λ ts. h.old ++ ts) (sym same);
      past = h.past;
      few = omega (arith, h.few, ap length same);
    }

-- The bucket is written back pruned.
pub written_back :
    (l : ActorRateLimiter) (key other : String) (now : ℕ) (all : List ℕ)
    → IsAccounted l key now all
    → IsAccounted (set_bucket l other (prune l.window now (bucket_of l other))) key now (all ++ [])
written_back l key other now all h = elim (Bool-cases (str_eq other key)) [
  | inr q ↦ untouched l key other now all _ h q
  | inl q ↦
      let (old, parts, past, few) = pruned l key now all h in
      let e : other ≡ key = ground (arith, q, eq_iff other key) in
      let back = prune l.window now (bucket_of l other) in
      let same : prune l.window now (bucket_of l key) ≡ back =
        ap (λ k. prune l.window now (bucket_of l k)) (sym e) in
      written l key other now all [] back h
        (
          old,
          append-nil all ∙ parts ∙ ap (λ ts. old ++ ts) same,
          past,
          omega (arith, few, ap length same),
        )
        e
]

length-repeat : (t n : ℕ) → length (repeat t n) ≡ n
unfolding repeat
length-repeat t zero = refl
length-repeat t (suc n) = omega (arith, length-repeat t n)

-- The bucket is written back with the slots that are taken from it.
charged :
    (l : ActorRateLimiter) (key other : String) (count now : ℕ) (all : List ℕ)
    → IsAccounted l key now all
    → length (prune l.window now (bucket_of l other)) + count ≤ l.limit
    → IsAccounted
        (set_bucket l other (prune l.window now (bucket_of l other) ++ repeat now count))
        key
        now
        (all ++ (if str_eq other key then repeat now count else []))
charged l key other count now all h room = elim (Bool-cases (str_eq other key)) [
  | inr q ↦ rw q (untouched l key other now all _ h q)
  | inl q ↦
      let (old, parts, past, few) = pruned l key now all h in
      let e : other ≡ key = ground (arith, q, eq_iff other key) in
      let back = prune l.window now (bucket_of l other) in
      let new = repeat now count in
      let same : prune l.window now (bucket_of l key) ≡ back =
        ap (λ k. prune l.window now (bucket_of l k)) (sym e) in
      rw q (
        written l key other now all new (back ++ new) h
          (
            old,
            ap (λ ts. ts ++ new) (parts ∙ ap (λ ts. old ++ ts) same) ∙ append_assoc old back new,
            past,
            omega (arith, room, length-append back new, length-repeat now count),
          )
          e)
]

pub consumed :
    (l : ActorRateLimiter) (key other : String) (count now : ℕ) (all : List ℕ)
    → IsAccounted l key now all
    → let c = consume l other count now (prune l.window now (bucket_of l other)) in
      IsAccounted c.1 key now (all ++ (if c.0 && str_eq other key then repeat now count else []))
unfolding consume
consumed l key other count now all h =
    let bucket = prune l.window now (bucket_of l other) in
    elim (Bool-cases (ltb l.limit (length bucket + count))) [
      | inl q ↦ rw q (written_back l key other now all h)
      | inr q ↦ rw q (charged l key other count now all h (ground (arith, q)))
    ]
