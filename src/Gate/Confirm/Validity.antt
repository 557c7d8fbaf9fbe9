-- ===== src/Gate/Confirm/Validity.antt =====
-- When `validate` accepts a confirmation.
use era_ai.Prelude.{
  ℕ, String, ◌≡◌, ◌≢◌, ◌↔◌, ◌≤◌, refl, Bool, true, false, not, Option, none, some, str_eq, eq_iff,
  ltb, le→ltb, is_some, if◌then◌else◌, arith,
}
use era_ai.Prelude.Results.{Result, ok, refuse_if-passed}
use era_ai.Core.Enums.{is_strong}
use era_ai.Permission.Catalog.{Action}
use era_ai.Gate.Records.{PendingConfirmation, ConfirmationStatus}
use era_ai.Gate.World.{Env}
use era_ai.Gate.Confirm.{
  Reason, already_resolved, already_used, is_expired, hash_mismatch, is_pending, action_fingerprint,
  check_challenge, validate,
}

-- The challenge is given, it is not empty, and its hash is the stored one.
pub record Challenged (env : Env) (challenge stored : Option String) : Type 0 where
  pub given : String
  pub hash : String
  pub is_given : challenge ≡ some given
  pub is_stored : stored ≡ some hash
  pub is_text : given ≢ ""
  pub hashes : env.sha256_hex given ≡ hash

pub record Valid (env : Env) (c : PendingConfirmation) (a : Action) (challenge : Option String)
    (now : ℕ) : Type 0 where
  pub status : c.status ≡ ConfirmationStatus.pending
  pub unused : c.used_at ≡ none
  pub in_time : now ≤ c.expires_at
  pub action : action_fingerprint env a.action_type a.params c.risk_level ≡ c.action_hash
  pub challenged : is_strong c.decision ≡ true → Challenged env challenge c.challenge_hash

challenge→Challenged :
    (env : Env) (challenge stored : Option String)
    → check_challenge env challenge stored ≡ ok tt
    → Challenged env challenge stored
unfolding check_challenge
challenge→Challenged env none stored h = ground arith
challenge→Challenged env (some c) none h = ground arith
challenge→Challenged env (some c) (some s) h = record {
  given = c;
  hash = s;
  is_given = refl;
  is_stored = refl;
  is_text = λ e. ground (arith, eq_iff c "");
  hashes = ground (arith, eq_iff c "", eq_iff (env.sha256_hex c) s);
}

Challenged→challenge :
    (env : Env) (challenge stored : Option String)
    → Challenged env challenge stored
    → check_challenge env challenge stored ≡ ok tt
unfolding check_challenge
Challenged→challenge env challenge stored h =
    rw (h.is_given, h.is_stored)
      (ground
        (arith, eq_iff h.given "", eq_iff (env.sha256_hex h.given) h.hash, h.is_text, h.hashes))

not_some : {A : Type 0} (o : Option A) → is_some o ≡ false → o ≡ none
not_some none h = refl
not_some (some x) h = ground arith

strong_branch :
    (b : Bool) (r : Result Reason (Unit {0}))
    → b ≡ true
    → (if b then r else ok tt) ≡ ok tt
    → r ≡ ok tt
strong_branch true r s h = h
strong_branch false r s h = ground arith

either_case :
    (b : Bool) (r : Result Reason (Unit {0}))
    → (b ≡ true → r ≡ ok tt)
    → (if b then r else ok tt) ≡ ok tt
either_case true r h = h refl
either_case false r h = refl

pending_only :
    (s : ConfirmationStatus) → not (is_pending s) ≡ false → s ≡ ConfirmationStatus.pending
pending_only ConfirmationStatus.pending h = refl
pending_only ConfirmationStatus.used h = ground arith
pending_only ConfirmationStatus.denied h = ground arith
pending_only ConfirmationStatus.expired h = ground arith

validate→Valid :
    (env : Env) (c : PendingConfirmation) (a : Action) (challenge : Option String) (now : ℕ)
    → validate env c a challenge now ≡ ok tt
    → Valid env c a challenge now
unfolding validate
validate→Valid env c a challenge now h =
    let f = action_fingerprint env a.action_type a.params c.risk_level in
    let (p, h1) = refuse_if-passed (not (is_pending c.status)) already_resolved _ tt h in
    let (u, h2) = refuse_if-passed (is_some c.used_at) already_used _ tt h1 in
    let (t, h3) = refuse_if-passed (ltb c.expires_at now) is_expired _ tt h2 in
    let (e, h4) = refuse_if-passed (not (str_eq f c.action_hash)) hash_mismatch _ tt h3 in
    record {
      status = pending_only c.status p;
      unused = not_some c.used_at u;
      in_time = ground (arith, t);
      action = ground (arith, eq_iff f c.action_hash, e);
      challenged =
          λ s. challenge→Challenged env challenge c.challenge_hash (strong_branch _ _ s h4);
    }

Valid→validate :
    (env : Env) (c : PendingConfirmation) (a : Action) (challenge : Option String) (now : ℕ)
    → Valid env c a challenge now
    → validate env c a challenge now ≡ ok tt
unfolding validate
Valid→validate env c a challenge now h =
    let f = action_fingerprint env a.action_type a.params c.risk_level in
    let same : str_eq f c.action_hash ≡ true = ground (arith, eq_iff f c.action_hash, h.action) in
    simp (h.status, h.unused, le→ltb now c.expires_at h.in_time, same)
      (either_case (is_strong c.decision) _
        (λ s. Challenged→challenge env challenge c.challenge_hash (h.challenged s)))

-- `validate` accepts a confirmation exactly if it is pending and unused, its expiry is not past, the
-- fingerprint of the action at the stored risk level is the stored hash, and, for CONFIRM_STRONG, a
-- non-empty challenge is given that hashes to the stored challenge hash.
pub validate_iff :
    (env : Env) (c : PendingConfirmation) (a : Action) (challenge : Option String) (now : ℕ)
    → (validate env c a challenge now ≡ ok tt) ↔ Valid env c a challenge now
validate_iff env c a challenge now =
    (validate→Valid env c a challenge now, Valid→validate env c a challenge now)
