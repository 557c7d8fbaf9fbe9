-- ===== src/Gate/Dual/Distinct.antt =====
-- What a dispatchable FINANCIAL or BOOKING confirmation has: the grants of two actors.
use era_ai.Prelude.{
  String, ◌≡◌, ◌≢◌, ◌⊎◌, inl, inr, refl, ap, true, false, not, ◌&&◌, List, [], ◌∷◌, length, elem,
  str_eq, eq_iff, ==_iff, Bool-cases, arith,
}
use era_ai.Core.Enums.{RiskLevel}
use era_ai.Gate.Records.{ConfirmationApproval, ApprovalStatus, granted}
use era_ai.Gate.Dual.{
  requires_dual_approval, required_approvals, is_granted, granting_actors, any_denied,
  approval_state,
}

-- The list has a grant of the actor.
pub HasGrant : String → List ConfirmationApproval → Type 0
HasGrant actor [] = ⊥
HasGrant actor (a ∷ as') = ((a.actor_id ≡ actor) × (a.status ≡ granted)) ⊎ HasGrant actor as'

NoDuplicates : List String → Type 0
NoDuplicates [] = Unit
NoDuplicates (x ∷ xs) = (elem x xs ≡ false) × NoDuplicates xs

granted_only : (s : ApprovalStatus) → is_granted s ≡ true → s ≡ granted
granted_only granted h = refl
granted_only ApprovalStatus.denied h = ground arith

granting-NoDuplicates : (as' : List ConfirmationApproval) → NoDuplicates (granting_actors as')
unfolding granting_actors NoDuplicates
granting-NoDuplicates [] = tt
granting-NoDuplicates (a ∷ as') =
    let rest = granting-NoDuplicates as' in
    elim (Bool-cases (is_granted a.status && not (elem a.actor_id (granting_actors as')))) [
      | inl q ↦ rw q (ground (arith, q), rest)
      | inr q ↦ rw q rest
    ]

elem-HasGrant :
    (actor : String) (as' : List ConfirmationApproval)
    → elem actor (granting_actors as') ≡ true
    → HasGrant actor as'
unfolding granting_actors HasGrant
elem-HasGrant actor [] h = ground arith
elem-HasGrant actor (a ∷ as') h =
    elim (Bool-cases (is_granted a.status && not (elem a.actor_id (granting_actors as')))) [
      | inr q ↦ inr (elem-HasGrant actor as' (ground (arith, h, q)))
      | inl q ↦ elim (Bool-cases (str_eq actor a.actor_id)) [
        | inl e ↦
            inl (
              ground (arith, e, eq_iff actor a.actor_id),
              granted_only a.status (ground (arith, q)),
            )
        | inr e ↦ inr (elem-HasGrant actor as' (ground (arith, h, q, e)))
      ]
    ]

-- The grants of two actors, and no denial.
pub record TwoGrants (as' : List ConfirmationApproval) : Type 0 where
  pub first : String
  pub second : String
  pub differ : first ≢ second
  pub first_grant : HasGrant first as'
  pub second_grant : HasGrant second as'
  pub no_denial : any_denied as' ≡ false

two-TwoGrants :
    (as' : List ConfirmationApproval) (xs : List String)
    → granting_actors as' ≡ xs
    → NoDuplicates xs
    → length xs ≡ 2
    → any_denied as' ≡ false
    → TwoGrants as'
unfolding NoDuplicates
two-TwoGrants as' [] e n l d = ground arith
two-TwoGrants as' (x ∷ []) e n l d = ground arith
two-TwoGrants as' (x ∷ y ∷ z ∷ xs) e n l d = ground arith
two-TwoGrants as' (x ∷ y ∷ []) e n l d = record {
  first = x;
  second = y;
  differ = λ q. ground (arith, q, n, eq_iff x y);
  first_grant = elem-HasGrant x as' (rw e (ground (arith, eq_iff x x)));
  second_grant = elem-HasGrant y as' (rw e (ground (arith, eq_iff y x, eq_iff y y)));
  no_denial = d;
}

-- For FINANCIAL and BOOKING, approvals that permit a dispatch hold the grants of two different
-- actors and no denial.
pub approval_state-TwoGrants :
    (level : RiskLevel) (as' : List ConfirmationApproval)
    → requires_dual_approval level ≡ true
    → approval_state level as' ≡ (true, false)
    → TwoGrants as'
unfolding approval_state required_approvals
approval_state-TwoGrants level as' r h =
    two-TwoGrants as' (granting_actors as') refl (granting-NoDuplicates as')
      (ground (arith, r, ap (λ p. p.0) h, ==_iff (length (granting_actors as')) 2))
      (ap (λ p. p.1) h)
