-- ===== src/Workflow/Register/Secrets.antt =====
-- The rule on secrets: what is accepted fills no password field, and no unknown field, with plain text.
use era_ai.Prelude.{
  ℕ, String, ◌≡◌, refl, sym, ap, ◌∙◌, Bool, true, false, not, ◌&&◌, ◌||◌, Option, none, some, List,
  [], ◌∷◌, All, length, ltb, str_eq, is_some, if◌then◌else◌, arith,
}
use era_ai.Prelude.Int.{ℤ}
use era_ai.Prelude.Results.{ok, err, ◌>>◌, refuse_if, refuse_if-passed, >>=-ok}
use era_ai.Value.{Value, Fields, get_field}
use era_ai.Permission.Catalog.{ActionSpec, ActionCatalog, get_spec}
use era_ai.Workflow.Definition.{
  text_and_reference, too_many_steps, too_many_characters, WorkflowStep, WorkflowDefinition,
}
use era_ai.Workflow.Dag.{validate_dag}
use era_ai.Workflow.Dag.Acyclic.{IsDag, validate_dag_iff}
use era_ai.Workflow.Register.{
  is_password, is_absent, is_vault_or_placeholder, check_reference, check_fill, check_step,
  check_steps, validate_workflow_definition, char_budget, validate_parallel,
}

-- The value is a reference or a placeholder, and there is no text beside it.
abbrev pub IsReferenced : Fields → Type 0
IsReferenced params =
    (ref : Value) × (get_field "value_ref" params ≡ some ref)
    × (is_vault_or_placeholder ref ≡ true)
    × (is_some (get_field "text" params) ≡ false)

abbrev pub IsGuarded : WorkflowStep → Type 0
IsGuarded s =
    str_eq s.action "browser.fill" ≡ true
    → (is_password s.target || is_absent s.target) ≡ true
    → IsReferenced s.params

last_passed : (b : Bool) → refuse_if b text_and_reference ≡ ok tt → b ≡ false
last_passed false h = refl
last_passed true h = ground (arith, h)

reference-ok :
    (ref : Value) (has_text : Bool)
    → check_reference (some ref) has_text ≡ ok tt
    → (is_vault_or_placeholder ref ≡ true) × (has_text ≡ false)
unfolding check_reference
reference-ok ref has_text h =
    let (good, rest) = refuse_if-passed (not (is_vault_or_placeholder ref)) _ _ tt h in
    (ground (arith, good), last_passed has_text rest)

-- The value of the reference decides.
value-ok :
    (ref : Option Value) (password unknown has_text : Bool)
    → (password && is_absent ref) ≡ false
    → (unknown && is_absent ref) ≡ false
    → check_reference ref has_text ≡ ok tt
    → (password || unknown) ≡ true
    → (v : Value) × (ref ≡ some v) × (is_vault_or_placeholder v ≡ true) × (has_text ≡ false)
value-ok none password unknown has_text p u h sensitive = ground (arith, p, u, sensitive)
value-ok (some v) password unknown has_text p u h sensitive =
    let (good, bare) = reference-ok v has_text h in (v, refl, good, bare)

fill-ok :
    (s : WorkflowStep)
    → check_fill s ≡ ok tt
    → (is_password s.target || is_absent s.target) ≡ true
    → IsReferenced s.params
unfolding check_fill
fill-ok s h sensitive =
    let (p, rest) =
      refuse_if-passed (is_password s.target && is_absent (get_field "value_ref" s.params)) _ _ tt
        h in
    let (u, last) =
      refuse_if-passed (is_absent s.target && is_absent (get_field "value_ref" s.params)) _ _ tt
        rest in
    value-ok (get_field "value_ref" s.params) (is_password s.target) (is_absent s.target)
      (is_some (get_field "text" s.params)) p u last sensitive

module _ (float_chars : ℤ → ℕ → ℕ) (text_of : Value → String) where
  step-ok :
      (spec : Option ActionSpec) (s : WorkflowStep)
      → check_step float_chars text_of spec s ≡ ok tt
      → IsGuarded s
  unfolding check_step
  step-ok none s h = ground (arith, h)
  step-ok (some spec) s h = λ fills sensitive.
      let (allowed, rest) = refuse_if-passed _ _ _ tt h in
      let (x, first, more) = >>=-ok _ _ tt rest in
      fill-ok s (sym (ap (λ b. if b then check_fill s else ok tt) fills) ∙ first) sensitive

  steps-ok :
      (catalog : ActionCatalog) (seen : List String) (ss : List WorkflowStep)
      → check_steps float_chars text_of catalog seen ss ≡ ok tt
      → All IsGuarded ss
  unfolding check_steps
  steps-ok catalog seen [] h = tt
  steps-ok catalog seen (s ∷ ss) h =
      let (fresh, rest) = refuse_if-passed _ _ _ tt h in
      let (x, first, more) = >>=-ok _ _ tt rest in
      (step-ok (get_spec catalog s.action) s first, steps-ok catalog (s.id ∷ seen) ss more)

  -- A definition that is accepted is returned as it is, its steps form a graph that can be run, and it fills
  -- every password field, and every field of which nothing is known, with a reference to the vault or a
  -- placeholder, and with no text.
  pub validate_workflow_definition-IsGuarded :
      (d e : WorkflowDefinition) (catalog : ActionCatalog) (max_steps max_chars : ℕ)
      → validate_workflow_definition float_chars text_of d catalog max_steps max_chars ≡ ok e
      → (d ≡ e) × IsDag d × All IsGuarded d.steps
  unfolding validate_workflow_definition
  validate_workflow_definition-IsGuarded d e catalog max_steps max_chars h =
      let (few, rest) = refuse_if-passed (ltb max_steps (length d.steps)) too_many_steps _ e h in
      let (short, more) =
        refuse_if-passed (ltb max_chars (char_budget float_chars text_of d.steps))
          too_many_characters _ e rest in
      let (x, checked, last) =
        >>=-ok (check_steps float_chars text_of catalog [] d.steps)
          (λ x. validate_dag d >> (validate_parallel d >> ok d)) e more in
      let (y, graph, parallel) =
        >>=-ok (validate_dag d) (λ x. validate_parallel d >> ok d) e last in
      let (z, members, same) = >>=-ok (validate_parallel d) (λ x. ok d) e parallel in
      (
        ap (λ r. elim r [ ok a ↦ a | err m ↦ d ]) same,
        (validate_dag_iff d).0 graph,
        steps-ok catalog [] d.steps checked,
      )
