-- ===== src/Workflow/Definition.antt =====
-- era/workflows/definition.py 105-307: the parts of a definition, and the validators that every part
-- passes when it is made. A version or an index below zero, which the fields refuse, has no value here.
use era_ai.Prelude.{
  ℕ, String, Bool, true, false, not, ◌&&◌, ◌||◌, Option, none, some, List, [], ◌∷◌, ◌++◌, Dict,
  elem, length, all, any, ltb, str_eq, if◌then◌else◌,
}
use era_ai.Prelude.Counts.{all_distinct}
use era_ai.Prelude.Text.{codes, text_length, is_word, word_tail}
use era_ai.Prelude.Results.{Result, ok, err, ◌>>=◌, ◌>>◌, refuse_if}
use era_ai.Value.{Value, str, obj, arr, Fields}

-- The messages of WorkflowDefinitionError.
pub data DefinitionError : Type 0 where
  bad_condition_kind bad_condition_op step_result_without_step step_result_without_op :
      DefinitionError
  step_result_not_scalar url_contains_without_text url_contains_too_long : DefinitionError
  element_present_without_step block_too_small block_has_duplicates : DefinitionError
  block_invalid_step bad_concurrency bad_step_id not_a_workflow_action bad_on_denied :
      DefinitionError
  bad_expect_kind too_many_dependencies depends_on_itself invalid_dependency : DefinitionError
  condition_on_itself bad_workflow_name bad_version no_steps : DefinitionError
  duplicate_step unknown_block_step in_two_blocks : DefinitionError
  unknown_dependency unbounded_fan_out cyclic unknown_block_dependency sibling_dependency :
      DefinitionError
  sibling_condition too_many_steps too_many_characters unknown_action : DefinitionError
  password_without_reference fill_without_target bad_value_reference text_and_reference :
      DefinitionError
  target_and_reference schema_refused placeholder_without_params unresolved_placeholder :
      DefinitionError
  param_not_supplied param_is_none param_not_scalar : DefinitionError

pub record WorkflowTarget : Type 0 where
  pub role : Option String
  pub name : Option String
  pub tag : Option String
  pub input_type : Option String
  pub frame_id : Option String
  pub index : Option ℕ

pub record WorkflowExpect : Type 0 where
  pub kind : String
  pub url_contains : Option String

pub record WorkflowCondition : Type 0 where
  pub kind : String
  pub step_id : Option String
  pub op : Option String
  pub value : Value

pub record WorkflowParallelBlock : Type 0 where
  pub steps : List String
  pub depends_on : List String
  pub max_concurrency : ℕ

pub record WorkflowStep : Type 0 where
  pub id : String
  pub action : String
  pub params : Fields
  pub target : Option WorkflowTarget
  pub expect : Option WorkflowExpect
  pub on_denied : String
  pub outputs : Dict String
  pub depends_on : List String
  pub condition : Option WorkflowCondition

pub record WorkflowDefinition : Type 0 where
  pub name : String
  pub version : ℕ
  pub params_schema : Fields
  pub steps : List WorkflowStep
  pub parallel : List WorkflowParallelBlock

abbrev pub allowed_step_actions : List String
allowed_step_actions =
    "browser.navigate" ∷ "browser.screenshot" ∷ "browser.extract_dom" ∷ "browser.click"
    ∷ "browser.fill" ∷ "browser.submit" ∷ "browser.inspect" ∷ "browser.tabs"
    ∷ "browser.activate_tab" ∷ "browser.download" ∷ "browser.upload" ∷ []

abbrev pub mutating_step_actions : List String
mutating_step_actions =
    "browser.click" ∷ "browser.fill" ∷ "browser.submit" ∷ "browser.download" ∷ "browser.upload" ∷ []

abbrev pub expect_kinds : List String
expect_kinds = "navigation" ∷ "tab_opened" ∷ "element_detached" ∷ []

abbrev pub allowed_condition_kinds : List String
allowed_condition_kinds = "step_result" ∷ "url_contains" ∷ "element_present" ∷ []

abbrev pub condition_ops : List String
condition_ops = "==" ∷ "!=" ∷ []

-- `_IDENTIFIER_RE.match(text)`
identifier_codes : List ℕ → Bool
identifier_codes [] = false
identifier_codes (c ∷ cs) = is_word c && word_tail 63 cs

unfoldable pub is_identifier : String → Bool
unfolding identifier_codes
is_identifier text = identifier_codes (codes text)

abbrev pub is_empty : Option String → Bool
is_empty none = true
is_empty (some s) = str_eq s ""

abbrev pub is_one_of : List String → Option String → Bool
is_one_of options none = false
is_one_of options (some s) = elem s options

-- `isinstance(value, (str, bool, int, float)) or value is None`
abbrev pub is_scalar_or_null : Value → Bool
is_scalar_or_null (obj fs) = false
is_scalar_or_null (arr vs) = false
is_scalar_or_null _ = true

url_text : Value → Result DefinitionError (Unit {0})
url_text (str s) = do
  refuse_if (str_eq s "") url_contains_without_text
  refuse_if (ltb 1000 (text_length s)) url_contains_too_long
url_text _ = err url_contains_without_text

-- `WorkflowCondition._validate`
unfoldable pub validate_condition : WorkflowCondition → Result DefinitionError (Unit {0})
unfolding url_text
validate_condition c = do
  refuse_if (not (elem c.kind allowed_condition_kinds)) bad_condition_kind
  refuse_if (elim c.op [ none ↦ false | some op ↦ not (elem op condition_ops) ]) bad_condition_op
  if str_eq c.kind "step_result"
      then (do
        refuse_if (is_empty c.step_id) step_result_without_step
        refuse_if (not (is_one_of condition_ops c.op)) step_result_without_op
        refuse_if (not (is_scalar_or_null c.value)) step_result_not_scalar)
      else if str_eq c.kind "url_contains"
      then url_text c.value
      else if str_eq c.kind "element_present"
      then refuse_if (is_empty c.step_id) element_present_without_step
      else ok tt

-- `WorkflowParallelBlock._validate`, behind the bounds of `max_concurrency`
unfoldable pub validate_block : WorkflowParallelBlock → Result DefinitionError (Unit {0})
unfolding is_identifier
validate_block b = do
  refuse_if (ltb b.max_concurrency 1 || ltb 8 b.max_concurrency) bad_concurrency
  refuse_if (ltb (length b.steps) 2) block_too_small
  refuse_if (not (all_distinct b.steps)) block_has_duplicates
  refuse_if (not (all is_identifier (b.steps ++ b.depends_on))) block_invalid_step

expect_is_bad : Option WorkflowExpect → Bool
expect_is_bad none = false
expect_is_bad (some e) = not (elem e.kind expect_kinds)

-- `self.condition is not None and self.condition.step_id == self.id`
condition_names : String → Option WorkflowCondition → Bool
condition_names id none = false
condition_names id (some c) = elim c.step_id [ none ↦ false | some s ↦ str_eq s id ]

-- `WorkflowStep._validate`
unfoldable pub validate_step : WorkflowStep → Result DefinitionError (Unit {0})
unfolding is_identifier expect_is_bad condition_names
validate_step s = do
  refuse_if (not (is_identifier s.id)) bad_step_id
  refuse_if (not (elem s.action allowed_step_actions)) not_a_workflow_action
  refuse_if (not (str_eq s.on_denied "stop" || str_eq s.on_denied "skip")) bad_on_denied
  refuse_if (expect_is_bad s.expect) bad_expect_kind
  refuse_if (ltb 8 (length s.depends_on)) too_many_dependencies
  refuse_if (elem s.id s.depends_on) depends_on_itself
  refuse_if (not (all is_identifier s.depends_on)) invalid_dependency
  refuse_if (condition_names s.id s.condition) condition_on_itself

-- The loop over the steps, which gathers their ids.
collect_ids : List String → List WorkflowStep → Result DefinitionError (List String)
collect_ids seen [] = ok seen
collect_ids seen (s ∷ ss) =
    refuse_if (elem s.id seen) duplicate_step >> collect_ids (s.id ∷ seen) ss

block_steps : List String → List String → List String → Result DefinitionError (List String)
block_steps ids seen [] = ok seen
block_steps ids seen (s ∷ ss) = do
  refuse_if (not (elem s ids)) unknown_block_step
  refuse_if (elem s seen) in_two_blocks
  block_steps ids (s ∷ seen) ss

all_blocks :
    List String → List String → List WorkflowParallelBlock → Result DefinitionError (List String)
all_blocks ids seen [] = ok seen
all_blocks ids seen (b ∷ bs) = block_steps ids seen b.steps >>= λ more. all_blocks ids more bs

-- `WorkflowDefinition._validate`
unfoldable pub validate_definition : WorkflowDefinition → Result DefinitionError (Unit {0})
unfolding is_identifier collect_ids block_steps all_blocks
validate_definition d = do
  refuse_if (not (is_identifier d.name)) bad_workflow_name
  refuse_if (ltb d.version 1) bad_version
  refuse_if (ltb (length d.steps) 1) no_steps
  ids ← collect_ids [] d.steps
  seen ← all_blocks ids [] d.parallel
  ok tt

-- `is_mutating`
unfoldable pub is_mutating : WorkflowDefinition → Bool
is_mutating d = any (λ (s : WorkflowStep). elem s.action mutating_step_actions) d.steps
