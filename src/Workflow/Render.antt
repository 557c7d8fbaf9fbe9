-- ===== src/Workflow/Render.antt =====
-- era/workflows/definition.py 310-369: `{{name}}` placeholders. White space is that of ASCII, and
-- `text_of` stands for `str` of a number.
use Prim.Native.String
use Prim.Native.Char.{code}
use era_ai.Prelude.{
  ℕ, zero, suc, String, Bool, false, not, ◌&&◌, ◌||◌, Option, none, some, leb, ◌==◌, str_eq,
  is_some, if◌then◌else◌,
}
use era_ai.Prelude.Text.{codes, text_length, contains, is_word}
use era_ai.Prelude.Results.{Result, ok, err, ◌>>=◌, ◌>>◌, refuse_if}
use era_ai.Value.{
  Value, null, bool, int, float, str, obj, arr, Fields, end, field, Items, nil, cons, get_field,
}
use era_ai.Workflow.Definition.{
  DefinitionError, placeholder_without_params, unresolved_placeholder, param_not_supplied,
  param_is_none, param_not_scalar, WorkflowExpect, WorkflowStep,
}

abbrev pub synth_placeholder : String
synth_placeholder = "wf-param"

abbrev is_space : ℕ → Bool
is_space c = (leb 9 c && leb c 13) || (leb 28 c && leb c 32)

skip_space : String → String
skip_space String.[] = ""
skip_space (String.◌∷◌ c rest) =
    let more = skip_space rest in if is_space (code c) then more else String.◌∷◌ c rest

-- A brace pair at the start, and what follows it.
drop_pair : ℕ → String → Option String
drop_pair brace (String.◌∷◌ c (String.◌∷◌ d rest)) =
    if (code c == brace) && (code d == brace) then some rest else none
drop_pair brace _ = none

-- The longest name at the start, and what follows it.
take_name : String → String × String
take_name String.[] = ("", "")
take_name (String.◌∷◌ c rest) =
    let (name, after) = take_name rest in
    if is_word (code c) || (code c == b'-')
    then (String.◌∷◌ c name, after)
    else ("", String.◌∷◌ c rest)

closed_name : String × String → Option (String × String)
closed_name (name, after) =
    if str_eq name ""
    then none
    else elim (drop_pair b'}' (skip_space after)) [ none ↦ none | some rest ↦ some (name, rest) ]

-- `_PLACEHOLDER_RE.match`: the name of the placeholder at the start, and what follows it.
unfoldable pub placeholder_at : String → Option (String × String)
unfolding drop_pair skip_space take_name closed_name
placeholder_at text = elim (drop_pair b'{' text) [
  | none ↦ none
  | some rest ↦ closed_name (take_name (skip_space rest))
]

-- `_PLACEHOLDER_RE.search`
unfoldable pub has_placeholder : String → Bool
unfolding placeholder_at
has_placeholder String.[] = false
has_placeholder (String.◌∷◌ c rest) =
    is_some (placeholder_at (String.◌∷◌ c rest)) || has_placeholder rest

-- `_PLACEHOLDER_RE.sub`: every round takes a character at least, so the text's length is fuel enough.
unfoldable pub substitute :
    (String → Result DefinitionError String) → ℕ → String → Result DefinitionError String
unfolding placeholder_at
substitute value_of fuel String.[] = ok ""
substitute value_of zero (String.◌∷◌ c rest) = ok (String.◌∷◌ c rest)
substitute value_of (suc fuel) (String.◌∷◌ c rest) = elim (placeholder_at (String.◌∷◌ c rest)) [
  | none ↦ (substitute value_of fuel rest >>= λ more. ok (String.◌∷◌ c more))
  | some (name, after) ↦
      (value_of name >>= λ value.
      substitute value_of fuel after >>= λ more. ok (String.◌++◌ value more))
]

-- `lax`, or the params of the workflow.
pub data Mode : Type 0 where
  lax : Mode
  strict : Fields → Mode

module _ (text_of : Value → String) where
  scalar_text : Value → Result DefinitionError String
  scalar_text null = err param_is_none
  scalar_text (str s) = ok s
  scalar_text (bool b) = ok (text_of (bool b))
  scalar_text (int n) = ok (text_of (int n))
  scalar_text (float m e) = ok (text_of (float m e))
  scalar_text (obj fs) = err param_not_scalar
  scalar_text (arr xs) = err param_not_scalar

  -- `_lookup`
  unfoldable pub lookup_param : Fields → String → Result DefinitionError String
  unfolding scalar_text get_field
  lookup_param params name = elim (get_field name params) [
    | none ↦ err param_not_supplied
    | some v ↦ scalar_text v
  ]

  -- `"{{" in rendered or "}}" in rendered`
  resolved : String → Result DefinitionError String
  unfolding contains
  resolved text =
      refuse_if (contains (codes "{{") (codes text) || contains (codes "}}") (codes text))
        unresolved_placeholder
      >> ok text

  unfoldable pub render_text : Mode → String → Result DefinitionError String
  unfolding has_placeholder substitute lookup_param resolved
  render_text mode text = if not (has_placeholder text) then ok text else elim mode [
    | lax ↦ substitute (λ name. ok synth_placeholder) (text_length text) text
    | strict params ↦ elim params [
      | end ↦ err placeholder_without_params
      | field k v fs ↦ substitute (lookup_param (field k v fs)) (text_length text) text >>= resolved
    ]
  ]

  -- `_render`
  unfoldable mutual
    unfolding render_text

    pub render : Mode → Value → Result DefinitionError Value
    render mode null = ok null
    render mode (bool b) = ok (bool b)
    render mode (int n) = ok (int n)
    render mode (float m e) = ok (float m e)
    render mode (str s) = render_text mode s >>= λ t. ok (str t)
    render mode (arr xs) = render_items mode xs >>= λ ys. ok (arr ys)
    render mode (obj fs) = render_fields mode fs >>= λ gs. ok (obj gs)

    pub render_items : Mode → Items → Result DefinitionError Items
    render_items mode nil = ok nil
    render_items mode (cons x xs) =
        render mode x >>= λ y. render_items mode xs >>= λ ys. ok (cons y ys)

    pub render_fields : Mode → Fields → Result DefinitionError Fields
    render_fields mode end = ok end
    render_fields mode (field k v fs) =
        render mode v >>= λ w. render_fields mode fs >>= λ gs. ok (field k w gs)

  unfoldable pub render_workflow_params : Mode → WorkflowStep → Result DefinitionError Fields
  render_workflow_params mode s = render_fields mode s.params

  -- `step.expect.model_dump()`
  expect_fields : WorkflowExpect → Fields
  expect_fields e =
      field "kind" (str e.kind)
        (field "url_contains" (elim e.url_contains [ none ↦ null | some u ↦ str u ]) end)

  unfoldable pub render_step_expect : Mode → WorkflowExpect → Result DefinitionError Fields
  unfolding expect_fields
  render_step_expect mode e = render_fields mode (expect_fields e)
