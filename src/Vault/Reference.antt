-- ===== src/Vault/Reference.antt =====
-- era/security/vault.py 72-106: references of the form `vault:<domain>/<name>`.
use Prim.Native.Char.{Char}
use Prim.Native.String.{String, ◌++◌}
use text.Mathlib.Text.{starts_with}
use era_ai.Prelude.{
  ℕ, zero, suc, Bool, false, not, ◌&&◌, ◌||◌, Option, none, some, List, [], ◌∷◌, str_eq,
  if◌then◌else◌,
}
use era_ai.Prelude.Text.{codes, is_letter_or_digit, word_tail}
use era_ai.Prelude.Results.{Result, ok, err}

abbrev pub vault_ref_prefix : String
vault_ref_prefix = "vault:"

abbrev pub part_codes : List ℕ → Bool
part_codes [] = false
part_codes (c ∷ cs) = is_letter_or_digit c && word_tail 63 cs

-- `_PART_RE.match(part)`
unfoldable pub is_part : String → Bool
is_part s = part_codes (codes s)

-- of a value that is a string
unfoldable pub is_vault_ref : String → Bool
is_vault_ref value = starts_with value vault_ref_prefix

-- `s[n:]`
unfoldable pub drop : ℕ → String → String
drop zero s = s
drop (suc n) String.[] = ""
drop (suc n) (String.◌∷◌ c s) = drop n s

abbrev pub is_slash : Char → Bool
is_slash c = str_eq (String.◌∷◌ c String.[]) "/"

abbrev pub cons_left : Char → Option (String × String) → Option (String × String)
cons_left c none = none
cons_left c (some (a, b)) = some (String.◌∷◌ c a, b)

-- `s.partition("/")`, `none` where there is no slash
unfoldable pub partition : String → Option (String × String)
partition String.[] = none
partition (String.◌∷◌ c s) =
    let rest = partition s in if is_slash c then some ("", s) else cons_left c rest

unfoldable pub checked_parts : Option (String × String) → Option (String × String)
unfolding is_part
checked_parts none = none
checked_parts (some (domain, name)) =
    if (str_eq domain "" || str_eq name "") || not (is_part domain && is_part name)
    then none
    else some (domain, name)

unfoldable pub parse_vault_ref : String → Option (String × String)
unfolding is_vault_ref drop partition checked_parts
parse_vault_ref ref = if is_vault_ref ref then checked_parts (partition (drop 6 ref)) else none

unfoldable pub make_vault_ref : String → String → String
make_vault_ref domain name = vault_ref_prefix ++ (domain ++ ("/" ++ name))

pub data VaultError : Type 0 where
  disabled validation unknown auth revoked tampered not_found : VaultError

unfoldable pub validate_vault_part : String → Result VaultError String
unfolding is_part
validate_vault_part part = if is_part part then ok part else err VaultError.validation
