-- ===== src/Vault/Tests.antt =====
-- The vault at concrete secrets, with a cipher that keeps the text beside its data.
use text.Mathlib.TextEquality.{eq_iff}
use era_ai.Prelude.{
  ℕ, String, ◌≡◌, refl, ◌↔◌, false, Option, none, some, List, [], ◌∷◌, str_eq, Bool-cases, inl, inr,
  if◌then◌else◌,
}
use era_ai.Prelude.Results.{ok, err}
use era_ai.Vault.Reference.{VaultError, parse_vault_ref, make_vault_ref}
use era_ai.Vault.Part.{IsPart}
use era_ai.Vault.Round.{parse_vault_ref_iff}
use era_ai.Vault.Service.{
  VaultSecret, VaultState, Aead, IsAead, aad, StoreRequest, store_or_rotate_secret, revoke_secret,
  resolve_ref,
}
use era_ai.Vault.Service.Resolve.{resolve-store}

parse_vault_ref_iff_example :
    (parse_vault_ref "vault:email/smtp-1" ≡ some ("email", "smtp-1"))
    ↔ (("vault:email/smtp-1" ≡ make_vault_ref "email" "smtp-1") × IsPart "email" × IsPart "smtp-1")
parse_vault_ref_iff_example = parse_vault_ref_iff "vault:email/smtp-1" "email" "smtp-1"

two_slashes : parse_vault_ref "vault:email/smtp/1" ≡ none
unfolding parse_vault_ref
two_slashes = refl

-- `$` matches before a newline that ends the text.
newline_ends_a_domain : parse_vault_ref "vault:email\n/smtp" ≡ some ("email\n", "smtp")
unfolding parse_vault_ref
newline_ends_a_domain = refl

abbrev open_with : String × String → String → Option String
open_with (bound, s) tag = if str_eq bound tag then some s else none

abbrev cipher : Aead (String × String)
cipher = record {
  encrypt = λ key nonce s tag. (tag, s);
  decrypt = λ key nonce b tag. open_with b tag;
}

cipher-IsAead : IsAead cipher
cipher-IsAead = record {
  opens = λ key nonce s tag. rw ((eq_iff tag tag).1 refl) refl;
  refuses = λ key nonce s tag other differ. elim (Bool-cases (str_eq tag other)) [
    | inl q ↦ elim (differ ((eq_iff tag other).0 q)) [ ]
    | inr q ↦ rw q refl
  ];
}

abbrev key : List ℕ
key = 7 ∷ []

abbrev request : StoreRequest
request = record {
  domain = "email";
  name = "smtp";
  value = "hunter2";
  actor_id = "amy";
  owner_user_id = none;
}

abbrev empty_vault : VaultState (String × String)
empty_vault = record { secrets = []; audits = [] }

abbrev moved : VaultSecret (String × String)
moved = record {
  id = "s1";
  domain = "github";
  name = "smtp";
  owner_user_id = "amy";
  ciphertext = (aad "email" "smtp", "hunter2");
  nonce = [];
  value_length = 7;
  revision = 1;
  revoked_at = none;
}

abbrev swapped : VaultState (String × String)
swapped = record { secrets = moved ∷ []; audits = [] }

stored :
    (s : VaultSecret (String × String)) × ((store_or_rotate_secret cipher
        (some key)
        "s1"
        []
        request
        empty_vault).0
      ≡ ok s)
unfolding store_or_rotate_secret
stored = (_, refl)

resolve-store_example :
    (resolve_ref cipher
      (some key)
      (make_vault_ref "email" "smtp")
      "bob"
      false
      (store_or_rotate_secret cipher (some key) "s1" [] request empty_vault).1).0
    ≡ ok "hunter2"
resolve-store_example =
    resolve-store cipher key "s1" "bob" [] request empty_vault stored.0 cipher-IsAead stored.1

after_revocation :
    (resolve_ref cipher
      (some key)
      "vault:email/smtp"
      "bob"
      false
      (revoke_secret cipher
        (some key)
        "now"
        "email"
        "smtp"
        "amy"
        (store_or_rotate_secret cipher (some key) "s1" [] request empty_vault).1).1).0
    ≡ err VaultError.revoked
unfolding resolve_ref revoke_secret store_or_rotate_secret
after_revocation = refl
