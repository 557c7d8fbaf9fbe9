-- ===== src/Vault/Service.antt =====
-- era/services/vault_service.py, with `_aad`, `vault_encrypt` and `vault_decrypt` of
-- era/security/vault.py. AES-256-GCM is a parameter: it seals and opens texts. A secret's times of
-- creation and change are left out.
pub mod Resolve
use Prim.Native.String.{◌++◌ as text_append}
use era_ai.Prelude.{
  ℕ, ◌+◌, String, ◌≡◌, ◌≢◌, Bool, true, false, not, ◌&&◌, ◌||◌, Option, none, some, List, [], ◌∷◌,
  ◌++◌, ltb, ◌==◌, str_eq, if◌then◌else◌,
}
use era_ai.Prelude.Text.{text_length}
use era_ai.Prelude.Results.{Result, ok, err}
use era_ai.Core.Enums.{Outcome}
use era_ai.Vault.Reference.{VaultError, is_part, is_vault_ref, parse_vault_ref}

abbrev pub max_vault_value_length : ℕ
max_vault_value_length = 16384

abbrev pub system_actor : String
system_actor = "vault-system"

pub record VaultSecret (B : Type 0) : Type 0 where
  pub id : String
  pub domain : String
  pub name : String
  pub owner_user_id : String
  pub ciphertext : B
  pub nonce : List ℕ
  pub value_length : ℕ
  pub revision : ℕ
  pub revoked_at : Option String

-- What `_audit` hands to the audit log
pub record VaultAudit : Type 0 where
  pub op : String
  pub domain : String
  pub name : String
  pub actor_id : String
  pub outcome : Outcome
  pub error_code : Option String

pub record VaultState (B : Type 0) : Type 0 where
  pub secrets : List (VaultSecret B)
  pub audits : List VaultAudit

-- A key, a nonce, a text and the authenticated data: the sealed text, and what opens it again. `B` is the
-- cipher's own type of sealed texts.
pub record Aead (B : Type 0) : Type 0 where
  pub encrypt : List ℕ → List ℕ → String → String → B
  pub decrypt : List ℕ → List ℕ → B → String → Option String

-- What the cipher promises: what was sealed opens under the same data, and under no other.
pub record IsAead {B : Type 0} (c : Aead B) : Type 0 where
  pub opens :
      (key nonce : List ℕ) (s aad : String)
      → c.decrypt key nonce (c.encrypt key nonce s aad) aad ≡ some s
  pub refuses :
      (key nonce : List ℕ) (s aad other : String)
      → aad ≢ other
      → c.decrypt key nonce (c.encrypt key nonce s aad) other ≡ none

-- `_aad`
unfoldable pub aad : String → String → String
aad domain name = text_append "era-vault/v1/" (text_append domain (text_append "/" name))

abbrev pub is_row : {B : Type 0} → String → String → VaultSecret B → Bool
is_row domain name r = str_eq r.domain domain && str_eq r.name name

-- `vault_repo.get`
unfoldable pub get_row :
    {B : Type 0} → String → String → List (VaultSecret B) → Option (VaultSecret B)
get_row domain name [] = none
get_row domain name (r ∷ rs) =
    let rest = get_row domain name rs in if is_row domain name r then some r else rest

-- A change of the row that `get_row` finds.
unfoldable pub change_row :
    {B : Type 0}
    → String
    → String
    → (VaultSecret B → VaultSecret B)
    → List (VaultSecret B)
    → List (VaultSecret B)
change_row domain name f [] = []
change_row domain name f (r ∷ rs) =
    let rest = change_row domain name f rs in if is_row domain name r then f r ∷ rs else r ∷ rest

-- `_audit`
unfoldable pub audit :
    {B : Type 0}
    → String
    → String
    → String
    → String
    → Outcome
    → Option String
    → VaultState B
    → VaultState B
audit op domain name actor outcome code s = record s {
  audits =
      s.audits
      ++ record {
        op = op;
        domain = domain;
        name = name;
        actor_id = actor;
        outcome = outcome;
        error_code = code;
      }
        ∷ [];
}

-- `owner or actor`
abbrev pub owner_or : Option String → String → String
owner_or none actor = actor
owner_or (some owner) actor = if str_eq owner "" then actor else owner

pub record StoreRequest : Type 0 where
  pub domain : String
  pub name : String
  pub value : String
  pub actor_id : String
  pub owner_user_id : Option String

module _ {B : Type 0} (c : Aead B) where
  or_tampered : Option String → Result VaultError String
  or_tampered none = err VaultError.tampered
  or_tampered (some value) = ok value

  -- `vault_decrypt`
  unfoldable pub vault_decrypt : B → List ℕ → List ℕ → String → String → Result VaultError String
  unfolding aad or_tampered
  vault_decrypt ciphertext nonce key domain name =
      or_tampered (c.decrypt key nonce ciphertext (aad domain name))

  -- `vault_encrypt` under a fresh nonce
  unfoldable pub vault_encrypt : List ℕ → String → List ℕ → String → String → B
  unfolding aad
  vault_encrypt nonce value key domain name = c.encrypt key nonce value (aad domain name)

  fresh_secret : String → List ℕ → List ℕ → StoreRequest → VaultSecret B
  unfolding vault_encrypt
  fresh_secret id nonce key r = record {
    id = id;
    domain = r.domain;
    name = r.name;
    owner_user_id = owner_or r.owner_user_id r.actor_id;
    ciphertext = vault_encrypt nonce r.value key r.domain r.name;
    nonce = nonce;
    value_length = text_length r.value;
    revision = 1;
    revoked_at = none;
  }

  -- An owner that is given is the new one; the empty one stands for the actor.
  rotated : List ℕ → List ℕ → StoreRequest → VaultSecret B → VaultSecret B
  unfolding vault_encrypt
  rotated nonce key r old = record old {
    ciphertext = vault_encrypt nonce r.value key r.domain r.name;
    nonce = nonce;
    owner_user_id = elim r.owner_user_id [
      | none ↦ old.owner_user_id
      | some owner ↦ owner_or (some owner) r.actor_id
    ];
    value_length = text_length r.value;
    revision = (if old.revision == 0 then 1 else old.revision) + 1;
    revoked_at = none;
  }

  unfoldable pub put_secret :
      Option (VaultSecret B)
      → String
      → List ℕ
      → List ℕ
      → StoreRequest
      → VaultState B
      → Result VaultError (VaultSecret B) × VaultState B
  unfolding change_row audit fresh_secret rotated
  put_secret none id nonce key r s =
      let secret = fresh_secret id nonce key r in
      (
        ok secret,
        audit "vault.store" r.domain r.name r.actor_id Outcome.executed none
            record s { secrets = s.secrets ++ secret ∷ [] },
      )
  put_secret (some old) id nonce key r s = (
    ok (rotated nonce key r old),
    audit "vault.rotate" r.domain r.name r.actor_id Outcome.executed none
        record s { secrets = change_row r.domain r.name (rotated nonce key r) s.secrets },
  )

  is_refused : StoreRequest → Bool
  unfolding is_part
  is_refused r =
      not (is_part r.domain)
      || not (is_part r.name)
      || str_eq (owner_or r.owner_user_id r.actor_id) ""
      || str_eq r.value ""
      || ltb max_vault_value_length (text_length r.value)

  with_key :
      Option (List ℕ)
      → String
      → List ℕ
      → StoreRequest
      → VaultState B
      → Result VaultError (VaultSecret B) × VaultState B
  unfolding get_row put_secret
  with_key none id nonce r s = (err VaultError.disabled, s)
  with_key (some key) id nonce r s = put_secret (get_row r.domain r.name s.secrets) id nonce key r s

  -- `store_or_rotate_secret`, with a fresh id and a fresh nonce
  unfoldable pub store_or_rotate_secret :
      Option (List ℕ)
      → String
      → List ℕ
      → StoreRequest
      → VaultState B
      → Result VaultError (VaultSecret B) × VaultState B
  unfolding is_refused with_key
  store_or_rotate_secret key id nonce r s =
      if is_refused r then (err VaultError.validation, s) else with_key key id nonce r s

  revoke : String → VaultSecret B → VaultSecret B
  revoke now r = record r { revoked_at = elim r.revoked_at [ none ↦ some now | some t ↦ some t ] }

  revoke_found :
      Option (VaultSecret B)
      → String
      → String
      → String
      → String
      → VaultState B
      → Result VaultError (VaultSecret B) × VaultState B
  unfolding change_row audit revoke
  revoke_found none now domain name actor s = (err VaultError.not_found, s)
  revoke_found (some old) now domain name actor s = (
    ok (revoke now old),
    audit "vault.revoke" domain name actor Outcome.executed none
        record s { secrets = change_row domain name (revoke now) s.secrets },
  )

  -- `revoke_secret`
  unfoldable pub revoke_secret :
      Option (List ℕ)
      → String
      → String
      → String
      → String
      → VaultState B
      → Result VaultError (VaultSecret B) × VaultState B
  unfolding is_part get_row revoke_found
  revoke_secret key now domain name actor s =
      if not (is_part domain && is_part name) then (err VaultError.validation, s) else elim key [
        | none ↦ (err VaultError.disabled, s)
        | some k ↦ revoke_found (get_row domain name s.secrets) now domain name actor s
      ]

  failed_resolve :
      VaultError
      → String
      → String
      → String
      → String
      → VaultState B
      → Result VaultError String × VaultState B
  unfolding audit
  failed_resolve e code domain name actor s =
      (err e, audit "vault.resolve" domain name actor Outcome.failed (some code) s)

  resolved :
      Result VaultError String
      → String
      → String
      → String
      → VaultState B
      → Result VaultError String × VaultState B
  unfolding audit failed_resolve
  resolved (err e) domain name actor s = failed_resolve e "TAMPERED" domain name actor s
  resolved (ok value) domain name actor s =
      (ok value, audit "vault.resolve" domain name actor Outcome.executed none s)

  abbrev is_revoked : Option String → Bool
  is_revoked none = false
  is_revoked (some t) = true

  unfoldable pub resolve_row :
      Option (VaultSecret B)
      → List ℕ
      → String
      → String
      → String
      → Bool
      → VaultState B
      → Result VaultError String × VaultState B
  unfolding vault_decrypt failed_resolve resolved
  resolve_row none key domain name actor require_owner s =
      failed_resolve VaultError.unknown "UNKNOWN" domain name actor s
  resolve_row (some r) key domain name actor require_owner s =
      if require_owner && not (str_eq r.owner_user_id actor)
      then failed_resolve VaultError.auth "AUTH" domain name actor s
      else if is_revoked r.revoked_at
      then failed_resolve VaultError.revoked "REVOKED" domain name actor s
      else resolved (vault_decrypt r.ciphertext r.nonce key domain name) domain name actor s

  unfoldable pub resolve_parsed :
      Option (List ℕ)
      → Option (String × String)
      → String
      → Bool
      → VaultState B
      → Result VaultError String × VaultState B
  unfolding get_row resolve_row
  resolve_parsed key none actor require_owner s = (err VaultError.validation, s)
  resolve_parsed none (some (domain, name)) actor require_owner s = (err VaultError.disabled, s)
  resolve_parsed (some key) (some (domain, name)) actor require_owner s =
      resolve_row (get_row domain name s.secrets) key domain name actor require_owner s

  unfoldable pub resolve_checked :
      Option (List ℕ)
      → Bool
      → Option (String × String)
      → String
      → Bool
      → VaultState B
      → Result VaultError String × VaultState B
  unfolding resolve_parsed
  resolve_checked key false parsed actor require_owner s = (err VaultError.validation, s)
  resolve_checked key true parsed actor require_owner s =
      resolve_parsed key parsed actor require_owner s

  -- `resolve_ref`
  unfoldable pub resolve_ref :
      Option (List ℕ)
      → String
      → String
      → Bool
      → VaultState B
      → Result VaultError String × VaultState B
  unfolding is_vault_ref parse_vault_ref resolve_checked
  resolve_ref key ref actor require_owner s =
      resolve_checked key (is_vault_ref ref) (parse_vault_ref ref) actor require_owner s
