-- ===== src/Vault/Service/Resolve.antt =====
-- A secret that is stored is what its reference resolves to, and a sealed text opens in its own row only.
use text.Mathlib.TextEquality.{eq_iff}
use era_ai.Prelude.{
  ℕ, String, ◌≡◌, refl, ap, Bool, true, false, Option, none, some, List, [], ◌∷◌, ◌++◌, str_eq,
  Bool-cases, inl, inr, arith,
}
use era_ai.Prelude.Results.{ok}
use era_ai.Vault.Reference.{is_part, is_vault_ref, parse_vault_ref, make_vault_ref}
use era_ai.Vault.Round.{parse_vault_ref-make, make_vault_ref-is_vault_ref}
use era_ai.Vault.Service.{
  VaultSecret, VaultState, Aead, IsAead, aad, is_row, get_row, change_row, audit, StoreRequest,
  vault_decrypt, vault_encrypt, fresh_secret, rotated, put_secret, is_refused, with_key,
  store_or_rotate_secret, resolved, resolve_checked, resolve_row, resolve_parsed, resolve_ref,
}

str_eq_self : (s : String) → str_eq s s ≡ true
str_eq_self s = (eq_iff s s).1 refl

get_row-change :
    {B : Type 0} (d n : String) (f : VaultSecret B → VaultSecret B) (rows : List (VaultSecret B))
    (old : VaultSecret B)
    → ((r : VaultSecret B) → is_row d n (f r) ≡ is_row d n r)
    → get_row d n rows ≡ some old
    → get_row d n (change_row d n f rows) ≡ some (f old)
unfolding get_row change_row
get_row-change d n f [] old h q = ground (arith, q)
get_row-change d n f (r ∷ rs) old h q = elim (Bool-cases (is_row d n r)) [
  | inl e ↦ rw (e, h r, e) (ap some (ap f (ground (arith, rw e at q))))
  | inr e ↦ rw (e, e) (get_row-change d n f rs old h (rw e at q))
]

get_row-append :
    {B : Type 0} (d n : String) (rows : List (VaultSecret B)) (new : VaultSecret B)
    → is_row d n new ≡ true
    → get_row d n rows ≡ none
    → get_row d n (rows ++ new ∷ []) ≡ some new
unfolding get_row
get_row-append d n [] new h q = rw h refl
get_row-append d n (r ∷ rs) new h q = elim (Bool-cases (is_row d n r)) [
  | inl e ↦ ground (arith, rw e at q)
  | inr e ↦ rw e (get_row-append d n rs new h (rw e at q))
]

module _ {B : Type 0} (c : Aead B) (key : List ℕ) where
  resolve_ref_lem :
      (k : Option (List ℕ)) (ref actor : String) (owned : Bool) (s : VaultState B)
      → resolve_ref c k ref actor owned s
        ≡ resolve_checked c k (is_vault_ref ref) (parse_vault_ref ref) actor owned s
  unfolding resolve_ref
  resolve_ref_lem k ref actor owned s = refl

  resolve_checked_lem :
      (d n actor : String) (owned : Bool) (s : VaultState B)
      → resolve_checked c (some key) true (some (d, n)) actor owned s
        ≡ resolve_row c (get_row d n s.secrets) key d n actor owned s
  unfolding resolve_checked resolve_parsed
  resolve_checked_lem d n actor owned s = refl

  -- A reference leads to the row of its parts.
  resolve_ref-made :
      (d n actor : String) (owned : Bool) (s : VaultState B)
      → is_part d ≡ true
      → is_part n ≡ true
      → resolve_ref c (some key) (make_vault_ref d n) actor owned s
        ≡ resolve_row c (get_row d n s.secrets) key d n actor owned s
  resolve_ref-made d n actor owned s p q =
      rw
        (
          resolve_ref_lem (some key) (make_vault_ref d n) actor owned s,
          make_vault_ref-is_vault_ref d n,
          (parse_vault_ref-make (make_vault_ref d n) d n).1 (refl, p, q),
        )
        (resolve_checked_lem d n actor owned s)

  -- A row that holds what was sealed for it and is not revoked.
  resolve-sealed :
      (d n actor value : String) (r : VaultSecret B) (s : VaultState B)
      → IsAead c
      → is_part d ≡ true
      → is_part n ≡ true
      → get_row d n s.secrets ≡ some r
      → r.ciphertext ≡ c.encrypt key r.nonce value (aad d n)
      → r.revoked_at ≡ none
      → (resolve_ref c (some key) (make_vault_ref d n) actor false s).0 ≡ ok value
  unfolding resolve_row vault_decrypt resolved
  resolve-sealed d n actor value r s i p q found sealed live =
      rw
        (
          resolve_ref-made d n actor false s p q,
          found,
          live,
          sealed,
          i.opens key r.nonce value (aad d n),
        )
        refl

  put-resolves :
      (o : Option (VaultSecret B)) (id actor : String) (nonce : List ℕ) (r : StoreRequest)
      (s : VaultState B)
      → IsAead c
      → is_part r.domain ≡ true
      → is_part r.name ≡ true
      → get_row r.domain r.name s.secrets ≡ o
      → (resolve_ref c
          (some key)
          (make_vault_ref r.domain r.name)
          actor
          false
          (put_secret c o id nonce key r s).1).0
        ≡ ok r.value
  unfolding put_secret audit fresh_secret rotated vault_encrypt
  put-resolves none id actor nonce r s i p q found =
      resolve-sealed r.domain r.name actor r.value (fresh_secret c id nonce key r) _ i p q
        (get_row-append r.domain r.name s.secrets (fresh_secret c id nonce key r)
          (rw (str_eq_self r.domain, str_eq_self r.name) refl) found)
        refl refl
  put-resolves (some old) id actor nonce r s i p q found =
      resolve-sealed r.domain r.name actor r.value (rotated c nonce key r old) _ i p q
        (get_row-change r.domain r.name (rotated c nonce key r) s.secrets old (λ x. refl) found)
        refl refl

  -- What is stored under a domain and a name is what their reference resolves to, for any actor, whether
  -- the secret is new, rotated or was revoked before.
  pub resolve-store :
      (id actor : String) (nonce : List ℕ) (r : StoreRequest) (s : VaultState B)
      (secret : VaultSecret B)
      → IsAead c
      → (store_or_rotate_secret c (some key) id nonce r s).0 ≡ ok secret
      → (resolve_ref c
          (some key)
          (make_vault_ref r.domain r.name)
          actor
          false
          (store_or_rotate_secret c (some key) id nonce r s).1).0
        ≡ ok r.value
  unfolding store_or_rotate_secret is_refused with_key
  resolve-store id actor nonce r s secret i h = elim (Bool-cases (is_refused c r)) [
    | inl q ↦ ground (arith, rw q at h)
    | inr q ↦ rw q (
        put-resolves (get_row r.domain r.name s.secrets) id actor nonce r s i (ground (arith, q))
          (ground (arith, q)) refl)
  ]
