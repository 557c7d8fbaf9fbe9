-- ===== src/Chain/Linked.antt =====
-- What `verify_audit_rows` accepts: rows that are linked, hashed and signed; and that appending keeps
-- a log acceptable.
use era_ai.Prelude.{
  ℕ, ◌+◌, String, ◌≡◌, ◌≢◌, ◌↔◌, ◌⊎◌, subst, refl, sym, ◌∙◌, ap, true, false, Option, none, some,
  List, [], ◌∷◌, ◌++◌, eq_iff, inl, inr, Option-cases, arith,
}
use era_ai.Value.{Fields}
use era_ai.Gate.Records.{AuditEntry}
use era_ai.Chain.{
  Payload, Row, Signer, Repo, verify_signature, digest, build_row, next_row, append, row_error,
  is_text, first_error, verify_rows, verdict, get_last, differs, bad_signature, signed, is_signed,
}

-- No mark: the column is null or the empty text.
abbrev pub IsBlank : Option String → Type 0
IsBlank o = (o ≡ none) ⊎ (o ≡ some "")

-- The row carries the signer's marks and a signature that it verifies, or, without a signer, no mark.
abbrev pub IsSigned : Option Signer → Row → Type 0
IsSigned none row =
    IsBlank row.signing_algorithm × IsBlank row.signing_key_id × IsBlank row.signature
IsSigned (some s) row =
    (row.signing_algorithm ≡ some s.algorithm)
    × (row.signing_key_id ≡ some s.key_id)
    × ((sig : String) × (row.signature ≡ some sig)
        × (sig ≢ "")
        × (s.verify row.entry_hash sig ≡ true))

pub record IsSound (repo : Repo) (prev : String) (row : Row) : Type 0 where
  pub linked : row.payload.prev_hash ≡ prev
  pub hashed : row.entry_hash ≡ digest repo row.payload
  pub signed : IsSigned repo.signer row

-- Each row is sound behind the hash of the row before it.
abbrev pub IsChain : Repo → String → List Row → Type 0
IsChain repo prev [] = Unit
IsChain repo prev (row ∷ rows) = IsSound repo prev row × IsChain repo row.entry_hash rows

not_differs : (o : Option String) (s : String) → differs o s ≡ false → o ≡ some s
unfolding differs
not_differs none s h = ground arith
not_differs (some t) s h = ground (arith, h, eq_iff t s)

good_signature :
    (s : Signer) (hash : String) (o : Option String)
    → bad_signature s hash o ≡ false
    → (sig : String) × (o ≡ some sig) × (sig ≢ "") × (s.verify hash sig ≡ true)
unfolding bad_signature
good_signature s hash none h = ground arith
good_signature s hash (some sig) h =
    (sig, refl, λ e. ground (arith, h, e, eq_iff sig ""), ground (arith, h))

is_text_iff : (o : Option String) → (is_text o ≡ false) ↔ IsBlank o
unfolding is_text
is_text_iff none = (λ h. inl refl, λ h. refl)
is_text_iff (some s) =
    (λ h. inr (ap some (ground (arith, h, eq_iff s ""))), λ h. ground (arith, h, eq_iff s ""))

signature→IsSigned :
    (o : Option Signer) (row : Row) → verify_signature row o ≡ none → IsSigned o row
unfolding verify_signature is_signed
signature→IsSigned none row h = (
  (is_text_iff row.signing_algorithm).0 (ground (arith, h)),
  (is_text_iff row.signing_key_id).0 (ground (arith, h)),
  (is_text_iff row.signature).0 (ground (arith, h)),
)
signature→IsSigned (some s) row h = (
  not_differs row.signing_algorithm s.algorithm (ground (arith, h)),
  not_differs row.signing_key_id s.key_id (ground (arith, h)),
  good_signature s row.entry_hash row.signature (ground (arith, h)),
)

IsSigned→signature :
    (o : Option Signer) (row : Row) → IsSigned o row → verify_signature row o ≡ none
unfolding verify_signature is_signed differs bad_signature
IsSigned→signature none row (a, k, g) =
    rw
      (
        (is_text_iff row.signing_algorithm).1 a,
        (is_text_iff row.signing_key_id).1 k,
        (is_text_iff row.signature).1 g,
      )
      refl
IsSigned→signature (some s) row (a, k, (sig, e, n, v)) =
    simp (a, k, e, v)
      (ground (arith, n, eq_iff sig "", eq_iff s.algorithm s.algorithm, eq_iff s.key_id s.key_id))

row→IsSound :
    (repo : Repo) (prev : String) (row : Row)
    → row_error repo prev row ≡ none
    → IsSound repo prev row
unfolding row_error
row→IsSound repo prev row h = record {
  linked = ground (arith, h, eq_iff row.payload.prev_hash prev);
  hashed = ground (arith, h, eq_iff row.entry_hash (digest repo row.payload));
  signed = signature→IsSigned repo.signer row (ground (arith, h));
}

IsSound→row :
    (repo : Repo) (prev : String) (row : Row)
    → IsSound repo prev row
    → row_error repo prev row ≡ none
unfolding row_error
IsSound→row repo prev row h =
    let s = IsSigned→signature repo.signer row h.signed in
    ground (
      arith,
      s,
      h.linked,
      h.hashed,
      eq_iff row.payload.prev_hash prev,
      eq_iff row.entry_hash (digest repo row.payload),
    )

rows→IsChain :
    (repo : Repo) (prev : String) (rows : List Row)
    → first_error repo prev rows ≡ none
    → IsChain repo prev rows
unfolding first_error
rows→IsChain repo prev [] h = tt
rows→IsChain repo prev (row ∷ rows) h = elim (Option-cases (row_error repo prev row)) [
  | inl e ↦ (
    row→IsSound repo prev row e,
    rows→IsChain repo row.entry_hash rows (rw (e, first_error) at h),
  )
  | inr (x, e) ↦ ground (arith, h, e)
]

IsChain→rows :
    (repo : Repo) (prev : String) (rows : List Row)
    → IsChain repo prev rows
    → first_error repo prev rows ≡ none
unfolding first_error
IsChain→rows repo prev [] h = refl
IsChain→rows repo prev (row ∷ rows) (s, h) =
    rw (IsSound→row repo prev row s, first_error) (IsChain→rows repo row.entry_hash rows h)

verdict_iff :
    (repo : Repo) (rows : List Row) (o : Option (Row × String))
    → ((verdict repo rows o).valid ≡ true) ↔ (o ≡ none)
unfolding verdict
verdict_iff repo rows none = (λ h. refl, λ h. refl)
verdict_iff repo rows (some (row, reason)) = (λ h. ground arith, λ h. ground arith)

-- `verify_audit_rows` accepts a log exactly if each row names the hash of the row before it, the first
-- one the genesis hash, has the digest of its own fields as its hash, and carries the marks and a
-- signature of the configured signer, or, where none is configured, neither algorithm, key id nor
-- signature (each null or empty).
pub verify_rows_iff :
    (repo : Repo) (rows : List Row)
    → ((verify_rows repo rows).valid ≡ true) ↔ IsChain repo repo.genesis_hash rows
unfolding verify_rows
verify_rows_iff repo [] = (λ h. tt, λ h. refl)
verify_rows_iff repo (row ∷ rows) =
    let e = first_error repo repo.genesis_hash (row ∷ rows) in
    let v = verdict_iff repo (row ∷ rows) e in
    (
      λ h. rows→IsChain repo repo.genesis_hash (row ∷ rows) (v.0 h),
      λ h. v.1 (IsChain→rows repo repo.genesis_hash (row ∷ rows) h),
    )

-- Behind `prev` and these rows comes a row that names this hash.
abbrev pub last_hash : String → List Row → String
last_hash prev [] = prev
last_hash prev (row ∷ rows) = last_hash row.entry_hash rows

IsChain-snoc :
    (repo : Repo) (prev : String) (rows : List Row) (new : Row)
    → IsChain repo prev rows
    → IsSound repo (last_hash prev rows) new
    → IsChain repo prev (rows ++ new ∷ [])
IsChain-snoc repo prev [] new h s = (s, tt)
IsChain-snoc repo prev (row ∷ rows) new (k, h) s =
    (k, IsChain-snoc repo row.entry_hash rows new h s)

-- What `append` relies on in a signer: it verifies its own signatures, and they are not empty.
abbrev pub IsReliable : Option Signer → Type 0
IsReliable none = Unit
IsReliable (some s) = (hash : String) → (s.verify hash (s.sign hash) ≡ true) × (s.sign hash ≢ "")

signed_lem :
    (repo : Repo) (o : Option Signer) (p : Payload) (hash : String)
    → IsReliable o
    → ((signed repo o p hash).payload ≡ p)
      × ((signed repo o p hash).entry_hash ≡ hash)
      × IsSigned o (signed repo o p hash)
unfolding signed
signed_lem repo none p hash r = (refl, refl, (inl refl, inl refl, inl refl))
signed_lem repo (some s) p hash r =
    let (v, n) = r hash in (refl, refl, (refl, refl, (s.sign hash, refl, n, v)))

build_row-IsSound :
    (repo : Repo) (e : AuditEntry) (meta : Fields) (t : String) (n : ℕ) (prev : String)
    → IsReliable repo.signer
    → IsSound repo prev (build_row repo e meta t n prev)
unfolding build_row
build_row-IsSound repo e meta t n prev r =
    let p : Payload = record {
      seq = n;
      created_at = t;
      entry = e;
      meta = meta;
      prev_hash = prev;
    } in
    let (same, hash, marks) = signed_lem repo repo.signer p (digest repo p) r in
    record {
      linked = ap (λ x. x.prev_hash) same;
      hashed = hash ∙ ap (digest repo) (sym same);
      signed = marks;
    }

last_cases :
    (prev : String) (rows : List Row)
    → ((rows ≡ []) × (last_hash prev rows ≡ prev) × (get_last rows ≡ none))
      ⊎ ((last : Row) × (get_last rows ≡ some last) × (last_hash prev rows ≡ last.entry_hash))
unfolding get_last
last_cases prev [] = inl (refl, refl, refl)
last_cases prev (row ∷ []) = inr (row, refl, refl)
last_cases prev (row ∷ next ∷ rows) = elim (last_cases row.entry_hash (next ∷ rows)) [
  | inl (e, h, l) ↦ inr (ground arith)
  | inr (last, l, h) ↦ inr (last, l, h)
]

build_row-IsChain :
    (repo : Repo) (rows : List Row) (e : AuditEntry) (meta : Fields) (t : String) (n : ℕ)
    (prev : String)
    → IsReliable repo.signer
    → IsChain repo repo.genesis_hash rows
    → last_hash repo.genesis_hash rows ≡ prev
    → IsChain repo repo.genesis_hash (rows ++ build_row repo e meta t n prev ∷ [])
build_row-IsChain repo rows e meta t n prev r h p =
    let new = build_row repo e meta t n prev in
    IsChain-snoc repo repo.genesis_hash rows new h
      (subst (λ q. IsSound repo q new) (sym p) (build_row-IsSound repo e meta t n prev r))

append-IsChain :
    (repo : Repo) (rows : List Row) (e : AuditEntry) (meta : Fields) (t : String)
    → IsReliable repo.signer
    → IsChain repo repo.genesis_hash rows
    → IsChain repo repo.genesis_hash (append repo rows e meta t)
unfolding append next_row
append-IsChain repo rows e meta t r h = elim (last_cases repo.genesis_hash rows) [
  | inl (_, p, l) ↦ rw l (build_row-IsChain repo rows e meta t 1 repo.genesis_hash r h p)
  | inr (last, l, p) ↦
      rw l (build_row-IsChain repo rows e meta t (last.payload.seq + 1) last.entry_hash r h p)
]

-- With a signer that verifies its own non-empty signatures, or none, `append` turns a log that
-- `verify_audit_rows` accepts into one that it accepts.
pub append-verify_rows :
    (repo : Repo) (rows : List Row) (e : AuditEntry) (meta : Fields) (t : String)
    → IsReliable repo.signer
    → (verify_rows repo rows).valid ≡ true
    → (verify_rows repo (append repo rows e meta t)).valid ≡ true
append-verify_rows repo rows e meta t r h =
    (verify_rows_iff repo (append repo rows e meta t)).1
      (append-IsChain repo rows e meta t r ((verify_rows_iff repo rows).0 h))
