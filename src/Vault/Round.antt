-- ===== src/Vault/Round.antt =====
-- What `make_vault_ref` makes is what `parse_vault_ref` reads.
use Prim.Native.Char.{Char, code}
use Prim.Native.String.{String, ◌++◌}
use text.Mathlib.Text.{starts_with}
use text.Mathlib.TextEquality.{eq_iff, starts_with_iff}
use text.Mathlib.TextLemmas.{nil-append, cons-append}
use era_ai.Prelude.{
  ℕ, zero, suc, ◌≡◌, refl, sym, ap, ◌∙◌, subst, ◌↔◌, Bool, true, false, not, ◌&&◌, ◌||◌, Option,
  none, some, str_eq, Bool-cases, inl, inr, ◌==◌, arith,
}
use era_ai.Prelude.Text.{codes, is_word, word_tail}
use era_ai.Vault.Part.{IsPart, is_part_iff}
use era_ai.Vault.Reference.{
  vault_ref_prefix, is_part, is_slash, cons_left, is_vault_ref, drop, partition, checked_parts,
  parse_vault_ref, make_vault_ref,
}

abbrev pub no_slash : String → Bool
no_slash String.[] = true
no_slash (String.◌∷◌ c s) = not (is_slash c) && no_slash s

slash_code : (c : Char) → is_slash c ≡ true → code c ≡ 47
slash_code c h =
    ap (λ s. elim s [ String.[] ↦ 0 | String.◌∷◌ d t ↦ code d ])
      ((eq_iff (String.◌∷◌ c String.[]) "/").0 h)

-- No character that a part may hold is a slash.
word-no_slash :
    (c : Char)
    → (is_word (code c) || (code c == b'-') || (code c == 10)) ≡ true
    → is_slash c ≡ false
word-no_slash c h = elim (Bool-cases (is_slash c)) [
  | inl q ↦ ground (arith, h, slash_code c q)
  | inr q ↦ q
]

tail-no_slash : (n : ℕ) (s : String) → word_tail n (codes s) ≡ true → no_slash s ≡ true
tail-no_slash n String.[] h = refl
tail-no_slash zero (String.◌∷◌ c String.[]) h = rw (word-no_slash c (ground (arith, h))) refl
tail-no_slash zero (String.◌∷◌ c (String.◌∷◌ d s)) h = ground (arith, h)
tail-no_slash (suc n) (String.◌∷◌ c String.[]) h = rw (word-no_slash c (ground (arith, h))) refl
tail-no_slash (suc n) (String.◌∷◌ c (String.◌∷◌ d s)) h =
    rw (word-no_slash c (ground (arith, h))) (tail-no_slash n (String.◌∷◌ d s) (ground (arith, h)))

pub part-no_slash : (s : String) → is_part s ≡ true → no_slash s ≡ true
unfolding is_part
part-no_slash String.[] h = refl
part-no_slash (String.◌∷◌ c s) h =
    rw (word-no_slash c (ground (arith, h))) (tail-no_slash 63 s (ground (arith, h)))

pub partition-join : (a b : String) → no_slash a ≡ true → partition (a ++ ("/" ++ b)) ≡ some (a, b)
unfolding partition
partition-join String.[] b h =
    rw (nil-append ("/" ++ b), cons-append _ String.[] b, nil-append b) refl
partition-join (String.◌∷◌ c a) b h =
    rw (cons-append c a ("/" ++ b)) (elim (Bool-cases (is_slash c)) [
      | inl q ↦ ground (arith, h, q)
      | inr q ↦ rw (q, partition-join a b (ground (arith, h, q))) refl
    ])

cons_left-some :
    (c : Char) (o : Option (String × String)) (a b : String)
    → cons_left c o ≡ some (a, b)
    → (t : String) × (o ≡ some (t, b)) × (a ≡ String.◌∷◌ c t)
cons_left-some c none a b h = ground (arith, h)
cons_left-some c (some (t, u)) a b h = (t, ap some (ground (arith, h)), ground (arith, h))

slash-cons : (c : Char) (s : String) → is_slash c ≡ true → String.◌∷◌ c s ≡ "" ++ ("/" ++ s)
slash-cons c s q = sym (
    nil-append ("/" ++ s)
    ∙ ap (λ t. t ++ s) (sym ((eq_iff (String.◌∷◌ c String.[]) "/").0 q))
    ∙ cons-append c String.[] s
    ∙ ap (String.◌∷◌ c) (nil-append s))

join-partition : (s a b : String) → partition s ≡ some (a, b) → s ≡ a ++ ("/" ++ b)
unfolding partition
join-partition String.[] a b h = ground (arith, h)
join-partition (String.◌∷◌ c s) a b h = elim (Bool-cases (is_slash c)) [
  | inl q ↦
      let first : "" ≡ a = ground (arith, rw q at h) in
      let second : s ≡ b = ground (arith, rw q at h) in slash-cons c s q ∙ rw (first, second) refl
  | inr q ↦
      let (t, found, shape) = cons_left-some c (partition s) a b (rw q at h) in
      rw (shape, cons-append c t ("/" ++ b)) (ap (String.◌∷◌ c) (join-partition s t b found))
]

part-nonempty : (s : String) → is_part s ≡ true → str_eq s "" ≡ false
unfolding is_part
part-nonempty s h = elim (Bool-cases (str_eq s "")) [
  | inl q ↦ ground (arith, subst (λ t. is_part t ≡ true) ((eq_iff s "").0 q) h)
  | inr q ↦ q
]

checked-ok :
    (a b : String) → is_part a ≡ true → is_part b ≡ true → checked_parts (some (a, b)) ≡ some (a, b)
unfolding checked_parts
checked-ok a b h k = rw (part-nonempty a h, part-nonempty b k, h, k) refl

checked-some :
    (o : Option (String × String)) (a b : String)
    → checked_parts o ≡ some (a, b)
    → (o ≡ some (a, b)) × (is_part a ≡ true) × (is_part b ≡ true)
unfolding checked_parts
checked-some none a b h = ground (arith, h)
checked-some (some (d, n)) a b h =
    elim (Bool-cases ((str_eq d "" || str_eq n "") || not (is_part d && is_part n))) [
      | inl q ↦ ground (arith, rw q at h)
      | inr q ↦
          let same : ◌≡◌ {A = Option (String × String)} (some (d, n)) (some (a, b)) = rw q at h in
          let first : d ≡ a = ap (λ o. elim o [ none ↦ d | some p ↦ p.0 ]) same in
          let second : n ≡ b = ap (λ o. elim o [ none ↦ n | some p ↦ p.1 ]) same in
          (
            same,
            subst (λ t. is_part t ≡ true) first (ground (arith, q)),
            subst (λ t. is_part t ≡ true) second (ground (arith, q)),
          )
    ]

drop-prefix : (s : String) → drop 6 (vault_ref_prefix ++ s) ≡ s
unfolding drop
drop-prefix s =
    rw (cons-append, cons-append, cons-append, cons-append, cons-append, cons-append, nil-append)
      refl

-- The same with the code's own test of a part
pub parse_vault_ref-make :
    (ref domain name : String)
    → (parse_vault_ref ref ≡ some (domain, name))
      ↔ ((ref ≡ make_vault_ref domain name) × (is_part domain ≡ true) × (is_part name ≡ true))
unfolding parse_vault_ref is_vault_ref make_vault_ref
parse_vault_ref-make ref domain name = (
  λ h. elim (Bool-cases (starts_with ref vault_ref_prefix)) [
    | inl q ↦
        let (rest, shape) = (starts_with_iff ref vault_ref_prefix).0 q in
        let (found, d, n) = checked-some (partition (drop 6 ref)) domain name (rw q at h) in
        (
          sym shape
              ∙ ap (λ t. vault_ref_prefix ++ t)
                  (sym (drop-prefix rest)
                    ∙ ap (drop 6) shape
                    ∙ join-partition (drop 6 ref) domain name found),
          d,
          n,
        )
    | inr q ↦ ground (arith, h, q)
  ],
  λ (e, d, n).
      rw
        (
          e,
          make_vault_ref,
          (starts_with_iff _ vault_ref_prefix).1 (domain ++ ("/" ++ name), refl),
          drop-prefix (domain ++ ("/" ++ name)),
          partition-join domain name (part-no_slash domain d),
        )
        (checked-ok domain name d n),
)

-- A text reads as a domain and a name just where it is the reference made of them, and each is a letter or
-- digit, at most 63 letters, digits, `_` and `-`, and one newline or none at the end. (The docstring and the
-- message of `validate_vault_part` allow no newline; the `$` of the pattern does.)
pub parse_vault_ref_iff :
    (ref domain name : String)
    → (parse_vault_ref ref ≡ some (domain, name))
      ↔ ((ref ≡ make_vault_ref domain name) × IsPart domain × IsPart name)
parse_vault_ref_iff ref domain name =
    let same = parse_vault_ref-make ref domain name in
    (
      λ h. let (e, d, n) = same.0 h in (e, (is_part_iff domain).0 d, (is_part_iff name).0 n),
      λ (e, d, n). same.1 (e, (is_part_iff domain).1 d, (is_part_iff name).1 n),
    )

-- A reference made of valid parts is a reference.
pub make_vault_ref-is_vault_ref :
    (domain name : String) → is_vault_ref (make_vault_ref domain name) ≡ true
unfolding is_vault_ref make_vault_ref
make_vault_ref-is_vault_ref domain name =
    (starts_with_iff (vault_ref_prefix ++ (domain ++ ("/" ++ name))) vault_ref_prefix).1
      (domain ++ ("/" ++ name), refl)
