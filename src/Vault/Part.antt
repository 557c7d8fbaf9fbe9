-- ===== src/Vault/Part.antt =====
-- The pattern `_PART_RE` of era/security/vault.py, spelled out.
use era_ai.Prelude.{
  ℕ, zero, suc, ◌≤◌, String, ◌≡◌, ◌↔◌, ◌⊎◌, inl, inr, refl, true, ◌||◌, List, [], ◌∷◌, ◌++◌, length,
  All, ◌==◌, Bool-cases, ap, arith,
}
use era_ai.Prelude.Text.{codes, is_letter_or_digit, is_word, word_tail}
use era_ai.Vault.Reference.{part_codes, is_part}

-- A character behind the first one
abbrev pub IsInner : ℕ → Type 0
IsInner c = (is_word c || (c == b'-')) ≡ true

-- Inner characters, and a newline or none behind them
pub record IsTail (n : ℕ) (cs : List ℕ) : Type 0 where
  pub body : List ℕ
  pub ending : List ℕ
  pub shape : cs ≡ body ++ ending
  pub is_ending : (ending ≡ []) ⊎ (ending ≡ 10 ∷ [])
  pub inner : All IsInner body
  pub bounded : length body ≤ n

-- A letter or digit, at most 63 letters, digits, `_` and `-`, and then the end of the text or one newline
-- that ends it
abbrev pub IsPartCodes : List ℕ → Type 0
IsPartCodes [] = ⊥
IsPartCodes (c ∷ cs) = (is_letter_or_digit c ≡ true) × IsTail 63 cs

abbrev pub IsPart : String → Type 0
IsPart s = IsPartCodes (codes s)

IsTail-cons : (n c : ℕ) (cs : List ℕ) → IsInner c → IsTail n cs → IsTail (suc n) (c ∷ cs)
IsTail-cons n c cs i t = record {
  body = c ∷ t.body;
  ending = t.ending;
  shape = ap (λ xs. c ∷ xs) t.shape;
  is_ending = t.is_ending;
  inner = (i, t.inner);
  bounded = ground (arith, t.bounded);
}

IsTail-end : (n : ℕ) → IsTail n []
IsTail-end n = record {
  body = [];
  ending = [];
  shape = refl;
  is_ending = inl refl;
  inner = tt;
  bounded = omega arith;
}

IsTail-newline : (n c : ℕ) → (c == 10) ≡ true → IsTail n (c ∷ [])
IsTail-newline n c h = record {
  body = [];
  ending = c ∷ [];
  shape = refl;
  is_ending = inr (ground (arith, h));
  inner = tt;
  bounded = omega arith;
}

word_tail→IsTail : (n : ℕ) (cs : List ℕ) → word_tail n cs ≡ true → IsTail n cs
word_tail→IsTail n [] h = IsTail-end n
word_tail→IsTail zero (c ∷ []) h = IsTail-newline zero c h
word_tail→IsTail zero (c ∷ d ∷ cs) h = ground (arith, h)
word_tail→IsTail (suc n) (c ∷ []) h = elim (Bool-cases (c == 10)) [
  | inl q ↦ IsTail-newline (suc n) c q
  | inr q ↦ IsTail-cons n c [] (ground (arith, h, q)) (IsTail-end n)
]
word_tail→IsTail (suc n) (c ∷ d ∷ cs) h =
    IsTail-cons n c (d ∷ cs) (ground (arith, h)) (word_tail→IsTail n (d ∷ cs) (ground (arith, h)))

tail-word_tail :
    (n : ℕ) (body ending : List ℕ)
    → (ending ≡ []) ⊎ (ending ≡ 10 ∷ [])
    → All IsInner body
    → length body ≤ n
    → word_tail n (body ++ ending) ≡ true
tail-word_tail n [] ending (inl e) i b = rw e refl
tail-word_tail zero [] ending (inr e) i b = rw e refl
tail-word_tail (suc n) [] ending (inr e) i b = rw e refl
tail-word_tail zero (c ∷ cs) ending e i b = ground (arith, b)
tail-word_tail (suc n) (c ∷ []) ending (inl e) i b = rw e (ground (arith, i.0))
tail-word_tail (suc n) (c ∷ []) ending (inr e) i b =
    let rest = tail-word_tail n [] ending (inr e) tt (omega arith) in
    rw e (ground (arith, i.0, rw e at rest))
tail-word_tail (suc n) (c ∷ d ∷ cs) ending e i b =
    ground (arith, i.0, tail-word_tail n (d ∷ cs) ending e i.1 (ground (arith, b)))

part_codes_iff : (cs : List ℕ) → (part_codes cs ≡ true) ↔ IsPartCodes cs
part_codes_iff [] = (λ h. ground (arith, h), λ h. absurd h)
part_codes_iff (c ∷ cs) = (
  λ h. (ground (arith, h), word_tail→IsTail 63 cs (ground (arith, h))),
  λ (first, t).
      let tail : word_tail 63 cs ≡ true =
        rw t.shape (tail-word_tail 63 t.body t.ending t.is_ending t.inner t.bounded) in
      ground (arith, first, tail),
)

pub is_part_iff : (s : String) → (is_part s ≡ true) ↔ IsPart s
unfolding is_part
is_part_iff s = part_codes_iff (codes s)
