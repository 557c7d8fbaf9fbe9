-- ===== src/Chain/Tamper.antt =====
-- What the chain makes evident: a log that was changed behind the back of the repository.
use era_ai.Prelude.{◌≡◌, List, All}
use era_ai.Chain.{Row, Repo, digest}

-- The fields of the two rows have one digest only if they are the same.
abbrev pub Distinguished : Repo → Row → Row → Type 0
Distinguished repo x y = digest repo x.payload ≡ digest repo y.payload → x.payload ≡ y.payload

-- No collision between the rows of two logs.
abbrev pub NoCollision : Repo → List Row → List Row → Type 0
NoCollision repo xs ys = All (λ x. All (λ y. Distinguished repo x y) ys) xs
