-- ===== src/Evidence/Outcome.antt =====
-- The results of the verification in crates/benchplane-core/src/evidence.rs, with its panics.
use benchplane.Base.{◌≡◌, refl, Option, none, some, Result, ok, err}
use benchplane.Evidence.Error.{EvidenceError}

-- A result, or a panic; `?` is the bind.
abbrev pub Outcome {ℓ} : Type ℓ → Type ℓ
Outcome A = Option (Result A EvidenceError)

module _ {ℓ κ} {A : Type ℓ} {B : Type κ} where
  infixl 5 ◌>>=◌
  abbrev pub ◌>>=◌ : Outcome A → (A → Outcome B) → Outcome B
  none >>= f = none
  some (err e) >>= f = some (err e)
  some (ok a) >>= f = f a

infixl 5 ◌>>◌
abbrev pub ◌>>◌ {κ} : {B : Type κ} → Outcome (Unit {0}) → Outcome B → Outcome B
m >> k = m >>= λ _. k

-- How a step of a chain ends: with a value, or with a panic or an error.
pub data Ends {A : Type 0} (m : Outcome A) : Type 0 where
  gives : (a : A) → m ≡ some (ok a) → Ends m
  fails : (e : EvidenceError) → m ≡ some (err e) → Ends m
  panics : m ≡ none → Ends m

pub Outcome-cases : {A : Type 0} (m : Outcome A) → Ends m
Outcome-cases none = panics refl
Outcome-cases (some (err e)) = fails e refl
Outcome-cases (some (ok a)) = gives a refl
