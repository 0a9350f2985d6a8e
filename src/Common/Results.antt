-- ===== src/Common/Results.antt =====
-- A Go result with an error: a value, or the error that is returned in its place.
use mathlib.Core.Path.{◌≡◌, refl}
use mathlib.Core.Bool.{Bool, true, false, not}
use mathlib.Core.Option.{Option, none, some}
use mathlib.Core.List.{List, [], ◌∷◌}
use ai_video_series_workflow.Common.Tests.{if◌then◌else◌}
use ai_video_series_workflow.Common.Lists.{All}

pub data Result {ℓ κ} (E : Type ℓ) (A : Type κ) : Type (ℓ ⊔ κ) where
  ok : A → Result E A
  err : E → Result E A

infixl 5 ◌>>=◌ ◌>>◌
abbrev pub ◌>>=◌ {ℓ κ ν} :
    {E : Type ℓ} {A : Type κ} {B : Type ν} → Result E A → (A → Result E B) → Result E B
ok a >>= f = f a
err e >>= f = err e

-- `if err := check; err != nil { return err }`.
abbrev pub ◌>>◌ {ℓ κ} : {E : Type ℓ} {B : Type κ} → Option E → Result E B → Result E B
none >> k = k
some e >> k = err e

pub >>-ok {ℓ κ} :
    {E : Type ℓ} {B : Type κ} (o : Option E) (k : Result E B) {b : B}
    → (o >> k) ≡ ok b
    → (o ≡ none) × (k ≡ ok b)
>>-ok none k h = (refl, h)
>>-ok (some e) k h = cc

pub >>=-ok {ℓ κ ν} :
    {E : Type ℓ} {A : Type κ} {B : Type ν} (m : Result E A) (f : A → Result E B) {b : B}
    → (m >>= f) ≡ ok b
    → (a : A) × (m ≡ ok a) × (f a ≡ ok b)
>>=-ok (ok a) f h = (a, refl, h)
>>=-ok (err e) f h = cc

-- A check that is not made, or that passes, leaves the one after it.
pub check-none {ℓ} :
    {E : Type ℓ} (b : Bool) (e : E) (k : Option E)
    → (if not b then some e else k) ≡ none
    → (b ≡ true) × (k ≡ none)
check-none true e k h = (refl, h)
check-none false e k h = cc

-- The first error of checks that are made in turn.
abbrev pub first_some {ℓ} : {E : Type ℓ} → List (Option E) → Option E
first_some [] = none
first_some (none ∷ checks) = first_some checks
first_some (some e ∷ checks) = some e

pub first_some-none {ℓ} :
    {E : Type ℓ} (checks : List (Option E)) → first_some checks ≡ none → All (λ o. o ≡ none) checks
first_some-none [] h = tt
first_some-none (none ∷ checks) h = (refl, first_some-none checks h)
first_some-none (some e ∷ checks) h = cc
