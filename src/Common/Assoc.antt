-- ===== src/Common/Assoc.antt =====
-- A Go map with string keys, as an association list.
use mathlib.Core.Path.{◌≡◌, refl, ap}
use mathlib.Core.Logic.{inl, inr}
use mathlib.Core.List.{List, [], ◌∷◌}
use mathlib.Core.Option.{Option, none, some}
use native.Mathlib.Omega.{arith}
use ai_video_series_workflow.Common.Tests.{if◌then◌else◌, Bool-cases}
use ai_video_series_workflow.Common.Strings.{Text, text_eq, text_eq_iff, text_eq_refl, text_eq-eq}

module _ {ℓ} {V : Type ℓ} where
  unfoldable pub lookup : Text → List (Text × V) → Option V
  lookup k [] = none
  lookup k ((j, v) ∷ m) = if text_eq j k then some v else lookup k m

  unfoldable pub insert : Text → V → List (Text × V) → List (Text × V)
  insert k v [] = (k, v) ∷ []
  insert k v ((j, w) ∷ m) = if text_eq j k then (k, v) ∷ m else (j, w) ∷ insert k v m

  pub lookup-insert :
      (k j : Text) (v : V) (m : List (Text × V))
      → lookup j (insert k v m) ≡ (if text_eq k j then some v else lookup j m)
  unfolding lookup insert
  lookup-insert k j v [] = refl
  lookup-insert k j v ((i, w) ∷ m) =
      ground (arith, text_eq_iff k j, text_eq_iff i k, text_eq_iff i j, lookup-insert k j v m)

  pub lookup-insert_self :
      (k : Text) (v : V) (m : List (Text × V)) → lookup k (insert k v m) ≡ some v
  lookup-insert_self k v m = rw (lookup-insert k k v m, text_eq_refl k)

  -- Binding a key that is free leaves the other bindings.
  pub lookup-insert_free :
      (k j : Text) (v w : V) (m : List (Text × V))
      → lookup k m ≡ none
      → lookup j m ≡ some w
      → lookup j (insert k v m) ≡ some w
  lookup-insert_free k j v w m free bound = elim (Bool-cases (text_eq k j)) [
    | inl e ↦ absurd (clash (text_eq-eq k j e))
    | inr e ↦ rw (lookup-insert k j v m, e) bound
  ]
    where
      clash : k ≡ j → ⊥
      clash e = let same : lookup k m ≡ lookup j m = ap (λ i. lookup i m) e in cc
