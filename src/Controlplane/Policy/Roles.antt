-- ===== src/Controlplane/Policy/Roles.antt =====
-- Who approves does not make: the two halves of the table of roles have one role in common.
use ai_video_series_workflow.Common.{
  ◌≡◌, refl, Bool, true, false, none, List, [], ◌∷◌, Text, text_eq, text_eq-eq, codes, any, arith,
}
use ai_video_series_workflow.Controlplane.Policy.{
  Action, create_series, create_revision, compile_content, create_plan, start_production,
  create_run, pause_run, cancel_run, resume_run, approve_g1, approve_g2, approve_q1, approve_g3,
  approve_safety, lock_publication, Actor, PolicyError, allowed_roles, authorize, authorize_role,
  role_of, role_denied,
}
use ai_video_series_workflow.Controlplane.Policy

-- The actions that make content or spend on it.
unfoldable pub is_production : Action → Bool
is_production create_series = true
is_production create_revision = true
is_production compile_content = true
is_production create_plan = true
is_production start_production = true
is_production create_run = true
is_production pause_run = true
is_production cancel_run = true
is_production resume_run = true
is_production _ = false

-- The creative gates, and the lock of a publication.
unfoldable pub is_creative_gate : Action → Bool
is_creative_gate approve_g1 = true
is_creative_gate approve_g2 = true
is_creative_gate approve_q1 = true
is_creative_gate approve_g3 = true
is_creative_gate lock_publication = true
is_creative_gate _ = false

abbrev makers : List Text
makers = codes "CREATOR" ∷ codes "ARTIST" ∷ codes "PRODUCER" ∷ codes "OPERATOR" ∷ codes "ADMIN" ∷ []

abbrev approvers : List Text
approvers = codes "DIRECTOR" ∷ codes "PRODUCER" ∷ codes "REVIEWER" ∷ []

abbrev Allows : Action → Text → Type 0
Allows a r = authorize_role a r (allowed_roles a) ≡ none

Allows-makers :
    (a : Action) (r : Text) → is_production a ≡ true → Allows a r → any (text_eq r) makers ≡ true
unfolding is_production authorize_role allowed_roles
Allows-makers create_series r p h = ground (arith, h)
Allows-makers create_revision r p h = ground (arith, h)
Allows-makers compile_content r p h = ground (arith, h)
Allows-makers create_plan r p h = ground (arith, h)
Allows-makers start_production r p h = ground (arith, h)
Allows-makers create_run r p h = ground (arith, h)
Allows-makers pause_run r p h = ground (arith, h)
Allows-makers cancel_run r p h = ground (arith, h)
Allows-makers resume_run r p h = ground (arith, h)
Allows-makers approve_g1 r p h = cc
Allows-makers approve_g2 r p h = cc
Allows-makers approve_q1 r p h = cc
Allows-makers approve_g3 r p h = cc
Allows-makers approve_safety r p h = cc
Allows-makers lock_publication r p h = cc
Allows-makers (Policy.other a) r p h = cc

Allows-approvers :
    (a : Action) (r : Text)
    → is_creative_gate a ≡ true
    → Allows a r
    → any (text_eq r) approvers ≡ true
unfolding is_creative_gate authorize_role allowed_roles
Allows-approvers create_series r p h = cc
Allows-approvers create_revision r p h = cc
Allows-approvers compile_content r p h = cc
Allows-approvers create_plan r p h = cc
Allows-approvers start_production r p h = cc
Allows-approvers create_run r p h = cc
Allows-approvers pause_run r p h = cc
Allows-approvers cancel_run r p h = cc
Allows-approvers resume_run r p h = cc
Allows-approvers approve_g1 r p h = ground (arith, h)
Allows-approvers approve_g2 r p h = ground (arith, h)
Allows-approvers approve_q1 r p h = ground (arith, h)
Allows-approvers approve_g3 r p h = ground (arith, h)
Allows-approvers approve_safety r p h = cc
Allows-approvers lock_publication r p h = ground (arith, h)
Allows-approvers (Policy.other a) r p h = cc

excludes :
    (r x : Text) (ys : List Text)
    → any (text_eq x) ys ≡ false
    → text_eq r x ≡ true
    → any (text_eq r) ys ≡ false
excludes r x ys h e = rw (text_eq-eq r x e) h

creator_apart : any (text_eq (codes "CREATOR")) approvers ≡ false
unfolding text_eq
creator_apart = refl

artist_apart : any (text_eq (codes "ARTIST")) approvers ≡ false
unfolding text_eq
artist_apart = refl

operator_apart : any (text_eq (codes "OPERATOR")) approvers ≡ false
unfolding text_eq
operator_apart = refl

admin_apart : any (text_eq (codes "ADMIN")) approvers ≡ false
unfolding text_eq
admin_apart = refl

shared :
    (r : Text)
    → any (text_eq r) makers ≡ true
    → any (text_eq r) approvers ≡ true
    → text_eq r (codes "PRODUCER") ≡ true
shared r p q = ground (
  arith,
  p,
  q,
  excludes r (codes "CREATOR") approvers creator_apart,
  excludes r (codes "ARTIST") approvers artist_apart,
  excludes r (codes "OPERATOR") approvers operator_apart,
  excludes r (codes "ADMIN") approvers admin_apart,
)

module _ (to_upper : Text → Text) where
  authorize-Allows :
      (a : Action) (actor : Actor)
      → authorize to_upper a actor ≡ none
      → Allows a (role_of to_upper actor)
  unfolding authorize
  authorize-Allows a actor h = ground (arith, h)

  -- An actor who is authorized for a production action and also for a creative gate or the lock of a
  -- publication has the role PRODUCER.
  pub authorize-separates :
      (actor : Actor) (make approve : Action)
      → is_production make ≡ true
      → is_creative_gate approve ≡ true
      → authorize to_upper make actor ≡ none
      → authorize to_upper approve actor ≡ none
      → role_of to_upper actor ≡ codes "PRODUCER"
  authorize-separates actor make approve p q h k =
      let role : Text = role_of to_upper actor in
      text_eq-eq role (codes "PRODUCER") (
        shared role (Allows-makers make role p (authorize-Allows make actor h))
          (Allows-approvers approve role q (authorize-Allows approve actor k)))
