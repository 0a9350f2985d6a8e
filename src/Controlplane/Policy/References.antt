-- ===== src/Controlplane/Policy/References.antt =====
-- What a reference that passes validation refers to.
use ai_video_series_workflow.Common.{
  ◌≡◌, ◌≢◌, ◌↔◌, refl, Bool, true, false, Option, none, some, List, [], ◌∷◌, ◌++◌, Text, text_eq,
  text_eq_iff, text_eq-eq, codes, any, All, is_sha256, arith, if◌then◌else◌,
}
use ai_video_series_workflow.Provider.Contract.{modality_video, modality_audio}
use ai_video_series_workflow.Provider.Dispatch.{capability_modality}
use ai_video_series_workflow.Controlplane.Policy.{
  PolicyError, ModelRouteSnapshot, validate_sha256, validate_artifact, or_then, validate_uuid,
  validate_route, validate_video_route, validate_speech_route, unique_from, unique_uuids,
}

or_then-none : (a b : Option PolicyError) → or_then a b ≡ none → (a ≡ none) × (b ≡ none)
or_then-none none b h = (refl, h)
or_then-none (some e) b h = cc

or_then_join : (a b : Option PolicyError) → a ≡ none → b ≡ none → or_then a b ≡ none
or_then_join a b p q = rw p q

-- `validateArtifact` accepts a hash and a URI exactly when the hash is a SHA-256 in lowercase
-- hexadecimal and the URI is its address in the content-addressed store.
pub validate_artifact_iff :
    (hash uri : Text)
    → (validate_artifact hash uri ≡ none)
      ↔ ((is_sha256 hash ≡ true) × (uri ≡ codes "cas://sha256/" ++ hash))
unfolding validate_artifact validate_sha256
validate_artifact_iff hash uri = ground (arith, text_eq_iff uri (codes "cas://sha256/" ++ hash))

-- No two elements are the same text.
pub IsDistinct : List Text → Type 0
IsDistinct [] = Unit
IsDistinct (v ∷ vs) = All (λ w. w ≢ v) vs × IsDistinct vs

abbrev IsFresh : List Text → Text → Type 0
IsFresh seen v = any (text_eq v) seen ≡ false

video-modality :
    (a : Text) → text_eq a (codes "video.primary") ≡ true → capability_modality a ≡ modality_video
unfolding capability_modality text_eq
video-modality a e = rw (text_eq-eq a (codes "video.primary") e) refl

speech-modality :
    (a : Text) → text_eq a (codes "speech.primary") ≡ true → capability_modality a ≡ modality_audio
unfolding capability_modality text_eq
speech-modality a e = rw (text_eq-eq a (codes "speech.primary") e) refl

accepted : (b : Bool) (e : PolicyError) → (if b then none else some e) ≡ none → b ≡ true
accepted b e h = ground arith

module _ (parses : Text → Bool) where
  unfresh :
      (v : Text) (seen vs : List Text)
      → All (IsFresh (v ∷ seen)) vs
      → All (IsFresh seen) vs × All (λ w. w ≢ v) vs
  unfresh v seen [] h = (tt, tt)
  unfresh v seen (w ∷ ws) (h, hs) =
      let (a, b) = unfresh v seen ws hs in
      ((ground (arith, h), a), ((λ e. ground (arith, h, text_eq_iff w v)), b))

  fresh :
      (v : Text) (seen vs : List Text)
      → All (IsFresh seen) vs
      → All (λ w. w ≢ v) vs
      → All (IsFresh (v ∷ seen)) vs
  fresh v seen [] h k = tt
  fresh v seen (w ∷ ws) (h, hs) (k, ks) =
      (ground (arith, h, k, text_eq_iff w v), fresh v seen ws hs ks)

  uuid_iff : (name v : Text) → (validate_uuid parses name v ≡ none) ↔ (parses v ≡ true)
  unfolding validate_uuid
  uuid_iff name v = ground arith

  unique_from_iff :
      (name : Text) (seen vs : List Text)
      → (unique_from parses name seen vs ≡ none)
        ↔ (All (λ v. parses v ≡ true) vs × All (IsFresh seen) vs × IsDistinct vs)
  unfolding unique_from IsDistinct
  unique_from_iff name seen [] = (λ _. (tt, tt, tt), λ _. refl)
  unique_from_iff name seen (v ∷ vs) = (
    λ h.
        let (a, h1) = or_then-none (validate_uuid parses name v) _ h in
        let (b, h2) = or_then-none _ (unique_from parses name (v ∷ seen) vs) h1 in
        let (c, d, e) = (unique_from_iff name (v ∷ seen) vs).0 h2 in
        let (f, g) = unfresh v seen vs d in
        (((uuid_iff name v).0 a, c), (ground (arith, b), f), (g, e)),
    λ k.
        let ((a, c), (b, f), (g, e)) = k in
        or_then_join (validate_uuid parses name v) _ ((uuid_iff name v).1 a)
          (rw b ((unique_from_iff name (v ∷ seen) vs).1 (c, fresh v seen vs f g, e))),
  )

  none_seen : (vs : List Text) → All (IsFresh []) vs
  none_seen [] = tt
  none_seen (v ∷ vs) = (refl, none_seen vs)

  -- `uniqueUUIDs` accepts exactly the lists that are not empty, whose texts all parse as UUIDs, and
  -- no two of whose elements are the same text.
  pub unique_uuids_iff :
      (name : Text) (vs : List Text)
      → (unique_uuids parses name vs ≡ none)
        ↔ ((vs ≢ []) × All (λ v. parses v ≡ true) vs × IsDistinct vs)
  unfolding unique_uuids
  unique_uuids_iff name [] = (λ h. absurd cc, λ k. absurd (k.0 refl))
  unique_uuids_iff name (v ∷ vs) =
      let (forth, back) = unique_from_iff name [] (v ∷ vs) in
      (λ h. let (a, _, c) = forth h in ((λ e. cc), a, c), λ k. back (k.1, none_seen (v ∷ vs), k.2))

  route-parts :
      (r : ModelRouteSnapshot)
      → validate_route parses r ≡ none
      → (parses r.provider_profile_id ≡ true) × (is_sha256 r.capability_hash ≡ true)
  unfolding validate_route validate_uuid validate_sha256
  route-parts r h = (ground (arith, h), ground (arith, h))

  -- A route that `validateVideoRoute` accepts is of the capability whose modality is video; its profile is
  -- a UUID and its capability hash a SHA-256.
  pub validate_video_route-modality :
      (r : ModelRouteSnapshot)
      → validate_video_route parses r ≡ none
      → (capability_modality r.capability_alias ≡ modality_video)
        × (parses r.provider_profile_id ≡ true)
        × (is_sha256 r.capability_hash ≡ true)
  unfolding validate_video_route
  validate_video_route-modality r h =
      let (a, b) = or_then-none (validate_route parses r) _ h in
      let (c, d) = route-parts r a in
      (video-modality r.capability_alias (accepted (text_eq r.capability_alias _) _ b), c, d)

  -- A route that `validateSpeechRoute` accepts is of the capability whose modality is audio; its profile is
  -- a UUID and its capability hash a SHA-256.
  pub validate_speech_route-modality :
      (r : ModelRouteSnapshot)
      → validate_speech_route parses r ≡ none
      → (capability_modality r.capability_alias ≡ modality_audio)
        × (parses r.provider_profile_id ≡ true)
        × (is_sha256 r.capability_hash ≡ true)
  unfolding validate_speech_route
  validate_speech_route-modality r h =
      let (a, b) = or_then-none (validate_route parses r) _ h in
      let (c, d) = route-parts r a in
      (speech-modality r.capability_alias (accepted (text_eq r.capability_alias _) _ b), c, d)
