-- ===== src/Artifacts/Done/Attested.antt =====
-- What a verified DONE sentinel attests.
use vetinari.Prelude.{
  ◌≡◌, refl, sym, ap, true, Text, text_eq_refl, text_eq_eq, some, List, [], ◌∷◌, map, Result, ok,
  err, arith, Option-cases, inl, inr, ◌↔◌, ok-injective,
}
use mathlib.Core.Path.{subst}
use vetinari.Landing.Slug.{lower}
use vetinari.Artifacts.{
  Formats, DoneArtifact, RawDone, ExitStatus, ArtifactError, ReadError, not_found, other_read_error,
}
use vetinari.Artifacts.Done.{
  VerifiedArtifact, DoneSentinel, is_workspace_relative, join, verify_artifact, verify_artifacts,
  verify, done_path, push, with_status, verify_read,
}

module _ {X : Type 0} (formats : Formats X) (workspace : Text) (x : X) where
  -- The file is in the workspace, was read whole, and has the digest that the manifest declares.
  abbrev pub Attests : DoneArtifact → VerifiedArtifact → Type 0
  Attests a v =
      (v.path ≡ a.path)
      × (is_workspace_relative a.path ≡ true)
      × (formats.read_bytes (join workspace a.path) x ≡ some v.bytes)
      × (v.sha256 ≡ formats.sha256_hex v.bytes)
      × (v.sha256 ≡ map lower a.sha256)

  abbrev pub AttestsAll : List DoneArtifact → List VerifiedArtifact → Type 0
  AttestsAll [] [] = Unit
  AttestsAll [] (v ∷ vs) = ⊥
  AttestsAll (a ∷ as') [] = ⊥
  AttestsAll (a ∷ as') (v ∷ vs) = Attests a v × AttestsAll as' vs

  artifact-Attests :
      (a : DoneArtifact) (v : VerifiedArtifact)
      → verify_artifact formats workspace a x ≡ ok v
      → Attests a v
  unfolding verify_artifact
  artifact-Attests a v h =
      ground (arith, h, text_eq_eq (formats.sha256_hex v.bytes) (map lower a.sha256))

  Attests-artifact :
      (a : DoneArtifact) (v : VerifiedArtifact)
      → Attests a v
      → verify_artifact formats workspace a x ≡ ok v
  unfolding verify_artifact
  Attests-artifact a v h = ground (arith, h, text_eq_refl (map lower a.sha256))

  both :
      (a : DoneArtifact) (as' : List DoneArtifact) (vs : List VerifiedArtifact)
      (first : Result ArtifactError VerifiedArtifact)
      (rest : Result ArtifactError (List VerifiedArtifact))
      → ((v : VerifiedArtifact) → first ≡ ok v → Attests a v)
      → ((ws : List VerifiedArtifact) → rest ≡ ok ws → AttestsAll as' ws)
      → push formats workspace first rest ≡ ok vs
      → AttestsAll (a ∷ as') vs
  both a as' vs (err e) rest f r h = cc h
  both a as' vs (ok v) (err e) f r h = cc h
  both a as' vs (ok v) (ok ws) f r h =
      subst (λ us. AttestsAll (a ∷ as') us) (ok-injective h) (f v refl, r ws refl)

  artifacts-AttestsAll :
      (as' : List DoneArtifact) (vs : List VerifiedArtifact)
      → verify_artifacts formats workspace as' x ≡ ok vs
      → AttestsAll as' vs
  unfolding verify_artifacts
  artifacts-AttestsAll [] [] h = tt
  artifacts-AttestsAll [] (v ∷ vs) h = cc h
  artifacts-AttestsAll (a ∷ as') vs h =
      both a as' vs (verify_artifact formats workspace a x)
        (verify_artifacts formats workspace as' x) (artifact-Attests a) (artifacts-AttestsAll as') h

  AttestsAll-artifacts :
      (as' : List DoneArtifact) (vs : List VerifiedArtifact)
      → AttestsAll as' vs
      → verify_artifacts formats workspace as' x ≡ ok vs
  unfolding verify_artifacts
  AttestsAll-artifacts [] [] h = refl
  AttestsAll-artifacts [] (v ∷ vs) h = absurd h
  AttestsAll-artifacts (a ∷ as') [] h = absurd h
  AttestsAll-artifacts (a ∷ as') (v ∷ vs) h =
      rw (Attests-artifact a v h.0, AttestsAll-artifacts as' vs h.1) refl

  with_read :
      (done : DoneSentinel) (r : Result ReadError Text)
      → verify_read formats workspace r x ≡ ok done
      → (content : Text) × (raw : RawDone) × (r ≡ ok content)
        × (formats.done_from_json content ≡ some raw)
        × (with_status formats workspace raw.exit_status
              (verify_artifacts formats workspace raw.artifacts x)
            ≡ ok done)
  with_read done (err not_found) h = cc h
  with_read done (err other_read_error) h = cc h
  with_read done (ok content) h = elim (Option-cases (formats.done_from_json content)) [
    | inl bad ↦ cc (rw bad at h)
    | inr (raw, good) ↦ (content, raw, refl, good, rw good at h)
  ]

  with_artifacts :
      (done : DoneSentinel) (status : ExitStatus) (r : Result ArtifactError (List VerifiedArtifact))
      → with_status formats workspace status r ≡ ok done
      → (done.exit_status ≡ status) × (r ≡ ok done.artifacts)
  with_artifacts done status (err e) h = cc h
  with_artifacts done status (ok vs) h =
      let same = ok-injective h in
      (
        ap (λ (d : DoneSentinel). d.exit_status) (sym same),
        ap (λ (d : DoneSentinel). ok d.artifacts) same,
      )

  -- A DONE sentinel verifies as `done` exactly when it reads and parses as a manifest whose exit status
  -- is that of `done` and whose artifacts are those of `done`, one for one and in order: each has a
  -- relative path that does not climb out of the workspace (symbolic links are not looked at), its
  -- bytes are what the file holds, and its digest is the one of those bytes and,
  -- in lower case, the one declared.
  pub verify-Attests :
      (done : DoneSentinel)
      → (verify formats workspace x ≡ ok done) ↔ (
          (content : Text) × (raw : RawDone) × (formats.read_to_string
              (done_path formats workspace)
              x
            ≡ ok content)
          × (formats.done_from_json content ≡ some raw)
          × (done.exit_status ≡ raw.exit_status)
          × AttestsAll raw.artifacts done.artifacts)
  unfolding verify
  verify-Attests done = (
    (λ h.
        let (content, raw, read, parsed, made) =
          with_read done (formats.read_to_string (done_path formats workspace) x) h in
        let (status, attested) = with_artifacts done raw.exit_status _ made in
        (
          content,
          raw,
          read,
          parsed,
          status,
          artifacts-AttestsAll raw.artifacts done.artifacts attested,
        )),
    (λ h.
        let (content, raw, read, parsed, status, attested) = h in
        rw read (
          rw parsed (
            rw (AttestsAll-artifacts raw.artifacts done.artifacts attested) (
              ap (λ s. ok (record { exit_status = s; artifacts = done.artifacts }))
                (sym status))))),
  )
