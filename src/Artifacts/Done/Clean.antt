-- ===== src/Artifacts/Done/Clean.antt =====
-- What a clean round of review rests on.
use mathlib.Core.Path.{subst}
use mathlib.Core.Option.{some-injective}
use vetinari.Prelude.{
  ◌≡◌, refl, ◌⊎◌, inl, inr, Bool, true, Text, text_eq, text_eq_eq, Option, none, some, List, [],
  ◌∷◌, length, find, ok, arith, Bool-cases,
}
use vetinari.Prelude.Strings.{lines}
use vetinari.Artifacts.{Formats}
use vetinari.Artifacts.Findings.Bounds.{filled, parse_findings_bounds}
use vetinari.Artifacts.Done.{
  VerifiedArtifact, DoneSentinel, artifact_file_name, findings_file, found_findings,
  findings_from_done,
}

-- The artifact is one of the list.
abbrev pub Among : VerifiedArtifact → List VerifiedArtifact → Type 0
Among a [] = ⊥
Among a (b ∷ bs) = (b ≡ a) ⊎ Among a bs

found-Among :
    (p : VerifiedArtifact → Bool) (as' : List VerifiedArtifact) (a : VerifiedArtifact)
    → find p as' ≡ some a
    → Among a as' × (p a ≡ true)
found-Among p [] a h = cc h
found-Among p (b ∷ bs) a h = elim (Bool-cases (p b)) [
  | inl yes' ↦
      let same = some-injective b a (rw yes' at h) in (inl same, subst (λ c. p c ≡ true) same yes')
  | inr no' ↦ let rest = found-Among p bs a (rw no' at h) in (inr rest.0, rest.1)
]

no_line : (ls : List Text) → 0 ≡ length ls → ls ≡ []
no_line [] h = refl
no_line (l ∷ ls) h = absurd (omega arith)

clean :
    {X : Type 0} (formats : Formats X) (done : DoneSentinel) (o : Option VerifiedArtifact)
    → find (λ a. text_eq (artifact_file_name a.path) findings_file) done.artifacts ≡ o
    → found_findings formats done o ≡ ok []
    → (a : VerifiedArtifact) × Among a done.artifacts
      × (artifact_file_name a.path ≡ findings_file)
      × (filled (lines (formats.from_utf8_lossy a.bytes)) ≡ [])
clean formats done none e h = cc h
clean formats done (some a) e h =
    let (among, named) = found-Among _ done.artifacts a e in
    let bounds = parse_findings_bounds formats a.path (formats.from_utf8_lossy a.bytes) [] h in
    (a, among, text_eq_eq _ _ named, no_line _ bounds.2)

-- A clean round is never read off a missing file: the findings of a DONE sentinel are none only if one
-- of the artifacts that it attests is named `findings.jsonl` and all lines of that file are blank.
pub clean_round_attested :
    {X : Type 0} (formats : Formats X) (done : DoneSentinel)
    → findings_from_done formats done ≡ ok []
    → (a : VerifiedArtifact) × Among a done.artifacts
      × (artifact_file_name a.path ≡ findings_file)
      × (filled (lines (formats.from_utf8_lossy a.bytes)) ≡ [])
unfolding findings_from_done
clean_round_attested formats done h = clean formats done _ refl h
