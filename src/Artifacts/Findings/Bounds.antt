-- ===== src/Artifacts/Findings/Bounds.antt =====
-- How much a findings file may hold, and that no line of it is passed over but the blank ones.
use mathlib.Core.Path.{subst}
use vetinari.Prelude.{
  ℕ, suc, ◌+◌, ◌*◌, ◌≤◌, ◌≡◌, refl, not, ltb, leb, Text, List, [], ◌∷◌, length, select, Result, ok,
  err, arith, Bool-cases, inl, inr, ok-injective,
}
use vetinari.Prelude.Strings.{lines, is_blank, byte_len}
use vetinari.Artifacts.{Formats, ArtifactError}
use vetinari.Artifacts.Findings.{
  Finding, findings_max, findings_artifact_max_bytes, parse_line, parse_lines, parse_findings, push,
}

abbrev pub filled : List Text → List Text
filled ls = select (λ l. not (is_blank l)) ls

module _ {X : Type 0} (formats : Formats X) (path : Text) where
  -- As many findings as lines that are not blank, and no more than the bound
  abbrev Fits : ℕ → List Text → List Finding → Type 0
  Fits found ls fs = (length fs ≡ length (filled ls)) × (found + length fs ≤ findings_max)

  pushed :
      (found : ℕ) (ls : List Text) (first : Result ArtifactError Finding)
      (rest : Result ArtifactError (List Finding)) (fs : List Finding)
      → ((gs : List Finding) → rest ≡ ok gs → Fits (suc found) ls gs)
      → push formats path first rest ≡ ok fs
      → (length fs ≡ suc (length (filled ls))) × (found + length fs ≤ findings_max)
  pushed found ls (err e) rest fs r h = cc h
  pushed found ls (ok f) (err e) fs r h = cc h
  pushed found ls (ok f) (ok gs) fs r h =
      let fits = r gs refl in
      subst
        (λ (us : List Finding).
          (length us ≡ suc (length (filled ls))) × (found + length us ≤ findings_max))
        (ok-injective h) (omega arith, omega arith)

  lines-Fits :
      (n found : ℕ) (ls : List Text) (fs : List Finding)
      → found ≤ findings_max
      → parse_lines formats path n found ls ≡ ok fs
      → Fits found ls fs
  unfolding parse_lines
  lines-Fits n found [] fs bound h =
      subst (λ us. Fits found [] us) (ok-injective h) (refl, omega arith)
  lines-Fits n found (l ∷ ls) fs bound h = elim (Bool-cases (is_blank l)) [
    | inl blank ↦ rw blank (lines-Fits (suc n) found ls fs bound (rw blank at h))
    | inr full ↦ elim (Bool-cases (leb findings_max found)) [
      | inl over ↦ cc (rw (full, over) at h)
      | inr room ↦ rw full (
          pushed found ls (parse_line formats path n l) _ fs
            (λ gs e. lines-Fits (suc n) (suc found) ls gs (ground arith) e) (rw (full, room) at h))
    ]
  ]

  -- A findings file that parses is at most a mebibyte long and holds at most 256 findings, one for each
  -- of its lines that is not blank: no line is skipped. So a file without findings has blank lines only.
  pub parse_findings_bounds :
      (content : Text) (fs : List Finding)
      → parse_findings formats path content ≡ ok fs
      → (byte_len content ≤ 1024 * 1024)
        × (length fs ≤ 256)
        × (length fs ≡ length (filled (lines content)))
  unfolding parse_findings
  parse_findings_bounds content fs h =
      elim (Bool-cases (ltb findings_artifact_max_bytes (byte_len content))) [
        | inl over ↦ cc (rw over at h)
        | inr within ↦
            let fits = lines-Fits 1 0 (lines content) fs (omega arith) (rw within at h) in
            (ground (arith, within), omega arith, fits.0)
      ]
