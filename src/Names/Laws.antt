-- ===== src/Names/Laws.antt =====
-- `parse` is a left inverse of the rendering.
use mathlib.Core.Option.{some-injective}
use vetinari.Prelude.{
  ℕ, ◌≡◌, refl, sym, ap, ◌∙◌, Text, codes, text_eq_eq, strip_prefix, Option, none, some, [], ◌∷◌,
  ◌++◌, ◌==◌, ==_iff, if◌then◌else◌, arith, Bool-cases, Option-cases, inl, inr, length, all, ◌&&◌,
}
use vetinari.Prelude.Int.{show_nat}
use vetinari.State.Enums.{Phase, phase_enum, as_str}
use vetinari.State.Enums.Laws.{enums_round_trip}
use vetinari.Landing.Slug.{dash}
use vetinari.Names.{
  WorkspaceName, rendered, rsplit_once, match_phase_from, match_phase, round_of, canonical,
  parsed_digits, with_phase, with_round, with_head, with_uuid, parse, is_lower_hex, short_uuid_len,
}

abbrev halves : Text → Text → Option (Text × Text)
halves h t = some (h, t)

split_here :
    (c : ℕ) (cs h t : Text)
    → (if c == dash then halves [] cs else none) ≡ halves h t
    → c ∷ cs ≡ h ++ dash ∷ t
split_here c cs h t e = elim (Bool-cases (c == dash)) [
  | inl d ↦
      ap (λ x. x ∷ cs) ((==_iff c dash).0 d)
      ∙ ap (λ q. q.0 ++ dash ∷ q.1) (some-injective ([], cs) (h, t) (rw d at e))
  | inr d ↦ cc (rw d at e)
]

split_later :
    (c : ℕ) (cs h' t' h t : Text)
    → cs ≡ h' ++ dash ∷ t'
    → halves (c ∷ h') t' ≡ halves h t
    → c ∷ cs ≡ h ++ dash ∷ t
split_later c cs h' t' h t later e =
    let p = some-injective (c ∷ h', t') (h, t) e in
    ap (λ s. c ∷ s) later ∙ ap (λ q. q.0 ++ dash ∷ q.1) p

rsplit_once-append : (s h t : Text) → rsplit_once s ≡ some (h, t) → s ≡ h ++ dash ∷ t
unfolding rsplit_once
rsplit_once-append [] h t e = cc
rsplit_once-append (c ∷ cs) h t e = elim (Option-cases (rsplit_once cs)) [
  | inl n ↦ split_here c cs h t (rw n at e)
  | inr ((h', t'), n) ↦ split_later c cs h' t' h t (rsplit_once-append cs h' t' n) (rw n at e)
]

append_assoc : (a b c : Text) → (a ++ b) ++ c ≡ a ++ (b ++ c)
append_assoc [] b c = refl
append_assoc (x ∷ a) b c = ap (λ s. x ∷ s) (append_assoc a b c)

match_phase_from-append :
    (before s issue : Text) (p : Phase)
    → match_phase_from before s ≡ some (p, issue)
    → before ++ s ≡ as_str p ++ dash ∷ issue
unfolding match_phase_from
match_phase_from-append before [] issue p e = cc
match_phase_from-append before (c ∷ cs) issue p e = ground (
  arith,
  ==_iff c dash,
  append_assoc before (c ∷ []) cs,
  match_phase_from-append (before ++ c ∷ []) cs issue p,
  (enums_round_trip.0 before p).0,
)

canonical-eq :
    (tok : Text) (o : Option ℕ) (round : ℕ)
    → canonical tok o ≡ some round
    → tok ≡ b'r' ∷ show_nat round
unfolding canonical
canonical-eq tok none round e = cc
canonical-eq tok (some n) round e = ground (arith, text_eq_eq tok (b'r' ∷ show_nat n))

round_of-eq : (tok : Text) (round : ℕ) → round_of tok ≡ some round → tok ≡ b'r' ∷ show_nat round
unfolding round_of canonical
round_of-eq tok round e = canonical-eq tok (parsed_digits (strip_prefix (codes "r") tok)) round e

-- The name that the pieces give, and its rendering.
abbrev name_of : Phase → Text → ℕ → Text → WorkspaceName
name_of phase issue round uuid = record { phase = phase; issue = issue; round = round; uuid = uuid }

with_phase-eq :
    (uuid head : Text) (o : Option (Phase × Text)) (round : ℕ) (n : WorkspaceName)
    → ((p : Phase) (issue : Text) → o ≡ some (p, issue) → head ≡ as_str p ++ dash ∷ issue)
    → with_phase round uuid o ≡ some n
    → head ++ dash ∷ (b'r' ∷ show_nat round ++ dash ∷ uuid) ≡ rendered n
unfolding with_phase rendered
with_phase-eq uuid head none round n found e = cc
with_phase-eq uuid head (some (p, [])) round n found e = cc
with_phase-eq uuid head (some (p, c ∷ issue)) round n found e =
    ap (λ s. s ++ dash ∷ (b'r' ∷ show_nat round ++ dash ∷ uuid)) (found p (c ∷ issue) refl)
    ∙ append_assoc (as_str p) (dash ∷ c ∷ issue) (dash ∷ (b'r' ∷ show_nat round ++ dash ∷ uuid))
    ∙ ap rendered (some-injective (name_of p (c ∷ issue) round uuid) n e)

with_round-eq :
    (head uuid tok : Text) (o : Option ℕ) (n : WorkspaceName)
    → ((round : ℕ) → o ≡ some round → tok ≡ b'r' ∷ show_nat round)
    → with_round head uuid o ≡ some n
    → head ++ dash ∷ (tok ++ dash ∷ uuid) ≡ rendered n
unfolding with_round match_phase
with_round-eq head uuid tok none n found e = cc
with_round-eq head uuid tok (some round) n found e =
    ap (λ t. head ++ dash ∷ (t ++ dash ∷ uuid)) (found round refl)
    ∙ with_phase-eq uuid head (match_phase head) round n
        (λ p issue h. match_phase_from-append [] head issue p h) e

with_head-eq :
    (head uuid : Text) (o : Option (Text × Text)) (n : WorkspaceName)
    → ((h t : Text) → o ≡ some (h, t) → head ≡ h ++ dash ∷ t)
    → with_head uuid o ≡ some n
    → head ++ dash ∷ uuid ≡ rendered n
unfolding with_head
with_head-eq head uuid none n found e = cc
with_head-eq head uuid (some (h, tok)) n found e =
    ap (λ s. s ++ dash ∷ uuid) (found h tok refl)
    ∙ append_assoc h (dash ∷ tok) (dash ∷ uuid)
    ∙ with_round-eq h uuid tok (round_of tok) n (λ round r. round_of-eq tok round r) e

with_uuid-eq :
    (s : Text) (o : Option (Text × Text)) (n : WorkspaceName)
    → ((h t : Text) → o ≡ some (h, t) → s ≡ h ++ dash ∷ t)
    → with_uuid o ≡ some n
    → s ≡ rendered n
unfolding with_uuid
with_uuid-eq s none n found e = cc
with_uuid-eq s (some (head, uuid)) n found e =
    elim (Bool-cases (length uuid == short_uuid_len && all is_lower_hex uuid)) [
      | inl b ↦
          found head uuid refl
          ∙ with_head-eq head uuid (rsplit_once head) n (λ h t r. rsplit_once-append head h t r)
              (rw b at e)
      | inr b ↦ cc (rw b at e)
    ]

-- A text that parses as a workspace name is what that name renders to: the directory that recovery
-- derives from a parsed name is the one whose name it read.
pub parse-rendered : (s : Text) (n : WorkspaceName) → parse s ≡ some n → rendered n ≡ s
unfolding parse
parse-rendered s n e =
    sym (with_uuid-eq s (rsplit_once s) n (λ h t r. rsplit_once-append s h t r) e)
