-- ===== src/State/Enums/Laws.antt =====
-- The tokens of the enums of state.rs and their parsing.
use vetinari.Prelude.{
  ◌≡◌, refl, ◌↔◌, List, [], ◌∷◌, some, Text, arith, find, text_eq, text_eq_eq, Bool-cases, inl, inr,
}
use vetinari.State.Enums.{
  StrEnum, from_db_str, Phase, phase_enum, PhaseSubstate, substate_enum, WorkerRole, role_enum,
  EventKind, event_enum, ConvergenceMode, convergence_enum, graphed, qa_running, implementer, spawn,
  n_rounds,
}

-- What the search for a token finds has that token.
find-token :
    {A : Type 0} (t : A → Text) (s : Text) (vs : List A) (a : A)
    → find (λ v. text_eq s (t v)) vs ≡ some a
    → s ≡ t a
find-token t s [] a h = cc
find-token t s (v ∷ vs) a h = elim (Bool-cases (text_eq s (t v))) [
  | inl e ↦ ground (arith, text_eq_eq s (t v))
  | inr e ↦ find-token t s vs a (rw e at h)
]

-- A column value is read back as a variant exactly if it is that variant's token.
abbrev pub IsFaithful : {A : Type 0} → StrEnum A → Type 0
IsFaithful {A} e = (s : Text) (a : A) → (from_db_str ⦃e = e⦄ s ≡ some a) ↔ (s ≡ e.as_str a)

IsFaithful-tokens :
    {A : Type 0} (e : StrEnum A)
    → ((a : A) → from_db_str ⦃e = e⦄ (e.as_str a) ≡ some a)
    → IsFaithful e
unfolding from_db_str
IsFaithful-tokens e h s a = (find-token e.as_str s e.variants a, λ p. rw p (h a))

phase_tokens : (a : Phase) → from_db_str (phase_enum.as_str a) ≡ some a
unfolding from_db_str text_eq
phase_tokens graphed = refl
phase_tokens _ = refl

substate_tokens : (a : PhaseSubstate) → from_db_str (substate_enum.as_str a) ≡ some a
unfolding from_db_str text_eq
substate_tokens qa_running = refl
substate_tokens _ = refl

role_tokens : (a : WorkerRole) → from_db_str (role_enum.as_str a) ≡ some a
unfolding from_db_str text_eq
role_tokens implementer = refl
role_tokens _ = refl

event_tokens : (a : EventKind) → from_db_str (event_enum.as_str a) ≡ some a
unfolding from_db_str text_eq
event_tokens spawn = refl
event_tokens _ = refl

mode_tokens : (a : ConvergenceMode) → from_db_str (convergence_enum.as_str a) ≡ some a
unfolding from_db_str text_eq
mode_tokens n_rounds = refl
mode_tokens _ = refl

-- For each of the five string-backed enums, `from_db_str` returns a variant exactly on the text
-- that `as_str` gives for it: printing and parsing are inverse, no two variants share a token, and
-- any other text is rejected.
pub enums_round_trip :
    IsFaithful phase_enum
    × IsFaithful substate_enum
    × IsFaithful role_enum
    × IsFaithful event_enum
    × IsFaithful convergence_enum
enums_round_trip = (
  IsFaithful-tokens phase_enum phase_tokens,
  IsFaithful-tokens substate_enum substate_tokens,
  IsFaithful-tokens role_enum role_tokens,
  IsFaithful-tokens event_enum event_tokens,
  IsFaithful-tokens convergence_enum mode_tokens,
)
