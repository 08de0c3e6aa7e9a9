-- ===== src/Spawn/Shell.antt =====
-- `shell_quote` and `shell_join` of crates/orchestrator/src/spawn.rs.
pub mod Words
use vetinari.Prelude.{
  ℕ, Bool, true, false, not, ◌&&◌, ◌||◌, Text, codes, List, [], ◌∷◌, ◌++◌, all, any, leb, ◌==◌,
  if◌then◌else◌,
}

abbrev pub quote : ℕ
quote = 39

abbrev pub backslash : ℕ
backslash = 92

abbrev pub space : ℕ
space = 32

unfoldable pub is_safe : ℕ → Bool
is_safe c =
    leb b'a' c && leb c b'z'
    || (leb b'A' c && leb c b'Z'
        || (leb b'0' c && leb c b'9' || any (λ d. c == d) (codes "-_./:=,+@")))

-- `s.replace('\'', r"'\''")`
unfoldable pub escaped : Text → Text
escaped [] = []
escaped (c ∷ cs) =
    let rest = escaped cs in
    if c == quote then quote ∷ backslash ∷ quote ∷ quote ∷ rest else c ∷ rest

abbrev pub in_quotes : Text → Text
in_quotes s = quote ∷ (escaped s ++ quote ∷ [])

unfoldable pub shell_quote : Text → Text
shell_quote [] = in_quotes []
shell_quote (c ∷ cs) = if all is_safe (c ∷ cs) then c ∷ cs else in_quotes (c ∷ cs)

unfoldable pub shell_join : List Text → Text
shell_join [] = []
shell_join (a ∷ []) = shell_quote a
shell_join (a ∷ b ∷ rest) = shell_quote a ++ space ∷ shell_join (b ∷ rest)
