-- ===== src/Spawn/Shell/Words.antt =====
-- What a POSIX shell reads from a joined command: the words that were joined, and nothing else.
use vetinari.Prelude.{
  ℕ, any, codes, Bool, not, Text, Option, none, some, List, [], ◌∷◌, ◌++◌, ◌==◌, if◌then◌else◌,
}
use vetinari.Spawn.Shell.{quote, backslash, space}

-- The reader stands between words, in a word, in single quotes, or behind a backslash.
pub data Mode : Type 0 where
  between : Mode
  word quoted behind : Text → Mode

abbrev cons_word : Text → Option (List Text) → Option (List Text)
cons_word w none = none
cons_word w (some ws) = some (w ∷ ws)

abbrev begun : Mode → Text
begun between = []
begun (word w) = w
begun (quoted w) = w
begun (behind w) = w

abbrev line_feed : ℕ
line_feed = 10

-- What a shell acts on outside of quotes, besides the space, the quote and the backslash: operators,
-- expansions, patterns, comments, and the other white space. An `=` is read as itself, so a word before
-- the command's name that a shell would take for an assignment is a word here.
abbrev acted_on : Text
acted_on = 9 ∷ line_feed ∷ 13 ∷ codes "|&;<>()$`" ++ 34 ∷ codes "*?[]#~%!{}^"

is_plain : ℕ → Bool
is_plain c = not (any (λ d. c == d) acted_on)

-- There is no reading of a text with a character outside of quotes that the shell acts on, nor of a
-- line continuation.
pub read_words : Mode → Text → Option (List Text)
unfolding is_plain
read_words between [] = some []
read_words (word w) [] = some (w ∷ [])
read_words (quoted w) [] = none
read_words (behind w) [] = none
read_words between (c ∷ cs) =
    let more = read_words between cs in
    let in_quote = read_words (quoted []) cs in
    let in_escape = read_words (behind []) cs in
    let in_word = read_words (word (c ∷ [])) cs in
    if c == space
    then more
    else if c == quote
    then in_quote
    else if c == backslash
    then in_escape
    else if is_plain c
    then in_word
    else none
read_words (word w) (c ∷ cs) =
    let more = cons_word w (read_words between cs) in
    let in_quote = read_words (quoted w) cs in
    let in_escape = read_words (behind w) cs in
    let in_word = read_words (word (w ++ c ∷ [])) cs in
    if c == space
    then more
    else if c == quote
    then in_quote
    else if c == backslash
    then in_escape
    else if is_plain c
    then in_word
    else none
read_words (quoted w) (c ∷ cs) =
    let out = read_words (word w) cs in
    let more = read_words (quoted (w ++ c ∷ [])) cs in if c == quote then out else more
read_words (behind w) (c ∷ cs) =
    let more = read_words (word (w ++ c ∷ [])) cs in if c == line_feed then none else more
