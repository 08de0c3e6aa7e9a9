-- ===== src/Names/Tests.antt =====
-- Names of workspaces, read back and refused.
use vetinari.Prelude.{◌≡◌, refl, codes, text_eq, strip_prefix, some, none}
use vetinari.Prelude.Int.{parse_u32, show_nat}
use vetinari.State.Enums.{qa_gate, from_db_str}
use vetinari.Names.{
  WorkspaceName, parse, rendered, rsplit_once, match_phase, match_phase_from, round_of,
}
use vetinari.Names.Laws.{parse-rendered}

abbrev a_name : WorkspaceName
a_name = record { phase = qa_gate; issue = codes "l3"; round = 12; uuid = codes "0123abcd" }

a_parse : parse (codes "qa-gate-l3-r12-0123abcd") ≡ some a_name
unfolding parse rsplit_once match_phase match_phase_from round_of parse_u32 show_nat from_db_str
    text_eq strip_prefix
a_parse = refl

a_padded_round : parse (codes "qa-gate-l3-r012-0123abcd") ≡ none
unfolding parse rsplit_once match_phase match_phase_from round_of parse_u32 show_nat from_db_str
    text_eq strip_prefix
a_padded_round = refl

parse-rendered_example : rendered a_name ≡ codes "qa-gate-l3-r12-0123abcd"
parse-rendered_example = parse-rendered (codes "qa-gate-l3-r12-0123abcd") a_name a_parse
