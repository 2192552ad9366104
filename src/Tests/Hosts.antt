-- ===== src/Tests/Hosts.antt =====
-- The host patterns and the evidence, at concrete inputs.
use bot_marshal.Prelude.{
  Text, true, List, [], ◌∷◌, ◌++◌, ◌≡◌, refl, ◌↔◌, lit, is_some, arith, eq_ignore_ascii_case,
  is_space, text_eq, lower, to_ascii_lowercase,
}
use bot_marshal.Core.Evidence.{Evidence}
use bot_marshal.Core.Json.{null, bool}
use bot_marshal.Core.Hosts.{matches, normalise}
use bot_marshal.Core.Hosts.Matching.{Covers, matches_iff}
use bot_marshal.Core.Hosts.Normal.{dots, matches_spelling}
use bot_marshal.Tests.Data.{test_net, hosts}

matches_iff_example :
    (is_some (matches test_net hosts (lit "X.c.d.")) ≡ true)
    ↔ Covers test_net hosts (normalise (lit "X.c.d."))
matches_iff_example = matches_iff test_net hosts (lit "X.c.d.")

matches_spelling_example :
    matches test_net hosts (lit "A.b" ++ dots 2) ≡ matches test_net hosts (lit "a.B")
unfolding is_space eq_ignore_ascii_case lit text_eq to_ascii_lowercase lower
matches_spelling_example =
    matches_spelling test_net hosts (lit "A.b") (lit "a.B") 2
      ((refl, omega arith), ((refl, omega arith), ((refl, omega arith), tt))) refl

abbrev written : List Text
written = lit "A.b." ∷ lit "*.c.d" ∷ []

abbrev seen : Evidence
seen = record { facts = (lit "k", null) ∷ []; flags = lit "f" ∷ []; trail = [] }

abbrev added : Evidence
added = record {
  facts = (lit "j", null) ∷ (lit "k", (bool true)) ∷ [];
  flags = lit "g" ∷ [];
  trail = [];
}
