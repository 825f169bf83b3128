-- ===== src/Taxonomy/Tests.antt =====
-- Runs of `classify`, and the theorem at one.
use turkey_bite.Prelude.{◌≤◌, ◌≡◌, refl, true, some, List, [], ◌∷◌, nat_eq, list_eq, elem}
use turkey_bite.Text.{text}
use turkey_bite.Json.{Json, null, str}
use turkey_bite.Taxonomy.{Severity, slight, severity_of, classify}
use turkey_bite.Taxonomy.Severities.{level, classify-severity_of}

-- One of them is no string.
abbrev two_contexts : List Json
two_contexts = str (text "Torrent") ∷ null ∷ str (text "malware ") ∷ str (text "unknown") ∷ []

piracy_found : elem (text "policy.piracy") (classify two_contexts).risks ≡ true
unfolding classify
piracy_found = refl

piracy_slight : severity_of (text "policy.piracy") ≡ some slight
unfolding severity_of
piracy_slight = refl

classify-severity_of_example :
    (t : Severity) × ((classify two_contexts).risk_severity ≡ some t) × (level slight ≤ level t)
classify-severity_of_example =
    classify-severity_of two_contexts (text "policy.piracy") slight piracy_found piracy_slight
