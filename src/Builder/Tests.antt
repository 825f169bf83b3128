-- ===== src/Builder/Tests.antt =====
-- Small list files read, built into an index and looked up.
use turkey_bite.Prelude.{◌≡◌, ◌↔◌, ◌⊎◌, refl, true, false, some, [], ◌∷◌, ◌++◌, nat_eq, list_eq}
use turkey_bite.Prelude.Members.{In}
use turkey_bite.Text.{Text, text}
use turkey_bite.Evidence.{medium}
use turkey_bite.Index.{File, read_claims}
use turkey_bite.Builder.{Conf, conf_source, source_of, local_source, build}
use turkey_bite.Builder.Collect.{ListFile, Configured, source_table, valid_host, collect_entries}
use turkey_bite.Builder.Collect.Listed.{Listed}
use turkey_bite.Builder.Ignore.{Ignorelist, index_entries}
use turkey_bite.Builder.Ignore.Corrected.{Corrected, index_entries-read_claims}
use turkey_bite.Json.{str, null}

abbrev public_conf : Conf
public_conf = record {
  categories = text "news" ∷ text "bad" ∷ [];
  publisher = text "pub";
  derived_from = [];
  trust = medium;
  subtree = false;
  is_local = false;
}

abbrev configured : Configured
configured = (text "p", public_conf) ∷ []

abbrev public_file : ListFile
public_file = record {
  directory = text "mixed";
  name = text "p";
  lines = text " WWW.acme.com" ∷ text "" ∷ text "no_host" ∷ [];
}

abbrev own_file : ListFile
own_file = record {
  directory = text "news";
  name = text "custom";
  lines = text "acme.com" ∷ text "*.gov" ∷ [];
}

abbrev ignored : Ignorelist
ignored = (text "bad", str (text "WWW.acme.com.") ∷ null ∷ []) ∷ []

abbrev some_file : File
some_file = record {
  names = text "com.acme.*" ∷ text "com.acme.www" ∷ text "gov.*" ∷ [];
  attr_index = 1 ∷ 0 ∷ 1 ∷ [];
  attr_table =
      ((conf_source (text "p") public_conf, text "news")
        ∷ (conf_source (text "p") public_conf, text "bad")
        ∷ (local_source (text "ignorelist"), text "!bad")
        ∷ [])
      ∷ ((local_source (text "custom"), text "news") ∷ [])
      ∷ [];
}

-- The `$` of VALID_HOST matches before one newline at the end.
newline_last :
    (valid_host (text "acme.com" ++ 10 ∷ []) ≡ true)
    × (valid_host (text "acme.com" ++ 10 ∷ 10 ∷ []) ≡ false)
    × (valid_host (text "acme" ++ 10 ∷ text ".com") ≡ false)
unfolding valid_host
newline_last = (refl, refl, refl)

indexed-build :
    build (source_table configured) (index_entries configured (public_file ∷ own_file ∷ []) ignored)
    ≡ some some_file
unfolding build index_entries source_table local_source
indexed-build = refl

one_line_skipped : (collect_entries configured (public_file ∷ own_file ∷ [])).1 ≡ 1
unfolding collect_entries
one_line_skipped = refl

index_entries-read_claims_example :
    In (local_source (text "ignorelist"), text "!bad") (read_claims some_file (text "www.acme.com"))
    ↔ ((name : Text) × (Listed configured
            (public_file ∷ own_file ∷ [])
            (text "www.acme.com")
            name
            (text "!bad")
          ⊎ Corrected ignored (text "www.acme.com") name (text "!bad"))
        × (local_source (text "ignorelist") ≡ source_of (source_table configured) name))
index_entries-read_claims_example =
    index_entries-read_claims configured (public_file ∷ own_file ∷ []) ignored some_file
      (text "www.acme.com") (local_source (text "ignorelist")) (text "!bad") indexed-build
