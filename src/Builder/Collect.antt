-- ===== src/Builder/Collect.antt =====
-- `collect_entries` of src/libtb/index/builder.py, which reads the cleaned list files into the
-- entries that `build` takes. The files are given with their directories, names and lines;
-- `configured` is what `load_sources` answers.
pub mod Adding
pub mod Listed
use turkey_bite.Prelude.{
  ℕ, ◌+◌, Bool, true, false, ◌&&◌, ◌||◌, not, List, [], ◌∷◌, ◌++◌, map, all, leb, if◌then◌else◌,
  ◌==◌, nat_eq, list_eq, elem,
}
use turkey_bite.Text.{Text, text, split, strip, lower}
use turkey_bite.Index.{subtree_key}
use turkey_bite.Builder.{Said, Entries, Conf, unconfigured, conf_source, Sources}

-- One list file.
pub record ListFile : Type 0 where
  pub directory : Text
  pub name : Text
  pub lines : List Text

-- What `load_sources` answers: settings by file name.
abbrev pub Configured : Type 0
Configured = List (Text × Conf)

unfoldable pub source_table : Configured → Sources
source_table configured = map (λ (name, conf). (name, conf_source name conf)) configured

abbrev pub is_alnum : ℕ → Bool
is_alnum c = (leb b'a' c && leb c b'z') || (leb b'0' c && leb c b'9')

abbrev ends_alnum : ℕ → Text → Bool
ends_alnum c [] = is_alnum c
ends_alnum c (d ∷ s) = ends_alnum d s

-- LABEL
abbrev pub is_host_label : Text → Bool
is_host_label [] = false
is_host_label (c ∷ s) = is_alnum c && all (λ d. is_alnum d || d == b'-') s && ends_alnum c s

abbrev valid_parts : List Text → Bool
valid_parts (p ∷ q ∷ parts) = (p == text "*" || is_host_label p) && all is_host_label (q ∷ parts)
valid_parts _ = false

-- A text without one newline at its end: the `$` of VALID_HOST also matches before that one.
abbrev pub before_newline : Text → Text
before_newline [] = []
before_newline (c ∷ s) =
    let rest = before_newline s in if s == [] && c == b'\n' then [] else c ∷ rest

-- VALID_HOST.match
unfoldable pub valid_host : Text → Bool
unfolding split
valid_host host = valid_parts (split b'.' (before_newline host))

-- old.update(names), on sets
abbrev pub add_all : List Text → List Text → List Text
add_all old [] = old
add_all old (c ∷ names) = add_all (if elem c old then old else old ++ c ∷ []) names

-- said.setdefault(name, set()).update(categories)
abbrev pub add_said : Text → List Text → Said → Said
add_said name categories [] = (name, add_all [] categories) ∷ []
add_said name categories ((n, old) ∷ said) =
    let later = (n, old) ∷ add_said name categories said in
    if n == name then (n, add_all old categories) ∷ said else later

-- entries.setdefault(key, {}).setdefault(name, set()).update(categories)
unfoldable pub add_entry : Text → Text → List Text → Entries → Entries
add_entry key name categories [] = (key, add_said name categories []) ∷ []
add_entry key name categories ((k, said) ∷ entries) =
    let later = (k, said) ∷ add_entry key name categories entries in
    if k == key then (k, add_said name categories said) ∷ entries else later

-- configured.get(name) or unconfigured(name)
unfoldable pub conf_of : Configured → Text → Conf
unfolding unconfigured
conf_of [] name = unconfigured name
conf_of ((n, conf) ∷ configured) name =
    let later = conf_of configured name in if n == name then conf else later

abbrev pub or_directory : List Text → Text → List Text
or_directory [] directory = directory ∷ []
or_directory (c ∷ categories) directory = c ∷ categories

abbrev pub categories_of : Configured → ListFile → List Text
categories_of configured f = or_directory (conf_of configured f.name).categories f.directory

-- The key that a line is entered under.
abbrev pub key_of : Bool → Text → Text
key_of whole_domains domain = if whole_domains then subtree_key domain else domain

-- line.strip().lower()
abbrev pub domain_of : Text → Text
domain_of line = lower (strip line)

-- The loop over the lines of a file, with the entries and the count of the lines skipped.
unfoldable pub collect_lines : Bool → Text → List Text → List Text → Entries × ℕ → Entries × ℕ
unfolding valid_host add_entry subtree_key lower strip
collect_lines whole_domains name categories [] acc = acc
collect_lines whole_domains name categories (line ∷ lines) (entries, skipped) =
    let domain = domain_of line in
    collect_lines whole_domains name categories lines (
      if domain == []
      then (entries, skipped)
      else if not (valid_host domain)
      then (entries, skipped + 1)
      else (add_entry (key_of whole_domains domain) name categories entries, skipped))

abbrev pub collect_file : Configured → ListFile → Entries × ℕ → Entries × ℕ
collect_file configured f acc =
    collect_lines (conf_of configured f.name).subtree f.name (categories_of configured f) f.lines
      acc

-- The entries, and how many lines were skipped
unfoldable pub collect_from : Configured → List ListFile → Entries × ℕ → Entries × ℕ
unfolding collect_lines conf_of
collect_from configured [] acc = acc
collect_from configured (f ∷ files) acc =
    collect_from configured files (collect_file configured f acc)

unfoldable pub collect_entries : Configured → List ListFile → Entries × ℕ
unfolding collect_from
collect_entries configured files = collect_from configured files ([], 0)
