-- ===== src/Builder/Ignore.antt =====
-- `apply_ignorelist` of src/libtb/index/builder.py, which records hand made corrections as claims,
-- and the entries that the librarian builds from, in src/libtb/util/__init__.py.
pub mod Corrected
use turkey_bite.Prelude.{
  ℕ, ◌+◌, Bool, true, false, ◌&&◌, ◌||◌, not, List, [], ◌∷◌, ◌++◌, reverse, any, if◌then◌else◌,
  ◌==◌, nat_eq, list_eq, elem,
}
use turkey_bite.Text.{Text, strip, lower, drop_while}
use turkey_bite.Json.{Json, str}
use turkey_bite.Evidence.{negation}
use turkey_bite.Builder.{Said, Entries, ignorelist_source}
use turkey_bite.Builder.Collect.{ListFile, Configured, valid_host, add_entry, collect_entries}

-- The items of lists/ignorelist.json: a category and its hosts.
abbrev pub Ignorelist : Type 0
Ignorelist = List (Text × List Json)

-- s.rstrip('.')
abbrev pub rstrip_dots : Text → Text
rstrip_dots s = reverse (drop_while (λ c. c == b'.') (reverse s))

-- The key of a host in the list; empty for what is no text.
abbrev pub ignored_key : Json → Text
ignored_key (str s) = rstrip_dots (lower (strip s))
ignored_key _ = []

abbrev said_has : Text → Text → Said → Bool
said_has name category said = any (λ (n, categories). n == name && elem category categories) said

-- Whether the entries have a category of a list for a key
abbrev pub entries_have : Text → Text → Text → Entries → Bool
entries_have key name category entries =
    any (λ (k, said). k == key && said_has name category said) entries

-- One host: the entries, and how many corrections were recorded
abbrev pub ignore_host : Text → Json → Entries × ℕ → Entries × ℕ
ignore_host context host (entries, recorded) =
    let key = ignored_key host in
    let category = negation ++ context in
    if not (valid_host key) then (entries, recorded) else (
      add_entry key ignorelist_source (category ∷ []) entries,
      if entries_have key ignorelist_source category entries then recorded else recorded + 1,
    )

unfoldable pub ignore_hosts : Text → List Json → Entries × ℕ → Entries × ℕ
unfolding valid_host add_entry lower strip
ignore_hosts context [] acc = acc
ignore_hosts context (host ∷ hosts) acc = ignore_hosts context hosts (ignore_host context host acc)

unfoldable pub apply_from : Ignorelist → Entries × ℕ → Entries × ℕ
unfolding ignore_hosts
apply_from [] acc = acc
apply_from ((context, hosts) ∷ ignorelist) acc =
    apply_from ignorelist (ignore_hosts context hosts acc)

unfoldable pub apply_ignorelist : Ignorelist → Entries → Entries × ℕ
unfolding apply_from
apply_ignorelist ignorelist entries = apply_from ignorelist (entries, 0)

-- What the librarian gives `build`
unfoldable pub index_entries : Configured → List ListFile → Ignorelist → Entries
unfolding apply_ignorelist collect_entries
index_entries configured files ignorelist =
    (apply_ignorelist ignorelist (collect_entries configured files).0).0
