-- ===== src/Lib.antt =====
-- TurkeyBite: a pipeline that takes clients' DNS packets and browser history from a Valkey list,
-- sieves them, weighs what the domain lists say of each host, and indexes what is left.
--
-- The files and what they model:
--   Text, Json: Python's texts, as lists of code points, and the values that `json.loads` gives,
--     with `dig` of src/libtb/util/__init__.py.
--   Sieve: src/libtb/sieve/__init__.py, which packets are worth keeping. `dns`, `browserbeat` and
--     `should_process` are the methods of those names, `filters` the constructor.
--   Psl: src/libtb/psl/__init__.py, registrable domains by the Public Suffix List. `parse`,
--     `usable`, `load` (`_load`), `public_suffix` and `registrable_domain` keep their names.
--   Queue: src/libtb/queue/__init__.py, the work queue on a Valkey list with its Lua scripts. Valkey
--     is a service: Queue/Commands.antt states what its documentation says of the commands used,
--     and builds a store in memory that meets it.
--   Taxonomy: src/libtb/taxonomy/__init__.py, its table, its severities and `classify`.
--   Evidence: src/libtb/evidence/__init__.py, which categories an event should assert. `resolve`
--     weighs the claims that the index made; `enabled_claims` is the filter of `claims_for`.
--   Index: src/libtb/index/__init__.py, the index of the lists as a worker reads it: the binary
--     search `find` (`_find`), the memo of `claims_for` (`_claims_for`), `match_host` (`match`),
--     `lookup` and `reload_if_changed`. The bytes of the file are its tables.
--   Builder: src/libtb/index/builder.py, what the librarian writes for the workers: `interned`
--     (`_intern`) and `build`; Builder/Collect.antt is `collect_entries`, with VALID_HOST of
--     src/libtb/util/__init__.py as `valid_host`, and Builder/Ignore.antt `apply_ignorelist`.
--   Privacy: src/libtb/privacy/__init__.py: `trim_url`, `_trim` (`trim`), `scrub`, `redact_packet`
--     and `redact`; `match_start` is the pattern `_URL_START`.
--   Transport: src/libtb/index/transport.py, which carries the file of the index to the workers:
--     `publish` and `fetch_if_stale` with their parts. Transport/Machine.antt is `publish` one
--     command at a time, so that a fetch may fall between any two and a librarian may die at any,
--     and `Reach` its states; a fetch takes the store that each of its commands meets.
--   Brake: console/backend/tbconsole/security/limits.py, the counting of failed sign-ins: `limited`,
--     `failed`, `recent` (`_recent`). Brake/Gates.antt is the gates of its `_turn`, each a number so
--     that a new one is another, with who comes and goes at a key as a relation, and
--     Brake/Lockout.antt security/lockout.py. `ipaddress` and `unicodedata` are arguments, and each
--     reading of the clock is one.
--   Categorise: `claims_for`, `categorise` and `second_opinion` of src/libtb/evidence/__init__.py,
--     which put a host through Psl, Index and Evidence.
--   Roles: console/backend/tbconsole/security/rbac.py, what a role and an API key's scopes permit.
--   Tbql: console/backend/tbconsole/search/tbql.py and fields.py, the console's query language.
--     Tbql/Lexer.antt is `tokenize`, Tbql/Parser.antt the methods of `_Parser`, Tbql/Dsl.antt
--     `_term` (`term_dsl`), `compile_query` and `names_someone`, Tbql/Quoting.antt `quote` and
--     `term_for`, Tbql/Fields.antt the catalogue.
--   Consumer: src/libtb/consumer/__init__.py, the process that claims, handles and settles batches.
--     What it calls is an argument (Consumer/Parts.antt). `run_turn` is one turn of the loop of
--     `run`, and `run_end` what follows the loop; the other methods keep their names.
--
-- Bounds: texts are unbounded lists of code points, and `lower` and `int` follow Python on ASCII.
-- The binary search runs on fuel, as much as there are names: each turn leaves one name fewer at
-- least between its bounds. So does the loop of `rest`, as much as the half seconds that are due.
-- The loop that sends a file's blocks has one turn more of fuel than the file has bytes.
-- A syntax tree is read with the depth that is left, which bounds the recursion of the parser; the
-- loops of its `and_` and `or_` run on the number of tokens, of which each turn takes one.
--
-- Not modelled: files, sockets, logging, signals, the console's web service and its database,
-- and the packet processor, accounting, retention and the other services that stand around these.
pub mod Prelude
pub mod Text
pub mod Transport
pub mod Brake
pub mod Json
pub mod Sieve
pub mod Psl
pub mod Queue
pub mod Taxonomy
pub mod Evidence
pub mod Index
pub mod Consumer
pub mod Categorise
pub mod Roles
pub mod Tbql
pub mod Builder
pub mod Privacy
