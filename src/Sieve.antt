-- ===== src/Sieve.antt =====
-- src/libtb/sieve/__init__.py: which packets are worth keeping.
-- Modelled over values as `json.loads` gives them. The operator's lists of ignored clients and
-- users are lists of strings, and the sections that `read_config` fills in are present.
pub mod Domains
pub mod Hosts
pub mod Decision
mod Tests
pub mod History
use turkey_bite.Prelude.{
  ℕ, String, Bool, true, false, ◌&&◌, ◌||◌, not, Option, none, some, List, [], ◌∷◌, length, take,
  ltb, if◌then◌else◌, ◌==◌, nat_eq, list_eq, elem, any,
}
use turkey_bite.Text.{Text, text, strip, lower, strip_dots, starts_with, ends_with, split, has_char}
use turkey_bite.Text.Number.{int, at_least, SignedNumber}
use turkey_bite.Json.{
  Json, str, arr, obj, Items, Fields, items, lookup, get, dig, is_dict, str_in, has_key,
}

-- x or None, for a text
abbrev pub nonempty : Text → Option Text
nonempty [] = none
nonempty (c ∷ s) = some (c ∷ s)

unfoldable pub clean : Text → Text
unfolding strip lower strip_dots
clean s = strip_dots (lower (strip s))

unfoldable pub normalize_host : Json → Option Text
unfolding clean
normalize_host (str s) = nonempty (clean s)
normalize_host _ = none

abbrev min_plausible_year : ℕ
min_plausible_year = 1990

-- A year that `int` cannot read is passed along.
abbrev year_plausible : Option SignedNumber → Bool
year_plausible none = true
year_plausible (some year) = at_least min_plausible_year year

unfoldable pub plausible_timestamp : Json → Bool
unfolding int at_least
plausible_timestamp (str s) = if ltb (length s) 4 then true else year_plausible (int (take 4 s))
plausible_timestamp _ = true

unfoldable pub matches_domain : Text → Text → Bool
unfolding ends_with
matches_domain host domain = host == domain || ends_with (b'.' ∷ domain) host

-- `config['sieve']` as the constructor reads it.
pub record Config : Type 0 where
  pub drop_error_packets : Bool
  pub drop_replies : Bool
  pub ignore_clients : List Text
  pub ignore_domains : List Json
  pub ignore_hosts : List Json
  pub browserbeat_clients : List Text
  pub browserbeat_users : List Text
  pub browserbeat_domains : List Json
  pub browserbeat_hosts : List Json

pub record Filters : Type 0 where
  pub config : Config
  pub ignore_domains : List Text
  pub ignore_hosts : List Text
  pub browserbeat_ignore_domains : List Text
  pub browserbeat_ignore_hosts : List Text

abbrev cons_some : Option Text → List Text → List Text
cons_some none r = r
cons_some (some d) r = d ∷ r

-- [d for d in (normalize_host(v) for v in entries) if d]
unfoldable pub normalize_all : List Json → List Text
unfolding normalize_host
normalize_all [] = []
normalize_all (v ∷ vs) = cons_some (normalize_host v) (normalize_all vs)

-- Filters.__init__
unfoldable pub filters : Config → Filters
unfolding normalize_all
filters c = record {
  config = c;
  ignore_domains = normalize_all c.ignore_domains;
  ignore_hosts = normalize_all c.ignore_hosts;
  browserbeat_ignore_domains = normalize_all c.browserbeat_domains;
  browserbeat_ignore_hosts = normalize_all c.browserbeat_hosts;
}

abbrev pub option_in : Option Text → List Text → Bool
option_in none texts = false
option_in (some s) texts = elem s texts

-- host in hosts, or under one of the domains
unfoldable pub host_ignored : List Text → List Text → Text → Bool
unfolding matches_domain
host_ignored hosts domains host = elem host hosts || any (λ d. matches_domain host d) domains

-- `if name:` and the tests below it
abbrev name_ignored : List Text → List Text → Option Text → Bool
name_ignored hosts domains none = false
name_ignored hosts domains (some host) = host_ignored hosts domains host

abbrev question : String → List Text
question key = text "dns" ∷ text "question" ∷ text key ∷ []

-- Filters.dns
unfoldable pub dns : Filters → Json → Bool
unfolding dig normalize_host host_ignored
dns f packet =
    if f.config.drop_error_packets && not (str_in (get (text "status") packet) (text "OK" ∷ []))
    then false
    else if str_in (dig packet (text "client" ∷ text "ip" ∷ [])) f.config.ignore_clients
    then false
    else if str_in (dig packet (text "destination" ∷ text "ip" ∷ [])) f.config.ignore_clients
    then false
    else if str_in (dig packet (text "network" ∷ text "direction" ∷ []))
          (text "outbound" ∷ text "egress" ∷ [])
        && f.config.drop_replies
    then false
    else if option_in (normalize_host (dig packet (question "registered_domain"))) f.ignore_domains
    then false
    else if option_in (normalize_host (dig packet (question "etld_plus_one"))) f.ignore_domains
    then false
    else if name_ignored f.ignore_hosts f.ignore_domains
        (normalize_host (get (text "resource") packet))
    then false
    else if name_ignored f.ignore_hosts f.ignore_domains
        (normalize_host (dig packet (question "name")))
    then false
    else true

-- any(ip in clients for ip in ip_addresses), if that is a list
abbrev addresses_ignored : List Text → Json → Bool
addresses_ignored clients (arr xs) = any (λ ip. str_in ip clients) (items xs)
addresses_ignored clients _ = false

-- the tests on the two spellings of the client's host name, if there is a dict of them
abbrev hostnames_ignored : List Text → Json → Bool
hostnames_ignored clients (obj names) =
    str_in (lookup (text "hostname") names) clients || str_in (lookup (text "short") names) clients
hostnames_ignored clients _ = false

-- Client level rules: True when one of them drops the event.
unfoldable pub client_ignored : Filters → Json → Bool
unfolding dig
client_ignored f (obj client) =
    hostnames_ignored f.config.browserbeat_clients (dig (obj client) (text "Hostname" ∷ []))
    || addresses_ignored f.config.browserbeat_clients (lookup (text "ip_addresses") client)
    || has_key (text "user") client
      && str_in (lookup (text "user") client) f.config.browserbeat_users
client_ignored f _ = false

-- isinstance(u, str) and test(u.strip().lower())
abbrev str_test : (Text → Bool) → Json → Bool
str_test p (str s) = p (lower (strip s))
str_test p _ = false

abbrev pub is_file_scheme : Text → Bool
is_file_scheme s = s == text "file"

abbrev pub is_file_url : Text → Bool
is_file_url s = starts_with (text "file://") s

abbrev first_part : List Text → Text
first_part [] = []
first_part (p ∷ ps) = p

-- A host with a port in it loses the port.
unfoldable pub without_port : Option Text → Option Text
unfolding normalize_host split
without_port none = none
without_port (some host) =
    if has_char b':' host then normalize_host (str (first_part (split b':' host))) else some host

-- The tests on the host: none drops the event.
abbrev host_kept : Filters → Option Text → Bool
host_kept f none = false
host_kept f (some host) =
    not (host_ignored f.browserbeat_ignore_hosts f.browserbeat_ignore_domains host)

-- History entry level rules.
unfoldable pub entry_kept : Filters → Json → Bool
unfolding dig without_port host_ignored lower strip
entry_kept f (obj entry) =
    if str_test is_file_scheme (get (text "Scheme") (dig (obj entry) (text "url_data" ∷ [])))
    then false
    else if str_test is_file_url (lookup (text "url") entry)
    then false
    else host_kept f
        (without_port (normalize_host (dig (obj entry) (text "url_data" ∷ text "Host" ∷ []))))
entry_kept f _ = false

-- Filters.browserbeat
unfoldable pub browserbeat : Filters → Json → Bool
unfolding plausible_timestamp client_ignored entry_kept
browserbeat f packet =
    let event = dig packet (text "data" ∷ text "event" ∷ text "data" ∷ []) in
    if not (plausible_timestamp (dig packet (text "data" ∷ text "@timestamp" ∷ [])))
    then false
    else if not (is_dict event)
    then false
    else if client_ignored f (dig event (text "client" ∷ []))
    then false
    else entry_kept f (dig event (text "entry" ∷ []))

-- The branch on `data['type']`.
abbrev by_type : Filters → Json → Json → Bool
by_type f packet (str kind) =
    if kind == text "dns"
    then dns f packet
    else if kind == text "browser.history"
    then browserbeat f packet
    else false
by_type f packet _ = false

-- Filters.should_process
unfoldable pub should_process : Filters → Json → Bool
unfolding dns browserbeat
should_process f (obj fs) = by_type f (obj fs) (lookup (text "type") fs)
should_process f _ = false
