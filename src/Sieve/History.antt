-- ===== src/Sieve/History.antt =====
-- When the sieve of src/libtb/sieve keeps a browser history event, said without its code.
use turkey_bite.Prelude.{
  ◌≡◌, refl, sym, ap, ◌↔◌, ◌⊎◌, inl, inr, Bool, true, false, ◌&&◌, ◌||◌, not, Option, none, some,
  List, [], ◌∷◌, arith, Bool-cases, ◌==◌, list_eq, nat_eq, list_beq_iff, All, All-map, any-eq-false,
  any_none, ◌∙◌, guard_passed, pass_guard, not-eq-true_iff, or-eq-false,
}
use turkey_bite.Text.{Text, text, lower, strip}
use turkey_bite.Json.{
  Json, null, str, arr, obj, Items, items, Fields, end, field, get, lookup, dig, is_dict, str_in,
  has_key,
}
use turkey_bite.Sieve.{
  Filters, hostnames_ignored, addresses_ignored, normalize_host, plausible_timestamp,
  client_ignored, without_port, host_kept, entry_kept, browserbeat, should_process, by_type,
  str_test, is_file_scheme, is_file_url,
}
use turkey_bite.Sieve.Domains.{Allowed, host_ignored_iff}
use turkey_bite.Sieve.Decision.{NotIn, str_in-eq-false_iff, DnsKept, dns_iff}

abbrev pub event_of : Json → Json
event_of packet = dig packet (text "data" ∷ text "event" ∷ text "data" ∷ [])

abbrev pub entry_of : Json → Json
entry_of packet = dig (event_of packet) (text "entry" ∷ [])

abbrev pub host_path : List Text
host_path = text "url_data" ∷ text "Host" ∷ []

-- The value is no string that reads, trimmed and lowered, as the test wants.
abbrev pub Reads : (Text → Bool) → Json → Type 0
Reads test v = (s : Text) × (v ≡ str s) × (test (lower (strip s)) ≡ true)

-- Each item of the value, if it is a list.
abbrev pub EachItem : (Json → Type 0) → Json → Type 0
EachItem P v = (xs : Items) → v ≡ arr xs → All P (items xs)

-- No client level rule speaks against the client: neither of its host names and none of its
-- addresses is an ignored client, and its user is no ignored user.
pub record ClientAllowed (f : Filters) (client : Json) : Type 0 where
  pub hostname :
      NotIn f.config.browserbeat_clients (get (text "hostname") (dig client (text "Hostname" ∷ [])))
  pub short :
      NotIn f.config.browserbeat_clients (get (text "short") (dig client (text "Hostname" ∷ [])))
  pub addresses : EachItem (NotIn f.config.browserbeat_clients) (get (text "ip_addresses") client)
  pub user : NotIn f.config.browserbeat_users (get (text "user") client)

abbrev HostnamesAllowed : List Text → Json → Type 0
HostnamesAllowed clients names =
    NotIn clients (get (text "hostname") names) × NotIn clients (get (text "short") names)

NotIn-null : (texts : List Text) → NotIn texts null
NotIn-null texts s e = absurd (let q : ⊥ = cc in q)

none_of : (a b c : Bool) → a ≡ false → b ≡ false → c ≡ false → (a || b || c) ≡ false
none_of a b c h k l = ground arith

hostnames_ignored_iff :
    (clients : List Text) (names : Json)
    → (hostnames_ignored clients names ≡ false) ↔ HostnamesAllowed clients names
hostnames_ignored_iff clients (obj names) = (
  (λ h.
      let (a, b) = or-eq-false _ _ h in
      ((str_in-eq-false_iff _ clients).0 a, (str_in-eq-false_iff _ clients).0 b)),
  (λ w.
      rw ((str_in-eq-false_iff (lookup (text "hostname") names) clients).1 w.0)
        ((str_in-eq-false_iff (lookup (text "short") names) clients).1 w.1)),
)
hostnames_ignored_iff clients _ = ((λ h. (NotIn-null clients, NotIn-null clients)), (λ w. refl))

addresses_ignored_iff :
    (clients : List Text) (v : Json)
    → (addresses_ignored clients v ≡ false) ↔ EachItem (NotIn clients) v
addresses_ignored_iff clients (arr xs) = (
  (λ h ys e.
      let same : xs ≡ ys = cc in
      rw same at (
        All-map (λ ip. (str_in-eq-false_iff ip clients).0) (items xs)
          (any-eq-false _ (items xs) h))),
  (λ w.
      any_none _ (items xs)
        (All-map (λ ip. (str_in-eq-false_iff ip clients).1) (items xs) (w xs refl))),
)
addresses_ignored_iff clients _ = ((λ h ys e. absurd (let q : ⊥ = cc in q)), (λ w. refl))

-- A key that is missing has no value.
has_key-str_in :
    (key : Text) (fs : Fields) (texts : List Text)
    → (has_key key fs && str_in (lookup key fs) texts) ≡ str_in (lookup key fs) texts
has_key-str_in key end texts = refl
has_key-str_in key (field k v r) texts = ground (arith, has_key-str_in key r texts)

client_ignored_iff :
    (f : Filters) (client : Json) → (client_ignored f client ≡ false) ↔ ClientAllowed f client
unfolding client_ignored
client_ignored_iff f (obj c) = (
  (λ h.
      let (ha, user) = or-eq-false _ _ h in
      let (names, addresses) = or-eq-false _ _ ha in
      let n =
        (hostnames_ignored_iff f.config.browserbeat_clients (dig (obj c) (text "Hostname" ∷ []))).0
          names in
      record {
        hostname = n.0;
        short = n.1;
        addresses = (addresses_ignored_iff f.config.browserbeat_clients _).0 addresses;
        user =
            (str_in-eq-false_iff _ _).0
              (sym (has_key-str_in (text "user") c f.config.browserbeat_users) ∙ user);
      }),
  (λ w.
      none_of _ _ _
        ((hostnames_ignored_iff f.config.browserbeat_clients (dig (obj c) (text "Hostname" ∷ []))).1
          (w.hostname, w.short))
        ((addresses_ignored_iff f.config.browserbeat_clients _).1 w.addresses)
        (has_key-str_in (text "user") c f.config.browserbeat_users
          ∙ (str_in-eq-false_iff _ _).1 w.user)),
)
client_ignored_iff f _ = (
  (λ h. record {
    hostname = NotIn-null _;
    short = NotIn-null _;
    addresses = λ xs e. absurd (let q : ⊥ = cc in q);
    user = NotIn-null _;
  }),
  (λ w. refl),
)

-- What a history event has to satisfy.
pub record HistoryKept (f : Filters) (packet : Json) : Type 0 where
  pub recent : plausible_timestamp (dig packet (text "data" ∷ text "@timestamp" ∷ [])) ≡ true
  pub event : is_dict (event_of packet) ≡ true
  pub client : ClientAllowed f (dig (event_of packet) (text "client" ∷ []))
  pub entry : is_dict (entry_of packet) ≡ true
  pub scheme :
      ¬ Reads is_file_scheme (get (text "Scheme") (dig (entry_of packet) (text "url_data" ∷ [])))
  pub url : ¬ Reads is_file_url (get (text "url") (entry_of packet))
  pub host : Text
  pub found : without_port (normalize_host (dig (entry_of packet) host_path)) ≡ some host
  pub allowed : Allowed f.browserbeat_ignore_hosts f.browserbeat_ignore_domains host

str_test-false : (p : Text → Bool) (v : Json) → str_test p v ≡ false → ¬ Reads p v
str_test-false p (str s) h (t, e, k) = let same : s ≡ t = cc in cc
str_test-false p _ h (t, e, k) = cc

str_test-none : (p : Text → Bool) (v : Json) → ¬ Reads p v → str_test p v ≡ false
str_test-none p (str s) h = elim (Bool-cases (p (lower (strip s)))) [
  | inl t ↦ absurd (h (s, refl, t))
  | inr f ↦ f
]
str_test-none p _ h = refl

host_kept_sound :
    (f : Filters) (o : Option Text)
    → host_kept f o ≡ true
    → (h : Text) × (o ≡ some h) × Allowed f.browserbeat_ignore_hosts f.browserbeat_ignore_domains h
host_kept_sound f none h = cc
host_kept_sound f (some host) h =
    (host, refl, (host_ignored_iff _ _ host).0 ((not-eq-true_iff _).0 h))

host_kept_complete :
    (f : Filters) (o : Option Text) (h : Text)
    → o ≡ some h
    → Allowed f.browserbeat_ignore_hosts f.browserbeat_ignore_domains h
    → host_kept f o ≡ true
host_kept_complete f o h e a =
    rw e (rw ((host_ignored_iff f.browserbeat_ignore_hosts f.browserbeat_ignore_domains h).1 a))

entry_kept_dict : (f : Filters) (v : Json) → entry_kept f v ≡ true → is_dict v ≡ true
unfolding entry_kept
entry_kept_dict f (obj e) h = refl
entry_kept_dict f _ h = cc

abbrev EntryTests : Filters → Json → Type 0
EntryTests f v =
    (str_test is_file_scheme (get (text "Scheme") (dig v (text "url_data" ∷ []))) ≡ false)
    × (str_test is_file_url (get (text "url") v) ≡ false)
    × (host_kept f (without_port (normalize_host (dig v host_path))) ≡ true)

entry_kept_tests : (f : Filters) (v : Json) → entry_kept f v ≡ true → EntryTests f v
unfolding entry_kept
entry_kept_tests f (obj e) h =
    let (a, h1) = guard_passed _ _ h in let (b, c) = guard_passed _ _ h1 in (a, b, c)
entry_kept_tests f _ h = absurd (let q : ⊥ = cc in q)

tests_entry_kept :
    (f : Filters) (v : Json) → is_dict v ≡ true → EntryTests f v → entry_kept f v ≡ true
unfolding entry_kept
tests_entry_kept f (obj e) d (a, b, c) = pass_guard _ _ a (pass_guard _ _ b c)
tests_entry_kept f _ d t = cc

not-eq-false : (b : Bool) → not b ≡ false → b ≡ true
not-eq-false b h = ground arith

browserbeat_sound :
    (f : Filters) (packet : Json) → browserbeat f packet ≡ true → HistoryKept f packet
unfolding browserbeat
browserbeat_sound f packet h =
    let (recent, h1) = guard_passed _ _ h in
    let (event, h2) = guard_passed _ _ h1 in
    let (client, h3) = guard_passed _ _ h2 in
    let (scheme, url, host) = entry_kept_tests f (entry_of packet) h3 in
    let (name, found, allowed) = host_kept_sound f _ host in
    record {
      recent = not-eq-false _ recent;
      event = not-eq-false _ event;
      client = (client_ignored_iff f _).0 client;
      entry = entry_kept_dict f (entry_of packet) h3;
      scheme = str_test-false is_file_scheme _ scheme;
      url = str_test-false is_file_url _ url;
      host = name;
      found = found;
      allowed = allowed;
    }

browserbeat_complete :
    (f : Filters) (packet : Json) → HistoryKept f packet → browserbeat f packet ≡ true
unfolding browserbeat
browserbeat_complete f packet k = pass_guard _ _ (rw k.recent) (
    pass_guard _ _ (rw k.event) (
      pass_guard _ _ ((client_ignored_iff f _).1 k.client) (
        tests_entry_kept f (entry_of packet) k.entry (
          str_test-none is_file_scheme _ k.scheme,
          str_test-none is_file_url _ k.url,
          host_kept_complete f _ k.host k.found k.allowed,
        ))))

-- A history event is kept exactly when: its time is plausible; it holds a dict of event data whose
-- client no rule ignores and whose entry is a dict; neither the entry's scheme nor its URL, trimmed
-- and lowered, is a file's; and it names a host which, with its port cut off, is no ignored host
-- and lies under no ignored domain.
browserbeat_iff :
    (f : Filters) (packet : Json) → (browserbeat f packet ≡ true) ↔ HistoryKept f packet
browserbeat_iff f packet = (browserbeat_sound f packet, browserbeat_complete f packet)

by_type_sound :
    (f : Filters) (packet kind : Json)
    → by_type f packet kind ≡ true
    → ((kind ≡ str (text "dns")) × DnsKept f packet)
      ⊎ ((kind ≡ str (text "browser.history")) × HistoryKept f packet)
by_type_sound f packet (str kind) h = elim (Bool-cases (kind == text "dns")) [
  | inl is_dns ↦
      inl
        (ap str ((list_beq_iff kind (text "dns")).0 is_dns), (dns_iff f packet).0 (rw is_dns at h))
  | inr other ↦ elim (Bool-cases (kind == text "browser.history")) [
    | inl is_history ↦ inr (
      ap str ((list_beq_iff kind (text "browser.history")).0 is_history),
      (browserbeat_iff f packet).0 (rw (other, is_history) at h),
    )
    | inr neither ↦ absurd (let q : false ≡ true = rw (other, neither) at h in let r : ⊥ = cc in r)
  ]
]
by_type_sound f packet _ h = absurd (let q : ⊥ = cc in q)

should_process_dict :
    (f : Filters) (v : Json) (kind : Text)
    → get (text "type") v ≡ str kind
    → should_process f v ≡ by_type f v (str kind)
unfolding should_process
should_process_dict f (obj fs) kind e = rw e
should_process_dict f _ kind e = cc

should_process_sound :
    (f : Filters) (v : Json)
    → should_process f v ≡ true
    → ((get (text "type") v ≡ str (text "dns")) × DnsKept f v)
      ⊎ ((get (text "type") v ≡ str (text "browser.history")) × HistoryKept f v)
unfolding should_process
should_process_sound f (obj fs) h = by_type_sound f (obj fs) (lookup (text "type") fs) h
should_process_sound f _ h = absurd (let q : ⊥ = cc in q)

should_process_complete :
    (f : Filters) (v : Json)
    → ((get (text "type") v ≡ str (text "dns")) × DnsKept f v)
      ⊎ ((get (text "type") v ≡ str (text "browser.history")) × HistoryKept f v)
    → should_process f v ≡ true
should_process_complete f v (inl (e, k)) =
    rw (should_process_dict f v (text "dns") e) ((dns_iff f v).1 k)
should_process_complete f v (inr (e, k)) =
    rw (should_process_dict f v (text "browser.history") e) ((browserbeat_iff f v).1 k)

-- The sieve keeps a value exactly when its type is dns and it satisfies what a DNS packet has to,
-- or its type is browser.history and it satisfies what a history event has to.
pub should_process_iff :
    (f : Filters) (v : Json)
    → (should_process f v ≡ true) ↔ (
        ((get (text "type") v ≡ str (text "dns")) × DnsKept f v)
        ⊎ ((get (text "type") v ≡ str (text "browser.history")) × HistoryKept f v))
should_process_iff f v = (should_process_sound f v, should_process_complete f v)
