-- ===== src/Sieve/Tests.antt =====
-- Runs of the sieve on packets, and its theorems at them.
use turkey_bite.Prelude.{◌≡◌, refl, ◌↔◌, ◌⊎◌, true, false, some, [], ◌∷◌}
use turkey_bite.Text.{Text, text}
use turkey_bite.Json.{Json, str, obj, end, field, get}
use turkey_bite.Sieve.{
  Config, Filters, filters, normalize_host, matches_domain, should_process, plausible_timestamp,
}
use turkey_bite.Sieve.Domains.{Under, matches_domain_iff}
use turkey_bite.Sieve.Hosts.{IsClean, normalize_host-IsClean}
use turkey_bite.Sieve.Decision.{DnsKept}
use turkey_bite.Sieve.History.{HistoryKept, should_process_iff}

abbrev config : Config
config = record {
  drop_error_packets = true;
  drop_replies = true;
  ignore_clients = text "10.0.0.9" ∷ [];
  ignore_domains = str (text ".BBC.co.uk") ∷ str (text "10.in-addr.arpa") ∷ [];
  ignore_hosts = str (text "Time.example.com.") ∷ [];
  browserbeat_clients = text "kiosk" ∷ [];
  browserbeat_users = text "root" ∷ [];
  browserbeat_domains = str (text "intranet.example") ∷ [];
  browserbeat_hosts = [];
}

abbrev f : Filters
f = filters config

abbrev query : Text → Text → Json
query resource ip = obj (
    field (text "type") (str (text "dns")) (
      field (text "status") (str (text "OK")) (
        field (text "resource") (str resource)
          (field (text "client") (obj (field (text "ip") (str ip) end)) end))))

abbrev visit : Text → Text → Text → Json
visit time host user = obj (
    field (text "type") (str (text "browser.history")) (
      field (text "data")
        (obj (
          field (text "@timestamp") (str time) (
            field (text "event")
              (obj (
                field (text "data")
                  (obj (
                    field (text "client") (obj (field (text "user") (str user) end)) (
                      field (text "entry")
                        (obj
                          (field (text "url_data") (obj (field (text "Host") (str host) end)) end))
                        end)))
                  end))
              end)))
        end))

kept_query : should_process f (query (text "www.example.com") (text "10.0.0.1")) ≡ true
unfolding should_process filters
kept_query = refl

dropped_queries :
    (should_process f (query (text "News.bbc.co.uk.") (text "10.0.0.1")) ≡ false)
    × (should_process f (query (text "time.example.com") (text "10.0.0.1")) ≡ false)
    × (should_process f (query (text "www.example.com") (text "10.0.0.9")) ≡ false)
    × (should_process f (query (text "4.3.110.in-addr.arpa") (text "10.0.0.1")) ≡ true)
unfolding should_process filters
dropped_queries = (refl, refl, refl, refl)

visits :
    (should_process f (visit (text "2024-05-01") (text "example.com:8443") (text "ann")) ≡ true)
    × (should_process f (visit (text "1601-01-01") (text "example.com") (text "ann")) ≡ false)
    × (should_process f (visit (text "2024-05-01") (text "a.intranet.example:80") (text "ann"))
        ≡ false)
    × (should_process f (visit (text "2024-05-01") (text "example.com") (text "root")) ≡ false)
    × (should_process f (visit (text "2024-05-01") (text ":80") (text "ann")) ≡ false)
unfolding should_process filters
visits = (refl, refl, refl, refl, refl)

times :
    (plausible_timestamp (str (text "1_99x")) ≡ false)
    × (plausible_timestamp (str (text "199")) ≡ true)
    × (plausible_timestamp (str (text "year")) ≡ true)
    × (plausible_timestamp (str (text "-201")) ≡ false)
unfolding plausible_timestamp
times = (refl, refl, refl, refl)

matches_domain_iff_example :
    (matches_domain (text "news.bbc.co.uk") (text "bbc.co.uk") ≡ true)
    ↔ Under (text "bbc.co.uk") (text "news.bbc.co.uk")
matches_domain_iff_example = matches_domain_iff (text "news.bbc.co.uk") (text "bbc.co.uk")

normalized : normalize_host (str (text " .WWW.Example.com. ")) ≡ some (text "www.example.com")
unfolding normalize_host
normalized = refl

normalize_host-IsClean_example : IsClean (text "www.example.com")
normalize_host-IsClean_example =
    normalize_host-IsClean (str (text " .WWW.Example.com. ")) (text "www.example.com") normalized

abbrev asked : Json
asked = query (text "news.bbc.co.uk") (text "10.0.0.1")

should_process_iff_example : (should_process f asked ≡ true) ↔ (
    ((get (text "type") asked ≡ str (text "dns")) × DnsKept f asked)
    ⊎ ((get (text "type") asked ≡ str (text "browser.history")) × HistoryKept f asked))
should_process_iff_example = should_process_iff f asked
