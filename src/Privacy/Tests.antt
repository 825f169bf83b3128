-- ===== src/Privacy/Tests.antt =====
-- URLs trimmed and a document redacted.
use turkey_bite.Prelude.{◌≡◌, ◌≢◌, refl, false, nat_eq, list_eq}
use turkey_bite.Text.{text}
use turkey_bite.Json.{str, obj, Fields, end, field}
use turkey_bite.Privacy.{full, trimmed, host_only, trim_url}
use turkey_bite.Privacy.Packets.{redact}
use turkey_bite.Privacy.Scrubbed.{FieldsScrubbed, redact-FieldsScrubbed}

credentials_dropped :
    trim_url trimmed (text " (HTTPS://ann:pw@acme.com:8443/a b?q=1#top)")
    ≡ text "HTTPS://acme.com:8443/a b"
unfolding trim_url
credentials_dropped = refl

wrapped_host :
    trim_url host_only (text "view-source:http://acme.com/a") ≡ text "view-source:http://acme.com"
unfolding trim_url
wrapped_host = refl

sentence_kept : trim_url trimmed (text "see http://acme.com/?q") ≡ text "see http://acme.com/?q"
unfolding trim_url
sentence_kept = refl

trimmed_not_full : trimmed ≢ full
trimmed_not_full e = cc

abbrev document : Fields
document =
    field (text "bite") (obj (field (text "url") (str (text "https://ann:pw@acme.com/a?q=1")) end))
      (field (text "packet") (str (text "about:reader?url=x")) end)

redact-FieldsScrubbed_example : FieldsScrubbed (redact trimmed false document)
redact-FieldsScrubbed_example = redact-FieldsScrubbed trimmed false document trimmed_not_full refl
