-- ===== src/Privacy/Packets.antt =====
-- Where src/libtb/privacy/__init__.py looks for URLs: `scrub`, `redact_packet` and `redact`. What
-- a function shares with its input and what it copies is one value here.
use turkey_bite.Prelude.{Bool, false, ◌&&◌, List, [], ◌∷◌, if◌then◌else◌, ◌==◌, nat_eq, list_eq}
use turkey_bite.Text.{Text, text}
use turkey_bite.Json.{
  Json, null, boolean, str, arr, obj, Items, nil, cons, Fields, end, field, lookup, has_key,
}
use turkey_bite.Privacy.{UrlMode, full, host_only, trim_url}

-- out[key] = value, where key is in out
abbrev pub set_field : Text → Json → Fields → Fields
set_field key value end = end
set_field key value (field k v r) =
    let later = field k v (set_field key value r) in if k == key then field k value r else later

abbrev pub set_fields : List (Text × Json) → Fields → Fields
set_fields [] out = out
set_fields ((key, value) ∷ blanks) out = set_fields blanks (set_field key value out)

abbrev pub trimmed_fields : List (Text × Json)
trimmed_fields =
    (text "User", null)
    ∷ (text "RawQuery", str (text ""))
    ∷ (text "ForceQuery", boolean false)
    ∷ (text "Fragment", str (text ""))
    ∷ (text "RawFragment", str (text ""))
    ∷ []

-- With those of `host`
abbrev pub host_fields : List (Text × Json)
host_fields =
    (text "User", null)
    ∷ (text "RawQuery", str (text ""))
    ∷ (text "ForceQuery", boolean false)
    ∷ (text "Fragment", str (text ""))
    ∷ (text "RawFragment", str (text ""))
    ∷ (text "Path", str (text ""))
    ∷ (text "RawPath", str (text ""))
    ∷ (text "Opaque", str (text ""))
    ∷ []

abbrev pub blanks_of : UrlMode → List (Text × Json)
blanks_of host_only = host_fields
blanks_of _ = trimmed_fields

-- `_url_struct`
abbrev pub url_struct : Fields → Bool
url_struct fs = has_key (text "Scheme") fs && has_key (text "Host") fs

unfoldable mutual
  unfolding trim_url

  pub scrub_value : UrlMode → Json → Json
  scrub_value mode (str s) = str (trim_url mode s)
  scrub_value mode (arr xs) = arr (scrub_items mode xs)
  scrub_value mode (obj fs) =
      let out = scrub_fields mode fs in
      obj (if url_struct fs then set_fields (blanks_of mode) out else out)
  scrub_value mode v = v

  pub scrub_items : UrlMode → Items → Items
  scrub_items mode nil = nil
  scrub_items mode (cons v xs) = cons (scrub_value mode v) (scrub_items mode xs)

  pub scrub_fields : UrlMode → Fields → Fields
  scrub_fields mode end = end
  scrub_fields mode (field k v r) = field k (scrub_value mode v) (scrub_fields mode r)

unfoldable pub scrub : UrlMode → Json → Json
unfolding scrub_value
scrub full value = value
scrub mode value = scrub_value mode value

abbrev pub trim_data : UrlMode → Fields → Json → Json
trim_data mode record_fields (str s) =
    obj (set_field (text "data") (str (trim_url mode s)) record_fields)
trim_data mode record_fields _ = obj record_fields

abbrev pub trim_record : UrlMode → Json → Json
trim_record mode (obj fs) = trim_data mode fs (lookup (text "data") fs)
trim_record mode v = v

abbrev pub trim_records : UrlMode → Items → Items
trim_records mode nil = nil
trim_records mode (cons v xs) = cons (trim_record mode v) (trim_records mode xs)

abbrev pub trim_section : UrlMode → Text → Json → Fields → Fields
trim_section mode section (arr records) dns =
    set_field section (arr (trim_records mode records)) dns
trim_section mode section _ dns = dns

abbrev pub trim_sections : UrlMode → List Text → Fields → Fields
trim_sections mode [] dns = dns
trim_sections mode (section ∷ sections) dns =
    trim_sections mode sections (trim_section mode section (lookup section dns) dns)

abbrev pub dns_record_sections : List Text
dns_record_sections = text "answers" ∷ text "authorities" ∷ text "additionals" ∷ []

abbrev pub dns_in : UrlMode → Fields → Json → Json
dns_in mode packet (obj dns) =
    obj (set_field (text "dns") (obj (trim_sections mode dns_record_sections dns)) packet)
dns_in mode packet _ = obj packet

-- `_dns_packet`
unfoldable pub dns_packet : UrlMode → Fields → Json
unfolding trim_url
dns_packet mode packet = dns_in mode packet (lookup (text "dns") packet)

-- v == 'dns'
abbrev pub is_dns : Json → Bool
is_dns (str s) = s == text "dns"
is_dns _ = false

unfoldable pub redact_packet : UrlMode → Json → Json
unfolding dns_packet scrub_value
redact_packet full packet = packet
redact_packet mode (obj packet) =
    if is_dns (lookup (text "type") packet)
    then dns_packet mode packet
    else scrub_value mode (obj packet)
redact_packet mode packet = packet

abbrev pub without : Text → Fields → Fields
without key end = end
without key (field k v r) = let rest = without key r in if k == key then rest else field k v rest

-- isinstance(bite, dict) and bite.get('type') == 'dns'
abbrev pub is_dns_event : Json → Bool
is_dns_event (obj bite) = is_dns (lookup (text "type") bite)
is_dns_event _ = false

abbrev pub redact_urls : UrlMode → Fields → Fields
redact_urls mode document =
    if is_dns_event (lookup (text "bite") document)
    then set_field (text "packet") (redact_packet mode (lookup (text "packet") document)) document
    else (if url_struct document
        then set_fields (blanks_of mode) (scrub_fields mode document)
        else scrub_fields mode document)

-- `drops_packet` is whether the setting of the packet is NONE.
unfoldable pub redact : UrlMode → Bool → Fields → Fields
unfolding redact_packet scrub_value
redact full drops_packet document =
    if drops_packet then without (text "packet") document else document
redact mode drops_packet document =
    redact_urls mode (if drops_packet then without (text "packet") document else document)
