-- ===== src/Privacy/Scrubbed.antt =====
-- What `redact` of src/libtb/privacy leaves of the URLs in a document, at whatever depth.
use turkey_bite.Prelude.{
  ◌≡◌, ◌≢◌, refl, sym, ap, ◌∙◌, list_beq_iff, ◌⊎◌, inl, inr, Bool, true, false, none, Option-cases,
  List, [], ◌∷◌, if◌then◌else◌, nat_eq, list_eq, ◌==◌, Bool-cases,
}
use turkey_bite.Text.{Text, text}
use turkey_bite.Json.{
  Json, null, boolean, number, str, arr, obj, Items, nil, cons, Fields, end, field, lookup,
}
use turkey_bite.Privacy.{UrlMode, full, trimmed, host_only, match_start, trim_url}
use turkey_bite.Privacy.Unmarked.{Unmarked, trim_url-Unmarked}
use turkey_bite.Privacy.Packets.{
  set_field, set_fields, blanks_of, url_struct, scrub_value, scrub_items, scrub_fields, without,
  is_dns_event, redact_urls, redact,
}

-- The text does not start as a URL, or has no ? and no #.
abbrev pub IsSafe : Text → Type 0
IsSafe s = (match_start s ≡ none) ⊎ Unmarked s

-- Every text in the value is safe, but for the keys of its dicts.
unfoldable mutual
  pub IsScrubbed : Json → Type 0
  IsScrubbed (str s) = IsSafe s
  IsScrubbed (arr xs) = AreScrubbed xs
  IsScrubbed (obj fs) = FieldsScrubbed fs
  IsScrubbed _ = Unit

  AreScrubbed : Items → Type 0
  AreScrubbed nil = Unit
  AreScrubbed (cons v xs) = IsScrubbed v × AreScrubbed xs

  pub FieldsScrubbed : Fields → Type 0
  FieldsScrubbed end = Unit
  FieldsScrubbed (field k v r) = IsScrubbed v × FieldsScrubbed r

trim_url-none :
    (mode : UrlMode) (s : Text) → mode ≢ full → match_start s ≡ none → trim_url mode s ≡ s
unfolding trim_url
trim_url-none full s n e = absurd (n refl)
trim_url-none trimmed s n e = rw e refl
trim_url-none host_only s n e = rw e refl

trim_url-IsSafe : (mode : UrlMode) (s : Text) → mode ≢ full → IsSafe (trim_url mode s)
trim_url-IsSafe mode s n = elim (Option-cases (match_start s)) [
  | inl e ↦ rw (trim_url-none mode s n e) (inl e)
  | inr (m, e) ↦ inr (trim_url-Unmarked mode s m n e)
]

set_field-FieldsScrubbed :
    (key : Text) (value : Json) (fs : Fields)
    → IsScrubbed value
    → FieldsScrubbed fs
    → FieldsScrubbed (set_field key value fs)
unfolding IsScrubbed
set_field-FieldsScrubbed key value end h k = tt
set_field-FieldsScrubbed key value (field k v r) h (p, q) = elim (Bool-cases (k == key)) [
  | inl e ↦ rw e (h, q)
  | inr n ↦ rw n (p, set_field-FieldsScrubbed key value r h q)
]

Blanks : List (Text × Json) → Type 0
Blanks [] = Unit
Blanks ((key, value) ∷ blanks) = IsScrubbed value × Blanks blanks

set_fields-FieldsScrubbed :
    (blanks : List (Text × Json)) (fs : Fields)
    → Blanks blanks
    → FieldsScrubbed fs
    → FieldsScrubbed (set_fields blanks fs)
unfolding Blanks
set_fields-FieldsScrubbed [] fs b h = h
set_fields-FieldsScrubbed ((key, value) ∷ blanks) fs (b, bs) h =
    set_fields-FieldsScrubbed blanks (set_field key value fs) bs
      (set_field-FieldsScrubbed key value fs b h)

blanks_of-Blanks : (mode : UrlMode) → Blanks (blanks_of mode)
unfolding Blanks IsScrubbed
blanks_of-Blanks full = (tt, (inr refl, (tt, (inr refl, (inr refl, tt)))))
blanks_of-Blanks trimmed = (tt, (inr refl, (tt, (inr refl, (inr refl, tt)))))
blanks_of-Blanks host_only =
    (tt, (inr refl, (tt, (inr refl, (inr refl, (inr refl, (inr refl, (inr refl, tt))))))))

module _ (mode : UrlMode) (n : mode ≢ full) where
  blanked :
      (b : Bool) (out : Fields)
      → FieldsScrubbed out
      → FieldsScrubbed (if b then set_fields (blanks_of mode) out else out)
  blanked true out h = set_fields-FieldsScrubbed (blanks_of mode) out (blanks_of-Blanks mode) h
  blanked false out h = h

  mutual
    unfolding scrub_value IsScrubbed

    scrub_value-IsScrubbed : (v : Json) → IsScrubbed (scrub_value mode v)
    scrub_value-IsScrubbed null = tt
    scrub_value-IsScrubbed (boolean b) = tt
    scrub_value-IsScrubbed (number t) = tt
    scrub_value-IsScrubbed (str s) = trim_url-IsSafe mode s n
    scrub_value-IsScrubbed (arr xs) = scrub_items-AreScrubbed xs
    scrub_value-IsScrubbed (obj fs) =
        blanked (url_struct fs) (scrub_fields mode fs) (scrub_fields-FieldsScrubbed fs)

    scrub_items-AreScrubbed : (xs : Items) → AreScrubbed (scrub_items mode xs)
    scrub_items-AreScrubbed nil = tt
    scrub_items-AreScrubbed (cons v xs) = (scrub_value-IsScrubbed v, scrub_items-AreScrubbed xs)

    scrub_fields-FieldsScrubbed : (fs : Fields) → FieldsScrubbed (scrub_fields mode fs)
    scrub_fields-FieldsScrubbed end = tt
    scrub_fields-FieldsScrubbed (field k v r) =
        (scrub_value-IsScrubbed v, scrub_fields-FieldsScrubbed r)

  redact_urls-FieldsScrubbed :
      (document : Fields)
      → is_dns_event (lookup (text "bite") document) ≡ false
      → FieldsScrubbed (redact_urls mode document)
  redact_urls-FieldsScrubbed document h = rw h (
      blanked (url_struct document) (scrub_fields mode document)
        (scrub_fields-FieldsScrubbed document))

lookup-without :
    (key other : Text) (fs : Fields) → other ≢ key → lookup key (without other fs) ≡ lookup key fs
lookup-without key other end n = refl
lookup-without key other (field k v r) n = elim (Bool-cases (k == other)) [
  | inl e ↦
      rw (e, list_eq-false k key (λ d. n (sym ((list_beq_iff k other).0 e) ∙ d)))
        (lookup-without key other r n)
  | inr m ↦ elim (Bool-cases (k == key)) [
    | inl d ↦ rw (m, d) refl
    | inr f ↦ rw (m, f) (lookup-without key other r n)
  ]
]
  where
    list_eq-false : (a b : Text) → a ≢ b → (a == b) ≡ false
    list_eq-false a b n = elim (Bool-cases (a == b)) [
      | inl e ↦ absurd (n ((list_beq_iff a b).0 e))
      | inr f ↦ f
    ]

kept_type :
    (drops_packet : Bool) (document : Fields)
    → lookup (text "bite") (if drops_packet then without (text "packet") document else document)
      ≡ lookup (text "bite") document
kept_type true document = lookup-without (text "bite") (text "packet") document (λ e. cc)
kept_type false document = refl

-- Whatever the document of an event other than a DNS lookup holds, and at whatever depth, once it
-- is redacted in a mode other than full no text in it, but for the keys of its dicts, starts as a
-- URL and has a ? or a # left.
pub redact-FieldsScrubbed :
    (mode : UrlMode) (drops_packet : Bool) (document : Fields)
    → mode ≢ full
    → is_dns_event (lookup (text "bite") document) ≡ false
    → FieldsScrubbed (redact mode drops_packet document)
unfolding redact
redact-FieldsScrubbed full drops_packet document n h = absurd (n refl)
redact-FieldsScrubbed trimmed drops_packet document n h =
    redact_urls-FieldsScrubbed trimmed n
      (if drops_packet then without (text "packet") document else document)
      (ap is_dns_event (kept_type drops_packet document) ∙ h)
redact-FieldsScrubbed host_only drops_packet document n h =
    redact_urls-FieldsScrubbed host_only n
      (if drops_packet then without (text "packet") document else document)
      (ap is_dns_event (kept_type drops_packet document) ∙ h)
