-- ===== src/Psl/Owner.antt =====
-- What `registrable_domain` of src/libtb/psl names.
use turkey_bite.Prelude.{
  ◌+◌, ◌-◌, ◌≡◌, ◌≢◌, refl, sym, ap, ◌∙◌, true, false, Option, none, some, List, [], ◌∷◌, ◌++◌,
  arith, nat_eq, list_eq, length, leb, le→leb, length-append, drop-append, append_assoc, split_last,
  All, All-append_right,
}
use turkey_bite.Text.{Text, join}
use turkey_bite.Text.Labels.{join-split, split-join, split-IsLabel, IsLabel, split-ne-nil}
use turkey_bite.Json.{str}
use turkey_bite.Psl.{
  Rules, last_label, trim_host, last_n, public_suffix, with_owner, registrable_domain,
}
use turkey_bite.Psl.Longest.{Suffix, by_exception, by_rule, by_default, public_suffix_sound}
use turkey_bite.Sieve.Domains.{labels, Under}

-- One more label than the last ones.
last_n_one :
    (ys tail : List Text) (y : Text) → last_n (length tail + 1) ((ys ++ y ∷ []) ++ tail) ≡ y ∷ tail
last_n_one ys tail y =
    let n : length (ys ++ y ∷ tail) - (length tail + 1) ≡ length ys =
      omega (arith, length-append ys (y ∷ tail)) in
    rw (append_assoc, n) (drop-append ys (y ∷ tail))

-- What is registrable at a host with this public suffix: nothing at the suffix itself, and below
-- it the suffix and the one label to its left.
pub data Registrable (suffix host : Text) : Option Text → Type 0 where
  itself : host ≡ suffix → Registrable suffix host none
  owned :
      (above : List Text) (label domain : Text)
      → above ++ label ∷ labels suffix ≡ labels host
      → domain ≡ join b'.' (label ∷ labels suffix)
      → Registrable suffix host (some domain)

with_owner-Registrable :
    (suffix host : Text) (above : List Text)
    → above ++ labels suffix ≡ labels host
    → Registrable suffix host (with_owner suffix host)
unfolding with_owner
with_owner-Registrable suffix host [] e =
    let all : leb (length (labels host)) (length (labels suffix)) ≡ true =
      le→leb _ _ (omega (arith, ap (λ (l : List Text). length l) e)) in
    rw (all, with_owner)
      (itself (sym (join-split b'.' host) ∙ ap (join b'.') (sym e) ∙ join-split b'.' suffix))
with_owner-Registrable suffix host (x ∷ xs) e =
    let (ys, y, split_above) = split_last x xs in
    let parts : (ys ++ y ∷ []) ++ labels suffix ≡ labels host =
      ap (λ (l : List Text). l ++ labels suffix) split_above ∙ e in
    let more : leb (length (labels host)) (length (labels suffix)) ≡ false =
      ground (arith, ap (λ (l : List Text). length l) e, length-append (x ∷ xs) (labels suffix)) in
    rw (more, with_owner)
      (owned ys y _ (sym (append_assoc ys (y ∷ []) (labels suffix)) ∙ parts) (
        ap (λ (l : List Text). join b'.' (last_n (length (labels suffix) + 1) l)) (sym parts)
        ∙ ap (join b'.') (last_n_one ys (labels suffix) y)))

-- The last labels of a host, joined, lie above it.
Under-of_parts :
    (host : Text) (above : List Text) (label : Text) (rest : List Text)
    → above ++ label ∷ rest ≡ labels host
    → Under (join b'.' (label ∷ rest)) host
Under-of_parts host above label rest e =
    let w : All (IsLabel b'.') (above ++ label ∷ rest) = rw e (split-IsLabel b'.' host) in
    (
      above,
      ap (λ (l : List Text). above ++ l)
            (split-join b'.' label rest (All-append_right (IsLabel b'.') above (label ∷ rest) w))
          ∙ e,
    )

Under-of_list :
    (host : Text) (above rule : List Text)
    → above ++ rule ≡ labels host
    → join b'.' rule ≢ []
    → Under (join b'.' rule) host
unfolding join
Under-of_list host above [] e h = absurd (h refl)
Under-of_list host above (label ∷ rest) e h = Under-of_parts host above label rest e

last_label_parts :
    (x : Text) (xs : List Text) → (above : List Text) × (above ++ last_label (x ∷ xs) ∷ [] ≡ x ∷ xs)
last_label_parts x [] = ([], refl)
last_label_parts x (y ∷ xs) =
    let (above, e) = last_label_parts y xs in (x ∷ above, ap (λ (l : List Text). x ∷ l) e)

last_label-Under :
    (host : Text) (ls : List Text) → ls ≢ [] → ls ≡ labels host → Under (last_label ls) host
unfolding join
last_label-Under host [] h e = absurd (h refl)
last_label-Under host (x ∷ xs) h e =
    let (above, p) = last_label_parts x xs in
    Under-of_parts host above (last_label (x ∷ xs)) [] (p ∙ e)

Suffix-Under :
    (r : Rules) (host suffix : Text)
    → suffix ≢ []
    → Suffix r (labels host) suffix
    → Under suffix host
unfolding join
Suffix-Under r host suffix h (by_exception above label [] parts listed spelled) = absurd (h spelled)
Suffix-Under r host suffix h (by_exception above label (next ∷ rest) parts listed spelled) =
    rw spelled (
      Under-of_parts host (above ++ label ∷ []) next rest
        (append_assoc above (label ∷ []) (next ∷ rest) ∙ parts))
Suffix-Under r host suffix h (by_rule clear p) =
    rw p.spelled (Under-of_list host p.above p.rule p.parts (λ q. h (p.spelled ∙ q)))
Suffix-Under r host suffix h (by_default clear free spelled) =
    rw spelled (last_label-Under host (labels host) (split-ne-nil b'.' host) refl)

owner_of_suffix :
    (r : Rules) (host suffix : Text)
    → public_suffix (some r) (str host) ≡ some suffix
    → registrable_domain (some r) (str host) ≡ with_owner suffix (trim_host host)
unfolding registrable_domain
owner_of_suffix r host suffix h = rw h

-- With a list loaded and a public suffix that is not empty, the registrable domain of a host is
-- nothing where the trimmed host is its own public suffix, and otherwise the host's last labels
-- of which all but the first are the suffix's.
pub registrable_domain-Registrable :
    (r : Rules) (host suffix : Text)
    → public_suffix (some r) (str host) ≡ some suffix
    → suffix ≢ []
    → Registrable suffix (trim_host host) (registrable_domain (some r) (str host))
registrable_domain-Registrable r host suffix h full =
    let (above, e) =
      Suffix-Under r (trim_host host) suffix full (public_suffix_sound r host suffix h) in
    rw (owner_of_suffix r host suffix h) (with_owner-Registrable suffix (trim_host host) above e)
