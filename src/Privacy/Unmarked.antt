-- ===== src/Privacy/Unmarked.antt =====
-- What trimming leaves of a URL, for src/libtb/privacy.
use turkey_bite.Prelude.{
  and_true, ℕ, zero, suc, ◌-◌, ◌≡◌, ◌≢◌, refl, inl, inr, Bool, true, false, ◌&&◌, not, Option, none,
  some, [], ◌∷◌, ◌++◌, reverse, length, arith, all, and-eq-true, Bool-cases, if◌then◌else◌, ◌==◌,
  nat_eq, list_eq, elem, take,
}
use mathlib.Core.List.{reverse-cons}
use turkey_bite.Text.{Text, text, drop_while, ends_with, strip}
use turkey_bite.Privacy.{
  UrlMode, full, trimmed, host_only, bare_schemes, is_letter, is_scheme_char, is_slash, until,
  from_first, after_colon, read_name, add_wrapper, ends_scheme, match_scheme, UrlStart,
  with_slashes, match_start, is_lead, after_last, rstrip_by, rstrip, is_mark, is_end, last_scheme,
  trim_path, trim_authority, trim, closer_after, drop_closer, trim_start, trim_url,
}

abbrev pub is_plain : ℕ → Bool
is_plain c = not (is_mark c)

-- No ? and no # stands in the text.
abbrev pub Unmarked : Text → Type 0
Unmarked s = all is_plain s ≡ true

append-Unmarked : (s t : Text) → Unmarked s → Unmarked t → Unmarked (s ++ t)
append-Unmarked [] t h k = k
append-Unmarked (c ∷ s) t h k =
    let (a, b) = and-eq-true (is_plain c) (all is_plain s) h in
    and_true (is_plain c) _ a (append-Unmarked s t b k)

reverse-Unmarked : (s : Text) → Unmarked s → Unmarked (reverse s)
reverse-Unmarked [] h = refl
reverse-Unmarked (c ∷ s) h =
    let (a, b) = and-eq-true (is_plain c) (all is_plain s) h in
    rw reverse-cons (append-Unmarked (reverse s) (c ∷ []) (reverse-Unmarked s b) (rw a refl))

module _ (p : ℕ → Bool) where
  drop_while-Unmarked : (s : Text) → Unmarked s → Unmarked (drop_while p s)
  drop_while-Unmarked [] h = refl
  drop_while-Unmarked (c ∷ s) h = elim (Bool-cases (p c)) [
    | inl e ↦ rw e (drop_while-Unmarked s (and-eq-true (is_plain c) (all is_plain s) h).1)
    | inr n ↦ rw n h
  ]

  until-Unmarked : (s : Text) → Unmarked s → Unmarked (until p s)
  unfolding until
  until-Unmarked [] h = refl
  until-Unmarked (c ∷ s) h =
      let (a, b) = and-eq-true (is_plain c) (all is_plain s) h in
      elim (Bool-cases (p c)) [
        | inl e ↦ rw e refl
        | inr n ↦ rw n (and_true (is_plain c) _ a (until-Unmarked s b))
      ]

  -- Where every character short of a class is plain, what stands before the class is.
  until-plain : ((c : ℕ) → p c ≡ false → is_plain c ≡ true) → (s : Text) → Unmarked (until p s)
  unfolding until
  until-plain k [] = refl
  until-plain k (c ∷ s) = elim (Bool-cases (p c)) [
    | inl e ↦ rw e refl
    | inr n ↦ rw n (and_true (is_plain c) _ (k c n) (until-plain k s))
  ]

  rstrip_by-Unmarked : (s : Text) → Unmarked s → Unmarked (rstrip_by p s)
  unfolding rstrip_by
  rstrip_by-Unmarked s h =
      reverse-Unmarked (drop_while p (reverse s))
        (drop_while-Unmarked (reverse s) (reverse-Unmarked s h))

take-Unmarked : (n : ℕ) (s : Text) → Unmarked s → Unmarked (take n s)
take-Unmarked zero s h = refl
take-Unmarked (suc n) [] h = refl
take-Unmarked (suc n) (c ∷ s) h =
    let (a, b) = and-eq-true (is_plain c) (all is_plain s) h in
    and_true (is_plain c) _ a (take-Unmarked n s b)

after_last-Unmarked : (c : ℕ) (s : Text) → Unmarked s → Unmarked (after_last c s)
unfolding after_last
after_last-Unmarked c s h =
    reverse-Unmarked (until (λ d. d == c) (reverse s))
      (until-Unmarked (λ d. d == c) (reverse s) (reverse-Unmarked s h))

rstrip-Unmarked : (s : Text) → Unmarked s → Unmarked (rstrip s)
unfolding rstrip
rstrip-Unmarked s h = rstrip_by-Unmarked _ s h

letter-is_plain : (c : ℕ) → is_letter c ≡ true → is_plain c ≡ true
letter-is_plain c h = ground arith

scheme_char-is_plain : (c : ℕ) → not (is_scheme_char c) ≡ false → is_plain c ≡ true
scheme_char-is_plain c h = ground arith

slash-is_plain : (c : ℕ) → not (is_slash c) ≡ false → is_plain c ≡ true
slash-is_plain c h = ground arith

inside-is_plain : (c : ℕ) → is_end c ≡ false → is_plain c ≡ true
inside-is_plain c h = ground arith

before_mark-is_plain : (c : ℕ) → is_mark c ≡ false → is_plain c ≡ true
before_mark-is_plain c h = rw h refl

-- The text before the rest, where there is one, is unmarked.
abbrev First : Option (Text × Text) → Type 0
First none = Unit
First (some (front, rest)) = Unmarked front

if-First :
    (b : Bool) (x y : Option (Text × Text))
    → (b ≡ true → First x)
    → First y
    → First (if b then x else y)
if-First true x y h k = h refl
if-First false x y h k = k

after_colon-First : (c : ℕ) (more s : Text) → Unmarked (c ∷ more) → First (after_colon c more s)
after_colon-First c more [] h = tt
after_colon-First c more (d ∷ s) h = if-First (d == b':') (some (c ∷ more, s)) none (λ _. h) tt

read_name-First : (s : Text) → First (read_name s)
unfolding read_name
read_name-First [] = tt
read_name-First (c ∷ s) =
    if-First (is_letter c)
      (after_colon c (until (λ d. not (is_scheme_char d)) s)
        (from_first (λ d. not (is_scheme_char d)) s))
      none
      (λ e.
        after_colon-First c (until (λ d. not (is_scheme_char d)) s)
          (from_first (λ d. not (is_scheme_char d)) s)
          (and_true (is_plain c) _ (letter-is_plain c e)
            (until-plain (λ d. not (is_scheme_char d)) scheme_char-is_plain s)))
      tt

add_wrapper-First :
    (name : Text) (o : Option (Text × Text)) → Unmarked name → First o → First (add_wrapper name o)
add_wrapper-First name none h k = tt
add_wrapper-First name (some (scheme, rest)) h k = append-Unmarked name (b':' ∷ scheme) h k

match_scheme-First : (skip : ℕ) (s : Text) → First (match_scheme skip s)
unfolding match_scheme
match_scheme-First skip [] = tt
match_scheme-First (suc skip) (c ∷ s) = match_scheme-First skip s
match_scheme-First zero (c ∷ s) =
    chosen (read_name (c ∷ s)) (read_name-First (c ∷ s)) (λ k. match_scheme-First k s)
  where
    chosen :
        (o : Option (Text × Text))
        → First o
        → ((k : ℕ) → First (match_scheme k s))
        → First (elim o [
          | none ↦ none
          | some (name, rest) ↦
              let wrapped = add_wrapper name (match_scheme (length name) s) in
              if ends_scheme name rest then some (name ++ b':' ∷ [], rest) else wrapped
        ])
    chosen none h later = tt
    chosen (some (name, rest)) h later =
        if-First (ends_scheme name rest) (some (name ++ b':' ∷ [], rest))
          (add_wrapper name (match_scheme (length name) s))
          (λ _. append-Unmarked name (b':' ∷ []) h refl)
          (add_wrapper-First name (match_scheme (length name) s) h (later (length name)))

-- The parts of a match that are kept whole are unmarked.
abbrev pub StartUnmarked : Option UrlStart → Type 0
StartUnmarked none = Unit
StartUnmarked (some m) = Unmarked (m.scheme ++ m.slashes)

match_start-StartUnmarked : (value : Text) → StartUnmarked (match_start value)
unfolding match_start
match_start-StartUnmarked value =
    slashed (match_scheme 0 (from_first (λ c. not (is_lead c)) value))
      (match_scheme-First 0 (from_first (λ c. not (is_lead c)) value))
  where
    slashed :
        (o : Option (Text × Text))
        → First o
        → StartUnmarked (with_slashes (until (λ c. not (is_lead c)) value) o)
    slashed none h = tt
    slashed (some (scheme, s)) h =
        append-Unmarked scheme (until (λ c. not (is_slash c)) s) h
          (until-plain (λ c. not (is_slash c)) slash-is_plain s)

module _ (start rest : Text) (h : Unmarked start) where
  trim_path-Unmarked : (mode : UrlMode) → Unmarked (trim_path mode start rest)
  trim_path-Unmarked host_only = rstrip-Unmarked start h
  trim_path-Unmarked full =
      rstrip-Unmarked (start ++ until is_mark rest) (
        append-Unmarked start (until is_mark rest) h
          (until-plain is_mark before_mark-is_plain rest))
  trim_path-Unmarked trimmed =
      rstrip-Unmarked (start ++ until is_mark rest) (
        append-Unmarked start (until is_mark rest) h
          (until-plain is_mark before_mark-is_plain rest))

  host : Unmarked (after_last b'@' (until is_end rest))
  host = after_last-Unmarked b'@' (until is_end rest) (until-plain is_end inside-is_plain rest)

  whole :
      Unmarked
        (start ++ after_last b'@' (until is_end rest) ++ until is_mark (from_first is_end rest))
  whole =
      append-Unmarked (start ++ after_last b'@' (until is_end rest))
        (until is_mark (from_first is_end rest))
        (append-Unmarked start (after_last b'@' (until is_end rest)) h host)
        (until-plain is_mark before_mark-is_plain (from_first is_end rest))

  trim_authority-Unmarked : (mode : UrlMode) → Unmarked (trim_authority mode start rest)
  trim_authority-Unmarked host_only =
      rstrip-Unmarked _ (append-Unmarked start (after_last b'@' (until is_end rest)) h host)
  trim_authority-Unmarked full = rstrip-Unmarked _ whole
  trim_authority-Unmarked trimmed = rstrip-Unmarked _ whole

if-Unmarked : (b : Bool) (s t : Text) → Unmarked s → Unmarked t → Unmarked (if b then s else t)
if-Unmarked true s t h k = h
if-Unmarked false s t h k = k

trim-Unmarked :
    (mode : UrlMode) (m : UrlStart) → Unmarked (m.scheme ++ m.slashes) → Unmarked (trim mode m)
unfolding trim
trim-Unmarked mode m h =
    let start = m.scheme ++ m.slashes in
    let last = last_scheme m.scheme in
    let path = trim_path-Unmarked start m.rest h mode in
    if-Unmarked (elem last bare_schemes && m.slashes == []) (trim_path mode start m.rest)
      (if last == text "file" && not (length m.slashes == 2)
        then trim_path mode start m.rest
        else trim_authority mode start m.rest)
      path
      (if-Unmarked (last == text "file" && not (length m.slashes == 2))
        (trim_path mode start m.rest) (trim_authority mode start m.rest) path
        (trim_authority-Unmarked start m.rest h mode))

drop_closer-Unmarked : (o : Option ℕ) (s : Text) → Unmarked s → Unmarked (drop_closer o s)
drop_closer-Unmarked none s h = h
drop_closer-Unmarked (some c) s h =
    if-Unmarked (ends_with (c ∷ []) s) (rstrip (take (length s - 1) s)) s
      (rstrip-Unmarked (take (length s - 1) s) (take-Unmarked (length s - 1) s h)) h

trim_start-Unmarked :
    (mode : UrlMode) (value : Text) (o : Option UrlStart) (m : UrlStart)
    → StartUnmarked o
    → o ≡ some m
    → Unmarked (trim_start mode value o)
trim_start-Unmarked mode value none m h e = absurd (let z : ⊥ = cc in z)
trim_start-Unmarked mode value (some n) m h e =
    drop_closer-Unmarked (closer_after (reverse (strip n.lead))) (trim mode n)
      (trim-Unmarked mode n h)

-- A text that starts as a URL has no ? and no # left once it is trimmed, whatever stands in it.
pub trim_url-Unmarked :
    (mode : UrlMode) (value : Text) (m : UrlStart)
    → mode ≢ full
    → match_start value ≡ some m
    → Unmarked (trim_url mode value)
unfolding trim_url
trim_url-Unmarked full value m n e = absurd (n refl)
trim_url-Unmarked trimmed value m n e =
    trim_start-Unmarked trimmed value (match_start value) m (match_start-StartUnmarked value) e
trim_url-Unmarked host_only value m n e =
    trim_start-Unmarked host_only value (match_start value) m (match_start-StartUnmarked value) e
