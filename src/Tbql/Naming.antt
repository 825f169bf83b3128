-- ===== src/Tbql/Naming.antt =====
-- Which fields the DSL of a term names, by what these fields satisfy.
use turkey_bite.Prelude.{
  ◌≡◌, refl, ap, ◌∙◌, inl, inr, Bool, true, false, ◌&&◌, ◌||◌, not, Option, none, some, List, [],
  ◌∷◌, ◌++◌, arith, if◌then◌else◌, Bool-cases, ◌==◌, nat_eq, list_eq, list_beq_iff, elem,
  elem-append,
}
use turkey_bite.Text.{Text, text, lower}
use turkey_bite.Tbql.{
  Mistake, Result, ok, mistake, bad_boolean, bad_address, bad_time, not_comparable, empty_quotes,
  unknown_field, Tok, Range,
}
use turkey_bite.Tbql.Ensures.{Ensures, holds, fails}
use turkey_bite.Tbql.Fields.{Field, FieldType, keyword, ip, date, boolean, resolve}
use turkey_bite.Tbql.Dsl.{
  Dsl, match_all, matches, equals, is_true, wildcard, prefix, exists, range, must_not, filter,
  should, Dsls, no_dsls, dsl, is_wild, no_dots, has_now, free_term_fields, free_wildcard_fields,
  each_field, bounds_pass, limit_of, compare_dsl, free_text, check_bounds, check_compared,
  value_dsl, field_dsl, exists_dsl, known_dsl, is_has, named_dsl, term_dsl, is_free,
}

-- Every field that the DSL names satisfies `P`, if it is asked for, and `Q`, if it is compared.
unfoldable mutual
  pub Names : (Text → Type 0) → (Text → Type 0) → Dsl → Type 0
  Names P Q match_all = Unit
  Names P Q (matches f v) = Q f
  Names P Q (equals f v) = Q f
  Names P Q (is_true f b) = Q f
  Names P Q (wildcard f v) = Q f
  Names P Q (prefix f v) = Q f
  Names P Q (exists f) = P f
  Names P Q (range f a b) = Q f
  Names P Q (must_not q) = Names P Q q
  Names P Q (filter qs) = NamesAll P Q qs
  Names P Q (should qs) = NamesAll P Q qs

  pub NamesAll : (Text → Type 0) → (Text → Type 0) → Dsls → Type 0
  NamesAll P Q no_dsls = Unit
  NamesAll P Q (dsl q qs) = Names P Q q × NamesAll P Q qs

pub or_left : (a b : Bool) → a ≡ true → (a || b) ≡ true
or_left a b e = ground arith

pub or_right : (a b : Bool) → b ≡ true → (a || b) ≡ true
or_right a b e = ground arith

-- The fields that free text is matched against.
abbrev pub free_fields : List Text
free_fields =
    free_term_fields ++ (free_wildcard_fields ++ text "bite.client" ∷ text "bite.resolved_ips" ∷ [])

term_among : (f : Text) → elem f free_term_fields ≡ true → elem f free_fields ≡ true
term_among f m =
    elem-append f free_term_fields
      (free_wildcard_fields ++ text "bite.client" ∷ text "bite.resolved_ips" ∷ [])
    ∙ or_left _ _ m

wild_among : (f : Text) → elem f free_wildcard_fields ≡ true → elem f free_fields ≡ true
wild_among f m =
    elem-append f free_term_fields
      (free_wildcard_fields ++ text "bite.client" ∷ text "bite.resolved_ips" ∷ [])
    ∙ or_right (elem f free_term_fields) _ (
        elem-append f free_wildcard_fields (text "bite.client" ∷ text "bite.resolved_ips" ∷ [])
        ∙ or_left _ _ m)

module _ (P Q : Text → Type 0) where
  mutual
    unfolding Names

    pub Names-mono :
        (P' Q' : Text → Type 0)
        → ((f : Text) → P f → P' f)
        → ((f : Text) → Q f → Q' f)
        → (q : Dsl) → Names P Q q
        → Names P' Q' q
    Names-mono P' Q' p r match_all h = tt
    Names-mono P' Q' p r (matches f v) h = r f h
    Names-mono P' Q' p r (equals f v) h = r f h
    Names-mono P' Q' p r (is_true f b) h = r f h
    Names-mono P' Q' p r (wildcard f v) h = r f h
    Names-mono P' Q' p r (prefix f v) h = r f h
    Names-mono P' Q' p r (exists f) h = p f h
    Names-mono P' Q' p r (range f a b) h = r f h
    Names-mono P' Q' p r (must_not q) h = Names-mono P' Q' p r q h
    Names-mono P' Q' p r (filter qs) h = NamesAll-mono P' Q' p r qs h
    Names-mono P' Q' p r (should qs) h = NamesAll-mono P' Q' p r qs h

    pub NamesAll-mono :
        (P' Q' : Text → Type 0)
        → ((f : Text) → P f → P' f)
        → ((f : Text) → Q f → Q' f)
        → (qs : Dsls) → NamesAll P Q qs
        → NamesAll P' Q' qs
    NamesAll-mono P' Q' p r no_dsls h = tt
    NamesAll-mono P' Q' p r (dsl q qs) (h, hs) =
        (Names-mono P' Q' p r q h, NamesAll-mono P' Q' p r qs hs)

  module _ (is_address is_time : Text → Bool) where
    if-Ensures :
        {A : Type 0} {R : A → Type 0} (b : Bool) (x y : Result A)
        → Ensures R x
        → Ensures R y
        → Ensures R (if b then x else y)
    if-Ensures true x y hx hy = hx
    if-Ensures false x y hx hy = hy

    or_mistake :
        (b : Bool) (q : Dsl) (m : Mistake) (t : Tok)
        → Names P Q q
        → Ensures (Names P Q) (if b then ok q else mistake m t.pos t.length)
    or_mistake true q m t h = holds q h
    or_mistake false q m t h = fails m t.pos _

    check_bounds-Ensures :
        (ty : FieldType) (t : Tok) (r : Range) (q : Dsl)
        → Names P Q q
        → Ensures (Names P Q) (check_bounds is_address is_time ty t r q)
    check_bounds-Ensures ip t r q h =
        or_mistake (bounds_pass is_address r.low && bounds_pass is_address r.high) q bad_address t h
    check_bounds-Ensures date t r q h =
        or_mistake (bounds_pass is_time r.low && bounds_pass is_time r.high) q bad_time t h
    check_bounds-Ensures keyword t r q h = holds q h
    check_bounds-Ensures boolean t r q h = holds q h

    check_compared-Ensures :
        (ty : FieldType) (t : Tok) (q : Dsl)
        → Names P Q q
        → Ensures (Names P Q) (check_compared is_address is_time ty t q)
    check_compared-Ensures boolean t q h = fails not_comparable t.pos _
    check_compared-Ensures ip t q h = or_mistake (is_address t.value) q bad_address t h
    check_compared-Ensures date t q h = or_mistake (is_time t.value) q bad_time t h
    check_compared-Ensures keyword t q h = holds q h

    compare_dsl-Names : (f op v : Text) → Q f → Names P Q (compare_dsl f op v)
    unfolding Names
    compare_dsl-Names f op v h = elim (Bool-cases (op == text ">")) [
      | inl a ↦ rw a h
      | inr b ↦ elim (Bool-cases (op == text ">=")) [
        | inl c ↦ rw (b, c) h
        | inr d ↦ elim (Bool-cases (op == text "<")) [
          | inl e ↦ rw (b, d, e) h
          | inr g ↦ rw (b, d, g) h
        ]
      ]
    ]

    -- A term on a field that is known.
    value_dsl-Names :
        (ty : FieldType) (f : Field) (t : Tok)
        → P f.name
        → Q f.name
        → Ensures (Names P Q) (value_dsl is_address is_time ty f t)
    unfolding Names
    value_dsl-Names boolean f t p h =
        if-Ensures (lower t.value == text "true") (ok (is_true f.name true))
          (if lower t.value == text "false"
            then ok (is_true f.name false)
            else mistake bad_boolean t.pos t.length)
          (holds (is_true f.name true) h)
          (or_mistake (lower t.value == text "false") (is_true f.name false) bad_boolean t h)
    value_dsl-Names ip f t p h =
        if-Ensures (t.value == text "*") (ok (exists f.name))
          (if is_address t.value
            then ok (equals f.name t.value)
            else mistake bad_address t.pos t.length)
          (holds (exists f.name) p)
          (or_mistake (is_address t.value) (equals f.name t.value) bad_address t h)
    value_dsl-Names date f t p h =
        let day =
          range f.name (some (true, t.value))
            (some (true, if has_now t.value then t.value else t.value ++ text "||/d")) in
        if-Ensures (t.value == text "*") (ok (exists f.name))
          (if is_time t.value then ok day else mistake bad_time t.pos t.length)
          (holds (exists f.name) p) (or_mistake (is_time t.value) day bad_time t h)
    value_dsl-Names keyword f t p h =
        let plain = matches f.name t.value in
        let below =
          should (dsl plain (dsl (prefix f.name (no_dots t.value ++ text ".")) no_dsls)) in
        let wild = wildcard f.name t.value in
        let tree = if f.hierarchical then ok below else ok plain in
        if-Ensures (t.value == text "*" && not t.quoted) (ok (exists f.name))
          (if is_wild t.value && not t.quoted then ok wild else tree) (holds (exists f.name) p)
          (if-Ensures (is_wild t.value && not t.quoted) (ok wild) tree (holds wild h) (
            if-Ensures f.hierarchical (ok below) (ok plain) (holds below (h, (h, tt)))
              (holds plain h)))

    field_dsl-Names :
        (r : Option Range) (f : Field) (t : Tok)
        → P f.name
        → Q f.name
        → Ensures (Names P Q) (field_dsl is_address is_time r f t)
    unfolding Names
    field_dsl-Names (some r) f t p h =
        check_bounds-Ensures f.type t r
          (range f.name (limit_of r.include_low r.low) (limit_of r.include_high r.high)) h
    field_dsl-Names none f t p h =
        let q = compare_dsl f.name t.op t.value in
        if-Ensures (t.op == text ":") (value_dsl is_address is_time f.type f t)
          (check_compared is_address is_time f.type t q) (value_dsl-Names f.type f t p h)
          (check_compared-Ensures f.type t q (compare_dsl-Names f.name t.op t.value h))

    each_field-Names :
        (q : Text → Dsl) (names : List Text) (more : Dsls)
        → ((f : Text) → elem f names ≡ true → Names P Q (q f))
        → NamesAll P Q more
        → NamesAll P Q (each_field q names more)
    unfolding Names
    each_field-Names q [] more h k = k
    each_field-Names q (n ∷ names) more h k = (
      h n (or_left (n == n) _ ((list_beq_iff n n).1 refl)),
      each_field-Names q names more (λ f m. h f (or_right (f == n) _ m)) k,
    )

    -- What the fields have to satisfy for a term's DSL to name only such.
    pub record TermNames (t : Tok) : Type 0 where
      pub asked : (name : Text) (f : Field) → resolve name ≡ some f → P f.name
      pub compared :
          (name : Text) (f : Field) → t.field ≡ some name → resolve name ≡ some f → Q f.name
      pub free : is_free t.field ≡ true → (f : Text) → elem f free_fields ≡ true → Q f

    free_text-Names :
        (t : Tok)
        → TermNames t
        → is_free t.field ≡ true
        → Ensures (Names P Q) (free_text is_address is_time t)
    unfolding free_text Names
    free_text-Names t w e =
        let q = λ (f : Text) (m : elem f free_fields ≡ true). w.free e f m in
        let addresses : NamesAll P Q (
            if is_address t.value
            then dsl (equals (text "bite.client") t.value)
                (dsl (equals (text "bite.resolved_ips") t.value) no_dsls)
            else no_dsls) =
          both_addresses (is_address t.value) (q (text "bite.client") refl)
            (q (text "bite.resolved_ips") refl) in
        let wild = each_field (λ f. wildcard f (lower t.value)) free_wildcard_fields no_dsls in
        let exact =
          each_field (λ f. matches f (lower t.value)) free_term_fields
            (if is_address t.value
              then dsl (equals (text "bite.client") t.value)
                  (dsl (equals (text "bite.resolved_ips") t.value) no_dsls)
              else no_dsls) in
        if-Ensures (t.value == text "") (mistake empty_quotes t.pos t.length)
          (if is_wild t.value && not t.quoted then ok (should wild) else ok (should exact))
          (fails empty_quotes t.pos _)
          (if-Ensures (is_wild t.value && not t.quoted) (ok (should wild)) (ok (should exact))
            (holds (should wild) (
              each_field-Names (λ f. wildcard f (lower t.value)) free_wildcard_fields no_dsls
                (λ f m. q f (wild_among f m)) tt))
            (holds (should exact) (
              each_field-Names (λ f. matches f (lower t.value)) free_term_fields _
                (λ f m. q f (term_among f m)) addresses)))
      where
        both_addresses :
            (b : Bool)
            → Q (text "bite.client")
            → Q (text "bite.resolved_ips")
            → NamesAll P Q (
                if b
                then dsl
                    (equals (text "bite.client") t.value)
                    (dsl (equals (text "bite.resolved_ips") t.value) no_dsls)
                else no_dsls)
        both_addresses true x y = (x, (y, tt))
        both_addresses false x y = tt

    known_dsl-Names :
        (o : Option Field) (name : Text) (t : Tok)
        → TermNames t
        → t.field ≡ some name
        → resolve name ≡ o
        → Ensures (Names P Q) (known_dsl is_address is_time o name t)
    known_dsl-Names none name t w e r = fails unknown_field _ _
    known_dsl-Names (some f) name t w e r =
        field_dsl-Names t.range f t (w.asked name f r) (w.compared name f e r)

    exists_dsl-Names :
        (o : Option Field) (t : Tok)
        → TermNames t
        → resolve t.value ≡ o
        → Ensures (Names P Q) (exists_dsl is_address is_time o t)
    unfolding Names
    exists_dsl-Names none t w r = fails unknown_field t.pos _
    exists_dsl-Names (some f) t w r = holds (exists f.name) (w.asked t.value f r)

    named_dsl-Names :
        (o : Option Text) (t : Tok)
        → TermNames t
        → t.field ≡ o
        → Ensures (Names P Q) (named_dsl is_address is_time o t)
    named_dsl-Names none t w e = free_text-Names t w (ap is_free e)
    named_dsl-Names (some name) t w e =
        if-Ensures (is_has is_address is_time name) _ _
          (exists_dsl-Names (resolve t.value) t w refl)
          (known_dsl-Names (resolve name) name t w e refl)

    pub term_dsl-Names :
        (t : Tok) → TermNames t → Ensures (Names P Q) (term_dsl is_address is_time t)
    unfolding term_dsl
    term_dsl-Names t w = named_dsl-Names t.field t w refl
