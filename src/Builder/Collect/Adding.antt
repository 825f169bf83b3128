-- ===== src/Builder/Collect/Adding.antt =====
-- What adding to the entries adds.
use turkey_bite.Prelude.{
  ◌≡◌, subst, refl, sym, ap, ◌∙◌, ◌↔◌, ◌⊎◌, inl, inr, Bool, true, false, ◌||◌, List, [], ◌∷◌, ◌++◌,
  map, arith, Bool-cases, or-eq-false, if◌then◌else◌, ◌==◌, nat_eq, list_eq, list_beq_iff, elem,
}
use turkey_bite.Prelude.Members.{In, here, there, In-append, In-append_left, In-append_right}
use turkey_bite.Text.{Text}
use turkey_bite.Text.Sorting.{NoRepeats}
use turkey_bite.Builder.{Said, Entries}
use turkey_bite.Builder.Interning.{Says, Says-cons}
use turkey_bite.Builder.Collect.{add_all, add_said, add_entry}

elem-In : (c : Text) (xs : List Text) → elem c xs ≡ true → In c xs
elem-In c [] h = absurd (let z : ⊥ = cc in z)
elem-In c (x ∷ xs) h = elim (Bool-cases (c == x)) [
  | inl e ↦ here ((list_beq_iff c x).0 e)
  | inr n ↦ there (elem-In c xs (later (c == x) (elem c xs) n h))
]
  where
    later : (a b : Bool) → a ≡ false → (a || b) ≡ true → b ≡ true
    later a b n h = ground arith

add_one : Text → List Text → List Text
add_one c old = if elem c old then old else old ++ c ∷ []

add_one-In : (d c : Text) (old : List Text) → In c (add_one d old) ↔ (In c old ⊎ (c ≡ d))
unfolding add_one
add_one-In d c old = elim (Bool-cases (elem d old)) [
  | inl e ↦ rw e (
    (λ m. inl m),
    λ m. elim m [ inl o ↦ o | inr p ↦ subst (λ x. In x old) (sym p) (elem-In d old e) ],
  )
  | inr n ↦ rw n (
    (λ m. elim (In-append c old (d ∷ []) m) [ inl o ↦ inl o | inr l ↦ inr (only c d l) ]),
    λ m. elim m [
      | inl o ↦ In-append_left c old (d ∷ []) o
      | inr p ↦ In-append_right c old (d ∷ []) (here p)
    ],
  )
]
  where
    only : (c d : Text) → In c (d ∷ []) → c ≡ d
    only c d (here e) = e
    only c d (there m) = elim m [ ]

pub add_all-In :
    (names old : List Text) (c : Text) → In c (add_all old names) ↔ (In c old ⊎ In c names)
unfolding add_one
add_all-In [] old c = ((λ m. inl m), λ m. elim m [ inl o ↦ o | inr n ↦ elim n [ ] ])
add_all-In (d ∷ names) old c =
    let (to, from) = add_all-In names (add_one d old) c in
    let (onto, into) = add_one-In d c old in
    (
      (λ m. elim (to m) [
        | inl o ↦ elim (onto o) [ inl p ↦ inl p | inr e ↦ inr (here e) ]
        | inr n ↦ inr (there n)
      ]),
      λ m. from (elim m [
        | inl o ↦ inl (into (inl o))
        | inr n ↦ elim n [ here e ↦ inl (into (inr e)) | there n' ↦ inr n' ]
      ]),
    )

-- A list says what it said before, and the categories that are added for it.
abbrev Adds : Text → List Text → Said → Text → Text → Type 0
Adds name categories said s c = Says said s c ⊎ ((name ≡ s) × In c categories)

Says-more :
    (n : Text) (old new : List Text) (said : Said) (s c : Text)
    → (In c old → In c new)
    → Says ((n, old) ∷ said) s c
    → Says ((n, new) ∷ said) s c
Says-more n old new said s c k says = elim (Says-cons n old said s c says) [
  | inl (e, m) ↦ (new, here (pair_path e), k m)
  | inr (cs, m, d) ↦ (cs, there m, d)
]
  where
    pair_path : n ≡ s → ◌≡◌ {A = Text × List Text} (s, new) (n, new)
    pair_path e = cc

Says-first :
    (n : Text) (cs : List Text) (said : Said) (s c : Text)
    → n ≡ s
    → In c cs
    → Says ((n, cs) ∷ said) s c
Says-first n cs said s c e m = (cs, here (pair_path e), m)
  where
    pair_path : n ≡ s → ◌≡◌ {A = Text × List Text} (s, cs) (n, cs)
    pair_path e = cc

add_said-Adds :
    (name : Text) (categories : List Text) (said : Said) (s c : Text)
    → Says (add_said name categories said) s c ↔ Adds name categories said s c
add_said-Adds name categories [] s c = (
  (λ says. elim (Says-cons name (add_all [] categories) [] s c says) [
    | inl (e, m) ↦ elim ((add_all-In categories [] c).0 m) [
      | inl o ↦ elim o [ ]
      | inr n ↦ inr (e, n)
    ]
    | inr (cs, m, d) ↦ elim m [ ]
  ]),
  λ h. elim h [
    | inl (cs, m, d) ↦ elim m [ ]
    | inr (e, m) ↦
        Says-first name (add_all [] categories) [] s c e ((add_all-In categories [] c).1 (inr m))
  ],
)
add_said-Adds name categories ((n, old) ∷ said) s c = elim (Bool-cases (n == name)) [
  | inl same ↦
      let e : n ≡ name = (list_beq_iff n name).0 same in
      let new = add_all old categories in
      rw same (
        (λ says. elim (Says-cons n new said s c says) [
          | inl (d, m) ↦ elim ((add_all-In categories old c).0 m) [
            | inl o ↦ inl (Says-first n old said s c d o)
            | inr k ↦ inr (sym e ∙ d, k)
          ]
          | inr (cs, m, d) ↦ inl (cs, there m, d)
        ]),
        λ h. elim h [
          | inl says ↦
              Says-more n old new said s c (λ o. (add_all-In categories old c).1 (inl o)) says
          | inr (d, m) ↦ Says-first n new said s c (e ∙ d) ((add_all-In categories old c).1 (inr m))
        ],
      )
  | inr other ↦
      let (to, from) = add_said-Adds name categories said s c in
      rw other (
        (λ says. elim (Says-cons n old (add_said name categories said) s c says) [
          | inl (d, m) ↦ inl (Says-first n old said s c d m)
          | inr later ↦ elim (to later) [ inl (cs, m, d) ↦ inl (cs, there m, d) | inr a ↦ inr a ]
        ]),
        λ h. elim h [
          | inl says ↦ elim (Says-cons n old said s c says) [
            | inl (d, m) ↦ Says-first n old (add_said name categories said) s c d m
            | inr later ↦ let (cs, m, d) = from (inl later) in (cs, there m, d)
          ]
          | inr a ↦ let (cs, m, d) = from (inr a) in (cs, there m, d)
        ],
      )
]

-- A list says a category of a key.
abbrev pub Has : Entries → Text → Text → Text → Type 0
Has entries key s c = (said : Said) × In (key, said) entries × Says said s c

first-Has :
    (k key : Text) (said : Said) (entries : Entries) (s c : Text)
    → k ≡ key
    → Says said s c
    → Has ((k, said) ∷ entries) key s c
first-Has k key said entries s c e says = (said, here (pair_path e), says)
  where
    pair_path : k ≡ key → ◌≡◌ {A = Text × Said} (key, said) (k, said)
    pair_path e = cc

Has-first :
    (k key : Text) (said : Said) (entries : Entries) (s c : Text)
    → Has ((k, said) ∷ entries) key s c
    → ((k ≡ key) × Says said s c) ⊎ Has entries key s c
Has-first k key said entries s c (t, here e, says) = inl (
  sym (ap (λ (x : Text × Said). x.0) e),
  subst (λ x. Says x s c) (ap (λ (x : Text × Said). x.1) e) says,
)
Has-first k key said entries s c (t, there m, says) = inr (t, m, says)

later-Has :
    (k key : Text) (said : Said) (entries : Entries) (s c : Text)
    → Has entries key s c
    → Has ((k, said) ∷ entries) key s c
later-Has k key said entries s c (t, m, says) = (t, there m, says)

-- What an entry adds.
abbrev pub Entered : Text → Text → List Text → Text → Text → Text → Type 0
Entered k name categories key s c = (k ≡ key) × (name ≡ s) × In c categories

pub add_entry-Entered :
    (k name : Text) (categories : List Text) (entries : Entries) (key s c : Text)
    → Has (add_entry k name categories entries) key s c
      ↔ (Has entries key s c ⊎ Entered k name categories key s c)
unfolding add_entry
add_entry-Entered k name categories [] key s c =
    let (to, from) = add_said-Adds name categories [] s c in
    (
      (λ h. elim (Has-first k key (add_said name categories []) [] s c h) [
        | inl (e, says) ↦ elim (to says) [
          | inl (cs, m, d) ↦ elim m [ ]
          | inr (d, m) ↦ inr (e, d, m)
        ]
        | inr (t, m, says) ↦ elim m [ ]
      ]),
      λ h. elim h [
        | inl (t, m, says) ↦ elim m [ ]
        | inr (e, d, m) ↦ first-Has k key (add_said name categories []) [] s c e (from (inr (d, m)))
      ],
    )
add_entry-Entered k name categories ((j, said) ∷ entries) key s c = elim (Bool-cases (j == k)) [
  | inl same ↦
      let e : j ≡ k = (list_beq_iff j k).0 same in
      let more = add_said name categories said in
      let (to, from) = add_said-Adds name categories said s c in
      rw same (
        (λ h. elim (Has-first j key more entries s c h) [
          | inl (d, says) ↦ elim (to says) [
            | inl old ↦ inl (first-Has j key said entries s c d old)
            | inr (p, m) ↦ inr (sym e ∙ d, p, m)
          ]
          | inr later ↦ inl (later-Has j key said entries s c later)
        ]),
        λ h. elim h [
          | inl old ↦ elim (Has-first j key said entries s c old) [
            | inl (d, says) ↦ first-Has j key more entries s c d (from (inl says))
            | inr later ↦ later-Has j key more entries s c later
          ]
          | inr (d, p, m) ↦ first-Has j key more entries s c (e ∙ d) (from (inr (p, m)))
        ],
      )
  | inr other ↦
      let more = add_entry k name categories entries in
      let (to, from) = add_entry-Entered k name categories entries key s c in
      rw other (
        (λ h. elim (Has-first j key said more s c h) [
          | inl (d, says) ↦ inl (first-Has j key said entries s c d says)
          | inr later ↦ elim (to later) [
            | inl old ↦ inl (later-Has j key said entries s c old)
            | inr a ↦ inr a
          ]
        ]),
        λ h. elim h [
          | inl old ↦ elim (Has-first j key said entries s c old) [
            | inl (d, says) ↦ first-Has j key said more s c d says
            | inr later ↦ later-Has j key said more s c (from (inl later))
          ]
          | inr a ↦ later-Has j key said more s c (from (inr a))
        ],
      )
]

abbrev pub keys_of : Entries → List Text
keys_of entries = map (λ e. e.0) entries

elem-add_entry :
    (x k name : Text) (categories : List Text) (entries : Entries)
    → (x == k) ≡ false
    → elem x (keys_of entries) ≡ false
    → elem x (keys_of (add_entry k name categories entries)) ≡ false
unfolding add_entry
elem-add_entry x k name categories [] n h = rw n refl
elem-add_entry x k name categories ((j, said) ∷ entries) n h =
    let (a, b) = or-eq-false (x == j) (elem x (keys_of entries)) h in
    elim (Bool-cases (j == k)) [
      | inl same ↦ rw same (rw (a, b) refl)
      | inr other ↦ rw other (rw (a, elem-add_entry x k name categories entries n b) refl)
    ]

pub add_entry-NoRepeats :
    (k name : Text) (categories : List Text) (entries : Entries)
    → NoRepeats (keys_of entries)
    → NoRepeats (keys_of (add_entry k name categories entries))
unfolding add_entry
add_entry-NoRepeats k name categories [] h = (refl, tt)
add_entry-NoRepeats k name categories ((j, said) ∷ entries) (f, h) = elim (Bool-cases (j == k)) [
  | inl same ↦ rw same (f, h)
  | inr other ↦ rw other (
    elem-add_entry j k name categories entries other f,
    add_entry-NoRepeats k name categories entries h,
  )
]
