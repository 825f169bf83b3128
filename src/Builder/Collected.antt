-- ===== src/Builder/Collected.antt =====
-- The rows that `_intern` collects, one for each entry that says something.
use turkey_bite.Prelude.{
  ℕ, ◌≡◌, subst, refl, sym, ap, ◌⊎◌, inl, inr, List, [], ◌∷◌, nat_eq, list_eq,
}
use turkey_bite.Prelude.Members.{In, here, there, In-append, In-append_left, In-append_right}
use turkey_bite.Text.{Text}
use turkey_bite.Index.{reverse_labels}
use turkey_bite.Builder.{
  Said, Entries, Coded, claimed_eq, intern, sort_coded, Names, encode, Interned, add_row,
  intern_entries,
}
use turkey_bite.Builder.Tables.{At, Grew, Grew-refl, Grew-trans, At-Grew, intern-At, intern-Grew}
use turkey_bite.Builder.Interning.{
  Says, NamesGrew, Coding, Coding-Grew, sort_coded-Coding, encode-Grew, encode-Coding,
}

pub record Kept (b c : Interned) : Type 0 where
  pub names : NamesGrew b.names c.names
  pub attrs : Grew b.attr_table c.attr_table
  pub rows : Grew b.rows c.rows

Kept-trans : (b c d : Interned) → Kept b c → Kept c d → Kept b d
Kept-trans b c d h k = record {
  names = (
    Grew-trans b.names.sources c.names.sources d.names.sources h.names.0 k.names.0,
    Grew-trans b.names.categories c.names.categories d.names.categories h.names.1 k.names.1,
  );
  attrs = Grew-trans b.attr_table c.attr_table d.attr_table h.attrs k.attrs;
  rows = Grew-trans b.rows c.rows d.rows h.rows k.rows;
}

add_row-Kept :
    (domain : Text) (co : Coded) (n : Names) (b : Interned)
    → NamesGrew b.names n
    → Kept b (add_row domain co n b)
add_row-Kept domain [] n b g = record {
  names = g;
  attrs = Grew-refl b.attr_table;
  rows = Grew-refl b.rows;
}
add_row-Kept domain (c ∷ co) n b g = record {
  names = g;
  attrs = intern-Grew (c ∷ co) b.attr_table;
  rows = ((reverse_labels domain, (intern (c ∷ co) b.attr_table).0) ∷ [], refl);
}

-- One turn of the loop.
abbrev pub turn : Text → Said → Interned → Interned
turn domain said b = add_row domain (sort_coded (encode said b.names).0) (encode said b.names).1 b

turn-Kept : (domain : Text) (said : Said) (b : Interned) → Kept b (turn domain said b)
turn-Kept domain said b =
    add_row-Kept domain (sort_coded (encode said b.names).0) (encode said b.names).1 b
      (encode-Grew said b.names)

intern_entries-Kept : (entries : Entries) (b : Interned) → Kept b (intern_entries entries b)
unfolding intern_entries
intern_entries-Kept [] b = record {
  names = (Grew-refl b.names.sources, Grew-refl b.names.categories);
  attrs = Grew-refl b.attr_table;
  rows = Grew-refl b.rows;
}
intern_entries-Kept ((domain, said) ∷ entries) b =
    Kept-trans b (turn domain said b) (intern_entries entries (turn domain said b))
      (turn-Kept domain said b) (intern_entries-Kept entries (turn domain said b))

-- The tables hold at `j` what is said of a key.
abbrev pub Holds : Interned → Said → ℕ → Type 0
Holds b said j = (co : Coded) × At b.attr_table j co × Coding b.names co said

Holds-Kept : (b c : Interned) (said : Said) (j : ℕ) → Kept b c → Holds b said j → Holds c said j
Holds-Kept b c said j k (co, at, w) = (
  co,
  At-Grew b.attr_table c.attr_table j co k.attrs at,
  Coding-Grew b.names c.names co said k.names w,
)

-- A row that a turn adds.
abbrev Added : Interned → Text → Said → Text × ℕ → Type 0
Added b domain said r = (r.0 ≡ reverse_labels domain) × Holds b said r.1

add_row-Added :
    (domain : Text) (said : Said) (co : Coded) (n : Names) (b : Interned) (r : Text × ℕ)
    → Coding n co said
    → In r (add_row domain co n b).rows
    → In r b.rows ⊎ Added (add_row domain co n b) domain said r
add_row-Added domain said [] n b r w m = inl m
add_row-Added domain said (c ∷ co) n b r w m =
    elim (In-append r b.rows ((reverse_labels domain, (intern (c ∷ co) b.attr_table).0) ∷ []) m) [
      | inl old ↦ inl old
      | inr new ↦ inr (last new)
    ]
  where
    last :
        In r ((reverse_labels domain, (intern (c ∷ co) b.attr_table).0) ∷ [])
        → Added (add_row domain (c ∷ co) n b) domain said r
    last (here e) = (
      ap (λ (x : Text × ℕ). x.0) e,
      (
        c ∷ co,
        subst (λ j. At (intern (c ∷ co) b.attr_table).1 j (c ∷ co))
            (sym (ap (λ (x : Text × ℕ). x.1) e)) (intern-At (c ∷ co) b.attr_table),
        w,
      ),
    )
    last (there q) = elim q [ ]

Added-add_row :
    (domain : Text) (said : Said) (co : Coded) (n : Names) (b : Interned) (s c : Text)
    → Coding n co said
    → Says said s c
    → (j : ℕ) × In (reverse_labels domain, j) (add_row domain co n b).rows
      × Holds (add_row domain co n b) said j
Added-add_row domain said [] n b s c w says =
    let (i, ks, k, a, b', p, q) = w.complete s c says in elim a [ ]
Added-add_row domain said (x ∷ co) n b s c w says =
    let j = (intern (x ∷ co) b.attr_table).0 in
    (
      j,
      In-append_right (reverse_labels domain, j) b.rows ((reverse_labels domain, j) ∷ [])
          (here refl),
      (x ∷ co, intern-At (x ∷ co) b.attr_table, w),
    )

turn-Coding :
    (said : Said) (b : Interned)
    → Coding (encode said b.names).1 (sort_coded (encode said b.names).0) said
turn-Coding said b =
    sort_coded-Coding (encode said b.names).1 (encode said b.names).0 said
      (encode-Coding said b.names)

-- Where a row comes from.
abbrev pub From : Interned → Entries → Text × ℕ → Type 0
From b entries r =
    (domain : Text) × (said : Said) × In (domain, said) entries
    × (r.0 ≡ reverse_labels domain)
    × Holds b said r.1

pub intern_entries-From :
    (entries : Entries) (b : Interned) (r : Text × ℕ)
    → In r (intern_entries entries b).rows
    → In r b.rows ⊎ From (intern_entries entries b) entries r
unfolding intern_entries
intern_entries-From [] b r m = inl m
intern_entries-From ((domain, said) ∷ entries) b r m =
    elim (intern_entries-From entries (turn domain said b) r m) [
      | inr (d, t, n, e, h) ↦ inr (d, t, there n, e, h)
      | inl before ↦
          elim (add_row-Added domain said (sort_coded (encode said b.names).0)
            (encode said b.names).1 b r (turn-Coding said b) before) [
              | inl old ↦ inl old
              | inr (e, h) ↦ inr (
                domain,
                said,
                here refl,
                e,
                Holds-Kept (turn domain said b) (intern_entries entries (turn domain said b)) said
                    r.1 (intern_entries-Kept entries (turn domain said b)) h,
              )
            ]
    ]

pub From-intern_entries :
    (entries : Entries) (b : Interned) (domain : Text) (said : Said) (s c : Text)
    → In (domain, said) entries
    → Says said s c
    → (j : ℕ) × In (reverse_labels domain, j) (intern_entries entries b).rows
      × Holds (intern_entries entries b) said j
unfolding intern_entries
From-intern_entries [] b domain said s c m says = elim m [ ]
From-intern_entries ((d, t) ∷ entries) b domain said s c (there m) says =
    From-intern_entries entries (turn d t b) domain said s c m says
From-intern_entries ((d, t) ∷ entries) b domain said s c (here e) says =
    let after = turn d t b in
    let kept = intern_entries-Kept entries after in
    let (j, m, h) =
      Added-add_row d t (sort_coded (encode t b.names).0) (encode t b.names).1 b s c
        (turn-Coding t b) (subst (λ x. Says x s c) (ap (λ (x : Text × Said). x.1) e) says) in
    subst
      (λ (x : Text × Said).
        (j : ℕ) × In (reverse_labels x.0, j) (intern_entries entries after).rows
        × Holds (intern_entries entries after) x.1 j)
      (sym e)
      (
        j,
        In-Grew after.rows (intern_entries entries after).rows kept.rows m,
        Holds-Kept after (intern_entries entries after) t j kept h,
      )
  where
    In-Grew : {r : Text × ℕ} (xs ys : List (Text × ℕ)) → Grew xs ys → In r xs → In r ys
    In-Grew {r} xs ys (more, e) m = subst (In r) (sym e) (In-append_left r xs more m)
