-- ===== src/Builder/Interning.antt =====
-- What `_intern` puts in its tables, against the entries it is given.
use turkey_bite.Prelude.{
  ℕ, ◌≡◌, subst, refl, sym, ap, ◌⊎◌, inl, inr, List, [], ◌∷◌, nat_eq, list_eq,
}
use turkey_bite.Prelude.Members.{In, here, there}
use turkey_bite.Text.{Text}
use turkey_bite.Builder.{Said, Coded, intern, intern_all, sorted_ids, sort_coded, Names, encode}
use turkey_bite.Builder.Tables.{At, Grew, Grew-refl, Grew-trans, At-Grew, intern-At, intern-Grew}
use turkey_bite.Builder.Sorting.{sorted_ids-In, In-sorted_ids, sort_coded-In, In-sort_coded}

pub intern_all-Grew : (cs table : List Text) → Grew table (intern_all cs table).1
unfolding intern_all
intern_all-Grew [] table = Grew-refl table
intern_all-Grew (c ∷ cs) table =
    Grew-trans table (intern c table).1 (intern_all cs (intern c table).1).1 (intern-Grew c table)
      (intern_all-Grew cs (intern c table).1)

intern_all-In :
    (cs table : List Text) (k : ℕ)
    → In k (intern_all cs table).0
    → (c : Text) × In c cs × At (intern_all cs table).1 k c
unfolding intern_all
intern_all-In [] table k m = elim m [ ]
intern_all-In (c ∷ cs) table k (here e) = (
  c,
  here refl,
  At-Grew (intern c table).1 _ k c (intern_all-Grew cs (intern c table).1)
      (subst (λ i. At (intern c table).1 i c) (sym e) (intern-At c table)),
)
intern_all-In (c ∷ cs) table k (there m) =
    let (d, n, h) = intern_all-In cs (intern c table).1 k m in (d, there n, h)

In-intern_all :
    (cs table : List Text) (c : Text)
    → In c cs
    → (k : ℕ) × In k (intern_all cs table).0 × At (intern_all cs table).1 k c
unfolding intern_all
In-intern_all [] table c m = elim m [ ]
In-intern_all (d ∷ cs) table c (here e) = (
  (intern d table).0,
  here refl,
  At-Grew (intern d table).1 _ _ c (intern_all-Grew cs (intern d table).1)
      (subst (At (intern d table).1 (intern d table).0) (sym e) (intern-At d table)),
)
In-intern_all (d ∷ cs) table c (there m) =
    let (k, n, h) = In-intern_all cs (intern d table).1 c m in (k, there n, h)

-- A source says a category.
abbrev pub Says : Said → Text → Text → Type 0
Says said s c = (cs : List Text) × In (s, cs) said × In c cs

-- Two ids of a tuple of claims, and the names that the tables have for them.
abbrev pub Stands : Names → Coded → Text → Text → Type 0
Stands n co s c =
    (i : ℕ) × (ks : List ℕ) × (k : ℕ) × In (i, ks) co
    × In k ks
    × At n.sources i s
    × At n.categories k c

abbrev pub NamesGrew : Names → Names → Type 0
NamesGrew n m = Grew n.sources m.sources × Grew n.categories m.categories

-- The claims stand for what is said.
pub record Coding (n : Names) (co : Coded) (said : Said) : Type 0 where
  pub sound :
      (i : ℕ) (ks : List ℕ) (k : ℕ)
      → In (i, ks) co
      → In k ks
      → (s : Text) × (c : Text) × Says said s c × At n.sources i s × At n.categories k c
  pub complete : (s c : Text) → Says said s c → Stands n co s c

pub Coding-Grew :
    (n m : Names) (co : Coded) (said : Said) → NamesGrew n m → Coding n co said → Coding m co said
Coding-Grew n m co said (g, h) w = record {
  sound = λ i ks k a b.
      let (s, c, says, p, q) = w.sound i ks k a b in
      (s, c, says, At-Grew n.sources m.sources i s g p, At-Grew n.categories m.categories k c h q);
  complete = λ s c says.
      let (i, ks, k, a, b, p, q) = w.complete s c says in
      (
        i,
        ks,
        k,
        a,
        b,
        At-Grew n.sources m.sources i s g p,
        At-Grew n.categories m.categories k c h q,
      );
}

pub sort_coded-Coding :
    (n : Names) (co : Coded) (said : Said) → Coding n co said → Coding n (sort_coded co) said
sort_coded-Coding n co said w = record {
  sound = λ i ks k a b. w.sound i ks k (sort_coded-In (i, ks) co a) b;
  complete = λ s c says.
      let (i, ks, k, a, b, p, q) = w.complete s c says in
      (i, ks, k, In-sort_coded (i, ks) co a, b, p, q);
}

pub encode-Grew : (said : Said) (n : Names) → NamesGrew n (encode said n).1
unfolding encode
encode-Grew [] n = (Grew-refl n.sources, Grew-refl n.categories)
encode-Grew ((s, []) ∷ said) n = encode-Grew said n
encode-Grew ((s, c ∷ cs) ∷ said) n =
    let n' : Names = record {
      sources = (intern s n.sources).1;
      categories = (intern_all (c ∷ cs) n.categories).1;
    } in
    let (g, h) = encode-Grew said n' in
    (
      Grew-trans n.sources n'.sources (encode said n').1.sources (intern-Grew s n.sources) g,
      Grew-trans n.categories n'.categories (encode said n').1.categories
          (intern_all-Grew (c ∷ cs) n.categories) h,
    )

pub Says-cons :
    (s : Text) (ds : List Text) (said : Said) (t c : Text)
    → Says ((s, ds) ∷ said) t c
    → ((s ≡ t) × In c ds) ⊎ Says said t c
Says-cons s ds said t c (cs, here e, d) = inl (
  sym (ap (λ (x : Text × List Text). x.0) e),
  subst (λ l. In c l) (ap (λ (x : Text × List Text). x.1) e) d,
)
Says-cons s ds said t c (cs, there m, d) = inr (cs, m, d)

Coding-none :
    (n : Names) (co : Coded) (s : Text) (said : Said)
    → Coding n co said
    → Coding n co ((s, []) ∷ said)
Coding-none n co s said w = record {
  sound = λ i ks k a b.
      let (t, c, (cs, m, d), p, q) = w.sound i ks k a b in (t, c, (cs, there m, d), p, q);
  complete = λ t c says. elim (Says-cons s [] said t c says) [
    | inl (e, m) ↦ elim m [ ]
    | inr later ↦ w.complete t c later
  ];
}

Coding-cons :
    (n : Names) (i : ℕ) (ks : List ℕ) (co : Coded) (s : Text) (ds : List Text) (said : Said)
    → At n.sources i s
    → ((k : ℕ) → In k ks → (c : Text) × In c ds × At n.categories k c)
    → ((c : Text) → In c ds → (k : ℕ) × In k ks × At n.categories k c)
    → Coding n co said
    → Coding n ((i, ks) ∷ co) ((s, ds) ∷ said)
Coding-cons n i ks co s ds said at into onto w = record {
  sound = λ j ls k a b. heard j ls k a b;
  complete = λ t c says. elim (Says-cons s ds said t c says) [
    | inl (e, m) ↦
        let (k, b, q) = onto c m in (i, ks, k, here refl, b, subst (At n.sources i) e at, q)
    | inr later ↦ let (j, ls, k, a, b, p, q) = w.complete t c later in (j, ls, k, there a, b, p, q)
  ];
}
  where
    heard :
        (j : ℕ) (ls : List ℕ) (k : ℕ)
        → In (j, ls) ((i, ks) ∷ co)
        → In k ls
        → (t : Text) × (c : Text) × Says ((s, ds) ∷ said) t c
          × At n.sources j t
          × At n.categories k c
    heard j ls k (here e) b =
        let (c, m, q) = into k (subst (λ l. In k l) (ap (λ (x : ℕ × List ℕ). x.1) e) b) in
        (
          s,
          c,
          (ds, here refl, m),
          subst (λ x. At n.sources x s) (sym (ap (λ (x : ℕ × List ℕ). x.0) e)) at,
          q,
        )
    heard j ls k (there a) b =
        let (t, c, (cs, m, d), p, q) = w.sound j ls k a b in (t, c, (cs, there m, d), p, q)

pub encode-Coding : (said : Said) (n : Names) → Coding (encode said n).1 (encode said n).0 said
unfolding encode
encode-Coding [] n = record {
  sound = λ i ks k a b. elim a [ ];
  complete = λ s c says. elim says.1 [ ];
}
encode-Coding ((s, []) ∷ said) n =
    Coding-none (encode said n).1 (encode said n).0 s said (encode-Coding said n)
encode-Coding ((s, c ∷ cs) ∷ said) n =
    let n' : Names = record {
      sources = (intern s n.sources).1;
      categories = (intern_all (c ∷ cs) n.categories).1;
    } in
    let m = (encode said n').1 in
    let (g, h) = encode-Grew said n' in
    let ks = (intern_all (c ∷ cs) n.categories).0 in
    Coding-cons m (intern s n.sources).0 (sorted_ids ks) (encode said n').0 s (c ∷ cs) said
      (At-Grew n'.sources m.sources (intern s n.sources).0 s g (intern-At s n.sources))
      (λ k b.
        let (d, x, q) = intern_all-In (c ∷ cs) n.categories k (sorted_ids-In k ks b) in
        (d, x, At-Grew n'.categories m.categories k d h q))
      (λ d b.
        let (k, x, q) = In-intern_all (c ∷ cs) n.categories d b in
        (k, In-sorted_ids k ks x, At-Grew n'.categories m.categories k d h q))
      (encode-Coding said n')
