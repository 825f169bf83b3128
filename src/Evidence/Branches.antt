-- ===== src/Evidence/Branches.antt =====
-- The prefixes of a taxonomy path, for `_prefixes` of src/libtb/evidence: the branches it lies under.
use turkey_bite.Prelude.{
  ◌≢◌, subst, ◌++◌, map, append-nil, ◌≡◌, refl, sym, ap, ◌∙◌, ◌⊎◌, inl, inr, List, [], ◌∷◌, nat_eq,
  list_eq,
}
use turkey_bite.Prelude.Members.{
  In, here, there, In-append, In-map, map-In, In-append_left, In-append_right,
}
use turkey_bite.Text.{Text, split, join}
use turkey_bite.Text.Labels.{join-split, join-append, split-append, split-ne-nil}
use turkey_bite.Evidence.{firsts, prefixes}

-- A path of the taxonomy is a branch or lies under it.
abbrev pub IsUnder : Text → Text → Type 0
IsUnder path branch = (path ≡ branch) ⊎ ((r : Text) × (path ≡ branch ++ b'.' ∷ r))

In-firsts :
    (q ls : List Text) → In q (firsts ls) → (q ≢ []) × ((rest : List Text) × (ls ≡ q ++ rest))
In-firsts q [] m = elim m [ ]
In-firsts q (l ∷ ls) m = elim (In-append q (map (λ p. l ∷ p) (firsts ls)) ((l ∷ []) ∷ []) m) [
  | inl n ↦
      let (p, k, e) = In-map (λ p. l ∷ p) q (firsts ls) n in
      let (_, (rest, f)) = In-firsts p ls k in
      (
        (λ z. cc),
        (rest, ap (λ (t : List Text). l ∷ t) f ∙ ap (λ (t : List Text). t ++ rest) (sym e)),
      )
  | inr n ↦ last_one n
]
  where
    last_one : In q ((l ∷ []) ∷ []) → (q ≢ []) × ((rest : List Text) × (l ∷ ls ≡ q ++ rest))
    last_one (here e) = ((λ z. cc), (ls, ap (λ (t : List Text). t ++ ls) (sym e)))
    last_one (there n) = elim n [ ]

firsts-In : (l : Text) (ls rest : List Text) → In (l ∷ ls) (firsts ((l ∷ ls) ++ rest))
firsts-In l [] rest = In-append_right (l ∷ []) (map (λ p. l ∷ p) (firsts rest)) _ (here refl)
firsts-In l (k ∷ ls) rest =
    In-append_left (l ∷ k ∷ ls) (map (λ p. l ∷ p) (firsts ((k ∷ ls) ++ rest))) _
      (map-In (λ p. l ∷ p) (k ∷ ls) (firsts ((k ∷ ls) ++ rest)) (firsts-In k ls rest))

pub prefixes-IsUnder : (p path : Text) → In p (prefixes path) → IsUnder path p
unfolding prefixes
prefixes-IsUnder p path m =
    let (q, n, e) = In-map (λ ls. join b'.' ls) p (firsts (split b'.' path)) m in
    let (ne, (rest, f)) = In-firsts q (split b'.' path) n in
    let whole = sym (join-split b'.' path) ∙ ap (join b'.') f in by_rest q e ne rest whole
  where
    by_rest :
        (q : List Text)
        → p ≡ join b'.' q
        → q ≢ []
        → (rest : List Text) → path ≡ join b'.' (q ++ rest)
        → IsUnder path p
    by_rest q e ne [] whole = inl (whole ∙ ap (join b'.') (append-nil q) ∙ sym e)
    by_rest q e ne (r ∷ rest) whole = inr (
      join b'.' (r ∷ rest),
      whole
          ∙ join-append b'.' q (r ∷ rest) ne (λ z. cc)
          ∙ ap (λ (t : Text). t ++ b'.' ∷ join b'.' (r ∷ rest)) (sym e),
    )

parts-In :
    (p : Text) (ls rest : List Text)
    → ls ≢ []
    → p ≡ join b'.' ls
    → In p (map (λ l. join b'.' l) (firsts (ls ++ rest)))
parts-In p [] rest ne e = absurd (ne refl)
parts-In p (l ∷ ls) rest ne e =
    subst (λ t. In t (map (λ l. join b'.' l) (firsts ((l ∷ ls) ++ rest)))) (sym e)
      (map-In (λ l. join b'.' l) (l ∷ ls) (firsts ((l ∷ ls) ++ rest)) (firsts-In l ls rest))

pub IsUnder-prefixes : (p path : Text) → IsUnder path p → In p (prefixes path)
unfolding prefixes
IsUnder-prefixes p path u = elim u [
  | inl e ↦
      subst (λ ls. In p (map (λ l. join b'.' l) (firsts ls)))
        (append-nil (split b'.' p) ∙ ap (split b'.') (sym e))
        (parts-In p (split b'.' p) [] (split-ne-nil b'.' p) (sym (join-split b'.' p)))
  | inr (r, e) ↦
      subst (λ ls. In p (map (λ l. join b'.' l) (firsts ls)))
        (sym (split-append b'.' p r) ∙ ap (split b'.') (sym e))
        (parts-In p (split b'.' p) (split b'.' r) (split-ne-nil b'.' p) (sym (join-split b'.' p)))
]
