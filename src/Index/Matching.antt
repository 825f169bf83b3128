-- ===== src/Index/Matching.antt =====
-- Which claims `match` of src/libtb/index finds for a host.
use turkey_bite.Prelude.{
  ◌+◌, ◌≡◌, subst, refl, sym, ◌∙◌, ◌↔◌, inl, inr, Bool, true, false, ◌||◌, Option, List, [], ◌∷◌,
  ◌++◌, map, append_assoc, length, keep, leb, nat_eq, list_eq,
}
use turkey_bite.Prelude.Members.{
  In, here, there, In-keep, keep-In, In-map, map-In, In-append, In-append_left, In-append_right,
}
use turkey_bite.Text.{Text, text, split, join}
use turkey_bite.Evidence.{Claim}
use turkey_bite.Index.{
  File, Pair, Memo, is_empty, read_claims, www_alias, count_dots, floor_of, subtree_probes, probes,
  speaks, claim_of, match_host,
}
use turkey_bite.Index.Memo.{said, match_probes-said, IsGood}

-- A key that speaks of the host, and whether its owner is the host's: the host itself, its other
-- spelling, or the subtree of some of its last labels, which are one owner's when they are as many
-- as the boundary's.
pub data Speaks (host : Text) (boundary : Option Text) : Text → Bool → Type 0 where
  itself : Speaks host boundary host true
  alias :
      Speaks host boundary
        (www_alias host)
        (leb (floor_of boundary) (count_dots (www_alias host) + 1))
  subtree :
      (front : List Text) (label : Text) (rest : List Text)
      → split b'.' host ≡ front ++ label ∷ rest
      → Speaks host boundary
          (text "*." ++ join b'.' (label ∷ rest))
          (leb (floor_of boundary) (length (label ∷ rest)))

-- A claim that the index has for the host: a key speaks of the host, the file says the claim of
-- that key, and the key's owner is the host's or the claim is of a local list.
pub record Applies (file : File) (host : Text) (boundary : Option Text) (c : Claim) : Type 0 where
  pub key : Text
  pub owned : Bool
  pub pair : Pair
  pub about : Speaks host boundary key owned
  pub stated : In pair (read_claims file key)
  pub allowed : (owned || pair.0.is_local) ≡ true
  pub is_claim : c ≡ claim_of key pair

-- What one probe of the list finds.
record Found (file : File) (ps : List (Text × Bool)) (c : Claim) : Type 0 where
  key : Text
  owned : Bool
  pair : Pair
  probed : In (key, owned) ps
  stated : In pair (read_claims file key)
  allowed : (owned || pair.0.is_local) ≡ true
  is_claim : c ≡ claim_of key pair

said_sound :
    (file : File) (ps : List (Text × Bool)) (c : Claim) → In c (said file ps) → Found file ps c
unfolding said
said_sound file [] c m = elim m [ ]
said_sound file ((key, owned) ∷ rest) c m =
    elim (In-append c (map (claim_of key) (keep (speaks owned) (read_claims file key))) _ m) [
      | inl l ↦
          let (pair, n, e) = In-map (claim_of key) c _ l in
          let (s, a) = In-keep (speaks owned) pair (read_claims file key) n in
          record {
            key = key;
            owned = owned;
            pair = pair;
            probed = here refl;
            stated = s;
            allowed = a;
            is_claim = e;
          }
      | inr r ↦
          let f = said_sound file rest c r in
          record {
            key = f.key;
            owned = f.owned;
            pair = f.pair;
            probed = there f.probed;
            stated = f.stated;
            allowed = f.allowed;
            is_claim = f.is_claim;
          }
    ]

said_complete :
    (file : File) (ps : List (Text × Bool)) (key : Text) (owned : Bool) (pair : Pair)
    → In (key, owned) ps
    → In pair (read_claims file key)
    → (owned || pair.0.is_local) ≡ true
    → In (claim_of key pair) (said file ps)
unfolding said
said_complete file [] key owned pair m s a = elim m [ ]
said_complete file ((k, o) ∷ rest) key owned pair (here e) s a =
    let found : In (claim_of key pair)
        (map (claim_of key) (keep (speaks owned) (read_claims file key))) =
      map-In (claim_of key) pair _ (keep-In (speaks owned) pair (read_claims file key) s a) in
    In-append_left (claim_of key pair) _ (said file rest) (
      subst
        (λ (p : Text × Bool).
          In (claim_of key pair) (map (claim_of p.0) (keep (speaks p.1) (read_claims file p.0))))
        e found)
said_complete file ((k, o) ∷ rest) key owned pair (there n) s a =
    In-append_right (claim_of key pair) _ _ (said_complete file rest key owned pair n s a)

module _ (host : Text) (boundary : Option Text) where
  subtree_sound :
      (front back : List Text) (key : Text) (owned : Bool)
      → split b'.' host ≡ front ++ back
      → In (key, owned) (subtree_probes (floor_of boundary) back)
      → Speaks host boundary key owned
  unfolding subtree_probes
  subtree_sound front [] key owned e m = elim m [ ]
  subtree_sound front (l ∷ ls) key owned e (here p) =
      subst (λ (q : Text × Bool). Speaks host boundary q.0 q.1) (sym p) (subtree front l ls e)
  subtree_sound front (l ∷ ls) key owned e (there n) =
      subtree_sound (front ++ l ∷ []) ls key owned (e ∙ sym (append_assoc front (l ∷ []) ls)) n

  subtree_complete :
      (front : List Text) (l : Text) (ls : List Text)
      → In
          (text "*." ++ join b'.' (l ∷ ls), leb (floor_of boundary) (length (l ∷ ls)))
          (subtree_probes (floor_of boundary) (front ++ l ∷ ls))
  unfolding subtree_probes
  subtree_complete [] l ls = here refl
  subtree_complete (f ∷ front) l ls = there (subtree_complete front l ls)

  probes-Speaks :
      (key : Text) (owned : Bool)
      → In (key, owned) (probes host boundary)
      → Speaks host boundary key owned
  unfolding probes
  probes-Speaks key owned (here p) =
      subst (λ (q : Text × Bool). Speaks host boundary q.0 q.1) (sym p) itself
  probes-Speaks key owned (there (here p)) =
      subst (λ (q : Text × Bool). Speaks host boundary q.0 q.1) (sym p) alias
  probes-Speaks key owned (there (there n)) = subtree_sound [] (split b'.' host) key owned refl n

  Speaks-probes :
      (key : Text) (owned : Bool)
      → Speaks host boundary key owned
      → In (key, owned) (probes host boundary)
  unfolding probes
  Speaks-probes _ _ itself = here refl
  Speaks-probes _ _ alias = there (here refl)
  Speaks-probes _ _ (subtree front l ls e) = there (there (rw e (subtree_complete front l ls)))

-- For a host that is not empty, whatever good memo is in use, `match` finds a claim exactly when
-- the index has it for the host: of the host, of its other spelling with or without www, or of the
-- subtree of some of its last labels, and, where these are fewer labels than the boundary's, only
-- if the claim is of a local list.
pub match_host-Applies :
    (file : File) (host : Text) (boundary : Option Text) (memo : Memo) (c : Claim)
    → is_empty host ≡ false
    → IsGood file memo
    → In c (match_host file host boundary memo).0 ↔ Applies file host boundary c
unfolding match_host
match_host-Applies file [] boundary memo c h g = absurd (let z : ⊥ = cc in z)
match_host-Applies file (x ∷ host) boundary memo c h g =
    let e = (match_probes-said file (probes (x ∷ host) boundary) memo g).0 in
    (
      (λ m.
          let f = said_sound file (probes (x ∷ host) boundary) c (rw e at m) in
          record {
            key = f.key;
            owned = f.owned;
            pair = f.pair;
            about = probes-Speaks (x ∷ host) boundary f.key f.owned f.probed;
            stated = f.stated;
            allowed = f.allowed;
            is_claim = f.is_claim;
          }),
      (λ a.
          rw (a.is_claim, e)
            (said_complete file (probes (x ∷ host) boundary) a.key a.owned a.pair
              (Speaks-probes (x ∷ host) boundary a.key a.owned a.about) a.stated a.allowed)),
    )
