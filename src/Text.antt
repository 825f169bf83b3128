-- ===== src/Text.antt =====
-- Python's `str`, as the source uses it: a text is the list of its code points.
-- `strip` removes exactly the characters for which `str.isspace` holds. `lower` folds A to Z
-- and leaves every other code point alone, which is `str.lower` on ASCII texts, the form in
-- which DNS carries names; the case folding of other alphabets is not modelled.
pub mod Labels
pub mod Number
pub mod Sorting
use Prim.Native.Char.{code}
use turkey_bite.Prelude.{
  ℕ, zero, suc, ◌+◌, ◌-◌, ◌*◌, String, Bool, true, false, ◌&&◌, ◌||◌, not, List, [], ◌∷◌, ◌++◌, map,
  reverse, ltb, leb, if◌then◌else◌, ◌==◌, nat_eq, list_eq, elem,
}

abbrev pub Text : Type 0
Text = List ℕ

abbrev pub text : String → Text
text String.[] = []
text (String.◌∷◌ c s) = code c ∷ text s

-- str.isspace
unfoldable pub is_space : ℕ → Bool
is_space c =
    (leb 9 c && leb c 13)
    || (leb 28 c && leb c 32)
    || c == 0x85
    || c == 0xa0
    || c == 0x1680
    || (leb 0x2000 c && leb c 0x200a)
    || c == 0x2028
    || c == 0x2029
    || c == 0x202f
    || c == 0x205f
    || c == 0x3000

unfoldable pub lower_char : ℕ → ℕ
lower_char c = if leb b'A' c && leb c b'Z' then c + 32 else c

unfoldable pub lower : Text → Text
unfolding lower_char
lower s = map lower_char s

abbrev pub drop_while : (ℕ → Bool) → Text → Text
drop_while p [] = []
drop_while p (c ∷ s) = let rest = drop_while p s in if p c then rest else c ∷ s

-- s.strip(chars), for a class of characters
unfoldable pub strip_by : (ℕ → Bool) → Text → Text
strip_by p s = reverse (drop_while p (reverse (drop_while p s)))

-- s.strip()
unfoldable pub strip : Text → Text
unfolding strip_by is_space
strip s = strip_by is_space s

-- s.strip('.')
unfoldable pub strip_dots : Text → Text
unfolding strip_by
strip_dots s = strip_by (λ c. c == b'.') s

-- s.startswith(p)
abbrev pub starts_with : Text → Text → Bool
starts_with [] s = true
starts_with (c ∷ p) [] = false
starts_with (c ∷ p) (d ∷ s) = c == d && starts_with p s

-- s.endswith(p)
unfoldable pub ends_with : Text → Text → Bool
ends_with p s = starts_with (reverse p) (reverse s)

abbrev pub push_head : ℕ → List Text → List Text
push_head c [] = (c ∷ []) ∷ []
push_head c (p ∷ ps) = (c ∷ p) ∷ ps

-- s.split(sep), for a separator of one character
unfoldable pub split : ℕ → Text → List Text
split sep [] = [] ∷ []
split sep (c ∷ s) = let rest = split sep s in if c == sep then [] ∷ rest else push_head c rest

-- sep.join(parts), for a separator of one character
unfoldable pub join : ℕ → List Text → Text
join sep [] = []
join sep (p ∷ []) = p
join sep (p ∷ q ∷ ps) = p ++ sep ∷ join sep (q ∷ ps)

-- sep in s, for one character
abbrev pub has_char : ℕ → Text → Bool
has_char c s = elem c s

-- The order of Python's `sorted` on texts: by code points, a prefix first.
abbrev pub text_leb : Text → Text → Bool
text_leb [] t = true
text_leb (c ∷ s) [] = false
text_leb (c ∷ s) (d ∷ t) = if c == d then text_leb s t else ltb c d

abbrev pub insert_sorted : Text → List Text → List Text
insert_sorted t [] = t ∷ []
insert_sorted t (u ∷ us) =
    let later = u ∷ insert_sorted t us in if text_leb t u then t ∷ u ∷ us else later

abbrev insert_new : Text → List Text → List Text
insert_new t us = if elem t us then us else insert_sorted t us

-- sorted(set(texts))
unfoldable pub sorted_set : List Text → List Text
sorted_set [] = []
sorted_set (t ∷ ts) = insert_new t (sorted_set ts)
