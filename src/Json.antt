-- ===== src/Json.antt =====
-- The values that `json.loads` and the YAML reader give, and `dig` of src/libtb/util.
-- `None` and a JSON null are one value. An object has each of its keys once. A number is kept as
-- it was written: nothing modelled looks into one.
use turkey_bite.Prelude.{
  ◌≡◌, refl, ◌≢◌, Bool, true, false, List, [], ◌∷◌, ◌++◌, if◌then◌else◌, ◌==◌, nat_eq, list_eq,
  elem,
}
use turkey_bite.Text.{Text}

mutual
  pub data Json : Type 0 where
    null : Json
    boolean : Bool → Json
    number : Text → Json
    str : Text → Json
    arr : Items → Json
    obj : Fields → Json

  pub data Items : Type 0 where
    nil : Items
    cons : Json → Items → Items

  pub data Fields : Type 0 where
    end : Fields
    field : Text → Json → Fields → Fields

abbrev pub items : Items → List Json
items nil = []
items (cons j r) = j ∷ items r

-- d.get(key)
abbrev pub lookup : Text → Fields → Json
lookup key end = null
lookup key (field k v r) = let rest = lookup key r in if k == key then v else rest

-- key in d.keys()
abbrev pub has_key : Text → Fields → Bool
has_key key end = false
has_key key (field k v r) = let rest = has_key key r in if k == key then true else rest

-- data.get(key) after `isinstance(data, dict)`
abbrev pub get : Text → Json → Json
get key (obj fs) = lookup key fs
get key _ = null

-- A level that is missing or no dict makes the answer None.
unfoldable pub dig : Json → List Text → Json
dig v [] = v
dig v (key ∷ keys) = dig (get key v) keys

-- isinstance(data, dict)
abbrev pub is_dict : Json → Bool
is_dict (obj fs) = true
is_dict _ = false

abbrev pub is_str : Json → Bool
is_str (str s) = true
is_str _ = false

-- value in texts, for a list of strings
abbrev pub str_in : Json → List Text → Bool
str_in (str s) texts = elem s texts
str_in _ texts = false

-- Digging along two paths in turn is digging along both.
pub dig-append : (v : Json) (ks js : List Text) → dig v (ks ++ js) ≡ dig (dig v ks) js
unfolding dig
dig-append v [] js = refl
dig-append v (k ∷ ks) js = dig-append (get k v) ks js

-- Nothing is found below what is not there.
pub dig-null : (ks : List Text) → dig null ks ≡ null
unfolding dig
dig-null [] = refl
dig-null (k ∷ ks) = dig-null ks

-- What is found under a key stands in a dict.
pub dig_inside : (v : Json) (k : Text) (ks : List Text) → dig v (k ∷ ks) ≢ null → is_dict v ≡ true
unfolding dig
dig_inside (obj fs) k ks h = refl
dig_inside _ k ks h = absurd (h (dig-null ks))
