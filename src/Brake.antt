-- ===== src/Brake.antt =====
-- console/backend/tbconsole/security/limits.py: the brake on guessing passwords.
-- Times are those of `time.monotonic`, in nanoseconds. A function that reads the clock more than
-- once takes each reading as an argument.
pub mod Keys
pub mod Windows
pub mod History
pub mod Counting
pub mod Calls
pub mod Gates
pub mod Crowds
pub mod Lockout
mod Tests
use turkey_bite.Prelude.{
  ℕ, zero, suc, ◌+◌, ◌*◌, ◌≡◌, Bool, true, false, ◌&&◌, ◌||◌, Option, none, some, List, [], ◌∷◌,
  ◌++◌, map, ltb, leb, if◌then◌else◌, ◌==◌, nat_eq, list_eq, length,
}
use turkey_bite.Text.{Text, text, strip}
use turkey_bite.Brake.Keys.{Key, Dict, find, put, remove, keys}

abbrev pub second : ℕ
second = 1000000000

abbrev pub window : ℕ
window = 300 * second

abbrev pub pair_limit : ℕ
pair_limit = 10

abbrev pub address_limit : ℕ
address_limit = 100

abbrev pub max_tracked : ℕ
max_tracked = 20000

abbrev pub sweep_every : ℕ
sweep_every = 30 * second

-- `ipaddress` and `unicodedata`: `parse` is `ip_address`, with `none` for a ValueError, `shown` is
-- `str`, and `network` the text of the /56 that holds an address.
pub record Names : Type 1 where
  pub Address : Type 0
  pub parse : Text → Option Address
  pub is_v6 : Address → Bool
  pub ipv4_mapped : Address → Option Address
  pub shown : Address → Text
  pub network : Address → Text
  pub nfkc : Text → Text
  pub casefold : Text → Text

pub record State : Type 0 where
  pub failures : Dict
  pub last_sweep : ℕ

-- A module that was just loaded.
abbrev pub initial : State
initial = record { failures = []; last_sweep = 0 }

unfoldable pub reset : State → State
reset s = record s { failures = [] }

-- The while loop of `_recent`: times before the window leave on the left.
abbrev pub drop_old : ℕ → List ℕ → List ℕ
drop_old now [] = []
drop_old now (t ∷ ts) = let rest = drop_old now ts in if ltb (t + window) now then rest else t ∷ ts

abbrev pub kept_window : Key → List ℕ → Dict → Dict
kept_window key [] d = remove key d
kept_window key (t ∷ ts) d = put key (t ∷ ts) d

abbrev pub recent_of : ℕ → Key → Option (List ℕ) → Dict → ℕ × Dict
recent_of now key none d = (0, d)
recent_of now key (some []) d = (0, d)
recent_of now key (some (t ∷ ts)) d =
    (length (drop_old now (t ∷ ts)), kept_window key (drop_old now (t ∷ ts)) d)

unfoldable pub recent : ℕ → Key → Dict → ℕ × Dict
recent now key d = recent_of now key (find key d) d

-- for key in list(_failures): _recent(key), with the clock's reading at each key
unfoldable pub sweep : (ℕ → ℕ) → ℕ → List Key → Dict → Dict
unfolding recent
sweep clock i [] d = d
sweep clock i (key ∷ ks) d = sweep clock (i + 1) ks (recent (clock i) key d).1

-- _failures[key].append(now), on a defaultdict
abbrev pub appended : ℕ → Option (List ℕ) → List ℕ
appended now none = now ∷ []
appended now (some ts) = ts ++ now ∷ []

unfoldable pub append : ℕ → Key → Dict → Dict
append now key d = put key (appended now (find key d)) d

abbrev pub or_blank : Text → Text
or_blank [] = 0 ∷ text "blank"
or_blank (c ∷ s) = c ∷ s

unfoldable pub swept : ℕ → (ℕ → ℕ) → State → State
unfolding sweep
swept now clock s =
    if ltb max_tracked (length s.failures) && ltb (s.last_sweep + sweep_every) now
    then record { failures = sweep clock 0 (keys s.failures) s.failures; last_sweep = now }
    else s

-- `many` and `any` are the tests on the count of the name, `d` what that count leaves, and
-- `by_source` the count of the source from there, which is used only then.
abbrev pub limited_if : Bool → Bool → Dict → ℕ × Dict → Bool × Dict
limited_if many any d by_source =
    if many
    then (true, d)
    else if any
    then (leb address_limit by_source.0, by_source.1)
    else (false, d)

abbrev pub limited_by : ℕ × Dict → (Dict → ℕ × Dict) → Bool × Dict
limited_by pair by_source =
    limited_if (leb pair_limit pair.0) (ltb 0 pair.0) pair.1 (by_source pair.1)

module _ (n : Names) where
  open n use {Address, parse, is_v6, ipv4_mapped, shown, network, nfkc, casefold}

  abbrev mapped_or : Address → Option Address → Text
  mapped_or a none = network a
  mapped_or a (some v4) = shown v4

  abbrev shown_source : Option Address → Text
  shown_source none = text "unknown"
  shown_source (some a) = if is_v6 a then mapped_or a (ipv4_mapped a) else shown a

  -- An address that is absent or empty is in the bucket of those that cannot be read.
  unfoldable pub source : Option Text → Text
  source none = text "unknown"
  source (some []) = text "unknown"
  source (some (c ∷ ip)) = shown_source (parse (c ∷ ip))

  unfoldable pub name : Text → Text
  unfolding strip
  name username = or_blank (strip (casefold (nfkc username)))

  unfoldable pub limited : ℕ → ℕ → Option Text → Text → State → Bool × State
  unfolding recent
  limited now later ip username s =
      let r =
        limited_by (recent now (source ip, name username) s.failures)
          (recent later (source ip, [])) in
      (r.0, record s { failures = r.1 })

  unfoldable pub failed : ℕ → (ℕ → ℕ) → Option Text → Text → State → State
  unfolding append swept
  failed now clock ip username s =
      let s' = swept now clock s in
      record s' {
        failures = append now (source ip, []) (append now (source ip, name username) s'.failures);
      }
