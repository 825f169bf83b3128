-- ===== src/Brake/Windows.antt =====
-- What the windows of console/backend/tbconsole/security/limits.py hold of a history of failures.
use turkey_bite.Prelude.{
  ℕ, ◌+◌, ◌<◌, ◌≤◌, ◌≡◌, refl, sym, ap, subst, ◌∙◌, inl, inr, Bool, true, false, not, List, [], ◌∷◌,
  ◌++◌, append_assoc, arith, Bool-cases, ltb, ltb→lt, keep, All, All-append,
}
use turkey_bite.Brake.{window, drop_old}

-- A failure at `t` counts at `now`.
abbrev pub in_window : ℕ → ℕ → Bool
in_window now t = not (ltb (t + window) now)

abbrev pub Passed : ℕ → ℕ → Type 0
Passed now t = t + window < now

-- No time is before an earlier one in the list, nor before `low`.
abbrev pub Ordered : ℕ → List ℕ → Type 0
Ordered low [] = Unit {0}
Ordered low (t ∷ ts) = (low ≤ t) × Ordered t ts

keep_all :
    (now low : ℕ) (ts : List ℕ)
    → Ordered low ts
    → ltb (low + window) now ≡ false
    → keep (in_window now) ts ≡ ts
keep_all now low [] h e = refl
keep_all now low (t ∷ ts) (le, h) e =
    let in_it : ltb (t + window) now ≡ false = ground arith in
    rw (in_it, keep_all now t ts h in_it) refl

-- In order of time, the times that a window drops on the left are all that have passed.
pub drop_old-keep :
    (now low : ℕ) (ts : List ℕ) → Ordered low ts → drop_old now ts ≡ keep (in_window now) ts
drop_old-keep now low [] h = refl
drop_old-keep now low (t ∷ ts) (le, h) = elim (Bool-cases (ltb (t + window) now)) [
  | inl old ↦ rw (old, drop_old-keep now t ts h) refl
  | inr new ↦ rw (new, keep_all now t ts h new) refl
]

pub keep-Passed :
    (now : ℕ) (gone ts : List ℕ)
    → All (Passed now) gone
    → keep (in_window now) (gone ++ ts) ≡ keep (in_window now) ts
keep-Passed now [] ts h = refl
keep-Passed now (t ∷ gone) ts (p, h) =
    let old : ltb (t + window) now ≡ true = ground arith in rw (old, keep-Passed now gone ts h) refl

pub Passed-later :
    (now later : ℕ) (ts : List ℕ) → now ≤ later → All (Passed now) ts → All (Passed later) ts
Passed-later now later [] le h = tt
Passed-later now later (t ∷ ts) le (p, h) = (omega arith, Passed-later now later ts le h)

-- A window is the end of the times it has seen, and what it has dropped has passed.
pub record IsWindow (now : ℕ) (all held : List ℕ) : Type 0 where
  pub gone : List ℕ
  pub split : all ≡ gone ++ held
  pub passed : All (Passed now) gone

Ordered-append :
    (low : ℕ) (gone held : List ℕ) → Ordered low (gone ++ held) → (n : ℕ) × Ordered n held
Ordered-append low [] held h = (low, h)
Ordered-append low (t ∷ gone) held (le, h) = Ordered-append t gone held h

pub IsWindow-later :
    (now later : ℕ) (all held : List ℕ)
    → now ≤ later
    → IsWindow now all held
    → IsWindow later all held
IsWindow-later now later all held le w = record {
  gone = w.gone;
  split = w.split;
  passed = Passed-later now later w.gone le w.passed;
}

-- What a window shows once it is brought up to date is what counts by then.
pub drop_old-count :
    (last now : ℕ) (all held : List ℕ)
    → last ≤ now
    → Ordered 0 all
    → IsWindow last all held
    → drop_old now held ≡ keep (in_window now) all
drop_old-count last now all held le h w =
    let (n, ordered) = Ordered-append 0 w.gone held (subst (Ordered 0) w.split h) in
    drop_old-keep now n held ordered
    ∙ sym (keep-Passed now w.gone held (Passed-later last now w.gone le w.passed))
    ∙ ap (keep (in_window now)) (sym w.split)

drop_old-split :
    (now : ℕ) (ts : List ℕ) → (old : List ℕ) × (ts ≡ old ++ drop_old now ts) × All (Passed now) old
drop_old-split now [] = ([], refl, tt)
drop_old-split now (t ∷ ts) = elim (Bool-cases (ltb (t + window) now)) [
  | inl old ↦
      let (gone, e, h) = drop_old-split now ts in
      rw old (t ∷ gone, ap (λ (l : List ℕ). t ∷ l) e, (ltb→lt (t + window) now old, h))
  | inr new ↦ rw new ([], refl, tt)
]

pub drop_old-IsWindow :
    (now later : ℕ) (all held : List ℕ)
    → now ≤ later
    → IsWindow later all held
    → IsWindow later all (drop_old now held)
drop_old-IsWindow now later all held le w =
    let (old, e, h) = drop_old-split now held in
    record {
      gone = w.gone ++ old;
      split =
          w.split
          ∙ ap (λ (l : List ℕ). w.gone ++ l) e
          ∙ sym (append_assoc w.gone old (drop_old now held));
      passed = All-append (Passed later) w.gone old w.passed (Passed-later now later old le h);
    }

pub IsWindow-append :
    (now t : ℕ) (all held : List ℕ)
    → IsWindow now all held
    → IsWindow now (all ++ t ∷ []) (held ++ t ∷ [])
IsWindow-append now t all held w = record {
  gone = w.gone;
  split = ap (λ (l : List ℕ). l ++ t ∷ []) w.split ∙ append_assoc w.gone held (t ∷ []);
  passed = w.passed;
}

pub Ordered-last :
    (low t : ℕ) (ts : List ℕ)
    → low ≤ t
    → Ordered low ts
    → All (λ u. u ≤ t) ts
    → Ordered low (ts ++ t ∷ [])
Ordered-last low t [] le h b = (le, tt)
Ordered-last low t (u ∷ ts) le (p, h) (q, b) = (p, Ordered-last u t ts q h b)

pub All-le :
    (now later : ℕ) (ts : List ℕ) → now ≤ later → All (λ u. u ≤ now) ts → All (λ u. u ≤ later) ts
All-le now later [] le h = tt
All-le now later (t ∷ ts) le (p, h) = (omega arith, All-le now later ts le h)
