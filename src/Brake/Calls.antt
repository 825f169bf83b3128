-- ===== src/Brake/Calls.antt =====
-- The answers of the brake of console/backend/tbconsole/security/limits.py, against a count over
-- the history of failures.
use turkey_bite.Prelude.{
  ℕ, ◌≤◌, ◌≡◌, refl, ap, ◌∙◌, Bool, true, false, ◌&&◌, ◌||◌, Option, List, [], ◌∷◌, ◌++◌, arith,
  ltb, leb,
}
use turkey_bite.Text.{Text}
use turkey_bite.Brake.Keys.{Key, key_eq, Dict}
use turkey_bite.Brake.{
  Names, State, initial, reset, pair_limit, address_limit, recent, source, name, limited_if,
  limited, swept, failed,
}
use turkey_bite.Brake.History.{Wrong, count, Tracks, Tracks-later, recent-count, recent-Tracks}
use turkey_bite.Brake.Counting.{Wrong-Tracks, swept-Tracks, name-ne-nil, no_failures}

-- The rule of the brake, over the history of failures.
abbrev pub held_back : ℕ → ℕ → Text → Text → List Wrong → Bool
held_back now later who nm h =
    leb pair_limit (count now (who, nm) h)
    || (ltb 0 (count now (who, nm) h) && leb address_limit (count later (who, []) h))

-- What the brake may have been through by the time `last`: its calls come in the order of time, and
-- all that a call reads of the clock lies between its start and its end.
pub data Served (n : Names) : List Wrong → ℕ → State → Type 0 where
  fresh : Served n [] 0 initial
  asked :
      {h : List Wrong} {last : ℕ} {s : State}
      → Served n h last s
      → (now later : ℕ) (ip : Option Text) (username : Text) → last ≤ now
      → now ≤ later
      → Served n h later (limited n now later ip username s).1
  wrong :
      {h : List Wrong} {last : ℕ} {s : State}
      → Served n h last s
      → (now finish : ℕ) (clock : ℕ → ℕ) (ip : Option Text) (username : Text) → last ≤ now
      → now ≤ finish
      → ((i : ℕ) → clock i ≤ finish)
      → Served n
          (h ++ record { who = source n ip; named = name n username; at = now } ∷ [])
          finish
          (failed n now clock ip username s)
  forgot : {h : List Wrong} {last : ℕ} {s : State} → Served n h last s → Served n [] last (reset s)

answer_of :
    (a b : Bool) (d : Dict) (r : ℕ × Dict)
    → (limited_if a b d r).0 ≡ (a || (b && leb address_limit r.0))
answer_of true b d r = refl
answer_of false true d r = refl
answer_of false false d r = refl

left_of-Tracks :
    (a b : Bool) (h : List Wrong) (last : ℕ) (d : Dict) (r : ℕ × Dict)
    → Tracks h last d
    → Tracks h last r.1
    → Tracks h last (limited_if a b d r).1
left_of-Tracks true b h last d r t t' = t
left_of-Tracks false true h last d r t t' = t'
left_of-Tracks false false h last d r t t' = t

module _ (n : Names) where
  limited-Tracks :
      (h : List Wrong) (now later : ℕ) (ip : Option Text) (username : Text) (s : State)
      → now ≤ later
      → Tracks h now s.failures
      → Tracks h later (limited n now later ip username s).1.failures
  unfolding limited
  limited-Tracks h now later ip username s le t =
      let first = recent now (source n ip, name n username) s.failures in
      let t' =
        recent-Tracks h now later (source n ip, name n username) s.failures le
          (Tracks-later h now later s.failures le t) in
      left_of-Tracks (leb pair_limit first.0) (ltb 0 first.0) h later first.1
        (recent later (source n ip, []) first.1) t'
        (recent-Tracks h later later (source n ip, []) first.1 (omega arith) t')

  Served-Tracks :
      {h : List Wrong} {last : ℕ} {s : State} → Served n h last s → Tracks h last s.failures
  unfolding failed reset
  Served-Tracks fresh = no_failures 0
  Served-Tracks (asked {h} {last} {s} v now later ip username le le') =
      limited-Tracks h now later ip username s le'
        (Tracks-later h last now s.failures le (Served-Tracks v))
  Served-Tracks (wrong {h} {last} {s} v now finish clock ip username le le' in_time) =
      let t = Served-Tracks v in
      Wrong-Tracks now (source n ip) (name n username) (name-ne-nil n username) h last finish le le'
        s.failures (swept now clock s).failures t
        (swept-Tracks h now finish clock s in_time
          (Tracks-later h last finish s.failures (omega arith) t))
  Served-Tracks (forgot {last} v) = no_failures last

  -- After any calls in the order of time, a sign-in is held back exactly if its name has failed at
  -- least ten times from its source in the window, or it has failed there at all and the source's
  -- failures in the window are at least a hundred. Sweeps and what earlier calls dropped change nothing.
  pub limited-held_back :
      (h : List Wrong) (last : ℕ) (s : State) (now later : ℕ) (ip : Option Text) (username : Text)
      → Served n h last s
      → last ≤ now
      → now ≤ later
      → (limited n now later ip username s).0
        ≡ held_back now later (source n ip) (name n username) h
  unfolding limited
  limited-held_back h last s now later ip username v le le' =
      let t = Tracks-later h last now s.failures le (Served-Tracks v) in
      let pair : Key = (source n ip, name n username) in
      let first = recent now pair s.failures in
      let t' = recent-Tracks h now now pair s.failures (omega arith) t in
      answer_of (leb pair_limit first.0) (ltb 0 first.0) first.1
        (recent later (source n ip, []) first.1)
      ∙ ap
          (λ c.
            leb pair_limit c
            || (ltb 0 c && leb address_limit (recent later (source n ip, []) first.1).0))
          (recent-count h now now pair s.failures (omega arith) t)
      ∙ ap
          (λ c.
            leb pair_limit (count now pair h) || (ltb 0 (count now pair h) && leb address_limit c))
          (recent-count h now later (source n ip, []) first.1 le' t')
