-- ===== src/Consumer/Rests.antt =====
-- How long `rest` of src/libtb/consumer waits.
use turkey_bite.Prelude.{
  ℕ, zero, suc, ◌+◌, ◌-◌, ◌*◌, ◌^◌, ◌≤◌, ◌≡◌, refl, ap, ◌∙◌, ◌⊎◌, inl, inr, Bool, true, false, ◌&&◌,
  arith, ltb, leb, Bool-cases, and-eq-true, ltb→lt, ltb-eq-false, leb→le, leb-eq-false,
}
use turkey_bite.Consumer.Parts.{Outside}
use turkey_bite.Consumer.{min, backoff_start, backoff_max, due_of, serve, rest}

min_left : (a b : ℕ) → a ≤ b → min a b ≡ a
min_left a b h = ground arith

min_right : (a b : ℕ) → b ≤ a → min a b ≡ b
min_right a b h = ground arith

pow_low : (k : ℕ) → 1 ≤ 2 ^ k
pow_low zero = omega arith
pow_low (suc k) = omega (arith, pow_low k)

power : (n : ℕ) → 2 ^ (n + 1) ≡ 2 * 2 ^ n
power n = ap (λ k. 2 ^ k) (add_one n) ∙ omega arith
  where
    add_one : (n : ℕ) → n + 1 ≡ suc n
    add_one n = omega arith

doubled : (x : ℕ) → min 120 (2 * x) ≡ min 120 (2 * min 120 x)
doubled x = elim (Bool-cases (leb 120 x)) [
  | inl more ↦
      let le = leb→le 120 x more in
      rw (min_left 120 x le) (min_left 120 (2 * x) (omega (arith, le)))
  | inr less ↦ rw (min_right 120 x (omega (arith, leb-eq-false 120 x less))) refl
]

-- The first rest is of one second, and each rest in a row is due twice the one before, or a minute
-- where that is more.
pub due_of_doubles :
    (due_of 1 ≡ backoff_start) × ((n : ℕ) → due_of (n + 2) ≡ min backoff_max (2 * due_of (n + 1)))
unfolding due_of
due_of_doubles = (refl, λ n. next n (Bool-cases (leb (n + 1) 16)))
  where
    next :
        (n : ℕ)
        → (leb (n + 1) 16 ≡ true) ⊎ (leb (n + 1) 16 ≡ false)
        → min 120 (2 * 2 ^ min (n + 2 - 1) 16) ≡ min 120 (2 * min 120 (2 * 2 ^ min (n + 1 - 1) 16))
    next n (inl low) =
        let le = leb→le (n + 1) 16 low in
        let one_more : n + 2 - 1 ≡ n + 1 = omega arith in
        let back : n + 1 - 1 ≡ n = omega arith in
        let now : min (n + 2 - 1) 16 ≡ n + 1 =
          ap (λ k. min k 16) one_more ∙ min_left (n + 1) 16 le in
        let before : min (n + 1 - 1) 16 ≡ n =
          ap (λ k. min k 16) back ∙ min_left n 16 (omega (arith, le)) in
        rw (now, before) (ap (λ x. min 120 (2 * x)) (power n) ∙ doubled (2 * 2 ^ n))
    next n (inr high) =
        let ge = leb-eq-false (n + 1) 16 high in
        let now : min (n + 2 - 1) 16 ≡ 16 = min_right (n + 2 - 1) 16 (omega (arith, ge)) in
        let before : min (n + 1 - 1) 16 ≡ 16 = min_right (n + 1 - 1) 16 (omega (arith, ge)) in
        rw (now, before) refl

module _ (p : Outside) where
  open p use {World, sleep, is_running}

  -- Where the loop ends: all that was due is served, or the consumer was told to stop; and never
  -- more than was due.
  pub record Served (due : ℕ) (result : ℕ × World) : Type 0 where
    pub ends : (result.0 ≡ due) ⊎ (is_running result.1 ≡ false)
    pub within : result.0 ≤ due

  serve-Served :
      (k served due : ℕ) (w : World)
      → served ≤ due
      → due ≤ served + k
      → Served due (serve p k served due w)
  unfolding serve
  serve-Served zero served due w le enough = record {
    ends = inl (omega (arith, le, enough));
    within = le;
  }
  serve-Served (suc k) served due w le enough = elim (Bool-cases (is_running w && ltb served due)) [
    | inl more ↦
        let (_, lt) = and-eq-true (is_running w) _ more in
        let below = ltb→lt served due lt in
        let one : min 1 (due - served) ≡ 1 = min_left 1 (due - served) (omega (arith, below)) in
        rw (serve, more)
          (serve-Served k (served + min 1 (due - served)) due (sleep (min 1 (due - served)) w)
            (omega (arith, one, below)) (omega (arith, one, enough)))
    | inr over ↦
        rw (serve, over)
          record { ends = stopped (is_running w) (ltb served due) refl refl over; within = le }
  ]
    where
      stopped :
          (a b : Bool)
          → is_running w ≡ a
          → ltb served due ≡ b
          → (a && b) ≡ false
          → (served ≡ due) ⊎ (is_running w ≡ false)
      stopped false b e f h = inr e
      stopped true true e f h = absurd (let z : ⊥ = cc in z)
      stopped true false e f h = inl (omega (arith, le, ltb-eq-false served due f))

  -- The world after so many slices of sleep.
  abbrev pub slept : ℕ → World → World
  slept zero w = w
  slept (suc n) w = slept n (sleep 1 w)

  serve-slept :
      (k served due : ℕ) (w : World)
      → (n : ℕ) × ((serve p k served due w).0 ≡ served + n)
        × ((serve p k served due w).1 ≡ slept n w)
  unfolding serve
  serve-slept zero served due w = (0, omega arith, refl)
  serve-slept (suc k) served due w = elim (Bool-cases (is_running w && ltb served due)) [
    | inl more ↦
        let (_, lt) = and-eq-true (is_running w) _ more in
        let one : min 1 (due - served) ≡ 1 =
          min_left 1 (due - served) (omega (arith, ltb→lt served due lt)) in
        let (n, total, after) = serve-slept k (served + 1) due (sleep 1 w) in
        (suc n, rw (serve, more, one) (omega (arith, total)), rw (serve, more, one) after)
    | inr over ↦ (0, rw (serve, over) (omega arith), rw (serve, over) refl)
  ]

  -- A rest is due between a second and a minute; it counts the failure; it is served in slices of
  -- half a second, never more than are due, until all that is due is served or the consumer is
  -- told to stop; and it does nothing else.
  pub rest-Served :
      (failures : ℕ) (w : World)
      → (backoff_start ≤ (rest p failures w).0)
        × ((rest p failures w).0 ≤ backoff_max)
        × ((rest p failures w).1 ≡ failures + 1)
        × (served : ℕ) × ((rest p failures w).2 ≡ slept served w)
        × Served (rest p failures w).0 (served, (rest p failures w).2)
  unfolding rest due_of
  rest-Served failures w =
      let x = 2 ^ min (failures + 1 - 1) 16 in
      let pos = pow_low (min (failures + 1 - 1) 16) in
      let low : 2 ≤ min 120 (2 * x) = at_least (2 * x) (omega (arith, pos)) in
      let high : min 120 (2 * x) ≤ 120 = at_most (2 * x) in
      let due = due_of (failures + 1) in
      let all_served : Served due (serve p due 0 due w) =
        serve-Served due 0 due w (omega arith) (omega arith) in
      let (n, total, after) = serve-slept due 0 due w in
      (
        low,
        high,
        refl,
        (serve p due 0 due w).0,
        after ∙ ap (λ m. slept m w) (count n (serve p due 0 due w).0 total),
        all_served,
      )
    where
      count : (n m : ℕ) → m ≡ 0 + n → n ≡ m
      count n m h = omega (arith, h)

      at_least : (a : ℕ) → 2 ≤ a → 2 ≤ min 120 a
      at_least a h = ground arith

      at_most : (a : ℕ) → min 120 a ≤ 120
      at_most a = ground arith
