-- ===== src/Brake/Lockout.antt =====
-- console/backend/tbconsole/security/lockout.py: the lockout of local accounts.
use turkey_bite.Prelude.{
  ℕ, ◌+◌, ◌*◌, ◌<◌, ◌≡◌, inl, inr, Bool, true, false, ◌&&◌, Option, none, some, List, [], ◌∷◌,
  arith, leb, Bool-cases, leb→le, leb-eq-false, if◌then◌else◌, ◌==◌, nat_eq, length,
}

-- The columns of a user's row that the statement reads and writes.
pub record Account : Type 0 where
  pub failed_logins : ℕ
  pub locked_until : Option ℕ

abbrev pub is_set : Option ℕ → Bool
is_set none = false
is_set (some t) = true

one_more : (q m : ℕ) → (q + 1) * m ≡ q * m + m
one_more q m = omega arith

-- The settings are login_max_failures and login_lockout_minutes, and `now` is the database's clock
-- in minutes.
module _ (max minutes : ℕ) where
  abbrev pub updated : ℕ → Account → Account
  updated now a =
      let reached = leb max (a.failed_logins + 1) in
      record {
        failed_logins = if reached then 0 else a.failed_logins + 1;
        locked_until = if reached then some (now + minutes) else a.locked_until;
      }

  abbrev counted_row : ℕ → Option Account → Bool × Option Account
  counted_row now none = (false, none)
  counted_row now (some a) = (
    (updated now a).failed_logins == 0 && is_set (updated now a).locked_until,
    some (updated now a),
  )

  -- The one statement, on the row of the user if there is one, and what is returned.
  unfoldable pub count_failure : ℕ → Option Account → Bool × Option Account
  count_failure now row = counted_row now row

  -- Wrong passwords at these times, in the order the database takes them: how many locked the
  -- account, and what its row is then.
  unfoldable pub wrong_passwords : List ℕ → Account → ℕ × Account
  unfolding count_failure
  wrong_passwords [] a = (0, a)
  wrong_passwords (now ∷ nows) a =
      let rest = wrong_passwords nows (updated now a) in
      ((if (count_failure now (some a)).0 then rest.0 + 1 else rest.0), rest.1)

  -- From a count below the limit, with the wrong passwords in whatever order the database takes them:
  -- the count and the passwords together are the limit for each time that one locked the account, and
  -- what the row counts in the end, which is below the limit.
  pub wrong_passwords_counted :
      (nows : List ℕ) (a : Account)
      → a.failed_logins < max
      → (a.failed_logins + length nows
          ≡ (wrong_passwords nows a).0 * max + (wrong_passwords nows a).1.failed_logins)
        × ((wrong_passwords nows a).1.failed_logins < max)
  unfolding wrong_passwords count_failure
  wrong_passwords_counted [] a h = (omega arith, h)
  wrong_passwords_counted (now ∷ nows) a h = elim (Bool-cases (leb max (a.failed_logins + 1))) [
    | inl t ↦
        let next : Account = record { failed_logins = 0; locked_until = some (now + minutes) } in
        let (e, lt) = wrong_passwords_counted nows next (omega arith) in
        rw t (
          omega (
            arith,
            one_more (wrong_passwords nows next).0 max,
            leb→le max (a.failed_logins + 1) t,
          ),
          lt,
        )
    | inr f ↦
        let next : Account = record {
          failed_logins = a.failed_logins + 1;
          locked_until = a.locked_until;
        } in
        let (e, lt) =
          wrong_passwords_counted nows next (leb-eq-false max (a.failed_logins + 1) f) in
        let more : (a.failed_logins + 1 == 0) ≡ false = ground arith in
        rw (f, more) (omega arith, lt)
  ]
