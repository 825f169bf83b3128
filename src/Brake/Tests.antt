-- ===== src/Brake/Tests.antt =====
-- Guesses from one address, and the properties at these.
use turkey_bite.Prelude.{
  ◌↔◌, ℕ, zero, suc, ◌+◌, ◌*◌, ◌<◌, ◌≡◌, refl, true, false, Option, none, some, List, [], ◌∷◌,
  length, arith,
}
use turkey_bite.Text.{Text, text}
use turkey_bite.Brake.{Names, State, initial, second, source, name, limited, failed}
use turkey_bite.Brake.Keys.{find, put, remove}
use turkey_bite.Brake.History.{Wrong}
use turkey_bite.Brake.Calls.{Served, fresh, wrong, held_back, limited-held_back}
use turkey_bite.Brake.Gates.{
  Gates, no_gates, enter, enter_name, leave, Crowd, nobody, arrives, refused, starts, quits, ends,
}
use turkey_bite.Brake.Crowds.{Fits, enter-Crowd}
use turkey_bite.Brake.Lockout.{Account, wrong_passwords, wrong_passwords_counted}

-- Addresses as they are written, all of version 4, and names that need no folding.
abbrev plain : Names
plain = record {
  Address = Text;
  parse = λ s. some s;
  is_v6 = λ a. false;
  ipv4_mapped = λ a. none;
  shown = λ a. a;
  network = λ a. a;
  nfkc = λ s. s;
  casefold = λ s. s;
}

record Guessed : Type 0 where
  history : List Wrong
  state : State
  served : Served plain history (5 * second) state

abbrev school : Option Text
school = some (text "192.0.2.7")

abbrev arrived :
    Served plain []
      (5 * second)
      (limited plain (5 * second) (5 * second) school (text "eve") initial).1
arrived =
    Served.asked fresh (5 * second) (5 * second) school (text "eve") (omega arith) (omega arith)

-- Wrong passwords for eve, all at the fifth second.
guesses : ℕ → Guessed
guesses zero = record { history = []; state = _; served = arrived }
guesses (suc n) =
    let g = guesses n in
    record {
      history = _;
      state = _;
      served =
          wrong g.served (5 * second) (5 * second) (λ i. 5 * second) school (text "eve")
            (omega arith) (omega arith) (λ i. omega arith);
    }

eve_held_back :
    (limited plain (6 * second) (6 * second) school (text " eve") (guesses 10).state).0 ≡ true
unfolding guesses limited failed source name find put remove
eve_held_back = refl

nine_are_not :
    (limited plain (6 * second) (6 * second) school (text "eve") (guesses 9).state).0 ≡ false
unfolding guesses limited failed source name find put remove
nine_are_not = refl

bob_served :
    (limited plain (6 * second) (6 * second) school (text "bob") (guesses 10).state).0 ≡ false
unfolding guesses limited failed source name find put remove
bob_served = refl

forgotten :
    (limited plain (306 * second) (306 * second) school (text "eve") (guesses 10).state).0 ≡ false
unfolding guesses limited failed source name find put remove
forgotten = refl

limited-held_back_example :
    (limited plain (6 * second) (6 * second) school (text "eve") (guesses 10).state).0
    ≡ held_back
        (6 * second)
        (6 * second)
        (source plain school)
        (name plain (text "eve"))
        (guesses 10).history
limited-held_back_example =
    limited-held_back plain (guesses 10).history (5 * second) (guesses 10).state (6 * second)
      (6 * second) school (text "eve") (guesses 10).served (omega arith) (omega arith)

abbrev account : Account
account = record { failed_logins = 1; locked_until = none }

wrong_passwords_counted_example :
    (1 + 7
      ≡ (wrong_passwords 5 15 (1 ∷ 2 ∷ 3 ∷ 4 ∷ 5 ∷ 6 ∷ 7 ∷ []) account).0 * 5
        + (wrong_passwords 5 15 (1 ∷ 2 ∷ 3 ∷ 4 ∷ 5 ∷ 6 ∷ 7 ∷ []) account).1.failed_logins)
    × ((wrong_passwords 5 15 (1 ∷ 2 ∷ 3 ∷ 4 ∷ 5 ∷ 6 ∷ 7 ∷ []) account).1.failed_logins < 5)
wrong_passwords_counted_example =
    wrong_passwords_counted 5 15 (1 ∷ 2 ∷ 3 ∷ 4 ∷ 5 ∷ 6 ∷ 7 ∷ []) account (omega arith)

record Gathering (turns queue : ℕ) : Type 0 where
  waiting : List ℕ
  inside : List ℕ
  gates : Gates
  crowd : Crowd turns queue waiting inside gates

-- One is inside and two wait at a gate that has a turn and two places; a fourth is refused.
full : Gathering 1 2
unfolding enter
full = record {
  waiting = _;
  inside = _;
  gates = _;
  crowd =
      refused
        (arrives (arrives (starts (arrives nobody 0 refl) [] 0 [] refl (omega arith)) 0 refl) 0
          refl)
        refl;
}

-- The one inside is done, and one that waited is cancelled.
thinned : Gathering 1 2
unfolding full enter leave
thinned = record {
  waiting = _;
  inside = _;
  gates = _;
  crowd = quits (ends full.crowd [] 0 [] refl) [] 0 (0 ∷ []) refl;
}

full_refuses : (enter 1 2 full.gates).0 ≡ none
unfolding full enter
full_refuses = refl

one_left : (thinned.gates.entry ≡ some 0) × (thinned.gates.holding 0 ≡ 1)
unfolding thinned full enter leave
one_left = (refl, refl)

all_gone : (leave 0 (enter 1 2 no_gates).1).entry ≡ none
unfolding enter leave
all_gone = refl

-- The gate that was shut is not the one that was made after it.
another_gate : (leave 0 (enter 1 2 (leave 0 (enter 1 2 no_gates).1)).1).entry ≡ some 1
unfolding enter leave
another_gate = refl

first_named : enter_name no_gates ≡ enter 1 16 no_gates
unfolding enter_name
first_named = refl

enter-Crowd_example :
    Fits 1 2 full.waiting full.inside full.gates
    × (((enter 1 2 full.gates).0 ≡ none) ↔ (length full.waiting + length full.inside ≡ 1 + 2))
enter-Crowd_example = enter-Crowd 1 2 (omega arith) full.crowd
