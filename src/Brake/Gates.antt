-- ===== src/Brake/Gates.antt =====
-- The turns that sign-ins take in console/backend/tbconsole/security/limits.py: `_turn`,
-- `directory_turn` and `admitted`.
use turkey_bite.Prelude.{
  ℕ, ◌+◌, ◌-◌, ◌<◌, ◌≡◌, Bool, false, ◌&&◌, Option, none, some, List, [], ◌∷◌, ◌++◌, leb, length,
  if◌then◌else◌, ◌==◌, nat_eq,
}

abbrev pub in_flight : ℕ
in_flight = 2

abbrev pub waiting_room : ℕ
waiting_room = 64

abbrev pub name_queue : ℕ
name_queue = 16

-- `_gates` at one key, and the gates that were made for it: each has a number, for the object that it
-- is, and `holding` is the field of that name.
pub record Gates : Type 0 where
  pub entry : Option ℕ
  pub holding : ℕ → ℕ
  pub made : ℕ

abbrev pub no_gates : Gates
no_gates = record { entry = none; holding = λ i. 0; made = 0 }

abbrev pub set_holding : ℕ → ℕ → Gates → Gates
set_holding i n s = record s { holding = λ j. if j == i then n else s.holding j }

-- The gate of the key, a new one where there is none
abbrev pub gate_at : Option ℕ → Gates → ℕ × Gates
gate_at (some i) s = (i, s)
gate_at none s =
    (s.made, set_holding s.made 0 (record s { entry = some s.made; made = s.made + 1 }))

abbrev pub take_place : ℕ → ℕ → ℕ × Gates → Option ℕ × Gates
take_place turns queue at =
    if leb (turns + queue) (at.1.holding at.0)
    then (none, at.1)
    else (some at.0, set_holding at.0 (at.1.holding at.0 + 1) at.1)

-- What `_turn` does before it waits: the gate at which the sign-in has its place now, or `none` for
-- Busy.
unfoldable pub enter : ℕ → ℕ → Gates → Option ℕ × Gates
enter turns queue s = take_place turns queue (gate_at s.entry s)

-- _gates.get(key) is gate
abbrev pub is_entry : Option ℕ → ℕ → Bool
is_entry none i = false
is_entry (some j) i = j == i

abbrev pub close : ℕ → Gates → Gates
close i s = if s.holding i == 0 && is_entry s.entry i then record s { entry = none } else s

-- The finally block of `_turn`, for a sign-in with a place at gate `i`.
unfoldable pub leave : ℕ → Gates → Gates
leave i s = close i (set_holding i (s.holding i - 1) s)

-- The gates of `admitted`, by address and by name, and of `directory_turn`.
unfoldable pub enter_address : Gates → Option ℕ × Gates
unfolding enter
enter_address s = enter in_flight waiting_room s

unfoldable pub enter_name : Gates → Option ℕ × Gates
unfolding enter
enter_name s = enter 1 name_queue s

unfoldable pub enter_directory : Gates → Option ℕ × Gates
unfolding enter
enter_directory s = enter 1 (in_flight + waiting_room) s

-- Who is at one key, by the gates where they have their places: those that wait and those inside.
-- `asyncio.Semaphore` lets one more in while fewer are inside than it has turns. One that waits may
-- be cancelled; then, and when one inside is done, the finally block runs.
pub data Crowd (turns queue : ℕ) : List ℕ → List ℕ → Gates → Type 0 where
  nobody : Crowd turns queue [] [] no_gates
  arrives :
      {w r : List ℕ} {s : Gates}
      → Crowd turns queue w r s
      → (i : ℕ) → (enter turns queue s).0 ≡ some i
      → Crowd turns queue (i ∷ w) r (enter turns queue s).1
  refused :
      {w r : List ℕ} {s : Gates}
      → Crowd turns queue w r s
      → (enter turns queue s).0 ≡ none
      → Crowd turns queue w r (enter turns queue s).1
  starts :
      {w r : List ℕ} {s : Gates}
      → Crowd turns queue w r s
      → (a : List ℕ) (i : ℕ) (b : List ℕ) → w ≡ a ++ i ∷ b
      → length r < turns
      → Crowd turns queue (a ++ b) (i ∷ r) s
  quits :
      {w r : List ℕ} {s : Gates}
      → Crowd turns queue w r s
      → (a : List ℕ) (i : ℕ) (b : List ℕ) → w ≡ a ++ i ∷ b
      → Crowd turns queue (a ++ b) r (leave i s)
  ends :
      {w r : List ℕ} {s : Gates}
      → Crowd turns queue w r s
      → (a : List ℕ) (i : ℕ) (b : List ℕ) → r ≡ a ++ i ∷ b
      → Crowd turns queue w (a ++ b) (leave i s)
