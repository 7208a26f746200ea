-- ===== src/Budget/Interleaving/Machine.antt =====
-- The compare-and-swap loops of TryReserve and Release in internal/budget/budget.go as steps of
-- callers, one atomic access to the count at a time.
use stream_guard.Prelude.{
  ℕ, ℤ, pos, Bool, true, false, Option, none, some, List, [], ◌∷◌, ltb_ℤ, leb_ℤ, eqb_ℤ, eqb, add64,
  sub64, if◌then◌else◌,
}
use stream_guard.Budget.{ApiKeyRecord, try_reserve, release}

pub data Op : Type 0 where
  reserve : ℤ → Op
  give_back : ℤ → Op

-- Where a caller stands: outside, before the load, between the load and the swap.
pub data Pc : Type 0 where
  idle : Pc
  before_load : Op → Pc
  before_swap : Op → ℤ → Pc

-- The call as one step. `Release` has no result; `true` stands for its return.
unfoldable pub atomically : Op → ApiKeyRecord → ApiKeyRecord × Bool
unfolding try_reserve release
atomically (reserve n) k = try_reserve k n
atomically (give_back n) k = (release k n, true)

-- What a caller does next: its new place, the record, and the result if it returns.
abbrev pub Outcome : Type 0
Outcome = Pc × ApiKeyRecord × Option Bool

-- The test of the argument before the loop.
unfoldable pub enter : Op → ApiKeyRecord → Outcome
enter (reserve n) k =
    if ltb_ℤ n (pos 0) then (idle, k, some false) else (before_load (reserve n), k, none)
enter (give_back n) k =
    if leb_ℤ n (pos 0) then (idle, k, some true) else (before_load (give_back n), k, none)

-- The load, and what the loop decides on the value that it saw.
unfoldable pub load : Op → ApiKeyRecord → Outcome
load (reserve n) k =
    if ltb_ℤ k.token_budget (add64 k.tokens_used n)
    then (idle, k, some false)
    else (before_swap (reserve n) k.tokens_used, k, none)
load (give_back n) k = (before_swap (give_back n) k.tokens_used, k, none)

-- The value that the swap writes.
abbrev pub swapped : Op → ℤ → ℤ
swapped (reserve n) used = add64 used n
swapped (give_back n) used = let next = sub64 used n in if ltb_ℤ next (pos 0) then pos 0 else next

-- The swap: it fails, and the loop goes round, if the count is no longer the one that was loaded.
unfoldable pub swap : Op → ℤ → ApiKeyRecord → Outcome
swap op used k =
    if eqb_ℤ k.tokens_used used
    then (idle, record k { tokens_used = swapped op used }, some true)
    else (before_load op, k, none)

-- One event: caller `i` makes the call `op`, or takes its next step.
pub data Event : Type 0 where
  call : ℕ → Op → Event
  advance : ℕ → Event

pub record World : Type 0 where
  pub key : ApiKeyRecord
  pub at : ℕ → Pc

abbrev pub update : (ℕ → Pc) → ℕ → Pc → ℕ → Pc
update f i p j = if eqb i j then p else f j

-- The calls that return, in order, with their results.
abbrev pub Log : Type 0
Log = List (Op × Bool)

-- A caller makes one call at a time: a `call` of a busy caller and an `advance` of an idle one are
-- no events of the program and change nothing.
unfoldable pub act : Event → Pc → ApiKeyRecord → Outcome
unfolding enter load swap
act (call i op) idle k = enter op k
act (call i op) p k = (p, k, none)
act (advance i) idle k = (idle, k, none)
act (advance i) (before_load op) k = load op k
act (advance i) (before_swap op used) k = swap op used k

abbrev pub who : Event → ℕ
who (call i op) = i
who (advance i) = i

-- The operation that an event works on.
abbrev pub op_of : Event → Pc → Op
op_of (call i op) idle = op
op_of (call i op) (before_load o) = o
op_of (call i op) (before_swap o used) = o
op_of (advance i) idle = give_back (pos 0)
op_of (advance i) (before_load o) = o
op_of (advance i) (before_swap o used) = o

unfoldable pub step : World → Event → World
step w e =
    let (p, k, r) = act e (w.at (who e)) w.key in record { key = k; at = update w.at (who e) p }

abbrev pub logged : Op → Option Bool → Log → Log
logged op none log = log
logged op (some b) log = (op, b) ∷ log

unfoldable pub run : World → List Event → World
run w [] = w
run w (e ∷ es) = run (step w e) es

unfoldable pub log : World → List Event → Log
log w [] = []
log w (e ∷ es) = logged (op_of e (w.at (who e))) (act e (w.at (who e)) w.key).2 (log (step w e) es)
