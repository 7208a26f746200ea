-- ===== src/Budget/Interleaving.antt =====
-- The compare-and-swap loops of TryReserve and Release in internal/budget/budget.go, one atomic
-- access to the count at a time, under any schedule of any number of callers.
pub mod Machine
use stream_guard.Prelude.{
  ℕ, ℤ, pos, Bool, true, false, Option, none, some, List, [], ◌∷◌, ltb_ℤ, leb_ℤ, eqb_ℤ, eqb, add64,
  sub64, if◌then◌else◌, ◌≡◌, refl, arith, eq_of_parts, sym, subst, ap, Bool-cases, inl, inr, All,
  IsInt64, half_word, pos_part, ◌+◌, ◌<◌, eqb_refl,
}
use stream_guard.Budget.Bounds.{IsBudgeted, try_reserve-IsBudgeted, release-IsBudgeted}
use stream_guard.Budget.{ApiKeyRecord, try_reserve, release}
use stream_guard.Budget.Interleaving.Machine.{
  Op, Pc, atomically, Outcome, enter, load, swapped, swap, Event, World, update, Log, act, who,
  op_of, step, logged, run, log, reserve, give_back, idle, before_load, before_swap, call, advance,
}

-- The logged calls made one after another, each with the result that the log says.
abbrev pub Replays : ApiKeyRecord → Log → ApiKeyRecord → Type 0
Replays k [] k' = k ≡ k'
Replays k ((op, b) ∷ rest) k' = ((atomically op k).1 ≡ b) × Replays (atomically op k).0 rest k'

-- A caller in the loop passed the test of its argument; before the swap, also that of the budget.
abbrev PcOk : ℤ → Pc → Type 0
PcOk budget idle = Unit
PcOk budget (before_load (reserve n)) = ltb_ℤ n (pos 0) ≡ false
PcOk budget (before_load (give_back n)) = leb_ℤ n (pos 0) ≡ false
PcOk budget (before_swap (reserve n) used) =
    (ltb_ℤ n (pos 0) ≡ false) × (ltb_ℤ budget (add64 used n) ≡ false)
PcOk budget (before_swap (give_back n) used) = leb_ℤ n (pos 0) ≡ false

-- A step that returns is the whole call made at that moment; any other leaves the record alone.
abbrev Atomic : Op → ApiKeyRecord → Outcome → Type 0
Atomic op k (p, k', none) = k' ≡ k
Atomic op k (p, k', some b) = (atomically op k ≡ (k', b)) × (p ≡ idle)

enter-Atomic : (op : Op) (k : ApiKeyRecord) → Atomic op k (enter op k)
unfolding enter atomically
enter-Atomic (reserve n) k = ground arith
enter-Atomic (give_back n) k = ground arith

load-Atomic :
    (op : Op) (k : ApiKeyRecord) → PcOk k.token_budget (before_load op) → Atomic op k (load op k)
unfolding load atomically
load-Atomic (reserve n) k h = ground arith
load-Atomic (give_back n) k h = refl

swap-Atomic :
    (op : Op) (used : ℤ) (k : ApiKeyRecord)
    → PcOk k.token_budget (before_swap op used)
    → Atomic op k (swap op used k)
unfolding swap atomically
swap-Atomic (reserve n) used k h = ground (arith, eq_of_parts k.tokens_used used)
swap-Atomic (give_back n) used k h = ground (arith, eq_of_parts k.tokens_used used)

-- The place that a step reaches keeps what the next one relies on, and the budget stays.
Next : ℤ → Outcome → Type 0
Next budget (p, k, r) = PcOk budget p × (k.token_budget ≡ budget)

act-Next :
    (e : Event) (p : Pc) (k : ApiKeyRecord)
    → PcOk k.token_budget p
    → Next k.token_budget (act e p k)
unfolding act Next
act-Next (call i (reserve n)) idle k h = ground arith
act-Next (call i (give_back n)) idle k h = ground arith
act-Next (call i op) (before_load o) k h = (h, refl)
act-Next (call i op) (before_swap o used) k h = (h, refl)
act-Next (advance i) idle k h = (tt, refl)
act-Next (advance i) (before_load (reserve n)) k h = ground arith
act-Next (advance i) (before_load (give_back n)) k h = (h, refl)
act-Next (advance i) (before_swap (reserve n) used) k h = ground arith
act-Next (advance i) (before_swap (give_back n) used) k h = ground arith

act-Atomic :
    (e : Event) (p : Pc) (k : ApiKeyRecord)
    → PcOk k.token_budget p
    → Atomic (op_of e p) k (act e p k)
unfolding act
act-Atomic (call i op) idle k h = enter-Atomic op k
act-Atomic (call i op) (before_load o) k h = refl
act-Atomic (call i op) (before_swap o used) k h = refl
act-Atomic (advance i) idle k h = refl
act-Atomic (advance i) (before_load op) k h = load-Atomic op k h
act-Atomic (advance i) (before_swap op used) k h = swap-Atomic op used k h

-- Every caller stands where its tests allow.
abbrev IsConsistent : World → Type 0
IsConsistent w = (i : ℕ) → PcOk w.key.token_budget (w.at i)

update-PcOk :
    (budget : ℤ) (f : ℕ → Pc) (i : ℕ) (p : Pc) (j : ℕ)
    → PcOk budget p
    → PcOk budget (f j)
    → PcOk budget (update f i p j)
update-PcOk budget f i p j hp hf = elim (Bool-cases (eqb i j)) [ inl e ↦ rw e hp | inr e ↦ rw e hf ]

step-IsConsistent : (w : World) (e : Event) → IsConsistent w → IsConsistent (step w e)
unfolding step Next
step-IsConsistent w e h j =
    let (p, b) = act-Next e (w.at (who e)) w.key (h (who e)) in
    rw b (update-PcOk w.key.token_budget w.at (who e) _ j p (h j))

replay_one :
    (op : Op) (k k' : ApiKeyRecord) (o : Outcome) (rest : Log)
    → Atomic op k o
    → Replays o.1 rest k'
    → Replays k (logged op o.2 rest) k'
replay_one op k k' (p, k₁, none) rest a r = subst (λ x. Replays x rest k') a r
replay_one op k k' (p, k₁, some b) rest a r =
    (ap (λ t. t.1) a.0, subst (λ t. Replays t.0 rest k') (sym a.0) r)

-- From callers that stand where their tests allow, whatever the schedule, the record is what the
-- returned calls leave when they are made one after another in the order of their returns, and each
-- gets the result that it got.
pub run-Replays :
    (w : World) (es : List Event) → IsConsistent w → Replays w.key (log w es) (run w es).key
unfolding run log step
run-Replays w [] h = refl
run-Replays w (e ∷ es) h =
    replay_one (op_of e (w.at (who e))) w.key _ (act e (w.at (who e)) w.key) _
      (act-Atomic e (w.at (who e)) w.key (h (who e)))
      (run-Replays (step w e) es (step-IsConsistent w e h))

-- An amount that cannot overflow the count while that is within the budget.
abbrev pub IsModest : ℤ → Op → Type 0
IsModest budget (reserve n) = pos_part n + pos_part budget < half_word
IsModest budget (give_back n) = IsInt64 n

atomically-IsBudgeted :
    (op : Op) (k : ApiKeyRecord)
    → IsModest k.token_budget op
    → IsBudgeted k
    → IsBudgeted (atomically op k).0 × ((atomically op k).0.token_budget ≡ k.token_budget)
unfolding atomically
atomically-IsBudgeted (reserve n) k m b =
    (try_reserve-IsBudgeted k n b m, unfold try_reserve in ground arith)
atomically-IsBudgeted (give_back n) k m b =
    (release-IsBudgeted k n b m, unfold release in ground arith)

Replays-IsBudgeted :
    (k k' : ApiKeyRecord) (l : Log)
    → All (λ r. IsModest k.token_budget r.0) l
    → IsBudgeted k
    → Replays k l k'
    → IsBudgeted k'
Replays-IsBudgeted k k' [] m b r = subst IsBudgeted r b
Replays-IsBudgeted k k' ((op, res) ∷ l) m b r =
    let (b', e) = atomically-IsBudgeted op k m.0 b in
    Replays-IsBudgeted (atomically op k).0 k' l (rw e m.1) b' r.1

-- From a count within the budget and callers that stand where their tests allow, no schedule of
-- modest calls, however many at once, takes the count over the budget or below zero.
pub run-IsBudgeted :
    (w : World) (es : List Event)
    → IsConsistent w
    → IsBudgeted w.key
    → All (λ r. IsModest w.key.token_budget r.0) (log w es)
    → IsBudgeted (run w es).key
run-IsBudgeted w es h b m =
    Replays-IsBudgeted w.key (run w es).key (log w es) m b (run-Replays w es h)

-- A caller that is about to load and is left alone returns in two steps.
pub solo_returns :
    (w : World) (i : ℕ) (op : Op)
    → w.at i ≡ before_load op
    → ((run w (advance i ∷ advance i ∷ [])).at i ≡ idle)
unfolding run step act
solo_returns w i (reserve n) e = ground (arith, eqb_refl i)
solo_returns w i (give_back n) e = ground (arith, eqb_refl i)
