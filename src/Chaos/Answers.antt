-- ===== src/Chaos/Answers.antt =====
-- What the streams of `Run` in chaos/harness.go leave in its counts, and which scenarios are drawn.
use stream_guard.Prelude.{
  ℕ, zero, suc, ◌+◌, ℤ, pos, ◌+ℤ◌, add64, add64_comm, wrap64, wrap64-add_left, wrap64_id, get_elem?,
  Bool, true, false, not, ◌&&◌, List, [], ◌∷◌, ◌++◌, Option, none, some, String, ◌==◌, eq_iff,
  lookup, lookup-insert, All, if◌then◌else◌, ◌≡◌, ◌≢◌, refl, sym, ap, ◌∙◌, arith, Bool-cases, inl,
  inr,
}
use stream_guard.Text.{Bytes, codes, contains_text}
use stream_guard.Chaos.{Scenario, scenarios, cons_each, select}
use stream_guard.Chaos.Run.{
  Answer, Tally, StreamError, none_yet, or_zero, noted, names_failure, note_failures, reasons,
  note_stream, note_streams, insert_at, ended, expected_of,
}

-- How often a name stands among the reasons.
abbrev pub occurs : String → List String → ℕ
occurs f [] = 0
occurs f (g ∷ gs) = (if g == f then 1 else 0) + occurs f gs

abbrev pub counted : String → Tally → ℕ
counted f t = or_zero (lookup f t.failures)

same_names :
    (body : Bytes) (g f : String) → g == f ≡ true → names_failure body g ≡ names_failure body f
same_names body g f e = ap (names_failure body) ((eq_iff g f).0 e)

counted-noted :
    (f g : String) (elapsed : ℤ) (t : Tally)
    → counted f (noted g elapsed t) ≡ counted f t + (if g == f then 1 else 0)
counted-noted f g elapsed t = elim (Bool-cases (g == f)) [
  | inl own ↦
      rw (lookup-insert g f (counted g t + 1) t.failures, own)
        (ap (λ x. counted x t + 1) ((eq_iff g f).0 own))
  | inr other ↦ rw (lookup-insert g f (counted g t + 1) t.failures, other) (omega arith)
]

sum_named :
    (own named : Bool) (x y : ℕ)
    → (own ≡ true → named ≡ true)
    → x + (if own then 1 else 0) + (if named then y else 0)
      ≡ x + (if named then (if own then 1 else 0) + y else 0)
sum_named own named x y h = ground arith

sum_other :
    (own named : Bool) (x y : ℕ)
    → (own ≡ true → named ≡ false)
    → x + (if named then y else 0) ≡ x + (if named then (if own then 1 else 0) + y else 0)
sum_other own named x y h = ground arith

counted-note_failures :
    (f : String) (body : Bytes) (elapsed : ℤ) (fs : List String) (t : Tally)
    → counted f (note_failures body elapsed fs t)
      ≡ counted f t + (if names_failure body f then occurs f fs else 0)
unfolding note_failures
counted-note_failures f body elapsed [] t = ground arith
counted-note_failures f body elapsed (g ∷ fs) t = elim (Bool-cases (names_failure body g)) [
  | inl named ↦
      rw (named, note_failures)
        (counted-note_failures f body elapsed fs (noted g elapsed t)
          ∙ ap (λ n. n + (if names_failure body f then occurs f fs else 0))
              (counted-noted f g elapsed t)
          ∙ sum_named (g == f) (names_failure body f) (counted f t) (occurs f fs)
              (λ own. sym (same_names body g f own) ∙ named))
  | inr other ↦
      rw (other, note_failures)
        (counted-note_failures f body elapsed fs t
          ∙ sum_other (g == f) (names_failure body f) (counted f t) (occurs f fs)
              (λ own. sym (same_names body g f own) ∙ other))
]

errs-note_failures :
    (body : Bytes) (elapsed : ℤ) (fs : List String) (t : Tally)
    → (note_failures body elapsed fs t).errs ≡ t.errs
unfolding note_failures
errs-note_failures body elapsed [] t = refl
errs-note_failures body elapsed (g ∷ fs) t = elim (Bool-cases (names_failure body g)) [
  | inl e ↦ rw (e, note_failures) (errs-note_failures body elapsed fs _)
  | inr e ↦ rw (e, note_failures) (errs-note_failures body elapsed fs t)
]

-- An answer that `Run` takes: there is one, and it is cut where the scenario says so.
abbrev pub IsTaken : Scenario × Answer → Type 0
IsTaken (s, none) = ⊥
IsTaken (s, some (body, elapsed)) =
    s.truncated ≡ true → contains_text body (codes "gateway_truncated") ≡ true

-- The answers that name a failure.
abbrev pub named_by : String → Answer → ℕ
named_by f none = 0
named_by f (some (body, elapsed)) = if names_failure body f then 1 else 0

abbrev pub naming : String → List (Scenario × Answer) → ℕ
naming f [] = 0
naming f ((s, answer) ∷ rest) = named_by f answer + naming f rest

snoc_not_nil : (es : List StreamError) (e : StreamError) → es ++ e ∷ [] ≢ []
snoc_not_nil [] e h = cc
snoc_not_nil (x ∷ es) e h = cc

errs-note_stream :
    (s : Scenario) (answer : Answer) (t : Tally)
    → (note_stream s answer t).errs ≡ []
    → (t.errs ≡ []) × IsTaken (s, answer)
unfolding note_stream
errs-note_stream s none t e = absurd (snoc_not_nil t.errs _ e)
errs-note_stream s (some (body, elapsed)) t e =
    let cut = contains_text body (codes "gateway_truncated") in
    let kept = errs-note_failures body elapsed reasons t in
    elim (Bool-cases (s.truncated && not cut)) [
      | inl missing ↦ absurd (snoc_not_nil _ _ (rw missing at e))
      | inr fine ↦ (sym kept ∙ (rw fine at e), λ h. ground (arith, h, fine))
    ]

pub errs-note_streams :
    (answers : List (Scenario × Answer)) (t : Tally)
    → (note_streams answers t).errs ≡ []
    → (t.errs ≡ []) × All IsTaken answers
unfolding note_streams
errs-note_streams [] t e = (e, tt)
errs-note_streams ((s, answer) ∷ rest) t e =
    let (here, later) = errs-note_streams rest (note_stream s answer t) e in
    let (before, taken) = errs-note_stream s answer t here in (before, (taken, later))

counted-note_stream :
    (f : String) (s : Scenario) (answer : Answer) (t : Tally)
    → occurs f reasons ≡ 1
    → counted f (note_stream s answer t) ≡ counted f t + named_by f answer
unfolding note_stream
counted-note_stream f s none t known = ground arith
counted-note_stream f s (some (body, elapsed)) t known =
    ground (arith, counted-note_failures f body elapsed reasons t)

pub counted-note_streams :
    (f : String) (answers : List (Scenario × Answer)) (t : Tally)
    → occurs f reasons ≡ 1
    → counted f (note_streams answers t) ≡ counted f t + naming f answers
unfolding note_streams
counted-note_streams f [] t known = omega arith
counted-note_streams f ((s, answer) ∷ rest) t known =
    counted-note_streams f rest (note_stream s answer t) known
    ∙ omega (arith, counted-note_stream f s answer t known)

pub counted_none : (f : String) (n : ℕ) → counted f none_yet + n ≡ n
unfolding lookup
counted_none f n = omega arith

-- Every stream with its answer, in the order in which they are started.
abbrev pub started : (ℕ → Scenario → Answer) → ℕ → List Scenario → List (Scenario × Answer)
started answer i [] = []
started answer i (s ∷ rest) = (s, answer i s) ∷ started answer (suc i) rest

naming-insert_at :
    (f : String) (k : ℕ) (x : Scenario × Answer) (xs : List (Scenario × Answer))
    → naming f (insert_at k x xs) ≡ named_by f x.1 + naming f xs
unfolding insert_at
naming-insert_at f zero (s, answer) xs = refl
naming-insert_at f (suc k) (s, answer) [] = refl
naming-insert_at f (suc k) (s, answer) ((s', answer') ∷ ys) =
    omega (arith, naming-insert_at f k (s, answer) ys)

pub naming-ended :
    (f : String) (answer : ℕ → Scenario → Answer) (place : ℕ → ℕ) (i : ℕ) (ss : List Scenario)
    → naming f (ended answer place i ss) ≡ naming f (started answer i ss)
unfolding ended
naming-ended f answer place i [] = refl
naming-ended f answer place i (s ∷ rest) =
    naming-insert_at f (place i) (s, answer i s) (ended answer place (suc i) rest)
    ∙ ap (λ n. named_by f (answer i s) + n) (naming-ended f answer place (suc i) rest)

IsTaken-insert_at :
    (k : ℕ) (x : Scenario × Answer) (xs : List (Scenario × Answer))
    → All IsTaken (insert_at k x xs)
    → IsTaken x × All IsTaken xs
unfolding insert_at
IsTaken-insert_at zero x xs t = t
IsTaken-insert_at (suc k) x [] t = t
IsTaken-insert_at (suc k) x (y ∷ ys) t =
    let (here, rest) = IsTaken-insert_at k x ys t.1 in (here, (t.0, rest))

pub IsTaken-ended :
    (answer : ℕ → Scenario → Answer) (place : ℕ → ℕ) (i : ℕ) (ss : List Scenario)
    → All IsTaken (ended answer place i ss)
    → All IsTaken (started answer i ss)
unfolding ended
IsTaken-ended answer place i [] t = tt
IsTaken-ended answer place i (s ∷ rest) t =
    let (here, later) =
      IsTaken-insert_at (place i) (s, answer i s) (ended answer place (suc i) rest) t in
    (here, IsTaken-ended answer place (suc i) rest later)

-- The scenarios that the random source draws for `n` streams, from the number `i` on.
abbrev pub AreDrawn : (ℕ → ℕ) → ℕ → ℕ → List Scenario → Type 0
AreDrawn draw i zero [] = Unit
AreDrawn draw i zero (s ∷ rest) = ⊥
AreDrawn draw i (suc n) [] = ⊥
AreDrawn draw i (suc n) (s ∷ rest) =
    (get_elem? scenarios (draw i) ≡ some s) × AreDrawn draw (suc i) n rest

not_empty : (o : Option Scenario) (r : Option (List Scenario)) → cons_each o r ≢ some []
not_empty none r e = cc
not_empty (some s) none e = cc
not_empty (some s) (some rest) e = cc

both_there :
    (o : Option Scenario) (r : Option (List Scenario)) (s : Scenario) (rest : List Scenario)
    → cons_each o r ≡ some (s ∷ rest)
    → (o ≡ some s) × (r ≡ some rest)
both_there none r s rest e = cc
both_there (some s') none s rest e = cc
both_there (some s') (some rest') s rest e = (cc, cc)

pub select-AreDrawn :
    (draw : ℕ → ℕ) (i n : ℕ) (ss : List Scenario) → select draw i n ≡ some ss → AreDrawn draw i n ss
unfolding select
select-AreDrawn draw i zero [] e = tt
select-AreDrawn draw i zero (s ∷ rest) e = cc
select-AreDrawn draw i (suc n) [] e =
    not_empty (get_elem? scenarios (draw i)) (select draw (suc i) n) e
select-AreDrawn draw i (suc n) (s ∷ rest) e =
    let (here, later) =
      both_there (get_elem? scenarios (draw i)) (select draw (suc i) n) s rest e in
    (here, select-AreDrawn draw (suc i) n rest later)

-- The tokens that some scenarios are to bill, without wrap-around.
abbrev pub sum_expected : List Scenario → ℤ
sum_expected [] = pos 0
sum_expected (s ∷ rest) = s.expected_billed +ℤ sum_expected rest

pub expected_of-sum : (ss : List Scenario) → expected_of ss ≡ wrap64 (sum_expected ss)
unfolding expected_of
expected_of-sum [] = sym (wrap64_id (pos 0) (omega arith))
expected_of-sum (s ∷ rest) =
    ap (add64 s.expected_billed) (expected_of-sum rest)
    ∙ add64_comm s.expected_billed (wrap64 (sum_expected rest))
    ∙ wrap64-add_left (sum_expected rest) s.expected_billed
    ∙ add64_comm (sum_expected rest) s.expected_billed
