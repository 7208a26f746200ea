-- ===== src/Server/Sessions/Drain.antt =====
-- What holds of the sessions of internal/server/server.go while the server runs and drains.
use stream_guard.Prelude.{
  ℕ, ◌+◌, ◌≤◌, ◌<◌, ◌%◌, ℤ, true, false, List, [], ◌∷◌, ◌++◌, none, eqb, eqb_iff, eqb_refl, word,
  ◌≡◌, ◌≢◌, refl, ap, ap₂, ◌∙◌, arith, All, All-append, length, ◌||◌, Bool-cases, inl, inr,
  if◌then◌else◌,
}
use stream_guard.Server.Sessions.{
  Sessions, is_active, remove, put, register_session, release_session, begin_shutdown,
  force_close_active, release_all,
}

-- The steps, in the order in which they take effect.
pub data Step : Type 0 where
  register : Step
  release : ℕ → Step
  shut_down : ℤ → ℤ → Step
  force : Step

unfoldable pub take : Step → Sessions → Sessions
unfolding register_session release_session begin_shutdown force_close_active
take register s = (register_session s).0
take (release n) s = release_session n s
take (shut_down now timeout) s = begin_shutdown now timeout s
take force s = force_close_active s

unfoldable pub run : List Step → Sessions → Sessions
run [] s = s
run (x ∷ xs) s = run xs (take x s)

-- No session is there twice.
abbrev pub AreDistinct : List ℕ → Type 0
AreDistinct [] = Unit
AreDistinct (n ∷ ns) = (is_active n ns ≡ false) × AreDistinct ns

pub record IsOrderly (s : Sessions) : Type 0 where
  pub numbered : All (λ n. n ≤ s.session_seq) s.active
  pub distinct : AreDistinct s.active
  pub timed : s.draining ≡ false → s.force_at ≡ none

remove-below : (n k : ℕ) (ms : List ℕ) → All (λ m. m ≤ k) ms → All (λ m. m ≤ k) (remove n ms)
unfolding remove
remove-below n k [] h = tt
remove-below n k (m ∷ ms) h = elim (Bool-cases (eqb m n)) [
  | inl e ↦ rw e (remove-below n k ms h.1)
  | inr e ↦ rw e (h.0, remove-below n k ms h.1)
]

is_active-remove :
    (n m : ℕ) (ms : List ℕ)
    → is_active m (remove n ms) ≡ (if eqb n m then false else is_active m ms)
unfolding remove is_active
is_active-remove n m [] = ground arith
is_active-remove n m (k ∷ ms) =
    ground (arith, eqb_iff k n, eqb_iff n m, eqb_iff k m, is_active-remove n m ms)

remove-AreDistinct : (n : ℕ) (ms : List ℕ) → AreDistinct ms → AreDistinct (remove n ms)
unfolding remove
remove-AreDistinct n [] d = tt
remove-AreDistinct n (m ∷ ms) d = elim (Bool-cases (eqb m n)) [
  | inl e ↦ rw e (remove-AreDistinct n ms d.1)
  | inr e ↦ rw e (ground (arith, is_active-remove n m ms), remove-AreDistinct n ms d.1)
]

above_not_active : (n k : ℕ) (ms : List ℕ) → All (λ m. m ≤ k) ms → k < n → is_active n ms ≡ false
unfolding is_active
above_not_active n k [] h lt = refl
above_not_active n k (m ∷ ms) h lt = ground (arith, eqb_iff m n, above_not_active n k ms h.1)

-- The next number, before the counter wraps.
next_number : (n : ℕ) → n + 1 < word → (n + 1) % word ≡ n + 1
next_number n h = omega arith

All-raise : (k l : ℕ) (ms : List ℕ) → k ≤ l → All (λ m. m ≤ k) ms → All (λ m. m ≤ l) ms
All-raise k l [] le h = tt
All-raise k l (m ∷ ms) le h = (omega arith, All-raise k l ms le h.1)

is_active-append :
    (n m : ℕ) (ms : List ℕ) → is_active m (ms ++ n ∷ []) ≡ (is_active m ms || eqb n m)
unfolding is_active
is_active-append n m [] = ground arith
is_active-append n m (k ∷ ms) = ground (arith, is_active-append n m ms)

append-AreDistinct :
    (n : ℕ) (ms : List ℕ) → is_active n ms ≡ false → AreDistinct ms → AreDistinct (ms ++ n ∷ [])
unfolding is_active
append-AreDistinct n [] h d = (refl, tt)
append-AreDistinct n (m ∷ ms) h d = (
  ground (arith, is_active-append n m ms, eqb_iff n m, eqb_iff m n),
  append-AreDistinct n ms (ground arith) d.1,
)

register-IsOrderly :
    (s : Sessions)
    → s.session_seq + 1 < word
    → IsOrderly s
    → IsOrderly (register_session s).0
      × (is_active (register_session s).1 s.active ≡ false)
      × ((register_session s).0.active ≡ s.active ++ (register_session s).1 ∷ [])
      × ((register_session s).0.session_seq ≡ s.session_seq + 1)
unfolding register_session put
register-IsOrderly s h v =
    let fresh =
      above_not_active (s.session_seq + 1) s.session_seq s.active v.numbered (omega arith) in
    rw (next_number s.session_seq h, fresh)
      (
        record {
          numbered =
              All-append (λ m. m ≤ s.session_seq + 1) s.active ((s.session_seq + 1) ∷ [])
                (All-raise s.session_seq (s.session_seq + 1) s.active (omega arith) v.numbered)
                (omega arith, tt);
          distinct = append-AreDistinct (s.session_seq + 1) s.active fresh v.distinct;
          timed = v.timed;
        },
        refl,
        refl,
        refl,
      )

number-register :
    (s : Sessions) → s.session_seq + 1 < word → (register_session s).1 ≡ s.session_seq + 1
unfolding register_session
number-register s h = next_number s.session_seq h

release-IsOrderly : (n : ℕ) (s : Sessions) → IsOrderly s → IsOrderly (release_session n s)
unfolding release_session
release-IsOrderly n s v = record {
  numbered = remove-below n s.session_seq s.active v.numbered;
  distinct = remove-AreDistinct n s.active v.distinct;
  timed = λ e. ground (arith, v.timed e);
}

begin_shutdown-IsOrderly :
    (now timeout : ℤ) (s : Sessions)
    → IsOrderly s
    → IsOrderly (begin_shutdown now timeout s)
      × ((begin_shutdown now timeout s).session_seq ≡ s.session_seq)
unfolding begin_shutdown
begin_shutdown-IsOrderly now timeout s v = elim (Bool-cases s.draining) [
  | inl e ↦
      rw (e, begin_shutdown)
        (record { numbered = v.numbered; distinct = v.distinct; timed = λ d. cc }, refl)
  | inr e ↦
      rw (e, begin_shutdown)
        (record { numbered = v.numbered; distinct = v.distinct; timed = λ d. cc }, refl)
]

-- The numbers that the registrations among some steps hand out, in order.
unfoldable pub handed_out : List Step → Sessions → List ℕ
unfolding register_session take
handed_out [] s = []
handed_out (register ∷ xs) s = (register_session s).1 ∷ handed_out xs (take register s)
handed_out (release n ∷ xs) s = handed_out xs (take (release n) s)
handed_out (shut_down now timeout ∷ xs) s = handed_out xs (take (shut_down now timeout) s)
handed_out (force ∷ xs) s = handed_out xs (take force s)

-- The numbers after `k`, one for each registration.
abbrev pub after : ℕ → List Step → List ℕ
after k [] = []
after k (register ∷ xs) = (k + 1) ∷ after (k + 1) xs
after k (release n ∷ xs) = after k xs
after k (shut_down now timeout ∷ xs) = after k xs
after k (force ∷ xs) = after k xs

-- From orderly sessions, and while the 64-bit counter does not wrap, any steps keep the sessions orderly:
-- the numbers under way are distinct and not above the counter, and there is a timer only while
-- draining. The registrations among them hand out the numbers after the counter, each once and in
-- order, whatever is released or shut down between.
pub run-IsOrderly :
    (xs : List Step) (s : Sessions)
    → s.session_seq + length xs < word
    → IsOrderly s
    → IsOrderly (run xs s) × (handed_out xs s ≡ after s.session_seq xs)
unfolding run take handed_out
run-IsOrderly [] s h v = (v, refl)
run-IsOrderly (register ∷ xs) s h v =
    let (v', fresh, grown, seq) = register-IsOrderly s (omega arith) v in
    let (orderly, later) = run-IsOrderly xs (register_session s).0 (omega (arith, seq)) v' in
    (
      orderly,
      ap₂ (λ n ns. n ∷ ns) (number-register s (omega arith)) (later ∙ ap (λ k. after k xs) seq),
    )
run-IsOrderly (release n ∷ xs) s h v =
    run-IsOrderly xs (release_session n s) (unfold release_session in omega arith)
      (release-IsOrderly n s v)
run-IsOrderly (shut_down now timeout ∷ xs) s h v =
    let (v', seq) = begin_shutdown-IsOrderly now timeout s v in
    let (orderly, later) =
      run-IsOrderly xs (begin_shutdown now timeout s) (omega (arith, seq)) v' in
    (orderly, later ∙ ap (λ k. after k xs) seq)
run-IsOrderly (force ∷ xs) s h v =
    run-IsOrderly xs (force_close_active s) (unfold force_close_active in omega arith) (
      unfold force_close_active in
      record { numbered = v.numbered; distinct = v.distinct; timed = v.timed })

-- A list in which nothing is active is empty.
none_active : (ms : List ℕ) → ((m : ℕ) → is_active m ms ≡ false) → ms ≡ []
unfolding is_active
none_active [] h = refl
none_active (m ∷ ms) h = ground (arith, h m, eqb_refl m)

last_removed :
    (n m : ℕ) (ms : List ℕ)
    → (is_active m ms ≡ true → is_active m (n ∷ []) ≡ true)
    → is_active m (remove n ms) ≡ false
unfolding is_active
last_removed n m ms h = ground (arith, is_active-remove n m ms)

still_listed :
    (n m : ℕ) (ns : List ℕ) (s : Sessions)
    → (is_active m s.active ≡ true → is_active m (n ∷ ns) ≡ true)
    → is_active m (release_session n s).active ≡ true
    → is_active m ns ≡ true
unfolding is_active release_session
still_listed n m ns s h a = ground (arith, is_active-remove n m s.active)

-- Once every session under way has been released, in any order and with any other releases among
-- them, at least one, none is under way and the timer of a shutdown is off.
pub release_all-drained :
    (ns : List ℕ) (s : Sessions)
    → ns ≢ []
    → ((m : ℕ) → is_active m s.active ≡ true → is_active m ns ≡ true)
    → ((release_all ns s).active ≡ []) × ((release_all ns s).force_at ≡ none)
unfolding release_all
release_all-drained [] s some_one h = absurd (some_one refl)
release_all-drained (n ∷ []) s some_one h =
    rw (none_active (remove n s.active) (λ m. last_removed n m s.active (h m)), release_session)
      (refl, refl)
release_all-drained (n ∷ k ∷ ns) s some_one h =
    release_all-drained (k ∷ ns) (release_session n s) (λ e. cc)
      (λ m a. still_listed n m (k ∷ ns) s (h m) a)

-- When the last session under way of a draining server is released, and a request that passed the
-- check of draining before the shutdown registers after that, the server drains with this session
-- under way and no timer, and a further `begin_shutdown` starts none.
pub late_session :
    (n : ℕ) (now timeout : ℤ) (s : Sessions)
    → s.draining ≡ true
    → s.active ≡ n ∷ []
    → let (late, m) = register_session (release_session n s) in
      (late.active ≡ m ∷ []) × (late.force_at ≡ none) × (begin_shutdown now timeout late ≡ late)
unfolding register_session release_session begin_shutdown put remove is_active
late_session n now timeout s d a = ground (arith, eqb_refl n)
