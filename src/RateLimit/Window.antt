-- ===== src/RateLimit/Window.antt =====
-- The limiter of internal/ratelimit/ratelimit.go against a specification that forgets no event.
use stream_guard.Prelude.{
  ℤ, pos, ◌-ℤ◌, ◌≤ℤ◌, -ℤ_parts, Bool, false, List, [], ◌∷◌, ◌++◌, String, insert, select, lookup,
  lookup-insert, ltb_ℤ, leb_ℤ, if◌then◌else◌, ◌≡◌, refl, ◌==◌, eq_iff, arith, Bool-cases, inl, inr,
  ap, ap₂, sym, ◌∙◌,
}
use stream_guard.RateLimit.{Event, Limiter, events_of, after, total_from, admit, add, prune, new}

pub data Call : Type 0 where
  admits : String → Call
  adds : String → ℤ → Call

-- The answers of the limiter to a sequence of calls with their times.
unfoldable pub answers : Limiter → List (ℤ × Call) → List Bool
answers l [] = []
answers l ((now, admits key) ∷ cs) = (admit key now l).1 ∷ answers (admit key now l).0 cs
answers l ((now, adds key tokens) ∷ cs) = answers (add key tokens now l) cs

-- The specification: all events ever added, by key, and an answer from those inside the window.
abbrev extend : String → Event → (String → List Event) → String → List Event
extend key e h k = if key == k then h k ++ e ∷ [] else h k

unfoldable in_window : ℤ → ℤ → ℤ → List Event → Bool
in_window window limit now es =
    ltb_ℤ (total_from (pos 0) (select (λ e. ltb_ℤ (now -ℤ window) e.at) es)) limit

unfoldable pub expected : ℤ → ℤ → (String → List Event) → List (ℤ × Call) → List Bool
unfolding in_window
expected window limit h [] = []
expected window limit h ((now, admits key) ∷ cs) =
    in_window window limit now (h key) ∷ expected window limit h cs
expected window limit h ((now, adds key tokens) ∷ cs) =
    let h' =
      if leb_ℤ tokens (pos 0) then h else extend key (record { at = now; tokens = tokens }) h in
    expected window limit h' cs

-- The clock does not go back.
abbrev pub IsOrdered : ℤ → List (ℤ × Call) → Type 0
IsOrdered since [] = Unit
IsOrdered since ((now, c) ∷ cs) = (since ≤ℤ now) × IsOrdered now cs

select-append :
    (c : ℤ) (xs ys : List Event)
    → select (after c) (xs ++ ys) ≡ select (after c) xs ++ select (after c) ys
select-append c [] ys = refl
select-append c (x ∷ xs) ys = ground (arith, select-append c xs ys)

-- A later cutoff makes an earlier one superfluous.
select-select :
    (c d : ℤ) (xs : List Event)
    → c ≤ℤ d
    → select (after d) (select (after c) xs) ≡ select (after d) xs
select-select c d [] h = refl
select-select c d (x ∷ xs) h = ground (arith, select-select c d xs h)

-- What the limiter holds for a key agrees with the history from the cutoff on.
abbrev Agrees : ℤ → Limiter → (String → List Event) → Type 0
Agrees c l h = (key : String) → select (after c) (events_of key l) ≡ select (after c) (h key)

Agrees-later :
    (c d : ℤ) (l : Limiter) (h : String → List Event) → c ≤ℤ d → Agrees c l h → Agrees d l h
Agrees-later c d l h le a key =
    sym (select-select c d (events_of key l) le)
    ∙ ap (select (after d)) (a key)
    ∙ select-select c d (h key) le

events_of-admit :
    (key k : String) (now : ℤ) (l : Limiter)
    → events_of k (admit key now l).0
      ≡ (if key == k then select (after (now -ℤ l.window)) (events_of key l) else events_of k l)
unfolding events_of admit
events_of-admit key k now l = ground (arith, lookup-insert key k (prune key now l).0 l.by_key)

events_of-add :
    (key k : String) (tokens now : ℤ) (l : Limiter)
    → leb_ℤ tokens (pos 0) ≡ false
    → events_of k (add key tokens now l) ≡ (
        if key == k
        then select (after (now -ℤ l.window)) (events_of key l)
          ++ record { at = now; tokens = tokens } ∷ []
        else events_of k l)
unfolding events_of add
events_of-add key k tokens now l p = ground (
  arith,
  lookup-insert key k ((prune key now l).0 ++ record { at = now; tokens = tokens } ∷ []) l.by_key,
)

admit-Agrees :
    (key : String) (now : ℤ) (l : Limiter) (h : String → List Event)
    → Agrees (now -ℤ l.window) l h
    → Agrees (now -ℤ l.window) (admit key now l).0 h
admit-Agrees key now l h a k =
    let c = now -ℤ l.window in
    elim (Bool-cases (key == k)) [
      | inl e ↦
          rw (events_of-admit key k now l, e)
            (select-select c c (events_of key l) (omega arith)
              ∙ a key
              ∙ ap (λ j. select (after c) (h j)) ((eq_iff key k).0 e))
      | inr e ↦ rw (events_of-admit key k now l, e) (a k)
    ]

add-Agrees :
    (key : String) (tokens now : ℤ) (l : Limiter) (h : String → List Event)
    → leb_ℤ tokens (pos 0) ≡ false
    → Agrees (now -ℤ l.window) l h
    → Agrees
        (now -ℤ l.window)
        (add key tokens now l)
        (extend key (record { at = now; tokens = tokens }) h)
add-Agrees key tokens now l h p a k =
    let c = now -ℤ l.window in
    let e : Event = record { at = now; tokens = tokens } in
    elim (Bool-cases (key == k)) [
      | inl eq ↦
          rw (events_of-add key k tokens now l p, eq)
            (select-append c (select (after c) (events_of key l)) (e ∷ [])
              ∙ ap (λ xs. xs ++ select (after c) (e ∷ []))
                  (select-select c c (events_of key l) (omega arith)
                    ∙ a key
                    ∙ ap (λ j. select (after c) (h j)) ((eq_iff key k).0 eq))
              ∙ sym (select-append c (h k) (e ∷ [])))
      | inr ne ↦ rw (events_of-add key k tokens now l p, ne) (a k)
    ]

add-keeps :
    (key : String) (tokens now : ℤ) (l : Limiter)
    → ((add key tokens now l).window ≡ l.window) × ((add key tokens now l).limit ≡ l.limit)
unfolding add
add-keeps key tokens now l = ground arith

admit-keeps :
    (key : String) (now : ℤ) (l : Limiter)
    → ((admit key now l).0.window ≡ l.window) × ((admit key now l).0.limit ≡ l.limit)
unfolding admit
admit-keeps key now l = (refl, refl)

admit-in_window :
    (key : String) (now : ℤ) (l : Limiter) (h : String → List Event)
    → Agrees (now -ℤ l.window) l h
    → (admit key now l).1 ≡ in_window l.window l.limit now (h key)
unfolding admit in_window
admit-in_window key now l h a = rw (a key)

Agrees-cutoff :
    (since now : ℤ) (l : Limiter) (h : String → List Event)
    → since ≤ℤ now
    → Agrees (since -ℤ l.window) l h
    → Agrees (now -ℤ l.window) l h
Agrees-cutoff since now l h o a =
    Agrees-later (since -ℤ l.window) (now -ℤ l.window) l h
      (omega (arith, -ℤ_parts since l.window, -ℤ_parts now l.window)) a

-- From a limiter that agrees with a history from the cutoff on, and with a clock that does not go
-- back, the limiter gives the answers of the specification: what it
-- has forgotten never counts again.
answers-expected :
    (since : ℤ) (l : Limiter) (h : String → List Event) (cs : List (ℤ × Call))
    → Agrees (since -ℤ l.window) l h
    → IsOrdered since cs
    → answers l cs ≡ expected l.window l.limit h cs
unfolding answers expected admit add
answers-expected since l h [] a o = refl
answers-expected since l h ((now, admits key) ∷ cs) a o =
    let b = Agrees-cutoff since now l h o.0 a in
    ap₂ ◌∷◌ (admit-in_window key now l h b)
      (answers-expected now (admit key now l).0 h cs (admit-Agrees key now l h b) o.1)
answers-expected since l h ((now, adds key tokens) ∷ cs) a o =
    elim (Bool-cases (leb_ℤ tokens (pos 0))) [
      | inl nothing ↦
          rw nothing (answers-expected now l h cs (Agrees-cutoff since now l h o.0 a) o.1)
      | inr added ↦ rw added (
          answers-expected now
            (record l {
              by_key =
                  insert key ((prune key now l).0 ++ record { at = now; tokens = tokens } ∷ [])
                    l.by_key;
            })
            (extend key (record { at = now; tokens = tokens }) h) cs
            (rw added at (add-Agrees key tokens now l h added (Agrees-cutoff since now l h o.0 a)))
            o.1)
    ]

-- A new limiter, whatever window and limit it was asked for, answers every sequence of calls, at
-- times that do not go back, as the specification does that starts without events: a key is admitted
-- if the tokens ever added for it inside the window are below the limit.
pub new-answers :
    (window limit since : ℤ) (cs : List (ℤ × Call))
    → IsOrdered since cs
    → answers (new window limit) cs
      ≡ expected (new window limit).window (new window limit).limit (λ k. []) cs
unfolding new events_of lookup
new-answers window limit since cs o =
    answers-expected since (new window limit) (λ k. []) cs (λ key. refl) o
