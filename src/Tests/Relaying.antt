-- ===== src/Tests/Relaying.antt =====
-- A request that the second of two providers serves, which counts its usage, and a ledger read in two orders.
use stream_guard.Prelude.{
  ℕ, ℤ, pos, false, eqb, if◌then◌else◌, List, [], ◌∷◌, ◌++◌, none, some, String, Dict, lookup, ◌==◌,
  eq_iff, Bool-cases, inl, inr, ◌≡◌, refl, arith,
}
use stream_guard.Text.{codes}
use stream_guard.Breaker
use stream_guard.Ledger.{Entry, Store, or_new, summary}
use stream_guard.Ledger
use stream_guard.Ledger.Order.{summary_same}
use stream_guard.Cascade.{complete}
use stream_guard.Protocol.{Payload, status, content, silent_hang}
use stream_guard.Server.{err_silent_hang, answered, Arrival}
use stream_guard.Server.Stream.{begin, Turn}
use stream_guard.Server.Rounds.{stream}
use stream_guard.Server.Relay.{Story, serves, fails, stream-served}
use stream_guard.Server.Relay.Closed.{Served, switch}
use stream_guard.Server.Relay.Texts.{
  Said, text_said, usage_said, event_said, then_last, answered_play, spent,
}
use stream_guard.Server
use stream_guard.Text
use stream_guard.Tests.Requests.{
  provider, two_providers, shared, key-IsBudgeted, two, turn_of, hanging, hang, done, one_period,
  session,
}

abbrev second : Served
second = record { provider = provider "backup" (pos 2); tokens = 7; at = pos 40; cut = false }

-- A text, a count that rises by three, another text, a count that does not rise, and an event.
abbrev metered : List Said
metered =
    text_said (pos 40) (codes "Hello")
    ∷ usage_said (pos 41) 5
    ∷ text_said (pos 42) (codes "Hello")
    ∷ usage_said (pos 43) 7
    ∷ event_said (pos 44) (codes "ping")
    ∷ []

abbrev ending : Arrival
ending = record { meanwhile = λ s. s; at = pos 45; what = stream_guard.Server.frame done none }

abbrev script : ℕ → Turn
script i =
    if eqb i 0
    then turn_of (pos 20) hanging
    else turn_of (pos 40) (answered 200 [] (then_last metered ending))

abbrev shown : List Payload
shown =
    (content (codes "Hello") ∷ [])
    ++ switch (provider "primary" (pos 1)) (provider "backup" (pos 2)) silent_hang (pos 2) 0
    ++ content (codes "Hello") ∷ content (codes "Hello") ∷ []

story : Story two (codes "m") script 60 (pos 50) 0 0 (pos 0) two_providers shown second
unfolding Server.take Server.take_frame Text.eq_bytes stream_guard.Server.Stream.classify
    stream_guard.Prelude.wrap64 stream_guard.Prelude.◌+ℤ◌
story =
    fails 0 0 (pos 0) (provider "primary" (pos 1)) (provider "backup" (pos 2)) [] 2
      (content (codes "Hello") ∷ []) (content (codes "Hello") ∷ content (codes "Hello") ∷ [])
      err_silent_hang second (λ s. refl, λ s. refl)
      (answered_play 200 [] (text_said (pos 20) (codes "Hello") ∷ []) hang (some err_silent_hang)
        (omega arith) (λ text. omega arith) (tt, tt) (λ m. refl))
      tt (omega arith)
      (serves 1 1 (pos 2) (provider "backup" (pos 2)) [] 7
        (content (codes "Hello") ∷ content (codes "Hello") ∷ []) (λ s. refl, λ s. refl)
        (answered_play 200 [] metered ending none (omega arith) (λ text. omega arith)
          (tt, (omega arith, (tt, (omega arith, ((refl, refl), tt))))) (λ m. refl))
        (omega arith))

stream-served_example :
    let h =
      stream one_period two (codes "m") script (pos 50) two_providers (begin shared session) in
    (h.session.status ≡ complete)
    × (h.out ≡ status (record { state = codes "healthy"; provider = codes "primary" }) ∷ shown)
    × (h.shared.key ≡ spent shared.key 7)
    × (h.shared.ledger ≡ Ledger.record_in "#sg-a" "backup" "p1" (pos 7) false shared.ledger)
unfolding Breaker.new
stream-served_example =
    stream-served shared one_period two (codes "m") script (pos 50) (provider "primary" (pos 1))
      (provider "backup" (pos 2) ∷ []) session 60 shown second key-IsBudgeted (omega arith)
      (refl, (refl, tt)) ((refl, tt), (tt, tt)) story

abbrev entry : String → ℤ → Entry
entry period tokens = record (or_new "#a" period none) { tokens_billed = tokens }

abbrev store : Dict Entry → Store
store es = record { entries = es; interval = pos 1 }

abbrev one_order : Dict Entry
one_order = ("#a|p", entry "p" (pos 3)) ∷ ("#a|q", entry "q" (pos 4)) ∷ []

abbrev other_order : Dict Entry
other_order = ("#a|q", entry "q" (pos 4)) ∷ ("#a|p", entry "p" (pos 3)) ∷ []

same_lookups : (k : String) → lookup k one_order ≡ lookup k other_order
unfolding lookup
same_lookups k = elim (Bool-cases ("#a|p" == k)) [
  | inl e ↦ rw⁻¹ ((eq_iff "#a|p" k).0 e) refl
  | inr e ↦ rw e
]

summary_same_example :
    summary "#a" "sg_*" (store one_order) ≡ summary "#a" "sg_*" (store other_order)
unfolding lookup
summary_same_example =
    summary_same "#a" "sg_*" (store one_order) (store other_order) (refl, (refl, tt))
      (refl, (refl, tt)) same_lookups
