-- ===== src/Server/Output.antt =====
-- The order of the events that a client of `handleStream` (internal/server/server.go) receives.
pub mod Phases
use stream_guard.Prelude.{
  ℕ, ◌+◌, suc, ℤ, pos, true, false, List, [], ◌∷◌, ◌++◌, Option, none, some, eqb, eqb_ℤ,
  if◌then◌else◌, ◌≡◌, ◌⊎◌, inl, inr, refl, ap, ◌∙◌, arith, Bool-cases, eqb_refl,
}
use stream_guard.Text.{Bytes}
use stream_guard.Cascade.{Session}
use stream_guard.Config.{Provider}
use stream_guard.Protocol.{
  TruncatedReason, all_providers_exhausted, FailoverReason, FailoverData, RegeneratingData, Payload,
  status, failover, regenerating, truncated, content,
}
use stream_guard.Server.{
  Err, err_malformed, err_silent_hang, err_other, at_least_one, Upstream, unsent, unreached,
  answered, Shared, Arrival, Incoming, frame, fault, Attempt, Counter, Verdict, go_on, stop, take,
  take_frame, take_usage, take_content, run_frames, run_attempt,
}
use stream_guard.Server.Stream.{
  Turn, failover_event, Progress, Exit, returned, left, Next, again, exit, Periods, begin,
  open_attempt, admit_provider, perform, fail_over, hand_on, search_next, note_failure, classify,
}
use stream_guard.Server.Rounds.{settle, attempt_provider, round, rounds, truncate, conclude, stream}
use stream_guard.Server.Output.Phases.{
  Phase, next_phase, phase_from, phase, phase_from-append, phase-append, Verdict-cases,
  take_content-live, take_usage-out, take-live, run_frames-live, run_attempt-live, fresh, live,
  switching, finished, broken,
}

-- Where the client stands between two rounds.
record IsInStep (h : Progress) : Type 0 where
  pub place : phase h.out ≡ (if h.status_sent then live h.failovers else fresh)
  pub first : h.status_sent ≡ false → h.failovers ≡ 0

record IsLive (h : Progress) : Type 0 where
  sent : h.status_sent ≡ true
  place : phase h.out ≡ live h.failovers

open_attempt-IsLive :
    (now : ℤ) (p : Provider) (h : Progress) → IsInStep h → IsLive (open_attempt now p h).0
unfolding open_attempt phase_from
open_attempt-IsLive now p h v = elim (Bool-cases h.status_sent) [
  | inl sent ↦ record { sent = refl; place = rw sent (rw sent at v.place) }
  | inr first ↦ record {
    sent = refl;
    place = rw (first, v.first first) (phase-append h.out _ (rw first at v.place));
  }
]

perform-IsLive :
    (count : Counter) (model : Bytes) (p : Provider) (u : Upstream) (h : Progress)
    → IsLive h
    → IsLive (perform count model p u h).0
unfolding perform
perform-IsLive count model p u h v = record {
  sent = v.sent;
  place = run_attempt-live count model p u _ h.failovers v.place;
}

switch_phase :
    (n : ℕ) (d : FailoverData) (r : RegeneratingData)
    → d.attempt ≡ pos (n + 1)
    → phase_from (live n) (failover d ∷ regenerating r ∷ []) ≡ live (n + 1)
unfolding phase_from
switch_phase n d r e = rw (e, eqb_refl (n + 1 + 0)) refl

hand_on-IsLive :
    (p : Provider) (reason : FailoverReason) (h : Progress) (found : Option Provider)
    → IsLive h
    → IsLive (hand_on p reason h found).0
unfolding hand_on phase_from
hand_on-IsLive p reason h none v = v
hand_on-IsLive p reason h (some next) v = record {
  sent = v.sent;
  place =
      phase-append h.out _ v.place
      ∙ switch_phase h.failovers (failover_event p reason h next) _ refl;
}

fail_over-IsLive :
    (now index : ℤ) (p : Provider) (rest : List Provider) (e : Err) (h : Progress)
    → IsLive h
    → IsLive (fail_over now p rest index e h).0
unfolding fail_over search_next note_failure
fail_over-IsLive now index p rest e h v =
    hand_on-IsLive p (classify e) _ _ (record { sent = v.sent; place = v.place })

settle-IsLive :
    (period : Periods) (now index : ℤ) (p : Provider) (rest : List Provider) (e : Option Err)
    (h : Progress)
    → IsLive h
    → IsLive (settle period now p rest index e h).0
unfolding settle
settle-IsLive period now index p rest none h v = record { sent = v.sent; place = v.place }
settle-IsLive period now index p rest (some err_malformed) h v =
    fail_over-IsLive now index p rest err_malformed h v
settle-IsLive period now index p rest (some err_silent_hang) h v =
    fail_over-IsLive now index p rest err_silent_hang h v
settle-IsLive period now index p rest (some err_other) h v =
    fail_over-IsLive now index p rest err_other h v
settle-IsLive period now index p rest (some _) h v = record { sent = v.sent; place = v.place }

IsLive-IsInStep : (h : Progress) → IsLive h → IsInStep h
IsLive-IsInStep h v = record { place = rw v.sent v.place; first = λ e. cc }

admit-IsInStep :
    (now : ℤ) (p : Provider) (h : Progress) → IsInStep h → IsInStep (admit_provider now p h).0
unfolding admit_provider
admit-IsInStep now p h v = ground arith

attempt_provider-IsLive :
    (period : Periods) (count : Counter) (model : Bytes) (t : Turn) (p : Provider)
    (rest : List Provider) (h : Progress)
    → IsInStep h
    → IsLive (attempt_provider period count model t p rest h).0
unfolding attempt_provider
attempt_provider-IsLive period count model t p rest h v =
    let opened = open_attempt t.started p h in
    let performed = perform count model p t.upstream opened.0 in
    let l =
      perform-IsLive count model p t.upstream opened.0 (open_attempt-IsLive t.started p h v) in
    settle-IsLive period t.ended opened.1 p rest performed.1
      (record performed.0 { shared = t.after performed.0.shared })
      (record { sent = l.sent; place = l.place })

round-IsInStep :
    (period : Periods) (count : Counter) (model : Bytes) (t : Turn) (p : Provider)
    (rest : List Provider) (h : Progress)
    → IsInStep h
    → IsInStep (round period count model t p rest h).0
unfolding round
round-IsInStep period count model t p rest h v =
    let h₀ = record h { shared = t.before h.shared } in
    let admitted = admit_provider t.started p h₀ in
    let i = admit-IsInStep t.started p h₀ (record { place = v.place; first = v.first }) in
    elim (Bool-cases admitted.1) [
      | inl e ↦
          rw (e, round)
            (IsLive-IsInStep _ (attempt_provider-IsLive period count model t p rest admitted.0 i))
      | inr e ↦ rw (e, round) i
    ]

Next-cases : (n : Next) → ((e : Exit) × (n ≡ exit e)) ⊎ (n ≡ again)
Next-cases (exit e) = inl (e, refl)
Next-cases again = inr refl

rounds-IsInStep :
    (period : Periods) (count : Counter) (model : Bytes) (turns : ℕ → Turn) (i : ℕ)
    (providers : List Provider) (h : Progress)
    → IsInStep h
    → IsInStep (rounds period count model turns i providers h).0
unfolding rounds
rounds-IsInStep period count model turns i [] h v = v
rounds-IsInStep period count model turns i (p ∷ rest) h v =
    let after = round period count model (turns i) p rest h in
    let v' = round-IsInStep period count model (turns i) p rest h v in
    elim (Next-cases after.1) [
      | inl (e, eq) ↦ rw (eq, rounds) v'
      | inr eq ↦ rw (eq, rounds) (rounds-IsInStep period count model turns (suc i) rest after.0 v')
    ]

truncate-phase :
    (period : Periods) (now : ℤ) (r : TruncatedReason) (h : Progress)
    → IsInStep h
    → phase (truncate period now r h).out ≡ finished
unfolding truncate phase_from
truncate-phase period now r h v = elim (Bool-cases h.status_sent) [
  | inl e ↦ phase-append h.out _ (rw e at v.place)
  | inr e ↦ phase-append h.out _ (rw e at v.place)
]

conclude-phase :
    (period : Periods) (now : ℤ) (e : Exit) (h : Progress)
    → IsInStep h
    → let h' = conclude period now e h in
      (phase h'.out ≡ finished)
      ⊎ (phase h'.out ≡ (if h'.status_sent then live h'.failovers else fresh))
unfolding conclude
conclude-phase period now returned h v = inr v.place
conclude-phase period now (left (some r)) h v = inl (truncate-phase period now r h v)
conclude-phase period now (left none) h v = elim (Bool-cases (eqb h.attempted 0)) [
  | inl e ↦ inl (rw e (truncate-phase period now all_providers_exhausted h v))
  | inr e ↦ inr (rw e v.place)
]

-- Whatever the upstreams, the tokenizer and the other requests do, the client receives a stream of
-- the protocol: one status event first, then text, failovers numbered from one and each followed at
-- once by its regenerating event, and at most one truncated event, after which nothing comes. A
-- request that never reached a provider gets the truncated event alone, or nothing.
pub stream-phase :
    (period : Periods) (count : Counter) (model : Bytes) (turns : ℕ → Turn) (now : ℤ)
    (providers : List Provider) (s : Shared) (session : Session)
    → let h = stream period count model turns now providers (begin s session) in
      (phase h.out ≡ finished) ⊎ (phase h.out ≡ (if h.status_sent then live h.failovers else fresh))
unfolding stream begin
stream-phase period count model turns now providers s session =
    let v =
      rounds-IsInStep period count model turns 0 providers (begin s session)
        (record { place = unfold phase in refl; first = λ e. refl }) in
    conclude-phase period now _ _ v
