-- ===== src/Server/Output/Phases.antt =====
-- The protocol of the events that a client of `handleStream` (internal/server/server.go) receives, and
-- what an attempt (`runAttempt`) adds to them.
use stream_guard.Prelude.{
  ℕ, ◌+◌, ℤ, pos, List, [], ◌∷◌, ◌++◌, Option, eqb_ℤ, if◌then◌else◌, ◌≡◌, ◌⊎◌, inl, inr, refl, ap,
  ◌∙◌, arith,
}
use stream_guard.Text.{Bytes}
use stream_guard.Config.{Provider}
use stream_guard.Protocol.{Payload, status, failover, regenerating, truncated, content}
use stream_guard.Server.{
  Err, at_least_one, Upstream, unsent, unreached, answered, Arrival, Incoming, frame, fault,
  Attempt, Counter, Verdict, go_on, stop, take, take_frame, take_usage, take_content, run_frames,
  run_attempt,
}

-- Where a client stands: before the status event, in the text after so many failovers, between a
-- failover and its regenerating event, after the final event, or out of the protocol.
pub data Phase : Type 0 where
  fresh : Phase
  live : ℕ → Phase
  switching : ℕ → Phase
  finished broken : Phase

unfoldable pub next_phase : Phase → Payload → Phase
next_phase fresh (status d) = live 0
next_phase fresh (truncated d) = finished
next_phase (live n) (content t) = live n
next_phase (live n) (failover d) =
    if eqb_ℤ d.attempt (pos (n + 1)) then switching (n + 1) else broken
next_phase (switching n) (regenerating d) = live n
next_phase (live n) (truncated d) = finished
next_phase _ _ = broken

unfoldable pub phase_from : Phase → List Payload → Phase
unfolding next_phase
phase_from ph [] = ph
phase_from ph (p ∷ ps) = phase_from (next_phase ph p) ps

unfoldable pub phase : List Payload → Phase
unfolding phase_from
phase out = phase_from fresh out

pub phase_from-append :
    (ph : Phase) (xs ys : List Payload)
    → phase_from ph (xs ++ ys) ≡ phase_from (phase_from ph xs) ys
unfolding phase_from
phase_from-append ph [] ys = refl
phase_from-append ph (x ∷ xs) ys = phase_from-append (next_phase ph x) xs ys

-- What is appended moves the client on from where it stood.
pub phase-append :
    (xs ys : List Payload) {ph : Phase} → phase xs ≡ ph → phase (xs ++ ys) ≡ phase_from ph ys
unfolding phase
phase-append xs ys e = phase_from-append fresh xs ys ∙ ap (λ p. phase_from p ys) e

pub Verdict-cases : (v : Verdict) → ((r : Option Err) × (v ≡ stop r)) ⊎ (v ≡ go_on)
Verdict-cases (stop r) = inl (r, refl)
Verdict-cases go_on = inr refl

-- An attempt sends text only.
pub take_content-live :
    (at n : ℤ) (text : Bytes) (write_error : Option Err) (m : Attempt) (k : ℕ)
    → phase m.out ≡ live k
    → phase (take_content at n text write_error m).0.out ≡ live k
unfolding take_content phase_from
take_content-live at n text write_error m k h =
    ground (arith, phase-append m.out (content text ∷ []) h)

pub take_usage-out : (at n : ℤ) (m : Attempt) → (take_usage at n m).0.out ≡ m.out
unfolding take_usage
take_usage-out at n m = ground arith

pub take-live :
    (count : Bytes → ℤ) (at : ℤ) (what : Incoming) (m : Attempt) (k : ℕ)
    → phase m.out ≡ live k
    → phase (take count at what m).0.out ≡ live k
unfolding take_frame take
take-live count at (fault e forced) m k h = h
take-live count at (frame f write_error) m k h = ground (
  arith,
  take_content-live at (at_least_one (count f.text)) f.text write_error m k h,
  take_usage-out at f.usage_tokens m,
)

pub run_frames-live :
    (count : Bytes → ℤ) (arrivals : List Arrival) (m : Attempt) (k : ℕ)
    → phase m.out ≡ live k
    → phase (run_frames count arrivals m).0.out ≡ live k
unfolding run_frames
run_frames-live count [] m k h = h
run_frames-live count (a ∷ rest) m k h =
    let m' = record m { shared = a.meanwhile m.shared } in
    elim (Verdict-cases (take count a.at a.what m').1) [
      | inl (result, e) ↦ rw (e, run_frames) (take-live count a.at a.what m' k h)
      | inr e ↦
          rw (e, run_frames)
            (run_frames-live count rest (take count a.at a.what m').0 k
              (take-live count a.at a.what m' k h))
    ]

pub run_attempt-live :
    (count : Counter) (model : Bytes) (p : Provider) (u : Upstream) (m : Attempt) (k : ℕ)
    → phase m.out ≡ live k
    → phase (run_attempt count model p u m).0.out ≡ live k
unfolding run_attempt
run_attempt-live count model p (unsent e) m k h = h
run_attempt-live count model p (unreached e forced) m k h = h
run_attempt-live count model p (answered code hint arrivals) m k h =
    ground (arith, run_frames-live (count p.name model hint) arrivals m k h)
