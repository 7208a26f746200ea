-- ===== src/Parser/Next.antt =====
-- `Reader.Next` of internal/parser/parser.go: the wait for a frame with a timer that every byte resets.
-- The reading goroutine, the context and the clock are a list of looks, one for each time that
-- `select` may find something: when it is, what else than the timer is ready, and which of two ready
-- channels `select` draws. Whether the timer is ready is decided by its expiry. A tick that is left in
-- the timer's channel at a reset is drained, so no later look finds it. The frame is what Parser.antt
-- reads.
pub mod Silence
use stream_guard.Prelude.{
  ℕ, suc, ◌/◌, ℤ, pos, negsuc, ◌+ℤ◌, ◌-ℤ◌, Bool, ◌&&◌, List, [], ◌∷◌, Option, none, some, Dict,
  leb_ℤ, if◌then◌else◌,
}
use stream_guard.Double.{Double}
use stream_guard.Calibration.{sample}

-- What `select` may find beside the timer: the context done, activity, or the result of the goroutine.
pub data Event {ℓ} (A : Type ℓ) : Type ℓ where
  canceled active : Event A
  frame : A → Event A
  failed : Event A

-- A look: its time, what is ready beside the timer, and whether `select` draws the timer if both are.
abbrev pub Look {ℓ} : Type ℓ → Type ℓ
Look A = ℤ × Option (Event A) × Bool

-- How a call ends; `waiting` if the looks run out before.
pub data Ending {ℓ} (A : Type ℓ) : Type ℓ where
  waiting context_done silent_hang read_failed : Ending A
  returned : A → Ending A

-- The reader's own state, with the log that it samples the gaps of frames in.
pub record Reader {ℓ} (W : Type ℓ) : Type ℓ where
  pub last_frame_at : Option ℤ
  pub samples : Dict (List W)

-- `Duration.Milliseconds`.
abbrev milliseconds : ℤ → ℤ
milliseconds (pos n) = pos (n / 1000000)
milliseconds (negsuc n) = pos 0 -ℤ pos (suc n / 1000000)

module _ {κ} {W : Type κ} ⦃d : Double W⦄ where
  abbrev gap_sampled : Option ℤ → ℤ → Dict (List W) → Dict (List W)
  gap_sampled none now samples = samples
  gap_sampled (some last) now samples =
      sample "inter_token_gap" (d.of_ℤ (milliseconds (now -ℤ last))) samples

  -- What a frame that is returned leaves in the reader.
  unfoldable note_frame : ℤ → Reader W → Reader W
  unfolding sample
  note_frame now r = record {
    last_frame_at = some now;
    samples = gap_sampled r.last_frame_at now r.samples;
  }

  module _ {ℓ} {A : Type ℓ} where
    -- The loop: the reader, and how and when the call ends. `expiry` is when the timer is due; it is
    -- ready from then on.
    unfoldable pub wait : ℤ → ℤ → List (Look A) → Reader W → Reader W × (Ending A × ℤ)
    unfolding note_frame
    wait deadline expiry [] r = (r, (waiting, expiry))
    wait deadline expiry ((now, none, draws_timer) ∷ looks) r =
        let rest = wait deadline expiry looks r in
        if leb_ℤ expiry now then (r, (silent_hang, now)) else rest
    wait deadline expiry ((now, some active, draws_timer) ∷ looks) r =
        let rest = wait deadline (now +ℤ deadline) looks r in
        if leb_ℤ expiry now && draws_timer then (r, (silent_hang, now)) else rest
    wait deadline expiry ((now, some canceled, draws_timer) ∷ looks) r =
        if leb_ℤ expiry now && draws_timer
        then (r, (silent_hang, now))
        else (r, (context_done, now))
    wait deadline expiry ((now, some (frame a), draws_timer) ∷ looks) r =
        if leb_ℤ expiry now && draws_timer
        then (r, (silent_hang, now))
        else (note_frame now r, (returned a, now))
    wait deadline expiry ((now, some failed, draws_timer) ∷ looks) r =
        if leb_ℤ expiry now && draws_timer then (r, (silent_hang, now)) else (r, (read_failed, now))

    -- `Next`, called at `start`.
    unfoldable pub next : ℤ → ℤ → List (Look A) → Reader W → Reader W × (Ending A × ℤ)
    unfolding wait
    next deadline start looks r = wait deadline (start +ℤ deadline) looks r
