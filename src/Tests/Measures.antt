-- ===== src/Tests/Measures.antt =====
-- The tokenizers, the calibration log, and the reader's timer.
use stream_guard.Prelude.{
  Bool, ℕ, ℤ, ◌+ℤ◌, ◌≤ℤ◌, ◌≢◌, ◌≤◌, ◌<◌, ◌+◌, ◌/◌, ◌-ℤ◌, ◌++◌, pos, true, false, not, List, [], ◌∷◌,
  Option, none, some, String, ◌==◌, leb, length, Dict, lookup, if◌then◌else◌, ◌≡◌, refl, arith,
}
use stream_guard.Text.{Bytes, codes, eq_bytes}
use stream_guard.Tests.Hundredths.{Hundredths, hundredths_double, Hundredths-IsOrdered}
use stream_guard.Parser.Next.{Look, active, frame, silent_hang, Reader, next}
use stream_guard.Parser.Next.Silence.{last_active, IsLively, IsWaiting, Hangs, next-silence}
use stream_guard.Tokenizer.{
  Encoding, Library, count_chunks, encoding_for_model, register_known, observe,
}
use stream_guard.Tokenizer.Streak.{History, observe_all, streak, observe-streak}
use stream_guard.Tokenizer.Cache.{Call, plain_count, plain_counts}
use stream_guard.Calibration.{
  DerivedValue, values_of, is_sample, sample, percentile_of, index, silent_hang_deadline,
}
use stream_guard.Calibration.Rank.{
  count_if, AreNumbers, IsClean, percentile_of_rank, sample-IsClean,
}
use stream_guard.Calibration.Derived.{deadline, derived, IsWithin, derived-IsWithin}

-- A library that knows one model, a token for each byte, and the default encoding, two bytes a token.
abbrev by_model : Bytes → Option Encoding
by_model model = if eq_bytes model (codes "gpt-4o") then some length else none

abbrev halves : Encoding
halves text = (length text + 1) / 2

abbrev library : Library
library = record { encoding_for_model = by_model; get_encoding = λ name. some halves }

abbrev ask : String → String → String → Call
ask model hint text = record {
  provider = "openai-main";
  model = codes model;
  hint = codes hint;
  text = codes text;
}

abbrev calls : List Call
calls =
    ask "gpt-4o" "" "hello"
    ∷ ask " gpt-4o " "" "hi all"
    ∷ ask "other" "" "hello"
    ∷ ask "gpt-4o" "MOCK-chunk-v1" "two words"
    ∷ ask "gpt-4o" "" ""
    ∷ []

plain_run : plain_counts library calls ≡ 5 ∷ 6 ∷ 3 ∷ 2 ∷ 0 ∷ []
unfolding plain_count stream_guard.Tokenizer.is_openai stream_guard.Tokenizer.load count_chunks
    stream_guard.Tokenizer.model_key
plain_run = refl

abbrev history : History
history =
    ("openai", true)
    ∷ ("other", false)
    ∷ ("openai", true)
    ∷ ("openai", false)
    ∷ ("openai", true)
    ∷ []

streak_run : streak "openai" (("openai", true) ∷ history) ≡ 3
unfolding streak
streak_run = refl

observe-streak_example :
    (observe "openai" true (observe_all history (register_known []))).1
    ≡ leb 3 (streak "openai" (("openai", true) ∷ history))
observe-streak_example = observe-streak history "openai" true

abbrev ms : ℕ → Hundredths
ms n = hundredths_double.of_ℤ (pos n)

abbrev nan : Hundredths
nan = none

abbrev gaps : List Hundredths
gaps = ms 40 ∷ ms 10 ∷ ms 30 ∷ ms 20 ∷ ms 900 ∷ []

gaps-AreNumbers : AreNumbers gaps
gaps-AreNumbers = (refl, (refl, (refl, (refl, (refl, tt)))))

percentile_run : percentile_of (ms 60) gaps ≡ some (ms 30)
unfolding percentile_of ◌-ℤ◌
percentile_run = refl

percentile_of_rank_example :
    (count_if (λ x. hundredths_double.lt x (ms 30)) gaps ≤ index (ms 60) 4)
    × (index (ms 60) 4 < count_if (λ x. not (hundredths_double.lt (ms 30) x)) gaps)
percentile_of_rank_example =
    percentile_of_rank Hundredths-IsOrdered (ms 60) (ms 30) (ms 40)
      (ms 10 ∷ ms 30 ∷ ms 20 ∷ ms 900 ∷ []) gaps-AreNumbers percentile_run

abbrev gap_log : Dict (List Hundredths)
gap_log = ("inter_token_gap", gaps) ∷ []

gap_log-IsClean : IsClean gap_log
unfolding values_of lookup
gap_log-IsClean kind = ground (arith, gaps-AreNumbers)

sample-IsClean_example :
    IsClean (sample "drift" nan gap_log)
    × ((k : String)
        → values_of k (sample "drift" nan gap_log) ≡ (
            if "drift" == k
            then if is_sample nan then values_of k gap_log ++ nan ∷ [] else values_of k gap_log
            else values_of k gap_log))
sample-IsClean_example = sample-IsClean "drift" nan gap_log gap_log-IsClean

-- 900 ms, times five.
abbrev deadline_of_gaps : DerivedValue Hundredths
deadline_of_gaps = record { raw = ms 4500; final = ms 4500; clamped = false; sample_count = 5 }

deadline_run : derived (deadline (ms 0)) gap_log ≡ some deadline_of_gaps
unfolding silent_hang_deadline lookup ◌-ℤ◌
deadline_run = refl

derived-IsWithin_example : IsWithin (pos 1000) (pos 15000) deadline_of_gaps
derived-IsWithin_example =
    derived-IsWithin Hundredths-IsOrdered (deadline (ms 0)) gap_log deadline_of_gaps deadline_run
      refl

-- Two bytes, and then none for as long as the timer runs.
abbrev looks : List (Look ℕ)
looks = (pos 10, some active, false) ∷ (pos 25, some active, false) ∷ (pos 60, none, false) ∷ []

abbrev reader : Reader Hundredths
reader = record { last_frame_at = some (pos 0); samples = [] }

-- A frame two milliseconds after the last one.
abbrev arrival : List (Look ℕ)
arrival = (pos 2000000, some (frame 7), false) ∷ []

sampled_run :
    (next (pos 3000000) (pos 0) arrival reader).0.samples ≡ ("inter_token_gap", ms 2 ∷ []) ∷ []
unfolding next ◌-ℤ◌ stream_guard.Prelude.insert lookup ◌+ℤ◌
sampled_run = refl

-- The upstream is taken for hanging at 60, since the last byte came at 25.
silence_run : (next (pos 30) (pos 0) looks reader).1 ≡ (silent_hang, pos 60)
unfolding next ◌+ℤ◌
silence_run = refl

next-silence_example :
    ((next (pos 30) (pos 0) looks reader).1 ≡ (silent_hang, pos 60)
      → Hangs (pos 30) (pos 0) (pos 60) looks)
    × (IsLively (pos 30) (pos 0) looks
        → (next (pos 30) (pos 0) looks reader).1 ≢ (silent_hang, pos 60))
    × ((after : List (Look ℕ)) (draws_timer : Bool)
        → IsWaiting looks
        → IsLively (pos 30) (pos 0) looks
        → (last_active (pos 0) looks +ℤ pos 30) ≤ℤ pos 60
        → (next (pos 30) (pos 0) (looks ++ (pos 60, none, draws_timer) ∷ after) reader).1
          ≡ (silent_hang, pos 60))
next-silence_example = next-silence (pos 30) (pos 0) (pos 60) looks reader
