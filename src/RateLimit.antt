-- ===== src/RateLimit.antt =====
-- internal/ratelimit/ratelimit.go: the sliding window of tokens by API key. Each method holds the
-- mutex, so it is one step. Times and durations are nanoseconds. `pruneLocked` filters the slice in
-- place; both callers store the result under the same key at once, so no other value shares it.
pub mod Window
use stream_guard.Prelude.{
  ℤ, pos, ◌-ℤ◌, add64, Bool, List, [], ◌∷◌, ◌++◌, Option, none, some, String, Dict, lookup, insert,
  select, ltb_ℤ, leb_ℤ, if◌then◌else◌,
}

pub record Event : Type 0 where
  pub at : ℤ
  pub tokens : ℤ  -- int64

pub record Limiter : Type 0 where
  pub window : ℤ
  pub limit : ℤ  -- int64
  pub by_key : Dict (List Event)

-- `1 << 60`.
abbrev no_limit : ℤ
no_limit = pos 1152921504606846976

unfoldable pub new : ℤ → ℤ → Limiter
new window limit = record {
  window = if leb_ℤ window (pos 0) then pos 60000000000 else window;
  limit = if leb_ℤ limit (pos 0) then no_limit else limit;
  by_key = [];
}

-- A missing key reads as the nil slice.
abbrev pub slice_of : Option (List Event) → List Event
slice_of none = []
slice_of (some es) = es

unfoldable pub events_of : String → Limiter → List Event
events_of key l = slice_of (lookup key l.by_key)

abbrev pub after : ℤ → Event → Bool
after cutoff e = ltb_ℤ cutoff e.at

unfoldable pub total_from : ℤ → List Event → ℤ
total_from total [] = total
total_from total (e ∷ es) = total_from (add64 total e.tokens) es

-- The events inside the window, and the sum of their tokens.
unfoldable pub prune : String → ℤ → Limiter → List Event × ℤ
prune key now l =
    let out = select (after (now -ℤ l.window)) (events_of key l) in (out, total_from (pos 0) out)

unfoldable pub admit : String → ℤ → Limiter → Limiter × Bool
unfolding prune
admit key now l =
    let (events, total) = prune key now l in
    (record l { by_key = insert key events l.by_key }, ltb_ℤ total l.limit)

unfoldable pub add : String → ℤ → ℤ → Limiter → Limiter
unfolding prune
add key tokens now l = if leb_ℤ tokens (pos 0) then l else record l {
  by_key = insert key ((prune key now l).0 ++ record { at = now; tokens = tokens } ∷ []) l.by_key;
}
