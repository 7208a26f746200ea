-- ===== src/MockUpstream/Serving.antt =====
-- How a demo provider of internal/mockupstream/mockupstream.go is served: `NewHandler`, `handler`,
-- `requestModel`, `delay`; and the two that cmd/demo-upstreams/main.go starts.
use stream_guard.Prelude.{
  ◌<◌, ℤ, pos, pos_part, ◌≤ℤ◌, ◌<ℤ◌, ◌+ℤ◌, ◌-ℤ◌, +ℤ_parts, -ℤ_parts, add64, sub64, wrap64_id,
  half_word, false, List, [], ◌∷◌, Option, none, some, String, ◌==◌, Dict, leb_ℤ, if◌then◌else◌,
  arith,
}
use stream_guard.Text.{Bytes, codes}
use stream_guard.Double.{Double}
use stream_guard.MockUpstream.{FailureMode, no_failure, dead_socket, Options, Server, new}

pub data Endpoint : Type 0 where
  stream_endpoint usage_endpoint : Endpoint

abbrev pub routes : List (Bytes × Endpoint)
routes = (codes "/v1/stream", stream_endpoint) ∷ (codes "/usage", usage_endpoint) ∷ []

-- `handler`; `mux` is how net/http finds the pattern of a path.
unfoldable pub handler :
    (List (Bytes × Endpoint) → Bytes → Option Endpoint) → Bytes → Option Endpoint
handler mux path = mux routes path

-- The model of a request: `body` is `none` if there is none or reading it fails, `decode` is
-- encoding/json, `none` for its error.
abbrev named : Option String → Option String
named none = none
named (some model) = if model == "" then none else some model

abbrev decoded : (Bytes → Option String) → Option Bytes → Option String
decoded decode none = none
decoded decode (some body) = named (decode body)

unfoldable request_model : (Bytes → Option String) → Option Bytes → Option String
request_model decode body = decoded decode body

module _ {ℓ} {W : Type ℓ} where
  -- `NewHandler` sets the defaults that `New` sets.
  unfoldable new_handler : (String → Bytes) → Options W → Dict (Options W) → Server W
  unfolding new
  new_handler text opts per_model = new text opts per_model

  -- The pause before a token; `int63n` is the random source.
  unfoldable pub delay : (ℤ → ℤ) → Options W → ℤ
  delay int63n o =
      if leb_ℤ o.delay_max o.delay_min
      then o.delay_min
      else add64 o.delay_min (int63n (sub64 o.delay_max o.delay_min))

  -- If the random source stays below its bound, a pause lies between the two delays.
  pub delay_within :
      (int63n : ℤ → ℤ) (o : Options W)
      → ((n : ℤ) → pos 0 <ℤ n → (pos 0 ≤ℤ int63n n) × (int63n n <ℤ n))
      → pos 0 ≤ℤ o.delay_min
      → o.delay_min ≤ℤ o.delay_max
      → pos_part o.delay_max < half_word
      → (o.delay_min ≤ℤ delay int63n o) × (delay int63n o ≤ℤ o.delay_max)
  unfolding delay
  delay_within int63n o fair p le small = ground (
    arith,
    fair (sub64 o.delay_max o.delay_min),
    wrap64_id (o.delay_max -ℤ o.delay_min),
    -ℤ_parts o.delay_max o.delay_min,
    wrap64_id (o.delay_min +ℤ int63n (sub64 o.delay_max o.delay_min)),
    +ℤ_parts o.delay_min (int63n (sub64 o.delay_max o.delay_min)),
  )

module _ {ℓ} {W : Type ℓ} ⦃d : Double W⦄ where
  abbrev upstream : String → List Bytes → ℤ → ℤ → FailureMode → ℤ → Options W
  upstream provider tokens delay_min delay_max failure fail_after = record {
    provider = provider;
    tokens = tokens;
    delay_min = delay_min;
    delay_max = delay_max;
    failure = failure;
    fail_after_tokens = fail_after;
    split_frames = false;
    usage_offset_pct = d.of_ℤ (pos 0);
    random_failure_pct = pos 0;
  }

  -- The servers of cmd/demo-upstreams, with their addresses.
  unfoldable demo_servers : List (Bytes × Options W)
  demo_servers =
      (
        codes ":9001",
        upstream "openai"
            (codes "Primary "
              ∷ codes "provider "
              ∷ codes "starts "
              ∷ codes "well "
              ∷ codes "then "
              ∷ codes "fails. "
              ∷ [])
            (pos 55000000) (pos 110000000) dead_socket (pos 4),
      )
      ∷ (
        codes ":9002",
        upstream "anthropic"
            (codes "Secondary "
              ∷ codes "provider "
              ∷ codes "replays "
              ∷ codes "the "
              ∷ codes "full "
              ∷ codes "request "
              ∷ codes "and "
              ∷ codes "finishes "
              ∷ codes "cleanly. "
              ∷ [])
            (pos 45000000) (pos 90000000) no_failure (pos 0),
      )
      ∷ []

  -- What its `main` serves, and where.
  abbrev each_handler : (String → Bytes) → List (Bytes × Options W) → List (Bytes × Server W)
  each_handler text [] = []
  each_handler text ((addr, opts) ∷ rest) =
      (addr, new_handler text opts []) ∷ each_handler text rest

  unfoldable demo_main : (String → Bytes) → List (Bytes × Server W)
  unfolding demo_servers new_handler
  demo_main text = each_handler text demo_servers
