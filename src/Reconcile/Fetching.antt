-- ===== src/Reconcile/Fetching.antt =====
-- `HTTPUsageFetcher.FetchUsage` of internal/reconcile/reconcile.go. `encode` is `url.Values.Encode`, `get`
-- sends a GET request and gives the body of the response, whatever its status, or fails, and `decode`
-- reads the tokens of a JSON object, zero if it has none, or fails.
use stream_guard.Prelude.{ℤ, List, [], ◌∷◌, ◌++◌, Option, none, some, String}
use stream_guard.Text.{Bytes, codes, trim_right_of}
use stream_guard.Reconcile.{Fetcher}

module _ (encode : List (Bytes × Bytes) → Bytes) where
  unfoldable pub usage_url : Bytes → String → String → Bytes
  unfolding trim_right_of
  usage_url base_url api_key_hash period =
      trim_right_of b'/' base_url
      ++ (codes "/usage"
          ++ (codes "?"
              ++ encode ((codes "period", codes period) ∷ (codes "key", codes api_key_hash) ∷ [])))

  module _ (get : Bytes → Option Bytes) (decode : Bytes → Option ℤ) where
    abbrev tokens_of : Option Bytes → Option ℤ
    tokens_of none = none
    tokens_of (some body) = decode body

    unfoldable pub fetch_usage : Fetcher
    unfolding usage_url
    fetch_usage provider api_key_hash period =
        tokens_of (get (usage_url provider.base_url api_key_hash period))
