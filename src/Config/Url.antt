-- ===== src/Config/Url.antt =====
-- `validateProviderURL` of internal/config/config.go. `parse` is `url.Parse`; `Net` has the rest.
use stream_guard.Prelude.{Bool, true, not, ◌||◌, List, [], ◌∷◌, Option, none, some, if◌then◌else◌}
use stream_guard.Text.{Bytes, codes, eq_bytes, is_empty}
use stream_guard.Config.{Provider, provider_type}
use stream_guard.Address.{Net, restricted_upstream_ip}

pub record Url : Type 0 where
  pub scheme : Bytes
  pub host : Bytes
  pub hostname : Bytes

pub data UrlError : Type 0 where
  no_url bad_mock_scheme bad_scheme no_host restricted_host lookup_failed : UrlError

module _ (net : Net) where
  abbrev is_restricted : Option net.Ip → Bool
  is_restricted none = true
  is_restricted (some ip) = restricted_upstream_ip net ip

  -- The loop over the addresses of the name.
  unfoldable pub check_addresses : List Bytes → Option UrlError
  unfolding restricted_upstream_ip
  check_addresses [] = none
  check_addresses (a ∷ as_) =
      let rest = check_addresses as_ in
      if is_restricted (net.addr_from_slice a) then some restricted_host else rest

  abbrev check_resolved : Option (List Bytes) → Option UrlError
  check_resolved none = some lookup_failed
  check_resolved (some addrs) = check_addresses addrs

  abbrev pub check_host : Bytes → Option net.Ip → Option UrlError
  check_host host (some ip) = if restricted_upstream_ip net ip then some restricted_host else none
  check_host host none = check_resolved (net.lookup host)

  abbrev pub check_url : Bytes → Option Url → Option UrlError
  check_url kind none = some no_url
  check_url kind (some u) =
      if is_empty u.scheme || is_empty u.host
      then some no_url
      else if eq_bytes kind (codes "mock")
      then if eq_bytes u.scheme (codes "http") || eq_bytes u.scheme (codes "https")
        then none
        else some bad_mock_scheme
      else if not (eq_bytes u.scheme (codes "https"))
      then some bad_scheme
      else if is_empty u.hostname
      then some no_host
      else check_host u.hostname (net.parse_addr u.hostname)

  -- The URL of the provider is accepted if the result is `none`.
  unfoldable pub validate_provider_url : (Bytes → Option Url) → Provider → Option UrlError
  unfolding check_addresses eq_bytes provider_type
  validate_provider_url parse p = check_url (provider_type p) (parse p.base_url)
