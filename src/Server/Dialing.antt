-- ===== src/Server/Dialing.antt =====
-- The request to an upstream and the address it is dialled at (`upstreamRequest` and
-- `validatedDialAddress` of internal/server/server.go). The clone of the standard transport, which
-- passes the result of the latter to the dialler, is not modelled.
pub mod Guard
pub mod Reachable
use stream_guard.Prelude.{
  Bool, true, false, not, ◌&&◌, List, [], ◌∷◌, ◌++◌, Option, none, some, String, if◌then◌else◌,
}
use stream_guard.Text.{Bytes, codes, eq_bytes, is_empty, trim_right_of}
use stream_guard.Config.{Provider, provider_type}
use stream_guard.Address.{Net, restricted_upstream_ip}

-- The keys of the configuration.
pub record Keys : Type 0 where
  pub openai_api_key : Bytes
  pub anthropic_api_key : Bytes

pub record UpstreamRequest : Type 0 where
  pub allow_private : Bool
  pub url : Bytes
  pub body : Bytes
  pub headers : List (String × Bytes)

abbrev header_if : String → Bytes → Bytes → List (String × Bytes)
header_if name prefix value = if is_empty value then [] else (name, prefix ++ value) ∷ []

unfoldable path_of : Bytes → Bytes
unfolding eq_bytes
path_of kind =
    if eq_bytes kind (codes "openai")
    then codes "/v1/chat/completions"
    else if eq_bytes kind (codes "anthropic")
    then codes "/v1/messages"
    else codes "/v1/stream"

unfoldable credentials : Keys → Bytes → Bytes → List (String × Bytes)
unfolding eq_bytes
credentials keys kind key_hash =
    if eq_bytes kind (codes "openai")
    then header_if "Authorization" (codes "Bearer ") keys.openai_api_key
    else if eq_bytes kind (codes "anthropic")
    then header_if "x-api-key" [] keys.anthropic_api_key
      ++ ("anthropic-version", codes "2023-06-01") ∷ []
    else ("X-StreamGuard-Key-Hash", key_hash) ∷ []

-- `upstreamRequest`; `parses` is whether `http.NewRequest` takes the URL.
unfoldable pub upstream_request :
    (Bytes → Bool) → Keys → Provider → Bytes → Bytes → Option UpstreamRequest
unfolding eq_bytes provider_type trim_right_of path_of credentials
upstream_request parses keys p body key_hash =
    let kind = provider_type p in
    let url = trim_right_of b'/' p.base_url ++ path_of kind in
    if parses url
    then some (record {
      allow_private = eq_bytes kind (codes "mock");
      url = url;
      body = body;
      headers = ("Content-Type", codes "application/json") ∷ credentials keys kind key_hash;
    })
    else none

pub data DialError : Type 0 where
  bad_address restricted lookup_failed no_addresses invalid_address : DialError

pub data Dial : Type 0 where
  refused : DialError → Dial
  dial : Bytes → Dial

module _ (net : Net) where
  abbrev pub or_first : Option net.Ip → net.Ip → Option net.Ip
  or_first none ip = some ip
  or_first (some first) ip = some first

  abbrev target : Bytes → Option net.Ip → Dial
  target port none = refused no_addresses
  target port (some first) = dial (net.join_host_port (net.text_of first) port)

  -- The loop over the addresses of a name; `first` is the one of its first round.
  unfoldable pub scan : Bool → Bytes → Option net.Ip → List Bytes → Dial
  unfolding restricted_upstream_ip
  scan allow port first [] = target port first
  scan allow port first (a ∷ as_) = elim (net.addr_from_slice a) [
    | none ↦ refused invalid_address
    | some ip ↦
        let rest = scan allow port (or_first first (net.unmap ip)) as_ in
        if not allow && restricted_upstream_ip net (net.unmap ip) then refused restricted else rest
  ]

  -- `validatedDialAddress`.
  abbrev dial_resolved : Bool → Bytes → Option (List Bytes) → Dial
  dial_resolved allow port none = refused lookup_failed
  dial_resolved allow port (some addrs) = scan allow port none addrs

  abbrev dial_host : Bool → Bytes → Bytes → Option net.Ip → Dial
  dial_host allow host port (some ip) =
      if not allow && restricted_upstream_ip net ip
      then refused restricted
      else dial (net.join_host_port (net.text_of ip) port)
  dial_host allow host port none = dial_resolved allow port (net.lookup host)

  abbrev dial_split : Bool → Option (Bytes × Bytes) → Dial
  dial_split allow none = refused bad_address
  dial_split allow (some (host, port)) = dial_host allow host port (net.parse_addr host)

  unfoldable pub validated_dial_address : Bytes → Bool → Dial
  unfolding scan
  validated_dial_address address allow = dial_split allow (net.split_host_port address)
