-- ===== src/Server/Dialing/Reachable.antt =====
-- The URL check of the settings (internal/config/config.go) against the one at the time of dialling
-- (internal/server/server.go).
use stream_guard.Prelude.{
  false, List, [], ◌∷◌, Option, none, some, All, ◌≡◌, ◌≢◌, inl, inr, refl, ◌∙◌, arith, Bool-cases,
  Option-cases,
}
use stream_guard.Text.{Bytes, codes, eq_bytes}
use stream_guard.Config.{Provider, provider_type}
use stream_guard.Config.Url.{
  Url, UrlError, check_addresses, check_host, check_url, validate_provider_url,
}
use stream_guard.Address.{Net, restricted_upstream_ip}
use stream_guard.Server.Dialing.{dial, validated_dial_address}
use stream_guard.Server.Dialing.Guard.{
  restricted-IsPublic, OpenAddress, open_address, Permitted, literal, resolved,
  validated_dial_address_iff,
}

module _ (net : Net) where
  some_error : {e : UrlError} → some e ≡ none → ⊥
  some_error h = cc

  -- Unmapping an address twice is unmapping it once.
  abbrev Unmaps : Type 0
  Unmaps = (ip : net.Ip) → net.unmap (net.unmap ip) ≡ net.unmap ip

  restricted-unmap :
      Unmaps
      → (ip : net.Ip) → restricted_upstream_ip net (net.unmap ip) ≡ restricted_upstream_ip net ip
  unfolding restricted_upstream_ip
  restricted-unmap same ip = rw (same ip) refl

  check_addresses-Open :
      (addrs : List Bytes)
      → Unmaps
      → check_addresses net addrs ≡ none
      → All (OpenAddress net false) addrs
  unfolding check_addresses
  check_addresses-Open [] same h = tt
  check_addresses-Open (a ∷ as_) same h = elim (Option-cases (net.addr_from_slice a)) [
    | inl bad ↦ absurd (some_error (rw bad at h))
    | inr (ip, e) ↦ elim (Bool-cases (restricted_upstream_ip net ip)) [
      | inl closed ↦ absurd (some_error (rw (e, closed) at h))
      | inr ok ↦ (
        open_address ip e
            (inr ((restricted-IsPublic net (net.unmap ip)).0 (restricted-unmap same ip ∙ ok))),
        check_addresses-Open as_ same (rw (e, ok) at h),
      )
    ]
  ]

  check_url_host :
      (kind : Bytes) (u : Url)
      → eq_bytes kind (codes "mock") ≡ false
      → check_url net kind (some u) ≡ none
      → check_host net u.hostname (net.parse_addr u.hostname) ≡ none
  check_url_host kind u other h = ground arith

  -- A host that the check accepted is dialled, if it is an address or resolves to one.
  check_host_dials :
      (address host port : Bytes)
      → Unmaps
      → net.split_host_port address ≡ some (host, port)
      → net.lookup host ≢ some []
      → check_host net host (net.parse_addr host) ≡ none
      → (t : Bytes) × Permitted net false address t
  check_host_dials address host port same split some_address h =
      elim (Option-cases (net.parse_addr host)) [
        | inr (ip, e) ↦ elim (Bool-cases (restricted_upstream_ip net ip)) [
          | inl closed ↦ absurd (some_error (rw (e, closed) at h))
          | inr ok ↦ (_, literal host port ip split e (inr ((restricted-IsPublic net ip).0 ok)))
        ]
        | inl e ↦ elim (Option-cases (net.lookup host)) [
          | inl failed ↦ absurd (some_error (rw (e, failed) at h))
          | inr ([], found) ↦ absurd (some_address found)
          | inr (a ∷ as_, found) ↦
              let (head, others) = check_addresses-Open (a ∷ as_) same (rw (e, found) at h) in
              elim head [
                | open_address ip from o ↦ (
                  _,
                  resolved host port a as_ ip split e found (open_address ip from o, others) from,
                )
              ]
        ]
      ]

  -- Let the URL check accept a provider that is no mock, let the address that is dialled be that of the
  -- host of its URL, and let the host, if it is looked up, resolve as it did then, to one address at
  -- least. Then the server dials an address for it, with restricted ones not allowed.
  pub validated_url_dials :
      (parse : Bytes → Option Url) (p : Provider) (u : Url) (address port : Bytes)
      → Unmaps
      → validate_provider_url net parse p ≡ none
      → eq_bytes (provider_type p) (codes "mock") ≡ false
      → parse p.base_url ≡ some u
      → net.split_host_port address ≡ some (u.hostname, port)
      → net.lookup u.hostname ≢ some []
      → (t : Bytes) × (validated_dial_address net address false ≡ dial t)
  unfolding validate_provider_url
  validated_url_dials parse p u address port same accepted other read split some_address =
      let good = check_url_host (provider_type p) u other (rw read at accepted) in
      let (t, permitted) = check_host_dials address u.hostname port same split some_address good in
      (t, (validated_dial_address_iff net false address t).1 permitted)
