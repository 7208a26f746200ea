-- ===== src/Address.antt =====
-- Which addresses of upstreams are restricted (`restrictedUpstreamIP`, in internal/server/server.go and
-- in internal/config/config.go alike). Addresses and names are the standard library's, and parameters.
use stream_guard.Prelude.{Bool, ◌||◌, List, Option}
use stream_guard.Text.{Bytes}

-- What the code uses of the packages netip and net. `lookup` is the resolver, `none` its error.
pub record Net : Type 1 where
  pub Ip : Type 0
  pub parse_addr : Bytes → Option Ip
  pub addr_from_slice : Bytes → Option Ip
  pub unmap : Ip → Ip
  pub is_private : Ip → Bool
  pub is_loopback : Ip → Bool
  pub is_link_local_unicast : Ip → Bool
  pub is_link_local_multicast : Ip → Bool
  pub is_unspecified : Ip → Bool
  pub text_of : Ip → Bytes
  pub split_host_port : Bytes → Option (Bytes × Bytes)
  pub join_host_port : Bytes → Bytes → Bytes
  pub lookup : Bytes → Option (List Bytes)

unfoldable pub restricted_upstream_ip : (net : Net) → net.Ip → Bool
restricted_upstream_ip net ip =
    let u = net.unmap ip in
    net.is_private u
    || (net.is_loopback u
        || (net.is_link_local_unicast u || (net.is_link_local_multicast u || net.is_unspecified u)))
