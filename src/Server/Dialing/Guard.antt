-- ===== src/Server/Dialing/Guard.antt =====
-- Where the server of internal/server/server.go may connect to.
use stream_guard.Prelude.{
  Bool, true, false, not, ◌&&◌, List, [], ◌∷◌, Option, none, some, All, ◌≡◌, ◌↔◌, ◌⊎◌, inl, inr,
  refl, subst, ◌∙◌, arith, Bool-cases, Option-cases,
}
use stream_guard.Text.{Bytes}
use stream_guard.Address.{Net, restricted_upstream_ip}
use stream_guard.Server.Dialing.{dial, refused, or_first, scan, validated_dial_address}

module _ (net : Net) where
  -- An address that is none of those that are restricted, unmapped.
  abbrev pub IsPublic : net.Ip → Type 0
  IsPublic ip =
      (net.is_private (net.unmap ip) ≡ false)
      × (net.is_loopback (net.unmap ip) ≡ false)
      × (net.is_link_local_unicast (net.unmap ip) ≡ false)
      × (net.is_link_local_multicast (net.unmap ip) ≡ false)
      × (net.is_unspecified (net.unmap ip) ≡ false)

  -- An address may be dialled if restricted ones are allowed or it is not one.
  abbrev pub IsOpen : Bool → net.Ip → Type 0
  IsOpen allow ip = (allow ≡ true) ⊎ IsPublic ip

  pub restricted-IsPublic : (ip : net.Ip) → (restricted_upstream_ip net ip ≡ false) ↔ IsPublic ip
  unfolding restricted_upstream_ip
  restricted-IsPublic ip = ground arith

  -- The bytes are an address, unmapped, that may be dialled.
  pub data OpenAddress (allow : Bool) (a : Bytes) : Type 0 where
    open_address :
        (ip : net.Ip)
        → net.addr_from_slice a ≡ some ip
        → IsOpen allow (net.unmap ip)
        → OpenAddress allow a

  -- What may be dialled for an address of a host and a port: the host itself, if it is an IP address
  -- that may be dialled, or the first address that it resolves to, if all of them may.
  pub data Permitted (allow : Bool) (address : Bytes) : Bytes → Type 0 where
    literal :
        (host port : Bytes) (ip : net.Ip)
        → net.split_host_port address ≡ some (host, port)
        → net.parse_addr host ≡ some ip
        → IsOpen allow ip
        → Permitted allow address (net.join_host_port (net.text_of ip) port)
    resolved :
        (host port a : Bytes) (as_ : List Bytes) (ip : net.Ip)
        → net.split_host_port address ≡ some (host, port)
        → net.parse_addr host ≡ none
        → net.lookup host ≡ some (a ∷ as_)
        → All (OpenAddress allow) (a ∷ as_)
        → net.addr_from_slice a ≡ some ip
        → Permitted allow address (net.join_host_port (net.text_of (net.unmap ip)) port)

  IsOpen-test :
      (allow : Bool) (ip : net.Ip)
      → (not allow && restricted_upstream_ip net ip ≡ false) ↔ IsOpen allow ip
  IsOpen-test true ip = (λ h. inl refl, λ o. refl)
  IsOpen-test false ip = (
    λ h. inr ((restricted-IsPublic ip).0 h),
    λ o. elim o [ inl e ↦ cc | inr e ↦ (restricted-IsPublic ip).1 e ],
  )

  refused_not_dial : {e : _} {t : Bytes} → refused e ≡ dial t → ⊥
  refused_not_dial h = cc

  -- A round passes on exactly an address that may be dialled.
  scan_step :
      (allow : Bool) (port : Bytes) (first : Option net.Ip) (a : Bytes) (as_ : List Bytes)
      (ip : net.Ip)
      → net.addr_from_slice a ≡ some ip
      → IsOpen allow (net.unmap ip)
      → scan net allow port first (a ∷ as_)
        ≡ scan net allow port (or_first net first (net.unmap ip)) as_
  unfolding scan
  scan_step allow port first a as_ ip e o =
      rw (e, (IsOpen-test allow (net.unmap ip)).1 o, scan) refl

  scan_inv :
      (allow : Bool) (port : Bytes) (first : Option net.Ip) (a : Bytes) (as_ : List Bytes)
      (t : Bytes)
      → scan net allow port first (a ∷ as_) ≡ dial t
      → (ip : net.Ip) × (net.addr_from_slice a ≡ some ip)
        × IsOpen allow (net.unmap ip)
        × (scan net allow port (or_first net first (net.unmap ip)) as_ ≡ dial t)
  unfolding scan
  scan_inv allow port first a as_ t h = elim (Option-cases (net.addr_from_slice a)) [
    | inl e ↦ absurd (refused_not_dial (rw (e, scan) at h))
    | inr (ip, e) ↦ elim (Bool-cases (not allow && restricted_upstream_ip net (net.unmap ip))) [
      | inl bad ↦ absurd (refused_not_dial (rw (e, bad, scan) at h))
      | inr ok ↦ (ip, e, (IsOpen-test allow (net.unmap ip)).0 ok, rw (e, ok, scan) at h)
    ]
  ]

  scan_rest :
      (allow : Bool) (port : Bytes) (f : net.Ip) (as_ : List Bytes) (t : Bytes)
      → (scan net allow port (some f) as_ ≡ dial t)
        ↔ (All (OpenAddress allow) as_ × (dial (net.join_host_port (net.text_of f) port) ≡ dial t))
  unfolding scan
  scan_rest allow port f [] t = (λ h. (tt, h), λ (o, h). h)
  scan_rest allow port f (a ∷ as_) t = (
    λ h.
        let (ip, e, o, rest) = scan_inv allow port (some f) a as_ t h in
        let (os, same) = (scan_rest allow port f as_ t).0 rest in ((open_address ip e o, os), same),
    λ ((head, os), same). elim head [
      | open_address ip e o ↦
          scan_step allow port (some f) a as_ ip e o ∙ (scan_rest allow port f as_ t).1 (os, same)
    ],
  )

  same_dial : {s t : Bytes} → dial s ≡ dial t → s ≡ t
  same_dial h = cc

  resolved-Permitted :
      (allow : Bool) (address host port : Bytes) (addrs : List Bytes) (t : Bytes)
      → net.split_host_port address ≡ some (host, port)
      → net.parse_addr host ≡ none
      → net.lookup host ≡ some addrs
      → scan net allow port none addrs ≡ dial t
      → Permitted allow address t
  unfolding scan
  resolved-Permitted allow address host port [] t split e found h = absurd (refused_not_dial h)
  resolved-Permitted allow address host port (a ∷ as_) t split e found h =
      let (ip, from, o, rest) = scan_inv allow port none a as_ t h in
      let (os, same) = (scan_rest allow port (net.unmap ip) as_ t).0 rest in
      subst (Permitted allow address) (same_dial same)
        (resolved host port a as_ ip split e found (open_address ip from o, os) from)

  dial-Permitted :
      (allow : Bool) (address t : Bytes)
      → validated_dial_address net address allow ≡ dial t
      → Permitted allow address t
  unfolding validated_dial_address
  dial-Permitted allow address t h = elim (Option-cases (net.split_host_port address)) [
    | inl e ↦ absurd (refused_not_dial (rw e at h))
    | inr ((host, port), split) ↦ elim (Option-cases (net.parse_addr host)) [
      | inr (ip, e) ↦ elim (Bool-cases (not allow && restricted_upstream_ip net ip)) [
        | inl bad ↦ absurd (refused_not_dial (rw (split, e, bad) at h))
        | inr ok ↦
            subst (Permitted allow address) (same_dial (rw (split, e, ok) at h))
              (literal host port ip split e ((IsOpen-test allow ip).0 ok))
      ]
      | inl e ↦ elim (Option-cases (net.lookup host)) [
        | inl failed ↦ absurd (refused_not_dial (rw (split, e, failed) at h))
        | inr (addrs, found) ↦
            resolved-Permitted allow address host port addrs t split e found
              (rw (split, e, found) at h)
      ]
    ]
  ]

  dial_of_Permitted :
      (allow : Bool) (address t : Bytes)
      → Permitted allow address t
      → validated_dial_address net address allow ≡ dial t
  unfolding validated_dial_address
  dial_of_Permitted allow address _ (literal host port ip split e o) =
      rw (split, e, (IsOpen-test allow ip).1 o) refl
  dial_of_Permitted allow address _ (resolved host port a as_ ip split e found (o, os) from) =
      elim o [
        | open_address ip' from' o' ↦
            rw (split, e, found)
              (scan_step allow port none a as_ ip' from' o'
                ∙ (scan_rest allow port (net.unmap ip') as_ _).1 (os, cc))
      ]

  -- The server dials an address exactly if it is permitted: it is the host itself, or the first address
  -- that its name resolves to, and, unless restricted addresses are allowed, neither that address nor
  -- any other of the name is private, loopback, link-local or unspecified.
  pub validated_dial_address_iff :
      (allow : Bool) (address t : Bytes)
      → (validated_dial_address net address allow ≡ dial t) ↔ Permitted allow address t
  validated_dial_address_iff allow address t =
      (dial-Permitted allow address t, dial_of_Permitted allow address t)
