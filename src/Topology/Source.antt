-- ===== src/Topology/Source.antt =====
-- Dialling the source of a topology (internal/relay/topology_manager.go: `dialSafeTopologySource`).
use tg_proxy_relay.Prelude.{
  ◌≡◌, inl, inr, refl, ◌⊎◌, Elem, Bool, true, false, not, ◌||◌, ◌&&◌, List, [], ◌∷◌, ◌==◌, nat_eq,
  if◌then◌else◌, Bytes, length, Option, none, some, arith, All, Bool-cases, Option-cases,
}
use tg_proxy_relay.Config.Net.{Ip, is_safe_telegram_ip, trim_brackets}
use tg_proxy_relay.Topology.Bundle.{Library}

-- What dialling a topology's source does: the addresses that it dials, in order, and whether it
-- connects.
pub record Dialled : Type 0 where
  pub tried : List Bytes
  pub connected : Bool

unfoldable pub all_safe : List Ip → Bool
all_safe [] = true
all_safe (ip ∷ ips) = is_safe_telegram_ip (some ip) && all_safe ips

module _ (lib : Library) (lookup_ip : Bytes → Option (List Ip)) (connects : Bytes → Bool) where
  -- The loop over the candidates.
  unfoldable pub dial_candidates : List Ip → Bytes → Dialled
  dial_candidates [] port = record { tried = []; connected = false }
  dial_candidates (ip ∷ ips) port =
      let address = lib.net.join_host_port (lib.net.ip_string ip) port in
      let later = dial_candidates ips port in
      if connects address
      then record { tried = address ∷ []; connected = true }
      else record { tried = address ∷ later.tried; connected = later.connected }

  unfoldable pub dial_safe_topology_source : Bytes → Dialled
  unfolding dial_candidates all_safe
  dial_safe_topology_source address =
      let refused : Dialled = record { tried = []; connected = false } in
      let dial : List Ip → Bytes → Dialled = λ ips port.
        (if length ips == 0 || not (all_safe ips) then refused else dial_candidates ips port) in
      elim (lib.net.split_host_port address) [
        | none ↦ refused
        | some (host, port) ↦ elim (lib.net.parse_ip (trim_brackets host)) [
          | some ip ↦ dial (ip ∷ []) port
          | none ↦ elim (lookup_ip host) [ none ↦ refused | some ips ↦ dial ips port ]
        ]
      ]

module _ (lib : Library) (lookup_ip : Bytes → Option (List Ip)) (connects : Bytes → Bool) where
  -- What a host stands for: the IP that it spells, or what it resolves to.
  abbrev pub IsResolved : Bytes → List Ip → Type 0
  IsResolved host ips =
      ((ip : Ip) × (lib.net.parse_ip (trim_brackets host) ≡ some ip) × (ips ≡ ip ∷ []))
      ⊎ (lib.net.parse_ip (trim_brackets host) ≡ none) × (lookup_ip host ≡ some ips)

  -- One of the addresses, with the port.
  abbrev pub IsTarget : List Ip → Bytes → Bytes → Type 0
  IsTarget ips port address =
      (ip : Ip) × Elem ip ips × (address ≡ lib.net.join_host_port (lib.net.ip_string ip) port)

  -- Nothing is dialled, or all the addresses of the source's host are public and only they are dialled.
  abbrev pub IsSafelyDialled : Option (Bytes × Bytes) → Dialled → Type 0
  IsSafelyDialled source d =
      (d.tried ≡ []) × (d.connected ≡ false)
      ⊎ ((host : Bytes) × (port : Bytes) × (ips : List Ip) × (source ≡ some (host, port))
          × IsResolved host ips
          × All (λ ip. is_safe_telegram_ip (some ip) ≡ true) ips
          × All (IsTarget ips port) d.tried)

  all_safe-All :
      (ips : List Ip) → all_safe ips ≡ true → All (λ ip. is_safe_telegram_ip (some ip) ≡ true) ips
  unfolding all_safe
  all_safe-All [] h = tt
  all_safe-All (ip ∷ ips) h = (ground (arith, h), all_safe-All ips (ground (arith, h)))

  dial_candidates-IsTarget :
      (all ips : List Ip) (port : Bytes)
      → ((ip : Ip) → Elem ip ips → Elem ip all)
      → All (IsTarget all port) (dial_candidates lib lookup_ip connects ips port).tried
  unfolding dial_candidates
  dial_candidates-IsTarget all [] port m = tt
  dial_candidates-IsTarget all (ip ∷ ips) port m =
      elim (Bool-cases (connects (lib.net.join_host_port (lib.net.ip_string ip) port))) [
        | inl c ↦ rw (dial_candidates, c) ((ip, m ip (inl refl), refl), tt)
        | inr c ↦
            rw (dial_candidates, c)
              (
                (ip, m ip (inl refl), refl),
                dial_candidates-IsTarget all ips port (λ i e. m i (inr e)),
              )
      ]

  candidates-IsSafelyDialled :
      (host port : Bytes) (ips : List Ip)
      → IsResolved host ips
      → not (all_safe ips) ≡ false
      → IsSafelyDialled (some (host, port)) (dial_candidates lib lookup_ip connects ips port)
  candidates-IsSafelyDialled host port ips r t = inr (
    host,
    port,
    ips,
    refl,
    r,
    all_safe-All ips (ground (arith, t)),
    dial_candidates-IsTarget ips ips port (λ i e. e),
  )

  -- Whatever addresses the host of a topology's source resolves to and whichever of them connect: either
  -- nothing is dialled and there is no connection, or every address of the host (the IP that it
  -- spells, else all that it resolves to) is public and each address dialled is one of these, with the
  -- source's port.
  pub dial_safe_topology_source-IsSafelyDialled :
      (address : Bytes)
      → IsSafelyDialled
          (lib.net.split_host_port address)
          (dial_safe_topology_source lib lookup_ip connects address)
  unfolding dial_safe_topology_source
  dial_safe_topology_source-IsSafelyDialled address =
      elim (Option-cases (lib.net.split_host_port address)) [
        | inl s ↦ rw (dial_safe_topology_source, s) (inl (refl, refl))
        | inr ((host, port), s) ↦ elim (Option-cases (lib.net.parse_ip (trim_brackets host))) [
          | inr (ip, p) ↦ elim (Bool-cases (length (ip ∷ []) == 0 || not (all_safe (ip ∷ [])))) [
            | inl t ↦ rw (dial_safe_topology_source, s, p, t) (inl (refl, refl))
            | inr t ↦
                rw (dial_safe_topology_source, s, p, t)
                  (candidates-IsSafelyDialled host port (ip ∷ []) (inl (ip, p, refl))
                    (ground (arith, t)))
          ]
          | inl p ↦ elim (Option-cases (lookup_ip host)) [
            | inl l ↦ rw (dial_safe_topology_source, s, p, l) (inl (refl, refl))
            | inr (ips, l) ↦ elim (Bool-cases (length ips == 0 || not (all_safe ips))) [
              | inl t ↦ rw (dial_safe_topology_source, s, p, l, t) (inl (refl, refl))
              | inr t ↦
                  rw (dial_safe_topology_source, s, p, l, t)
                    (candidates-IsSafelyDialled host port ips (inr (p, l)) (ground (arith, t)))
            ]
          ]
        ]
      ]
