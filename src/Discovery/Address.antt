-- ===== src/Discovery/Address.antt =====
-- crates/synchrosonic-discovery/src/lib.rs: how addresses are ranked and chosen, over the tests of
-- `std::net`.
use audio_share.Base.{
  ℕ, ◌/◌, Bool, false, not, ◌&&◌, ◌||◌, List, [], ◌∷◌, Option, none, some, String, ltb, leb, ◌==◌,
  if◌then◌else◌, retain,
}

-- Four octets, or eight segments.
pub data IpAddr : Type 0 where
  v4 : ℕ → ℕ → ℕ → ℕ → IpAddr
  v6 : ℕ → ℕ → ℕ → ℕ → ℕ → ℕ → ℕ → ℕ → IpAddr

pub record SocketAddr : Type 0 where
  pub ip : IpAddr
  pub port : ℕ

pub record TransportEndpoint : Type 0 where
  pub device_id : String
  pub address : SocketAddr

unfoldable pub is_loopback : IpAddr → Bool
is_loopback (v4 a b c d) = a == 127
is_loopback (v6 a b c d e f g h) =
    a == 0 && b == 0 && c == 0 && d == 0 && e == 0 && f == 0 && g == 0 && h == 1

unfoldable pub is_unspecified : IpAddr → Bool
is_unspecified (v4 a b c d) = a == 0 && b == 0 && c == 0 && d == 0
is_unspecified (v6 a b c d e f g h) =
    a == 0 && b == 0 && c == 0 && d == 0 && e == 0 && f == 0 && g == 0 && h == 0

unfoldable pub is_multicast : IpAddr → Bool
is_multicast (v4 a b c d) = leb 224 a && leb a 239
is_multicast (v6 a b c d e f g h) = a / 256 == 255

-- `Ipv4Addr::is_link_local` and `Ipv6Addr::is_unicast_link_local`
unfoldable pub is_link_local : IpAddr → Bool
is_link_local (v4 a b c d) = a == 169 && b == 254
is_link_local (v6 a b c d e f g h) = a / 64 == 1018

-- `Ipv4Addr::is_private` and `Ipv6Addr::is_unique_local`
unfoldable pub is_private : IpAddr → Bool
is_private (v4 a b c d) = a == 10 || (a == 172 && leb 16 b && leb b 31) || (a == 192 && b == 168)
is_private (v6 a b c d e f g h) = a / 512 == 126

unfoldable pub is_likely_docker : IpAddr → Bool
is_likely_docker (v4 a b c d) = a == 172 && leb 17 b && leb b 31
is_likely_docker (v6 a b c d e f g h) = false

-- Loopback, unspecified or multicast: no address of a peer.
unfoldable pub is_unusable : IpAddr → Bool
is_unusable a = is_loopback a || is_unspecified a || is_multicast a

unfoldable pub is_remote_selection_candidate : IpAddr → Bool
is_remote_selection_candidate (v4 a b c d) =
    not (is_unusable (v4 a b c d) || is_likely_docker (v4 a b c d))
is_remote_selection_candidate (v6 a b c d e f g h) = not (is_unusable (v6 a b c d e f g h))

unfoldable pub endpoint_rank : IpAddr → ℕ × ℕ
endpoint_rank (v4 a b c d) =
    let address = v4 a b c d in
    (
      if is_unusable address
          then 0
          else if is_likely_docker address
          then 1
          else if is_link_local address
          then 2
          else if is_private address
          then 5
          else 4,
      1,
    )
endpoint_rank (v6 a b c d e f g h) =
    let address = v6 a b c d e f g h in
    (
      if is_unusable address
          then 0
          else if is_link_local address
          then 2
          else if is_private address
          then 3
          else 4,
      0,
    )

-- The order of the tuples `(u8, u8)`.
abbrev pub rank_lt : ℕ × ℕ → ℕ × ℕ → Bool
rank_lt (a, b) (c, d) = ltb a c || (a == c && ltb b d)

-- `max_by_key` keeps the last of the greatest.
unfoldable pub prefer : IpAddr → Option IpAddr → Option IpAddr
prefer x none = some x
prefer x (some y) = if rank_lt (endpoint_rank y) (endpoint_rank x) then some x else some y

unfoldable pub max_by_rank : List IpAddr → Option IpAddr
unfolding prefer
max_by_rank [] = none
max_by_rank (x ∷ xs) = prefer x (max_by_rank xs)

unfoldable pub select_preferred_ip_address : List IpAddr → Option IpAddr
select_preferred_ip_address addresses = max_by_rank (retain is_remote_selection_candidate addresses)

unfoldable pub select_preferred_endpoint : String → List IpAddr → ℕ → Option TransportEndpoint
select_preferred_endpoint device_id addresses port = elim (select_preferred_ip_address addresses) [
  | none ↦ none
  | some ip ↦ some (record { device_id = device_id; address = record { ip = ip; port = port } })
]

-- The known endpoint gives way only to one of a higher rank.
unfoldable pub preferred_endpoint :
    Option TransportEndpoint → Option TransportEndpoint → Option TransportEndpoint
preferred_endpoint (some existing) (some incoming) =
    if rank_lt (endpoint_rank existing.address.ip) (endpoint_rank incoming.address.ip)
    then some incoming
    else some existing
preferred_endpoint (some existing) none = some existing
preferred_endpoint none (some incoming) = some incoming
preferred_endpoint none none = none
