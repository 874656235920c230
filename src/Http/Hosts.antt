-- ===== src/Http/Hosts.antt =====
-- Which hosts `parse_authority` of yugo/http_tools.py lets through.
use yugo.Base.{ℕ, Text, ◌≡◌, inl, inr, refl, Bool, Option, none, some, Bool-cases}
use yugo.Http.Origin.{Origin, https, blocked_name}
use yugo.Http.Authority.{
  parse_authority, partition_colon, parse_port, is_host, is_plain, unless_under, with_port,
  of_partition,
}

module _ (lower : Text → Text) (is_ip : Text → Bool) where
  abbrev pub IsHost : Option Origin → Type 0
  IsHost none = Unit
  IsHost (some o) = (o.scheme ≡ https) × (blocked_name lower o.host ≡ none)

  unless_under-IsHost :
      (b : Option Text) (host : Text) (port : ℕ)
      → blocked_name lower host ≡ b
      → IsHost (unless_under lower is_ip b host port)
  unless_under-IsHost (some name) host port e = tt
  unless_under-IsHost none host port e = (refl, e)

  with_port-IsHost : (host : Text) (port : Option ℕ) → IsHost (with_port lower is_ip host port)
  with_port-IsHost host none = tt
  with_port-IsHost host (some port) = elim (Bool-cases (is_host lower is_ip host)) [
    | inl y ↦ rw y (unless_under-IsHost (blocked_name lower (lower host)) (lower host) port refl)
    | inr n ↦ rw n tt
  ]

  of_partition-IsHost : (p : Text × Option Text) → IsHost (of_partition lower is_ip p)
  of_partition-IsHost (host, port) = with_port-IsHost host (parse_port port)

  pub parse_authority-IsHost : (value : Text) → IsHost (parse_authority lower is_ip value)
  unfolding parse_authority
  parse_authority-IsHost value = elim (Bool-cases (is_plain lower is_ip value)) [
    | inl y ↦ rw y (of_partition-IsHost (partition_colon value))
    | inr n ↦ rw n tt
  ]
