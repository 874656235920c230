-- ===== src/Http/Address.antt =====
-- `_not_global_unicast` and `_approved_addresses` of yugo/http_tools.py. An address is its number;
-- `is_multicast` and `is_global` are those of `ipaddress`.
use yugo.Base.{
  ℕ, ◌/◌, ◌%◌, ◌^◌, Text, Bool, true, false, not, ◌&&◌, ◌||◌, ◌==◌, ltb, Option, none, some, List,
  [], ◌∷◌, ◌++◌, if◌then◌else◌,
}
use yugo.Http.Origin.{blocked_address, timeout, transport_error, Checked, refused, passed}

pub data Ip : Type 0 where
  v4 v6 : ℕ → Ip

pub record Ipaddress : Type 0 where
  pub is_multicast : Ip → Bool
  pub is_global : Ip → Bool

-- 64:ff9b:1::/48
abbrev pub in_local_use : ℕ → Bool
in_local_use n = n / 2 ^ 80 == 0x64ff9b0001

-- 64:ff9b::/96
abbrev pub in_well_known : ℕ → Bool
in_well_known n = n / 2 ^ 32 == 0x64ff9b0000000000000000

-- ::ffff:0:0/96
abbrev is_mapped : ℕ → Bool
is_mapped n = n / 2 ^ 32 == 0xffff

-- The address that an IPv6 address reaches, `none` for the local-use prefix.
unfoldable pub reached : Ip → Option Ip
reached (v4 n) = some (v4 n)
reached (v6 n) =
    if in_local_use n
    then none
    else if is_mapped n
    then some (v4 (n % 2 ^ 32))
    else if in_well_known n || (ltb 1 n && n / 2 ^ 32 == 0)
    then some (v4 (n % 2 ^ 32))
    else some (v6 n)

unfoldable pub is_blocked : Ipaddress → Ip → Bool
is_blocked k ip = elim (reached ip) [
  | none ↦ true
  | some a ↦ if k.is_multicast a then true else not (k.is_global a)
]

-- An entry of `getaddrinfo`: its first three fields, and the address of its socket address, `none`
-- where that is no address.
pub record Info : Type 0 where
  pub family : ℕ
  pub kind : ℕ
  pub proto : ℕ
  pub ip : Option Ip
  pub sockaddr : Text × ℕ

pub data Resolved : Type 0 where
  too_late failed : Resolved
  infos : List Info → Resolved

module _ (k : Ipaddress) (same : Info → Info → Bool) where
  unfoldable pub is_listed : Info → List Info → Bool
  is_listed i [] = false
  is_listed i (j ∷ js) = same i j || is_listed i js

  abbrev pub add_unless : Bool → Info → List Info → List Info
  add_unless true i acc = acc
  add_unless false i acc = acc ++ (i ∷ [])

  -- The loop over the entries, in their order; `same` compares what `item not in addresses` does.
  abbrev pub next_entry :
      Option Ip → Info → List Info → (List Info → Checked (List Info)) → Checked (List Info)
  next_entry none i acc rest = refused transport_error
  next_entry (some a) i acc rest =
      if is_blocked k a then refused blocked_address else rest (add_unless (is_listed i acc) i acc)

  unfoldable pub collect : List Info → List Info → Checked (List Info)
  collect [] acc = passed acc
  collect (i ∷ is) acc = next_entry i.ip i acc (λ acc'. collect is acc')

  abbrev pub nonempty : Checked (List Info) → Checked (List Info)
  nonempty (refused e) = refused e
  nonempty (passed []) = refused transport_error
  nonempty (passed (i ∷ is)) = passed (i ∷ is)

  unfoldable pub approved_addresses : Resolved → Checked (List Info)
  approved_addresses too_late = refused timeout
  approved_addresses failed = refused transport_error
  approved_addresses (infos is) = nonempty (collect is [])
