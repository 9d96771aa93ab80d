-- ===== src/Infra.antt =====
-- What provisioner/autoscaling.go and provisioner/loadbalancer.go have in common: lists of servers,
-- IP pools, optional settings with a default, and lines of a plan's description.
pub mod Laws
pub mod Interfaces
pub mod RoundTrip
use apprun_dedicated_provisi.Base.{
  ℕ, ℤ, pos, String, Bool, true, false, ◌&&◌, Option, none, some, List, [], ◌∷◌, length, map, ◌==◌,
  ◌!=◌, string_eq, nat_eq, if◌then◌else◌,
}
use apprun_dedicated_provisi.Config.{IpRangeConfig}
use apprun_dedicated_provisi.Api.{Opt, opt_to, opt_unset, IpRange}

-- `if b { changes = append(changes, line) }`
abbrev pub when : Bool → String → List String
when b line = if b then line ∷ [] else []

-- The value of an optional setting, or the default that stands for an unset one.
abbrev pub opt_or : {A : Type 0} → A → Opt A → A
opt_or d o = if o.set then o.value else d

abbrev pub ptr_or : {A : Type 0} → A → Option A → A
ptr_or d none = d
ptr_or d (some a) = a

-- `if p != nil { o.SetTo(*p) }`, on an unset `o`
abbrev pub opt_of : {A : Type 0} → A → Option A → Opt A
opt_of zero_value none = opt_unset zero_value
opt_of zero_value (some a) = opt_to a

-- The loop of the comparison of name servers; the lengths are equal.
pub same_servers : List String → List String → Bool
same_servers [] _ = true
same_servers (c ∷ current) [] = true
same_servers (c ∷ current) (d ∷ desired) = if c != d then false else same_servers current desired

-- The loop of the comparison of IP pools; the lengths are equal.
pub same_ranges : List IpRange → List IpRangeConfig → Bool
same_ranges [] _ = true
same_ranges (c ∷ current) [] = true
same_ranges (c ∷ current) (d ∷ desired) =
    if c.start == d.start && c.end == d.end then same_ranges current desired else false

unfoldable pub compare_name_servers : List String → List String → Bool
unfolding same_servers
compare_name_servers current desired =
    if length current != length desired then false else same_servers current desired

unfoldable pub compare_ip_pools : List IpRange → List IpRangeConfig → Bool
unfolding same_ranges
compare_ip_pools current desired =
    if length current != length desired then false else same_ranges current desired

abbrev pub api_range : IpRangeConfig → IpRange
api_range r = record { start = r.start; end = r.end }

abbrev pub config_range : IpRange → IpRangeConfig
config_range r = record { start = r.start; end = r.end }
