-- ===== src/Infra/Laws.antt =====
-- The comparisons of servers and pools decide equality.
use apprun_dedicated_provisi.Base.{
  String, true, List, [], ◌∷◌, length, map, length-map, ◌≡◌, refl, ap, ap₂, subst, sym, ◌↔◌, arith,
  string_eq, nat_eq,
}
use apprun_dedicated_provisi.Config.{IpRangeConfig}
use apprun_dedicated_provisi.Api.{IpRange}
use apprun_dedicated_provisi.Infra.{
  same_servers, same_ranges, compare_name_servers, compare_ip_pools, api_range, config_range,
}

same_servers-eq :
    (xs ys : List String) → length xs ≡ length ys → same_servers xs ys ≡ true → xs ≡ ys
unfolding same_servers
same_servers-eq [] [] l h = refl
same_servers-eq [] (y ∷ ys) l h = absurd (omega arith)
same_servers-eq (x ∷ xs) [] l h = absurd (omega arith)
same_servers-eq (x ∷ xs) (y ∷ ys) l h =
    ap₂ ◌∷◌ (ground (arith, string_eq.beq_iff x y))
      (same_servers-eq xs ys (omega arith) (ground arith))

same_servers_refl : (xs : List String) → same_servers xs xs ≡ true
unfolding same_servers
same_servers_refl [] = refl
same_servers_refl (x ∷ xs) = ground (arith, string_eq.beq_iff x x, same_servers_refl xs)

pub compare_name_servers_iff :
    (xs ys : List String) → (compare_name_servers xs ys ≡ true) ↔ (xs ≡ ys)
unfolding compare_name_servers
compare_name_servers_iff xs ys = (
  (λ h.
      same_servers-eq xs ys (ground (arith, nat_eq.beq_iff (length xs) (length ys)))
        (ground arith)),
  (λ e.
      subst (λ zs. compare_name_servers xs zs ≡ true) e
        (ground (arith, nat_eq.beq_iff (length xs) (length xs), same_servers_refl xs))),
)

same_ranges-eq :
    (xs : List IpRange) (ys : List IpRangeConfig)
    → length xs ≡ length ys
    → same_ranges xs ys ≡ true
    → xs ≡ map api_range ys
unfolding same_ranges
same_ranges-eq [] [] l h = refl
same_ranges-eq [] (y ∷ ys) l h = absurd (omega arith)
same_ranges-eq (x ∷ xs) [] l h = absurd (omega arith)
same_ranges-eq (x ∷ xs) (y ∷ ys) l h =
    ap₂ ◌∷◌ (ground (arith, string_eq.beq_iff x.start y.start, string_eq.beq_iff x.end y.end))
      (same_ranges-eq xs ys (omega arith) (ground arith))

same_ranges_refl : (ys : List IpRangeConfig) → same_ranges (map api_range ys) ys ≡ true
unfolding same_ranges
same_ranges_refl [] = refl
same_ranges_refl (y ∷ ys) =
    ground
      (arith, string_eq.beq_iff y.start y.start, string_eq.beq_iff y.end y.end, same_ranges_refl ys)

pub compare_ip_pools_iff :
    (xs : List IpRange) (ys : List IpRangeConfig)
    → (compare_ip_pools xs ys ≡ true) ↔ (xs ≡ map api_range ys)
unfolding compare_ip_pools
compare_ip_pools_iff xs ys = (
  (λ h.
      same_ranges-eq xs ys (ground (arith, nat_eq.beq_iff (length xs) (length ys))) (ground arith)),
  (λ e.
      subst (λ zs. compare_ip_pools zs ys ≡ true) (sym e)
        (ground (
          arith,
          nat_eq.beq_iff (length (map api_range ys)) (length ys),
          length-map api_range ys,
          same_ranges_refl ys,
        ))),
)

-- An IP pool survives the way to the service's type and back.
pub map-api_range-config_range : (xs : List IpRange) → map api_range (map config_range xs) ≡ xs
map-api_range-config_range [] = refl
map-api_range-config_range (x ∷ xs) = ap (◌∷◌ x) (map-api_range-config_range xs)
