-- ===== src/Provisioner/Versions/Narrow.antt =====
-- The narrowing of version numbers to 32 bits, and what ActivateVersion sends.
use apprun_dedicated_provisi.Base.{
  ◌<◌, ◌^◌, ◌%◌, ltb, String, some, [], ◌∷◌, ◌≢◌, ℤ, pos, negsuc, ◌≡◌, ap, subst, ◌↔◌, arith,
  Bool-cases, inl, inr,
}
use apprun_dedicated_provisi.Api.{Nil, nil_to, UpdateApplication}
use apprun_dedicated_provisi.Platform.{Platform}
use apprun_dedicated_provisi.Platform.Steps.{Follows}
use apprun_dedicated_provisi.Provisioner.Apply.{to_int32, activation}
use apprun_dedicated_provisi.Provisioner.Versions.{activate_version}
use apprun_dedicated_provisi.Provisioner.Versions.Calls.{change_of, activate_version-Follows}

-- An int32 can hold the number.
abbrev pub IsInt32 : ℤ → Type 0
IsInt32 (pos n) = n < 2 ^ 31
IsInt32 (negsuc n) = n < 2 ^ 31

to_int32-IsInt32 : (v : ℤ) → IsInt32 (to_int32 v)
unfolding to_int32
to_int32-IsInt32 (pos n) = elim (Bool-cases (ltb (n % 4294967296) 2147483648)) [
  | inl low ↦ rw (low, to_int32) (ground arith)
  | inr high ↦ rw (high, to_int32) (ground arith)
]
to_int32-IsInt32 (negsuc n) = elim (Bool-cases (ltb (n % 4294967296) 2147483648)) [
  | inl low ↦ rw (low, to_int32) (ground arith)
  | inr high ↦ rw (high, to_int32) (ground arith)
]

to_int32_same : (v : ℤ) → IsInt32 v → to_int32 v ≡ v
unfolding to_int32
to_int32_same (pos n) h =
    let small : n % 4294967296 ≡ n = omega (arith, h) in ground (arith, small, h)
to_int32_same (negsuc n) h =
    let small : n % 4294967296 ≡ n = omega (arith, h) in ground (arith, small, h)

-- Whatever the service answers: if a version is given, that is not 0, the one change that
-- ActivateVersion asks the service for makes a version active whose number an int32 can hold, and it is
-- the given version exactly when an int32 can hold that one. ActivateVersion has asked for it if it
-- returns, and for nothing else if it fails.
pub activate_version-bounds_iff :
    (P : Platform) (cluster app : String) (version : ℤ)
    → version ≢ pos 0
    → (sent : UpdateApplication) × Follows change_of
        (some sent ∷ [])
        (activate_version P cluster app version)
      × IsInt32 sent.active_version.value
      × ((sent.active_version ≡ nil_to version) ↔ IsInt32 version)
activate_version-bounds_iff P cluster app version given = (
  activation version,
  activate_version-Follows P cluster app version given,
  to_int32-IsInt32 version,
  (
    (λ e. subst IsInt32 (ap (λ (n : Nil ℤ). n.value) e) (to_int32-IsInt32 version)),
    (λ h. ap nil_to (to_int32_same version h)),
  ),
)
