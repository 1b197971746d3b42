-- ===== src/Process/Regions/Defs.antt =====
-- The loop of Process::GetRegions, on fuel.
use master_lib.Base.{
  ℕ, zero, suc, ◌+◌, ◌%◌, ◌^◌, Bool, ◌||◌, List, [], ◌∷◌, ◌++◌, Option, none, some, ◌==◌,
  if◌then◌else◌,
}
use master_lib.Mach.{Kernel, RegionReply, kern_success, kern_invalid_address}
use master_lib.Process.{Process}

pub record Region : Type 0 where
  pub start : ℕ
  pub size : ℕ
  pub prot : ℕ

abbrev pub vm_prot_any : ℕ
vm_prot_any = 0x2000

-- `info.protection == options || options == VM_PROT_ANY`
abbrev pub selects : ℕ → ℕ → Bool
selects options protection = protection == options || options == vm_prot_any

-- What one round appends.
abbrev pub selected : ℕ → RegionReply → List Region
selected options r =
    if selects options r.protection
    then record { start = r.address; size = r.size; prot = r.protection } ∷ []
    else []

-- The result with `found` in front.
abbrev pub prepend {ℓ} :
    {W : Type ℓ} → List Region → Option (List Region × W) → Option (List Region × W)
prepend found none = none
prepend found (some (rest, w)) = some (found ++ rest, w)

module _ {W : Type 0} (k : Kernel W) where
  -- One round for each unit of fuel; none means that the fuel ran out. A status that is neither
  -- KERN_SUCCESS nor KERN_INVALID_ADDRESS ends the loop after its round. `address` wraps at 2^64,
  -- `depth` at 2^32.
  unfoldable pub regions_loop :
      ℕ → Process → (options address size depth : ℕ) → W → Option (List Region × W)
  regions_loop zero p options address size depth w = none
  regions_loop (suc fuel) p options address size depth w =
      let (r, w') = k.vm_region_recurse p.task address size depth w in
      let deeper =
        if r.status == kern_success
        then regions_loop fuel p options r.address r.size ((r.depth + 1) % 2 ^ 32) w'
        else some ([], w') in
      let next =
        if r.status == kern_success
        then regions_loop fuel p options ((r.address + r.size) % 2 ^ 64) r.size r.depth w'
        else some ([], w') in
      if r.status == kern_invalid_address
      then some ([], w')
      else if r.is_submap
      then deeper
      else prepend (selected options r) next

  unfoldable pub get_regions : ℕ → Process → ℕ → W → Option (List Region × W)
  unfolding regions_loop
  get_regions fuel p options w = regions_loop fuel p options 0 0 1 w
