-- ===== src/Process/Regions/Flat.antt =====
-- GetRegions against the list of the task's regions, where no map is nested.
use master_lib.Base.{
  ℕ, zero, suc, ◌+◌, ◌%◌, ◌^◌, ◌≤◌, ◌<◌, ◌≡◌, refl, ap, ◌∙◌, false, List, [], ◌∷◌, ◌++◌, Option,
  none, some, arith, ltb, if◌then◌else◌, length,
}
use master_lib.Mach.{Kernel, kern_success, kern_invalid_address}
use master_lib.Process.{Process}
use master_lib.Process.Regions.Defs.{Region, selects, prepend, regions_loop, get_regions}

-- In the order of their addresses, not empty, from `a` on and below 2^64.
abbrev pub Layout : ℕ → List Region → Type 0
Layout a [] = Unit {0}
Layout a (e ∷ es) =
    (a ≤ e.start) × (0 < e.size) × (e.start + e.size < 2 ^ 64) × Layout (e.start + e.size) es

-- The first region that ends behind `a`.
unfoldable pub region_at : ℕ → List Region → Option Region
region_at a [] = none
region_at a (e ∷ es) = if ltb a (e.start + e.size) then some e else region_at a es

-- Documented behaviour of vm_region_recurse_64 on a task whose regions are `entries`.
pub record FlatMap {W : Type 0} (k : Kernel W) (task : ℕ) (entries : List Region) : Type 0 where
  pub behind :
      (a s d : ℕ) (w : W)
      → region_at a entries ≡ none
      → (k.vm_region_recurse task a s d w).0.status ≡ kern_invalid_address
  pub found :
      (a s d : ℕ) (w : W) (e : Region)
      → region_at a entries ≡ some e
      → ((k.vm_region_recurse task a s d w).0.status ≡ kern_success)
        × ((k.vm_region_recurse task a s d w).0.is_submap ≡ false)
        × ((k.vm_region_recurse task a s d w).0.address ≡ e.start)
        × ((k.vm_region_recurse task a s d w).0.size ≡ e.size)
        × ((k.vm_region_recurse task a s d w).0.protection ≡ e.prot)

-- What GetRegions is for.
unfoldable pub matching : ℕ → List Region → List Region
matching options [] = []
matching options (e ∷ es) =
    if selects options e.prot then e ∷ matching options es else matching options es

abbrev pub listed {ℓ} : {W : Type ℓ} → Option (List Region × W) → Option (List Region)
listed none = none
listed (some (rs, w)) = some rs

listed-prepend {ℓ} :
    {W : Type ℓ} (found rs : List Region) (o : Option (List Region × W))
    → listed o ≡ some rs
    → listed (prepend found o) ≡ some (found ++ rs)
listed-prepend found rs none h = cc
listed-prepend found rs (some (rs', w)) h = ground arith

module _ {W : Type 0} (k : Kernel W) (p : Process) (options : ℕ) (entries : List Region)
    (laws : FlatMap k p.task entries) where
  regions_loop-matching :
      (es : List Region) (fuel address size depth : ℕ) (w : W)
      → Layout address es
      → ((b : ℕ) → address ≤ b → region_at b entries ≡ region_at b es)
      → length es < fuel
      → listed (regions_loop k fuel p options address size depth w) ≡ some (matching options es)
  unfolding regions_loop matching region_at
  regions_loop-matching es zero address size depth w lay same enough = absurd (omega arith)
  regions_loop-matching [] (suc fuel) address size depth w lay same enough =
      rw (laws.behind address size depth w (same address (omega arith)))
  regions_loop-matching (e ∷ es) (suc fuel) address size depth w lay same enough =
      let (r, w') = k.vm_region_recurse p.task address size depth w in
      let here : region_at address entries ≡ some e = same address (omega arith) ∙ (ground arith) in
      let (status, leaf, start, sz, prot) = laws.found address size depth w e here in
      let no_wrap : (e.start + e.size) % 2 ^ 64 ≡ e.start + e.size = omega arith in
      let rest =
        regions_loop-matching es fuel (e.start + e.size) e.size r.depth w' lay.3
          (λ b le. same b (omega arith) ∙ (ground arith)) (omega arith) in
      rw (status, leaf, start, sz, prot, no_wrap)
        (listed-prepend _ (matching options es) _ rest ∙ ap some (ground arith))

  -- Where the task's regions are `entries`, in the order of their addresses, `GetRegions` lists
  -- exactly those with the protection that was asked for (all of them for VM_PROT_ANY), in their
  -- order, within one round for each region and one more.
  pub get_regions-matching :
      (fuel : ℕ) (w : W)
      → Layout 0 entries
      → length entries < fuel
      → listed (get_regions k fuel p options w) ≡ some (matching options entries)
  unfolding get_regions
  get_regions-matching fuel w lay enough =
      regions_loop-matching entries fuel 0 0 1 w lay (λ b le. refl) enough
