-- ===== src/Process/Regions/Termination.antt =====
-- GetRegions ends, and lists its regions in the order of their addresses.
use master_lib.Base.{
  Bool, ℕ, zero, suc, ◌+◌, ◌-◌, ◌*◌, ◌%◌, ◌^◌, ◌≤◌, ◌<◌, ◌≡◌, refl, ◌⊎◌, true, false, List, [], ◌∷◌,
  Option, none, some, arith, Bool-cases, inl, inr,
}
use master_lib.Mach.{Kernel, RegionReply, kern_success, kern_invalid_address}
use master_lib.Process.{Process}
use master_lib.Process.Regions.Defs.{Region, selects, selected, prepend, regions_loop, get_regions}

-- Documented behaviour of vm_region_recurse_64 on a task whose memory ends by `limit` and whose
-- maps nest at most `levels` deep. `boundary` are the addresses that no region straddles which a call
-- with that depth can report. The call answers with the first region that ends behind the address, so
-- from a boundary on with one at or behind it; the start of a submap is a boundary one level deeper,
-- and the end of a region one at its depth; a region that is not a submap is not empty; a submap is
-- reported only at the depth that was asked for, and none is below the last level; the one error is
-- KERN_INVALID_ADDRESS, behind the last region.
pub record RegionLaws {W : Type 0} (k : Kernel W) (task limit levels : ℕ) : Type 0 where
  pub limit_fits : limit < 2 ^ 64
  pub levels_fit : levels + 1 < 2 ^ 32
  pub errors :
      (a s d : ℕ) (w : W)
      → ((k.vm_region_recurse task a s d w).0.status ≡ kern_success)
        ⊎ ((k.vm_region_recurse task a s d w).0.status ≡ kern_invalid_address)
  pub boundary : (address depth : ℕ) → Bool
  pub boundary_zero : boundary 0 1 ≡ true
  pub starts :
      (a s d : ℕ) (w : W)
      → (k.vm_region_recurse task a s d w).0.status ≡ kern_success
      → (k.vm_region_recurse task a s d w).0.is_submap ≡ true
      → boundary (k.vm_region_recurse task a s d w).0.address (d + 1) ≡ true
  pub ends :
      (a s d : ℕ) (w : W)
      → (k.vm_region_recurse task a s d w).0.status ≡ kern_success
      → (k.vm_region_recurse task a s d w).0.is_submap ≡ false
      → boundary
          ((k.vm_region_recurse task a s d w).0.address + (k.vm_region_recurse task a s d w).0.size)
          (k.vm_region_recurse task a s d w).0.depth
        ≡ true
  pub forward :
      (a s d : ℕ) (w : W)
      → boundary a d ≡ true
      → (k.vm_region_recurse task a s d w).0.status ≡ kern_success
      → a ≤ (k.vm_region_recurse task a s d w).0.address
  pub inside :
      (a s d : ℕ) (w : W)
      → (k.vm_region_recurse task a s d w).0.status ≡ kern_success
      → (k.vm_region_recurse task a s d w).0.address + (k.vm_region_recurse task a s d w).0.size
        ≤ limit
  pub nonempty :
      (a s d : ℕ) (w : W)
      → (k.vm_region_recurse task a s d w).0.status ≡ kern_success
      → (k.vm_region_recurse task a s d w).0.is_submap ≡ false
      → 0 < (k.vm_region_recurse task a s d w).0.size
  pub depth_bound :
      (a s d : ℕ) (w : W)
      → d ≤ levels
      → (k.vm_region_recurse task a s d w).0.status ≡ kern_success
      → (k.vm_region_recurse task a s d w).0.depth ≤ levels
  pub submap_depth :
      (a s d : ℕ) (w : W)
      → (k.vm_region_recurse task a s d w).0.status ≡ kern_success
      → (k.vm_region_recurse task a s d w).0.is_submap ≡ true
      → ((k.vm_region_recurse task a s d w).0.depth ≡ d) × (d < levels)

-- Each region has the protection that was asked for, and starts at or behind the end of the one
-- before it; the first at or behind `a`.
abbrev pub Ascending : ℕ → ℕ → List Region → Type 0
Ascending options a [] = Unit {0}
Ascending options a (r ∷ rs) =
    (a ≤ r.start) × (selects options r.prot ≡ true) × Ascending options (r.start + r.size) rs

-- The walk has ended, with such regions.
abbrev pub Ends {ℓ} : {W : Type ℓ} → ℕ → ℕ → Option (List Region × W) → Type 0
Ends options a none = ⊥
Ends options a (some (rs, w)) = Ascending options a rs

Ascending-mono :
    (options a b : ℕ) (rs : List Region) → a ≤ b → Ascending options b rs → Ascending options a rs
Ascending-mono options a b [] le h = tt
Ascending-mono options a b (r ∷ rs) le h = (omega arith, h.1, h.2)

Ends-mono {ℓ} :
    {W : Type ℓ} (options a b : ℕ) (o : Option (List Region × W))
    → a ≤ b
    → Ends options b o
    → Ends options a o
Ends-mono options a b none le h = h
Ends-mono options a b (some (rs, w)) le h = Ascending-mono options a b rs le h

-- One round that found a region.
Ends-prepend {ℓ} :
    {W : Type ℓ} (options a b : ℕ) (r : RegionReply) (o : Option (List Region × W))
    → a ≤ r.address
    → b ≡ r.address + r.size
    → Ends options b o
    → Ends options a (prepend (selected options r) o)
Ends-prepend options a b r none le e h = h
Ends-prepend options a b r (some (rs, w)) le e h =
    elim (Bool-cases (selects options r.protection)) [
      | inl hit ↦ rw hit (le, hit, rw (← e) h)
      | inr miss ↦ rw miss (Ascending-mono options a b rs (omega arith) h)
    ]

measure_submap :
    (limit levels a a' d : ℕ)
    → a ≤ a'
    → d < levels
    → (limit - a') * (levels + 1) + (levels - (d + 1)) < (limit - a) * (levels + 1) + (levels - d)
measure_submap limit levels a a' d le lt = grind arith

measure_region :
    (limit levels a a' d d' : ℕ)
    → a < a'
    → a' ≤ limit
    → (limit - a') * (levels + 1) + (levels - d') < (limit - a) * (levels + 1) + (levels - d)
measure_region limit levels a a' d d' lt le = grind arith

module _ {W : Type 0} (k : Kernel W) (p : Process) (limit levels : ℕ)
    (laws : RegionLaws k p.task limit levels) (options : ℕ) where
  regions_loop-Ends :
      (fuel address size depth : ℕ) (w : W)
      → depth ≤ levels
      → address ≤ limit
      → laws.boundary address depth ≡ true
      → (limit - address) * (levels + 1) + (levels - depth) < fuel
      → Ends options address (regions_loop k fuel p options address size depth w)
  unfolding regions_loop
  regions_loop-Ends zero address size depth w hd ha hb hf = absurd (omega arith)
  regions_loop-Ends (suc fuel) address size depth w hd ha hb hf =
      let (r, w') = k.vm_region_recurse p.task address size depth w in
      elim (laws.errors address size depth w) [
        | inr gone ↦ rw gone tt
        | inl found ↦
            let ahead : address ≤ r.address = laws.forward address size depth w hb found in
            let fits : r.address + r.size ≤ limit = laws.inside address size depth w found in
            elim (Bool-cases (k.vm_region_recurse p.task address size depth w).0.is_submap) [
              | inl sub ↦
                  let (same, below) = laws.submap_depth address size depth w found sub in
                  let deep : (r.depth + 1) % 2 ^ 32 ≡ depth + 1 = omega (arith, laws.levels_fit) in
                  rw (found, sub, deep)
                    (Ends-mono options address r.address _ ahead (
                      regions_loop-Ends fuel r.address r.size (depth + 1) w' (omega arith)
                        (omega arith) (laws.starts address size depth w found sub)
                        (omega (
                          arith,
                          measure_submap limit levels address r.address depth ahead below,
                        ))))
              | inr leaf ↦
                  let some_byte : 0 < r.size = laws.nonempty address size depth w found leaf in
                  let shallow : r.depth ≤ levels = laws.depth_bound address size depth w hd found in
                  let no_wrap : (r.address + r.size) % 2 ^ 64 ≡ r.address + r.size =
                    omega (arith, laws.limit_fits) in
                  rw (found, leaf, no_wrap)
                    (Ends-prepend options address (r.address + r.size) r _ ahead refl (
                      regions_loop-Ends fuel (r.address + r.size) r.size r.depth w' shallow fits
                        (laws.ends address size depth w found leaf)
                        (omega (
                          arith,
                          measure_region limit levels address (r.address + r.size) depth r.depth
                              (omega arith) fits,
                        ))))
            ]
      ]

  -- On a task whose maps nest at least one level, and with fuel for every address of the task's
  -- memory at every level, `GetRegions` comes to its end,
  -- and the regions it lists have the protection that was asked for, or any for VM_PROT_ANY, and
  -- stand in the order of their addresses without overlap.
  pub get_regions-Ends :
      (fuel : ℕ) (w : W)
      → 1 ≤ levels
      → limit * (levels + 1) + levels ≤ fuel
      → Ends options 0 (get_regions k fuel p options w)
  unfolding get_regions
  get_regions-Ends fuel w deep enough =
      regions_loop-Ends fuel 0 0 1 w deep (omega arith) laws.boundary_zero (grind arith)
