-- ===== src/SystemUpdate/Overlaps.antt =====
-- The neighbours in sorted order show every overlap in the flash: the loop of
-- `load_system_update_bundle` over them refuses overlapping components, and no others.
use esp_iris.Common.{
  ℕ, ◌≤◌, ◌<◌, ltb, ◌≡◌, refl, ◌↔◌, inl, inr, true, false, if◌then◌else◌, List, [], ◌∷◌, All, arith,
}
use esp_iris.SystemUpdate.Bundle.{Component}
use esp_iris.SystemUpdate.Loaded.{IsPlaced}
use esp_iris.SystemUpdate.Layout.{
  Region, regions_of, comes_first, insert_region, sort_regions, neighbours_overlap,
}
use esp_iris.SystemUpdate.Regions.{
  IsApart, AreApart, IsProper, IsApart_sym, All-insert, All-sort, regions-IsProper,
  accepted-AreApart,
}

abbrev StartsBefore : Region → Region → Type 0
StartsBefore a b = a.start ≤ b.start

abbrev IsSorted : List Region → Type 0
IsSorted [] = Unit
IsSorted (a ∷ regions) = All (StartsBefore a) regions × IsSorted regions

StartsBefore-trans :
    (a b : Region) (regions : List Region)
    → a.start ≤ b.start
    → All (StartsBefore b) regions
    → All (StartsBefore a) regions
StartsBefore-trans a b [] le all = tt
StartsBefore-trans a b (c ∷ regions) le all =
    (omega (arith, le, all.0), StartsBefore-trans a b regions le all.1)

first-StartsBefore : (a b : Region) → comes_first a b ≡ true → a.start ≤ b.start
first-StartsBefore a b h = ground (arith, h)

last-StartsBefore : (a b : Region) → comes_first a b ≡ false → b.start ≤ a.start
last-StartsBefore a b h = ground (arith, h)

insert-IsSorted :
    (a : Region) (regions : List Region) → IsSorted regions → IsSorted (insert_region a regions)
unfolding insert_region
insert-IsSorted a [] h = (tt, tt)
insert-IsSorted a (b ∷ regions) h =
    elim (comes_first a b)
        as (λ first.
          (comes_first a b ≡ first)
          → IsSorted (if first then a ∷ b ∷ regions else b ∷ insert_region a regions)) [
            | true ↦ λ e.
                let le = first-StartsBefore a b e in
                ((le, StartsBefore-trans a b regions le h.0), h)
            | false ↦ λ e. (
              All-insert (StartsBefore b) a regions (last-StartsBefore a b e) h.0,
              insert-IsSorted a regions h.1,
            )
          ]
      refl

sort-IsSorted : (regions : List Region) → IsSorted (sort_regions regions)
unfolding sort_regions
sort-IsSorted [] = tt
sort-IsSorted (a ∷ regions) = insert-IsSorted a (sort_regions regions) (sort-IsSorted regions)

AreApart-insert :
    (a : Region) (regions : List Region)
    → All (IsApart a) regions
    → AreApart regions
    → AreApart (insert_region a regions)
unfolding insert_region
AreApart-insert a [] mine rest = (tt, tt)
AreApart-insert a (b ∷ regions) mine rest =
    elim (comes_first a b)
      as (λ first. AreApart (if first then a ∷ b ∷ regions else b ∷ insert_region a regions)) [
        | true ↦ (mine, rest)
        | false ↦ (
          All-insert (IsApart b) a regions (IsApart_sym a b mine.0) rest.0,
          AreApart-insert a regions mine.1 rest.1,
        )
      ]

AreApart-sort : (regions : List Region) → AreApart regions → AreApart (sort_regions regions)
unfolding sort_regions
AreApart-sort [] h = tt
AreApart-sort (a ∷ regions) h =
    AreApart-insert a (sort_regions regions) (All-sort (IsApart a) regions h.0)
      (AreApart-sort regions h.1)

-- Of two regions apart, the one that starts first ends first.
no_gap :
    (a b : Region) → IsApart a b → a.start ≤ b.start → b.start < b.stop → ltb b.start a.stop ≡ false
no_gap a b (inl before) le proper = ground (arith)
no_gap a b (inr after) le proper = absurd (omega arith)

neighbours-false :
    (regions : List Region)
    → AreApart regions
    → IsSorted regions
    → All IsProper regions
    → neighbours_overlap regions ≡ false
unfolding neighbours_overlap
neighbours-false [] apart sorted proper = refl
neighbours-false (a ∷ []) apart sorted proper = refl
neighbours-false (a ∷ b ∷ regions) apart sorted proper = cc (
  no_gap a b apart.0.0 sorted.0.0 proper.1.0,
  neighbours-false (b ∷ regions) apart.1 sorted.1 proper.1,
)

-- Of components that fit the flash, the neighbours in the sorted order of their regions do not
-- overlap just when no two of the components do.
pub overlap_iff :
    (flash_size : ℕ) (components : List Component)
    → All (IsPlaced flash_size) components
    → (neighbours_overlap (sort_regions (regions_of components)) ≡ false)
      ↔ AreApart (regions_of components)
overlap_iff flash_size components placed =
    let regions = regions_of components in
    let proper = regions-IsProper flash_size components placed in
    (
      accepted-AreApart flash_size components placed,
      λ apart.
          neighbours-false (sort_regions regions) (AreApart-sort regions apart)
            (sort-IsSorted regions) (All-sort IsProper regions proper),
    )
