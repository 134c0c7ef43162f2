-- ===== src/SystemUpdate/Regions.antt =====
-- Components that `check_layout` accepts do not overlap in the flash.
use esp_iris.Common.{
  ℕ, ◌≤◌, ◌<◌, ltb, ◌||◌, ◌≡◌, ◌⊎◌, inl, inr, Bool, true, false, if◌then◌else◌, List, [], ◌∷◌, All,
  arith,
}
use esp_iris.SystemUpdate.Bundle.{Component}
use esp_iris.SystemUpdate.Loaded.{IsPlaced}
use esp_iris.SystemUpdate.Layout.{
  Region, regions_of, comes_first, insert_region, sort_regions, neighbours_overlap,
}

abbrev pub IsApart : Region → Region → Type 0
IsApart a b = (a.stop ≤ b.start) ⊎ (b.stop ≤ a.start)

abbrev pub AreApart : List Region → Type 0
AreApart [] = Unit
AreApart (a ∷ regions) = All (IsApart a) regions × AreApart regions

abbrev pub IsProper : Region → Type 0
IsProper a = a.start < a.stop

pub IsApart_sym : (a b : Region) → IsApart a b → IsApart b a
IsApart_sym a b (inl h) = inr h
IsApart_sym a b (inr h) = inl h

or_false : (a b : Bool) → (a || b) ≡ false → (a ≡ false) × (b ≡ false)
or_false a b h = ground (arith, h)

-- Insertion keeps what holds of all.
pub All-insert :
    (P : Region → Type 0) (a : Region) (regions : List Region)
    → P a
    → All P regions
    → All P (insert_region a regions)
unfolding insert_region
All-insert P a [] h hs = (h, tt)
All-insert P a (b ∷ regions) h hs =
    elim (comes_first a b)
      as (λ first. All P (if first then a ∷ b ∷ regions else b ∷ insert_region a regions)) [
        | true ↦ (h, hs)
        | false ↦ (hs.0, All-insert P a regions h hs.1)
      ]

insert-All :
    (P : Region → Type 0) (a : Region) (regions : List Region)
    → All P (insert_region a regions)
    → P a × All P regions
unfolding insert_region
insert-All P a [] = λ hs. (hs.0, tt)
insert-All P a (b ∷ regions) =
    elim (comes_first a b)
      as (λ first.
        All P (if first then a ∷ b ∷ regions else b ∷ insert_region a regions)
        → P a × All P (b ∷ regions)) [
          | true ↦ λ hs. hs
          | false ↦ λ hs. let (h, rest) = insert-All P a regions hs.1 in (h, (hs.0, rest))
        ]

insert-AreApart :
    (a : Region) (regions : List Region)
    → AreApart (insert_region a regions)
    → AreApart (a ∷ regions)
unfolding insert_region
insert-AreApart a [] = λ h. (tt, tt)
insert-AreApart a (b ∷ regions) =
    elim (comes_first a b)
      as (λ first.
        AreApart (if first then a ∷ b ∷ regions else b ∷ insert_region a regions)
        → AreApart (a ∷ b ∷ regions)) [
          | true ↦ λ h. h
          | false ↦ λ h.
              let (apart, others) = insert-All (IsApart b) a regions h.0 in
              let (mine, rest) = insert-AreApart a regions h.1 in
              ((IsApart_sym b a apart, mine), (others, rest))
        ]

pub All-sort :
    (P : Region → Type 0) (regions : List Region) → All P regions → All P (sort_regions regions)
unfolding sort_regions
All-sort P [] hs = tt
All-sort P (a ∷ regions) hs = All-insert P a (sort_regions regions) hs.0 (All-sort P regions hs.1)

sort-All :
    (P : Region → Type 0) (regions : List Region) → All P (sort_regions regions) → All P regions
unfolding sort_regions
sort-All P [] hs = tt
sort-All P (a ∷ regions) hs =
    let (h, rest) = insert-All P a (sort_regions regions) hs in (h, sort-All P regions rest)

sort-AreApart : (regions : List Region) → AreApart (sort_regions regions) → AreApart regions
unfolding sort_regions
sort-AreApart [] h = tt
sort-AreApart (a ∷ regions) h =
    let (mine, rest) = insert-AreApart a (sort_regions regions) h in
    (sort-All (IsApart a) regions mine, sort-AreApart regions rest)

-- Where neighbours do not overlap, a region ends before all those behind it.
later :
    (a b : Region) (regions : List Region)
    → a.stop ≤ b.start
    → neighbours_overlap (b ∷ regions) ≡ false
    → All IsProper (b ∷ regions)
    → All (IsApart a) (b ∷ regions)
unfolding neighbours_overlap
later a b [] before h proper = (inl before, tt)
later a b (c ∷ regions) before h proper =
    let (gap, rest) = or_false (ltb c.start b.stop) (neighbours_overlap (c ∷ regions)) h in
    (inl before, later a c regions (ground (arith, gap, before, proper.0)) rest proper.1)

neighbours-AreApart :
    (regions : List Region)
    → neighbours_overlap regions ≡ false
    → All IsProper regions
    → AreApart regions
unfolding neighbours_overlap
neighbours-AreApart [] h proper = tt
neighbours-AreApart (a ∷ []) h proper = (tt, tt)
neighbours-AreApart (a ∷ b ∷ regions) h proper =
    let (gap, rest) = or_false (ltb b.start a.stop) (neighbours_overlap (b ∷ regions)) h in
    (
      later a b regions (ground (arith, gap)) rest proper.1,
      neighbours-AreApart (b ∷ regions) rest proper.1,
    )

pub regions-IsProper :
    (flash_size : ℕ) (components : List Component)
    → All (IsPlaced flash_size) components
    → All IsProper (regions_of components)
regions-IsProper flash_size [] placed = tt
regions-IsProper flash_size (c ∷ components) placed =
    (omega (arith, placed.0.not_empty), regions-IsProper flash_size components placed.1)

-- Whatever the order of the components in the manifest.
pub accepted-AreApart :
    (flash_size : ℕ) (components : List Component)
    → All (IsPlaced flash_size) components
    → neighbours_overlap (sort_regions (regions_of components)) ≡ false
    → AreApart (regions_of components)
accepted-AreApart flash_size components placed h = sort-AreApart (regions_of components) (
    neighbours-AreApart (sort_regions (regions_of components)) h
      (All-sort IsProper (regions_of components) (regions-IsProper flash_size components placed)))
