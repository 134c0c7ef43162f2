-- ===== src/SystemUpdate/Layout.antt =====
-- The checks of `load_system_update_bundle` in system_update.py on the components together.
use esp_iris.Common.{
  ℕ, ◌+◌, ◌==◌, ltb, leb, not, ◌&&◌, ◌||◌, Bool, true, false, if◌then◌else◌, List, [], ◌∷◌, length,
  Option, none, some, replicate, Result, ok, ◌>>◌, raise_if, bytes_eq,
}
use esp_iris.Session.Probes.{hex}
use esp_iris.SystemUpdate.Manifest.{
  LoadError, overlap, partition_size, recovery_alone, recovery_layout, no_partition_table,
  bootloader_range, layout_mismatch,
}
use esp_iris.SystemUpdate.Bundle.{ComponentKind, bootloader, partition_table, recovery, Component}
use esp_iris.SystemUpdate.Components.{same_kind}

-- A region of the flash, and the order of such triples.
pub record Region : Type 0 where
  pub start : ℕ
  pub stop : ℕ
  pub id : ℕ

abbrev pub region_of : Component → Region
region_of c = record { start = c.target_offset; stop = c.target_offset + c.size; id = c.id }

abbrev pub regions_of : List Component → List Region
regions_of [] = []
regions_of (c ∷ components) = region_of c ∷ regions_of components

abbrev pub comes_first : Region → Region → Bool
comes_first a b =
    ltb a.start b.start
    || (a.start == b.start && (ltb a.stop b.stop || (a.stop == b.stop && leb a.id b.id)))

-- `sorted`
unfoldable pub insert_region : Region → List Region → List Region
insert_region a [] = a ∷ []
insert_region a (b ∷ regions) =
    let rest = insert_region a regions in if comes_first a b then a ∷ b ∷ regions else b ∷ rest

unfoldable pub sort_regions : List Region → List Region
unfolding insert_region
sort_regions [] = []
sort_regions (a ∷ regions) = insert_region a (sort_regions regions)

-- The loop over the pairs of neighbours.
unfoldable pub neighbours_overlap : List Region → Bool
neighbours_overlap [] = false
neighbours_overlap (a ∷ []) = false
neighbours_overlap (a ∷ b ∷ regions) = ltb b.start a.stop || neighbours_overlap (b ∷ regions)

-- The first component of a kind.
unfoldable pub first_of : ComponentKind → List Component → Option Component
first_of kind [] = none
first_of kind (c ∷ components) =
    let rest = first_of kind components in if same_kind c.kind kind then some c else rest

abbrev pub is_there : Option Component → Bool
is_there none = false
is_there (some c) = true

abbrev pub wrong_partition_size : Option Component → Bool
wrong_partition_size none = false
wrong_partition_size (some table) = not (table.size == 0x1000)

unfoldable pub check_bootloader : Option Component → Option Component → Result LoadError (Unit {0})
check_bootloader none table = ok tt
check_bootloader (some boot) none = raise_if true no_partition_table
check_bootloader (some boot) (some table) =
    raise_if (not (boot.target_offset + boot.size == table.target_offset)) bootloader_range

abbrev pub wrong_layout : List ℕ → Option Component → Bool
unfolding hex
wrong_layout layout none = false
wrong_layout layout (some table) = not (bytes_eq (hex table.sha256) layout)

unfoldable pub check_layout : List ℕ → List Component → Result LoadError (Unit {0})
unfolding sort_regions neighbours_overlap first_of check_bootloader hex
check_layout layout components = do
  raise_if (neighbours_overlap (sort_regions (regions_of components))) overlap
  let table = first_of partition_table components
  let recoveries = is_there (first_of recovery components)
  raise_if (wrong_partition_size table) partition_size
  raise_if (recoveries && not (length components == 1)) recovery_alone
  raise_if (recoveries && bytes_eq layout (replicate 64 b'0')) recovery_layout
  check_bootloader (first_of bootloader components) table
  raise_if (wrong_layout layout table) layout_mismatch
