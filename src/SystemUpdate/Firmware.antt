-- ===== src/SystemUpdate/Firmware.antt =====
-- firmware.py. The texts of a descriptor are kept as the bytes that are decoded: decoding with
-- replacement characters gives an empty text for no bytes only.
use esp_iris.Common.{
  ℕ, ◌==◌, ltb, leb, not, ◌||◌, if◌then◌else◌, List, [], ◌∷◌, length, take, drop, get_or, Result,
  ok, ◌>>◌, raise_if, uint_at, is_empty,
}
use esp_iris.Session.Probes.{hex}
use esp_iris.SystemUpdate.Manifest.{LoadError, not_image, wrong_chip, no_descriptor, no_names}

pub record FirmwareImage : Type 0 where
  pub sha256 : List ℕ
  pub size : ℕ
  pub chip_id : ℕ
  pub project_name : List ℕ
  pub version : List ℕ
  pub elf_sha256 : List ℕ

-- `_cstring`
unfoldable pub cstring : List ℕ → List ℕ
cstring [] = []
cstring (b ∷ bytes) = let rest = cstring bytes in if b == 0 then [] else b ∷ rest

abbrev pub slice : ℕ → ℕ → List ℕ → List ℕ
slice from count bytes = take count (drop from bytes)

unfoldable pub inspect_firmware_image : (List ℕ → List ℕ) → List ℕ → Result LoadError FirmwareImage
unfolding cstring hex
inspect_firmware_image sha256 image = do
  raise_if (ltb (length image) 112 || not (get_or image 0 0 == 0xe9)) not_image
  raise_if (not (uint_at 2 12 image == 0x20)) wrong_chip
  raise_if (not (uint_at 4 32 image == 0xabcd5432)) no_descriptor
  raise_if (is_empty (cstring (slice 80 32 image)) || is_empty (cstring (slice 48 32 image)))
      no_names
  ok (record {
    sha256 = hex (sha256 image);
    size = length image;
    chip_id = uint_at 2 12 image;
    project_name = cstring (slice 80 32 image);
    version = cstring (slice 48 32 image);
    elf_sha256 = if leb 208 (length image) then hex (slice 176 32 image) else [];
  })
