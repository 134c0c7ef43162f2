-- ===== src/SystemUpdate/Images.antt =====
-- The image of a component that carries one, as `inspect_firmware_image` accepts it.
use esp_iris.Common.{
  ℕ, ◌≤◌, ◌==◌, ltb, not, ◌||◌, ◌≡◌, refl, sym, ap, ◌∙◌, subst, ◌⊎◌, inl, inr, Bool, true, false,
  List, length, get_or, ok, ◌>>=◌, raise_if, bind-ok, ok-injective, uint_at, is_empty, arith,
}
use esp_iris.SystemUpdate.Manifest.{
  LoadError, not_image, wrong_chip, no_descriptor, no_names, chip_mismatch,
}
use esp_iris.SystemUpdate.Firmware.{FirmwareImage, cstring, slice, inspect_firmware_image}
use esp_iris.SystemUpdate.Bundle.{ComponentKind}
use esp_iris.SystemUpdate.Components.{carries_image, check_image}

-- An image for a chip: its magic numbers, its chip, and the names in its descriptor.
pub record IsImage (chip_id : ℕ) (bytes : List ℕ) : Type 0 where
  pub long_enough : 112 ≤ length bytes
  pub magic : get_or bytes 0 0 ≡ 0xe9
  pub for_chip : uint_at 2 12 bytes ≡ chip_id
  pub supported : chip_id ≡ 0x20
  pub described : uint_at 4 32 bytes ≡ 0xabcd5432
  pub has_project : is_empty (cstring (slice 80 32 bytes)) ≡ false
  pub has_version : is_empty (cstring (slice 48 32 bytes)) ≡ false

long_lem :
    (n b : ℕ) → raise_if (ltb n 112 || not (b == 0xe9)) not_image ≡ ok tt → (112 ≤ n) × (b ≡ 0xe9)
long_lem n b h = ground (arith, h)

equal_lem : (a b : ℕ) (e : LoadError) → raise_if (not (a == b)) e ≡ ok tt → a ≡ b
equal_lem a b e h = ground (arith, h)

named_lem : (a b : Bool) → raise_if (a || b) no_names ≡ ok tt → (a ≡ false) × (b ≡ false)
named_lem a b h = ground (arith, h)

module _ (sha256 : List ℕ → List ℕ) where
  inspect_lem :
      (bytes : List ℕ) (firmware : FirmwareImage)
      → inspect_firmware_image sha256 bytes ≡ ok firmware
      → IsImage 0x20 bytes × (firmware.chip_id ≡ 0x20)
  unfolding inspect_firmware_image
  inspect_lem bytes firmware h =
      let (u1, e1, h1) =
        bind-ok (raise_if (ltb (length bytes) 112 || not (get_or bytes 0 0 == 0xe9)) not_image) _
          h in
      let (u2, e2, h2) = bind-ok (raise_if (not (uint_at 2 12 bytes == 0x20)) wrong_chip) _ h1 in
      let (u3, e3, h3) =
        bind-ok (raise_if (not (uint_at 4 32 bytes == 0xabcd5432)) no_descriptor) _ h2 in
      let (u4, e4, h4) =
        bind-ok
          (raise_if
            (is_empty (cstring (slice 80 32 bytes)) || is_empty (cstring (slice 48 32 bytes)))
            no_names)
          _ h3 in
      let (long, magic) = long_lem (length bytes) (get_or bytes 0 0) e1 in
      let chip = equal_lem (uint_at 2 12 bytes) 0x20 wrong_chip e2 in
      let (project, version) =
        named_lem (is_empty (cstring (slice 80 32 bytes))) (is_empty (cstring (slice 48 32 bytes)))
          e4 in
      (
        record {
          long_enough = long;
          magic = magic;
          for_chip = chip;
          supported = refl;
          described = equal_lem (uint_at 4 32 bytes) 0xabcd5432 no_descriptor e3;
          has_project = project;
          has_version = version;
        },
        ap (λ (f : FirmwareImage). f.chip_id) (sym (ok-injective h4)) ∙ chip,
      )

  pub check_image_lem :
      (chip_id : ℕ) (kind : ComponentKind) (bytes : List ℕ)
      → check_image sha256 chip_id kind bytes ≡ ok tt
      → (carries_image kind ≡ false) ⊎ IsImage chip_id bytes
  unfolding check_image
  check_image_lem chip_id kind bytes =
      elim (carries_image kind)
        as (λ carries.
          elim carries [
            | false ↦ ok tt
            | true ↦ inspect_firmware_image sha256 bytes >>= λ firmware.
                raise_if (not (firmware.chip_id == chip_id)) chip_mismatch
          ]
            ≡ ok tt
          → (carries ≡ false) ⊎ IsImage chip_id bytes) [
            | false ↦ λ h. inl refl
            | true ↦ λ h.
                let (firmware, p, k) = bind-ok (inspect_firmware_image sha256 bytes) _ h in
                let (image, chip) = inspect_lem bytes firmware p in
                inr (
                  subst (λ c. IsImage c bytes)
                    (sym chip ∙ equal_lem firmware.chip_id chip_id chip_mismatch k) image)
          ]
