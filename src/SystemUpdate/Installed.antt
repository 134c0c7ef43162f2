-- ===== src/SystemUpdate/Installed.antt =====
-- `load_system_update_bundle` with a trust key, and `perform_system_update` with what it returns.
use esp_iris.Common.{
  ℕ, ◌≡◌, sym, ap, ◌∙◌, subst, Bool, true, List, [], ◌∷◌, length, Option, some, All, ok, pos,
}
use esp_iris.Session.Probes.{hex}
use esp_iris.Exchange.{Device, Talk}
use esp_iris.SystemUpdate.Manifest.{
  Value, object, array, string, integer, Items, no_entries, item, Fields, text, get,
}
use esp_iris.SystemUpdate.Archive.{Entry}
use esp_iris.SystemUpdate.Bundle.{Component, Bundle, UpdateError}
use esp_iris.SystemUpdate.Loaded.{IsPlaced, DeclaresAll}
use esp_iris.SystemUpdate.Loading.{Source, load_bundle}
use esp_iris.SystemUpdate.Accepted.{load_bundle_lem}
use esp_iris.SystemUpdate.Transfer.{Progress}
use esp_iris.SystemUpdate.Perform.{Updated, perform_update}
use esp_iris.SystemUpdate.Flashing.{Flashes, IsWhole}
use esp_iris.SystemUpdate.Committed.{perform_update-complete}
use esp_iris.SystemUpdate.Sent.{images}

-- An image has the size and the digest of an entry of a manifest.
abbrev pub Describes : (List ℕ → List ℕ) → Value → List ℕ → Type 0
Describes sha256 value image =
    (fields : Fields) × (value ≡ object fields)
    × (get (text "size") fields ≡ integer (pos (length image)))
    × (get (text "sha256") fields ≡ string (hex (sha256 image)))

abbrev pub DescribesAll : (List ℕ → List ℕ) → Items → List (List ℕ) → Type 0
DescribesAll sha256 no_entries [] = Unit
DescribesAll sha256 (item value values) (image ∷ others) =
    Describes sha256 value image × DescribesAll sha256 values others
DescribesAll sha256 _ _ = ⊥

placed-IsWhole :
    (flash_size : ℕ) (components : List Component)
    → All (IsPlaced flash_size) components
    → All IsWhole components
placed-IsWhole flash_size [] placed = tt
placed-IsWhole flash_size (c ∷ components) placed =
    (placed.0.is_whole, placed-IsWhole flash_size components placed.1)

declared-DescribesAll :
    (sha256 : List ℕ → List ℕ) (flash_size : ℕ) (values : Items) (components : List Component)
    → DeclaresAll sha256 values components
    → All (IsPlaced flash_size) components
    → DescribesAll sha256 values (images components)
declared-DescribesAll sha256 flash_size no_entries [] declared placed = tt
declared-DescribesAll sha256 flash_size (item value values) (c ∷ components) declared placed =
    let says = declared.0 in
    (
      (
        says.fields,
        says.is_object,
        says.says_size ∙ ap (λ n. integer (pos n)) placed.0.is_whole,
        says.says_digest,
      ),
      declared-DescribesAll sha256 flash_size values components declared.1 placed.1,
    )
declared-DescribesAll sha256 flash_size no_entries (c ∷ components) declared placed =
    absurd declared
declared-DescribesAll sha256 flash_size (item value values) [] declared placed = absurd declared

module _ {Key : Type 0} (load_key : List ℕ → Option Key) (verify : Key → List ℕ → List ℕ → Bool)
    (open_archive : List ℕ → Option (List Entry)) (parse : List ℕ → Option Value)
    (sha256 : List ℕ → List ℕ) {D : Type 0} (device : Device D) (wait_ready : Talk UpdateError D ℕ)
    (progress : Progress → Talk UpdateError D (Unit {0})) (complete : D → List (List ℕ))
    (current : D → List ℕ) (flashes : Flashes device complete current)
    (quiet : (p : Progress) (d : D)
      → (complete (progress p d).1 ≡ complete d) × (current (progress p d).1 ≡ current d)) where
  -- An update with a bundle that was loaded under a trust key, if it returns, leaves the device with
  -- one complete image for each entry of a manifest that the key has signed, in the manifest's
  -- order, and each image has the size and the digest that its entry gives. The device appends a
  -- chunk or changes nothing, and tells how many bytes it has.
  pub installed-DescribesAll :
      (pem : List ℕ) (source : Source) (bundle : Bundle) (fuel : ℕ) (token : List ℕ)
      (operation_id : Option (List ℕ)) (d : D) (updated : Updated) (d' : D)
      → load_bundle load_key verify open_archive parse sha256 (some pem) source ≡ ok bundle
      → perform_update device wait_ready progress fuel token operation_id bundle d
        ≡ (ok updated, d')
      → (key : Key) × (values : Items) × (load_key pem ≡ some key)
        × (verify key bundle.signature bundle.manifest_bytes ≡ true)
        × (parse bundle.manifest_bytes ≡ some (object bundle.manifest))
        × (get (text "components") bundle.manifest ≡ array values)
        × DescribesAll sha256 values (complete d')
  installed-DescribesAll pem source bundle fuel token operation_id d updated d' loaded done =
      let (trust, parsed, digest, sound) =
        load_bundle_lem load_key verify open_archive parse sha256 (some pem) source bundle loaded in
      let (key, known, verified, signed) = trust in
      let whole = placed-IsWhole bundle.flash_size bundle.components sound.placed in
      let (all, count, confirmed) =
        perform_update-complete device wait_ready progress complete current flashes quiet fuel token
          operation_id bundle d updated d' whole done in
      (
        key,
        sound.values,
        known,
        verified,
        parsed,
        sound.in_manifest,
        subst (DescribesAll sha256 sound.values) (sym all) (
            declared-DescribesAll sha256 bundle.flash_size sound.values bundle.components
              sound.declared sound.placed),
      )
