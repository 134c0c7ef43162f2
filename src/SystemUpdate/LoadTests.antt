-- ===== src/SystemUpdate/LoadTests.antt =====
-- A signed bundle of one component, read from an archive and installed; and what is refused.
use esp_iris.Common.{
  ℕ, ◌^◌, ◌≡◌, ◌↔◌, refl, Bool, true, false, List, [], ◌∷◌, ◌++◌, replicate, length, Option, some,
  none, ok, err, pos, bytes_eq, arith,
}
use esp_iris.Session.Probes.{hex}
use esp_iris.SystemUpdate.Manifest.{
  Value, object, array, string, integer, Items, no_entries, item, Fields, no_pairs, field, text,
  get, key_required,
}
use esp_iris.SystemUpdate.Archive.{Entry}
use esp_iris.SystemUpdate.Bundle.{UpdateError, Bundle, Component, raw_data}
use esp_iris.SystemUpdate.Loading.{raw, load_bundle, manifest_name, signature_name}
use esp_iris.SystemUpdate.Accepted.{IsTrusted, IsSound, load_bundle_lem}
use esp_iris.Wire.Codes.Services.{SystemUpdateType}
use esp_iris.Exchange.{Talk}
use esp_iris.SystemUpdate.Transfer.{Progress}
use esp_iris.SystemUpdate.Perform.{Updated, commit_response, perform_update}
use esp_iris.SystemUpdate.Loaded.{IsPlaced}
use esp_iris.SystemUpdate.Layout.{regions_of, sort_regions, neighbours_overlap}
use esp_iris.SystemUpdate.Regions.{AreApart}
use esp_iris.SystemUpdate.Overlaps.{overlap_iff}
use esp_iris.SystemUpdate.Chip.{chip-Flashes}
use esp_iris.SystemUpdate.ChipModel.{Chip, respond, chip, complete_of, current_of, operation}
use esp_iris.SystemUpdate.Installed.{DescribesAll, installed-DescribesAll}

-- A key is its own text, and a signature the key before the bytes.
abbrev load_key : List ℕ → Option (List ℕ)
load_key pem = some pem

abbrev verify : List ℕ → List ℕ → List ℕ → Bool
verify key signature bytes = bytes_eq signature (key ++ bytes)

abbrev digest : List ℕ → List ℕ
digest bytes = replicate 31 0 ++ length bytes ∷ []

abbrev one_entry : Value
one_entry = object (
    field (text "id") (integer (pos 7)) (
      field (text "kind") (string (text "data")) (
        field (text "target_offset") (integer (pos 0x1000)) (
          field (text "size") (integer (pos 3)) (
            field (text "sha256") (string (hex (digest (1 ∷ 2 ∷ 3 ∷ []))))
              (field (text "file") (string (text "a.bin")) no_pairs))))))

abbrev manifest_with : Items → Fields
manifest_with values = field (text "schema") (string (text "esp-iris-system-update/v1")) (
    field (text "target")
      (object (
        field (text "chip_id") (integer (pos 0x20))
          (field (text "flash_size") (integer (pos 0x4000)) no_pairs)))
      (field (text "target_layout_sha256") (string (replicate 64 b'1')) (
        field (text "components") (array values) (
          field (text "signature")
            (object (
              field (text "algorithm") (string (text "ecdsa-p256-sha256"))
                (field (text "key_id") (string (text "k1")) no_pairs)))
            no_pairs))))

abbrev parse : List ℕ → Option Value
parse bytes = some (object (manifest_with (item one_entry no_entries)))

abbrev stored : List ℕ → List ℕ → Entry
stored name content = record {
  filename = name;
  flag_bits = 0;
  compress_type = 0;
  file_size = length content;
  content = some content;
}

abbrev members : List Entry
members =
    stored manifest_name (0x7b ∷ 0x7d ∷ [])
    ∷ stored signature_name (9 ∷ 0x7b ∷ 0x7d ∷ [])
    ∷ stored (text "a.bin") (1 ∷ 2 ∷ 3 ∷ [])
    ∷ []

abbrev open_archive : List ℕ → Option (List Entry)
open_archive bytes = some members

abbrev signed_bundle : Bundle
signed_bundle = record {
  manifest = manifest_with (item one_entry no_entries);
  manifest_bytes = 0x7b ∷ 0x7d ∷ [];
  signature = 9 ∷ 0x7b ∷ 0x7d ∷ [];
  manifest_sha256 = digest (0x7b ∷ 0x7d ∷ []);
  key_id = some (text "k1");
  signature_verified = true;
  chip_id = 0x20;
  flash_size = 0x4000;
  target_layout_sha256 = replicate 64 b'1';
  components =
      record {
        id = 7;
        kind = raw_data;
        flags = 0;
        target_offset = 0x1000;
        size = 3;
        sha256 = digest (1 ∷ 2 ∷ 3 ∷ []);
        filename = text "a.bin";
        bytes = 1 ∷ 2 ∷ 3 ∷ [];
      }
      ∷ [];
}

load_run :
    load_bundle load_key verify open_archive parse digest (some (9 ∷ [])) (raw [])
    ≡ ok signed_bundle
unfolding load_bundle
load_run = refl

-- Without a trust key, the signed bundle is refused.
untrusting_run :
    load_bundle load_key verify open_archive parse digest none (raw []) ≡ err key_required
unfolding load_bundle
untrusting_run = refl

load_bundle_lem_example :
    IsTrusted load_key verify open_archive parse digest (some (9 ∷ [])) signed_bundle
    × (parse signed_bundle.manifest_bytes ≡ some (object signed_bundle.manifest))
    × (signed_bundle.manifest_sha256 ≡ digest signed_bundle.manifest_bytes)
    × IsSound digest signed_bundle
load_bundle_lem_example =
    load_bundle_lem load_key verify open_archive parse digest (some (9 ∷ [])) (raw []) signed_bundle
      load_run

abbrev placed_at : ℕ → ℕ → Component
placed_at identifier offset = record {
  id = identifier;
  kind = raw_data;
  flags = 0;
  target_offset = offset;
  size = 2;
  sha256 = [];
  filename = [];
  bytes = 1 ∷ 2 ∷ [];
}

placed_at-IsPlaced : (identifier : ℕ) → IsPlaced 0x4000 (placed_at identifier 0x1000)
placed_at-IsPlaced identifier = record {
  is_whole = refl;
  not_empty = omega arith;
  bounded = omega arith;
  inside = omega arith;
  aligned = refl;
}

overlap_iff_example :
    (neighbours_overlap (sort_regions (regions_of (placed_at 1 0x1000 ∷ placed_at 2 0x1000 ∷ [])))
      ≡ false)
    ↔ AreApart (regions_of (placed_at 1 0x1000 ∷ placed_at 2 0x1000 ∷ []))
overlap_iff_example =
    overlap_iff 0x4000 (placed_at 1 0x1000 ∷ placed_at 2 0x1000 ∷ [])
      (placed_at-IsPlaced 1, (placed_at-IsPlaced 2, tt))

abbrev capable : Talk UpdateError Chip ℕ
capable d = (ok (2 ^ 15), d)

abbrev unheard : Progress → Talk UpdateError Chip (Unit {0})
unheard p d = (ok tt, d)

abbrev fresh_chip : Chip
fresh_chip = record { complete = []; current = []; active = 0; late = 1 }

abbrev updated_chip : Chip
updated_chip = record {
  complete = (1 ∷ 2 ∷ 3 ∷ []) ∷ [];
  current = 1 ∷ 2 ∷ 3 ∷ [];
  active = 7;
  late = 0;
}

abbrev report : Updated
report = record {
  operation_id = operation;
  job_id = 1;
  bytes = 3;
  evidence =
      commit_response (
        respond SystemUpdateType.commit_response (operation ++ 1 ∷ 0 ∷ 0 ∷ 0 ∷ 0 ∷ 0 ∷ 0 ∷ 0 ∷ []));
}

install_run :
    perform_update chip capable unheard 6 [] (some operation) signed_bundle fresh_chip
    ≡ (ok report, updated_chip)
unfolding perform_update chip
install_run = refl

installed-DescribesAll_example :
    (key : List ℕ) × (values : Items) × (load_key (9 ∷ []) ≡ some key)
    × (verify key signed_bundle.signature signed_bundle.manifest_bytes ≡ true)
    × (parse signed_bundle.manifest_bytes ≡ some (object signed_bundle.manifest))
    × (get (text "components") signed_bundle.manifest ≡ array values)
    × DescribesAll digest values (complete_of updated_chip)
installed-DescribesAll_example =
    installed-DescribesAll load_key verify open_archive parse digest chip capable unheard
      complete_of current_of chip-Flashes (λ p d. (refl, refl)) (9 ∷ []) (raw []) signed_bundle 6 []
      (some operation) fresh_chip report updated_chip load_run install_run
