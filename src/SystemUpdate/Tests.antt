-- ===== src/SystemUpdate/Tests.antt =====
-- An update of two components on a device that is late twice.
use esp_iris.Common.{
  ℕ, ◌^◌, ◌≡◌, ◌≢◌, false, refl, [], ◌∷◌, ◌++◌, replicate, some, none, ok, err, arith,
}
use esp_iris.Wire.Codes.Services.{SystemUpdateType}
use esp_iris.Exchange.{Talk}
use esp_iris.SystemUpdate.Manifest.{no_pairs}
use esp_iris.SystemUpdate.Bundle.{
  Component, Bundle, total_size, bootloader, application, UpdateError, out_of_fuel,
}
use esp_iris.SystemUpdate.Transfer.{Progress}
use esp_iris.SystemUpdate.Perform.{Updated, commit_response, perform_update, data_loop}
use esp_iris.SystemUpdate.Committed.{IsConfirmed, perform_update-complete}
use esp_iris.SystemUpdate.Sent.{images}
use esp_iris.SystemUpdate.Ending.{IsQuiet, data_loop-fuel}
use esp_iris.SystemUpdate.Chip.{chip-Flashes, chip-IsPatient}
use esp_iris.SystemUpdate.ChipModel.{
  Chip, chip, complete_of, current_of, late_of, respond, operation,
}

abbrev boot : Component
boot = record {
  id = 1;
  kind = bootloader;
  flags = 0;
  target_offset = 0x1000;
  size = 3;
  sha256 = replicate 32 7;
  filename = [];
  bytes = 10 ∷ 11 ∷ 12 ∷ [];
}

abbrev app : Component
app = record {
  id = 2;
  kind = application;
  flags = 0;
  target_offset = 0x10000;
  size = 2;
  sha256 = replicate 32 8;
  filename = [];
  bytes = 20 ∷ 21 ∷ [];
}

abbrev bundle : Bundle
bundle = record {
  manifest = no_pairs;
  manifest_bytes = 0x7b ∷ 0x7d ∷ [];
  signature = [];
  manifest_sha256 = replicate 32 9;
  key_id = none;
  signature_verified = false;
  chip_id = 9;
  flash_size = 0x400000;
  target_layout_sha256 = [];
  components = boot ∷ app ∷ [];
}

abbrev capable : Talk UpdateError Chip ℕ
capable d = (ok (2 ^ 15), d)

abbrev unheard : Progress → Talk UpdateError Chip (Unit {0})
unheard p d = (ok tt, d)

abbrev fresh_chip : Chip
fresh_chip = record { complete = []; current = []; active = 0; late = 2 }

abbrev updated_chip : Chip
updated_chip = record {
  complete = (10 ∷ 11 ∷ 12 ∷ []) ∷ (20 ∷ 21 ∷ []) ∷ [];
  current = 20 ∷ 21 ∷ [];
  active = 2;
  late = 0;
}

abbrev report : Updated
report = record {
  operation_id = operation;
  job_id = 1;
  bytes = 5;
  evidence =
      commit_response (
        respond SystemUpdateType.commit_response (operation ++ 1 ∷ 0 ∷ 0 ∷ 0 ∷ 0 ∷ 0 ∷ 0 ∷ 0 ∷ []));
}

update_run :
    perform_update chip capable unheard 6 [] (some operation) bundle fresh_chip
    ≡ (ok report, updated_chip)
unfolding perform_update chip
update_run = refl

perform_update-complete_example :
    (complete_of updated_chip ≡ images bundle.components)
    × (report.bytes ≡ total_size bundle.components)
    × IsConfirmed chip capable unheard complete_of current_of chip-Flashes
        (λ p d. (refl, refl))
        report
perform_update-complete_example =
    perform_update-complete chip capable unheard complete_of current_of chip-Flashes
      (λ p d. (refl, refl)) 6 [] (some operation) bundle fresh_chip report updated_chip
      (refl, (refl, tt)) update_run

unheard-IsQuiet : IsQuiet unheard late_of
unheard-IsQuiet = record { lasts = λ p d. omega arith; fuelled = λ p d h. cc }

data_loop-fuel_example :
    (data_loop chip capable unheard 6 operation boot 2 0
      (λ permille received. record {
        job_id = 1;
        component_id = none;
        bytes_received = received;
        bytes_total = 5;
        progress_permille = permille;
      })
      fresh_chip).0
    ≢ err out_of_fuel
data_loop-fuel_example =
    data_loop-fuel chip capable unheard late_of chip-IsPatient unheard-IsQuiet 6 operation boot 2 0
      (λ permille received. record {
        job_id = 1;
        component_id = none;
        bytes_received = received;
        bytes_total = 5;
        progress_permille = permille;
      })
      fresh_chip (omega arith) refl (omega arith)
