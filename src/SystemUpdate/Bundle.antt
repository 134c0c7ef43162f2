-- ===== src/SystemUpdate/Bundle.antt =====
-- The data of an update in system_update.py, and the exceptions of system_update_transport.py: one
-- constructor for each message, and a fault of the model's own for a loop whose fuel runs out.
use esp_iris.Common.{ℕ, ◌+◌, Bool, List, [], ◌∷◌, ℤ, Option}
use esp_iris.Exchange.{Fault}
use esp_iris.SystemUpdate.Manifest.{Fields}

pub data ComponentKind : Type 0 where
  bootloader partition_table application recovery raw_data : ComponentKind

-- SystemUpdateComponentKind
abbrev pub kind_code : ComponentKind → ℕ
kind_code bootloader = 1
kind_code partition_table = 2
kind_code application = 3
kind_code recovery = 4
kind_code raw_data = 5

pub record Component : Type 0 where
  pub id : ℕ
  pub kind : ComponentKind
  pub flags : ℕ
  pub target_offset : ℕ
  pub size : ℕ
  pub sha256 : List ℕ
  pub filename : List ℕ
  pub bytes : List ℕ

pub record Bundle : Type 0 where
  pub manifest : Fields
  pub manifest_bytes : List ℕ
  pub signature : List ℕ
  pub manifest_sha256 : List ℕ
  pub key_id : Option (List ℕ)
  pub signature_verified : Bool
  pub chip_id : ℕ
  pub flash_size : ℕ
  pub target_layout_sha256 : List ℕ
  pub components : List Component

pub data UpdateError : Type 0 where
  fault : Fault → UpdateError
  invalid_status invalid_status_fields unexpected_status no_inventory unexpected_inventory :
      UpdateError
  no_update invalid_operation_id too_large struct_error : UpdateError
  begin_timeout unexpected_begin invalid_begin : UpdateError
  invalid_component rejected_bounds data_timeout invalid_data invalid_offset invalid_end :
      UpdateError
  unexpected_offset : ℕ → UpdateError
  commit_timeout invalid_commit : UpdateError
  update_failed : ℤ → UpdateError
  out_of_fuel : UpdateError

abbrev pub total_size : List Component → ℕ
total_size [] = 0
total_size (c ∷ components) = c.size + total_size components
