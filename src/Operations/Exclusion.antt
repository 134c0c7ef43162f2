-- ===== src/Operations/Exclusion.antt =====
-- The lock of a device keeps calls apart from each other and from maintenance.
use Prim.Native.String.{String}
use esp_iris.Operations.Gate.{Gate}
