-- ===== src/Wire.antt =====
-- The wire protocol: components/esp_iris/tools/iris_gateway/protocol.py.
pub mod Error
pub mod Codes
pub mod Crc
pub mod Cobs
pub mod Frame
pub mod Stream
pub mod Tlv
