-- ===== src/Wire/Cobs.antt =====
-- Consistent overhead byte stuffing: `cobs_encode` and `cobs_decode` of protocol.py.
pub mod Blocks
pub mod RoundTrip
pub mod Shape
pub mod Total
mod Tests
use esp_iris.Common.{
  ℕ, zero, suc, ◌+◌, ◌-◌, ◌==◌, ltb, if◌then◌else◌, not, ◌&&◌, List, [], ◌∷◌, ◌++◌, length, set,
  take, drop, is_empty, ok, err,
}
use esp_iris.Wire.Error.{ProtocolError, zero_byte, truncated_block, out_of_fuel, Wire}

-- The locals of `cobs_encode`.
pub record Encoder : Type 0 where
  pub output : List ℕ
  pub code_offset : ℕ
  pub code : ℕ

cobs_start : Encoder
cobs_start = record { output = 0 ∷ []; code_offset = 0; code = 1 }

-- The code byte of the open block is written back, and a new block is opened.
close_block : Encoder → Encoder
close_block s = record {
  output = set s.output s.code_offset s.code ++ 0 ∷ [];
  code_offset = length s.output;
  code = 1;
}

-- The body of the `for` loop.
cobs_push : Encoder → ℕ → Encoder
unfolding close_block
cobs_push s value =
    if value == 0
    then close_block s
    else (let t : Encoder = record s { output = s.output ++ value ∷ []; code = s.code + 1 } in
        if t.code == 0xff then close_block t else t)

cobs_loop : Encoder → List ℕ → Encoder
cobs_loop s [] = s
cobs_loop s (value ∷ values) = cobs_loop (cobs_push s value) values

cobs_finish : Encoder → List ℕ
cobs_finish s = set s.output s.code_offset s.code

unfoldable pub cobs_encode : List ℕ → List ℕ
unfolding cobs_start cobs_push cobs_loop cobs_finish
cobs_encode bytes = cobs_finish (cobs_loop cobs_start bytes)

-- The `while` loop of `cobs_decode`: `rest` is `data[offset:]`, and each round takes a code byte
-- and the block behind it. A round shortens `rest`, so its length is fuel enough.
decode_loop : ℕ → List ℕ → List ℕ → Wire (List ℕ)
decode_loop fuel [] output = ok output
decode_loop zero (code ∷ rest) output = err out_of_fuel
decode_loop (suc fuel) (code ∷ rest) output =
    let count = code - 1 in
    let after = drop count rest in
    let block = output ++ take count rest in
    let next =
      decode_loop fuel after
        (if not (code == 0xff) && not (is_empty after) then block ++ 0 ∷ [] else block) in
    if code == 0
    then err zero_byte
    else if ltb (length rest) count
    then err truncated_block
    else next

unfoldable pub cobs_decode : List ℕ → Wire (List ℕ)
unfolding decode_loop
cobs_decode bytes = decode_loop (length bytes) bytes []
