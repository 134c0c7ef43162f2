-- ===== src/Wire/Cobs/Shape.antt =====
-- What an encoding looks like: bytes, no delimiter among them, and little overhead.
use native.Mathlib.Decide.{ℕ_discrete}
use esp_iris.Common.{
  ℕ, ◌+◌, ◌/◌, ◌≤◌, ◌<◌, List, [], ◌∷◌, ◌++◌, length, arith, length-append, All, All-append, IsByte,
}
use esp_iris.Wire.Cobs.{cobs_encode}
use esp_iris.Wire.Cobs.Blocks.{
  blocks, cobs_encode-blocks, blocks_nil, blocks_zero, blocks_full, blocks_grown,
}

-- A byte that may stand inside a frame.
abbrev pub IsCode : ℕ → Type 0
IsCode b = (0 < b) × (b < 256)

blocks-IsCode :
    (values block : List ℕ)
    → length block < 254
    → All IsByte values
    → All IsCode block
    → All IsCode (blocks block values)
blocks-IsCode [] block h v b = rw (blocks_nil block) (omega arith, b)
blocks-IsCode (value ∷ values) block h v b = elim (ℕ_discrete value 0) [
  | yes z ↦
      rw (blocks_zero block values value z)
        (omega arith, All-append IsCode block _ b (blocks-IsCode values [] (omega arith) v.1 tt))
  | no nz ↦
      let grown = All-append IsCode block (value ∷ []) b ((omega arith, v.0), tt) in
      elim (ℕ_discrete (length block) 253) [
        | yes full ↦ rw (blocks_full block values value nz full) (
          omega arith,
          All-append IsCode (block ++ value ∷ []) _ grown
              (blocks-IsCode values [] (omega arith) v.1 tt),
        )
        | no short ↦ rw (blocks_grown block values value nz short) (
            blocks-IsCode values (block ++ value ∷ [])
              (omega (arith, length-append block (value ∷ []))) v.1 grown)
      ]
]

length-blocks :
    (values block : List ℕ)
    → length block < 254
    → length (blocks block values)
      ≤ length block + length values + 1 + (length block + length values) / 254
length-blocks [] block h = rw (blocks_nil block) (omega arith)
length-blocks (value ∷ values) block h = elim (ℕ_discrete value 0) [
  | yes z ↦
      rw (blocks_zero block values value z) (
        omega
          (arith, length-append block (blocks [] values), length-blocks values [] (omega arith)))
  | no nz ↦ elim (ℕ_discrete (length block) 253) [
    | yes full ↦ rw (blocks_full block values value nz full) (
        omega (
          arith,
          length-append (block ++ value ∷ []) (blocks [] values),
          length-append block (value ∷ []),
          length-blocks values [] (omega arith),
        ))
    | no short ↦
        let room = length-append block (value ∷ []) in
        rw (blocks_grown block values value nz short)
          (omega (arith, room, length-blocks values (block ++ value ∷ []) (omega arith)))
  ]
]

pub cobs_encode-IsCode : (bytes : List ℕ) → All IsByte bytes → All IsCode (cobs_encode bytes)
cobs_encode-IsCode bytes h =
    rw (cobs_encode-blocks bytes) (blocks-IsCode bytes [] (omega arith) h tt)

pub length-cobs_encode :
    (bytes : List ℕ) → length (cobs_encode bytes) ≤ length bytes + 1 + length bytes / 254
length-cobs_encode bytes =
    rw (cobs_encode-blocks bytes) (omega (arith, length-blocks bytes [] (omega arith)))

-- An encoding of bytes holds bytes and no zero byte, and is longer than the input by one byte and one
-- more for each full 254 bytes of the input, at most.
pub cobs_encode_shape :
    (bytes : List ℕ)
    → All IsByte bytes
    → All IsCode (cobs_encode bytes)
      × (length (cobs_encode bytes) ≤ length bytes + 1 + length bytes / 254)
cobs_encode_shape bytes h = (cobs_encode-IsCode bytes h, length-cobs_encode bytes)
