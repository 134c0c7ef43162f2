-- ===== src/Wire/Cobs/RoundTrip.antt =====
-- `cobs_decode` reads back what `cobs_encode` wrote.
use native.Mathlib.Decide.{ℕ_discrete}
use esp_iris.Common.{
  ℕ, zero, suc, ◌+◌, ◌-◌, ◌≤◌, ◌<◌, ◌==◌, if◌then◌else◌, ◌≡◌, refl, ap, sym, ◌∙◌, List, [], ◌∷◌,
  ◌++◌, length, take, drop, arith, append_assoc, append-nil, length-append, take-append_front,
  drop-append_front, ok, ltb-false, not, ◌&&◌, is_empty,
}
use esp_iris.Wire.Cobs.{cobs_encode, decode_loop, cobs_decode}
use esp_iris.Wire.Cobs.Blocks.{
  blocks, cobs_encode-blocks, blocks_nil, blocks_zero, blocks_full, blocks_grown,
}

take_block : (block rest : List ℕ) → take (suc (length block) - 1) (block ++ rest) ≡ block
take_block block rest =
    let e : suc (length block) - 1 ≡ length block = omega arith in
    rw e (take-append_front block rest)

drop_block : (block rest : List ℕ) → drop (suc (length block) - 1) (block ++ rest) ≡ rest
drop_block block rest =
    let e : suc (length block) - 1 ≡ length block = omega arith in
    rw e (drop-append_front block rest)

-- One round of the loop, on a block that stands whole at the front.
one_block :
    (fuel code : ℕ) (block rest output : List ℕ)
    → code ≡ suc (length block)
    → decode_loop (suc fuel) (code ∷ (block ++ rest)) output
      ≡ decode_loop fuel rest (
          if not (code == 0xff) && not (is_empty rest)
          then (output ++ block) ++ 0 ∷ []
          else output ++ block)
unfolding decode_loop
one_block fuel code block rest output h = rw h (
    rw (take_block block rest) (
      rw (drop_block block rest) (
        rw (length-append block rest) (
          rw (ltb-false (length block + length rest) (suc (length block) - 1) (omega arith))
            (ground arith)))))

next_block :
    (fuel : ℕ) (block rest output : List ℕ)
    → length block < 254
    → 0 < length rest
    → decode_loop (suc fuel) (suc (length block) ∷ (block ++ rest)) output
      ≡ decode_loop fuel rest ((output ++ block) ++ 0 ∷ [])
next_block fuel block [] output h k = absurd (omega arith)
next_block fuel block (x ∷ rest) output h k =
    one_block fuel (suc (length block)) block (x ∷ rest) output refl
    ∙ ap (decode_loop fuel (x ∷ rest)) (ground arith)

full_block :
    (fuel : ℕ) (block rest output : List ℕ)
    → length block ≡ 254
    → decode_loop (suc fuel) (0xff ∷ (block ++ rest)) output
      ≡ decode_loop fuel rest (output ++ block)
full_block fuel block rest output h = one_block fuel 0xff block rest output (omega arith)

last_block :
    (fuel : ℕ) (block output : List ℕ)
    → decode_loop (suc fuel) (suc (length block) ∷ block) output ≡ ok (output ++ block)
last_block fuel block output =
    ap (λ b. decode_loop (suc fuel) (suc (length block) ∷ b) output) (sym (append-nil block))
    ∙ one_block fuel (suc (length block)) block [] output refl
    ∙ unfold decode_loop in ground arith

blocks_nonempty : (values block : List ℕ) → 0 < length (blocks block values)
blocks_nonempty [] block = rw (blocks_nil block) (omega arith)
blocks_nonempty (value ∷ values) block = ground (
  arith,
  blocks_zero block values value,
  blocks_full block values value,
  blocks_grown block values value,
  blocks_nonempty values (block ++ value ∷ []),
)

decode-blocks :
    (values block : List ℕ) (fuel : ℕ) (output : List ℕ)
    → length block < 254
    → length (blocks block values) ≤ fuel
    → decode_loop fuel (blocks block values) output ≡ ok (output ++ (block ++ values))
decode-blocks values block zero output h f = absurd (omega (arith, blocks_nonempty values block))
decode-blocks [] block (suc fuel) output h f =
    rw (blocks_nil block, append-nil block) (last_block fuel block output)
decode-blocks (value ∷ values) block (suc fuel) output h f = elim (ℕ_discrete value 0) [
  | yes z ↦
      let e = blocks_zero block values value z in
      let room = ap length e in
      rw e (
        next_block fuel block (blocks [] values) output h (blocks_nonempty values [])
        ∙ decode-blocks values [] fuel ((output ++ block) ++ 0 ∷ []) (omega arith)
            (omega (arith, length-append block (blocks [] values)))
        ∙ ap ok (rw z (simp append_assoc)))
  | no nz ↦ elim (ℕ_discrete (length block) 253) [
    | yes full ↦
        let e = blocks_full block values value nz full in
        let room = ap length e in
        rw e (
          full_block fuel (block ++ value ∷ []) (blocks [] values) output
            (omega (arith, length-append block (value ∷ [])))
          ∙ decode-blocks values [] fuel (output ++ (block ++ value ∷ [])) (omega arith)
              (omega (arith, length-append (block ++ value ∷ []) (blocks [] values)))
          ∙ ap ok (simp append_assoc))
    | no short ↦
        let e = blocks_grown block values value nz short in
        rw e (
          decode-blocks values (block ++ value ∷ []) (suc fuel) output
            (omega (arith, length-append block (value ∷ []))) (rw e at f)
          ∙ ap ok (simp append_assoc))
  ]
]

-- Every byte string is read back whole.
pub cobs_decode-cobs_encode : (bytes : List ℕ) → cobs_decode (cobs_encode bytes) ≡ ok bytes
unfolding cobs_decode
cobs_decode-cobs_encode bytes =
    rw (cobs_encode-blocks bytes)
      (decode-blocks bytes [] (length (blocks [] bytes)) [] (omega arith) (omega arith))

pub cobs_encode_nonempty : (bytes : List ℕ) → 0 < length (cobs_encode bytes)
cobs_encode_nonempty bytes = rw (cobs_encode-blocks bytes) (blocks_nonempty bytes [])
