-- ===== src/Wire/Cobs/Blocks.antt =====
-- What `cobs_encode` writes, block by block: the independent description that the laws use.
use esp_iris.Common.{
  ℕ, suc, ◌==◌, if◌then◌else◌, ◌≡◌, refl, ap, sym, ◌∙◌, List, [], ◌∷◌, ◌++◌, length, set, arith,
  append_assoc, length-append, ◌≢◌,
}
use native.Mathlib.Decide.{ℕ_discrete}
use esp_iris.Wire.Cobs.{Encoder, close_block, cobs_push, cobs_loop, cobs_finish, cobs_encode}

-- `block` is the open block, without its code byte; a code byte is the block's length plus one.
pub blocks : List ℕ → List ℕ → List ℕ
blocks block [] = suc (length block) ∷ block
blocks block (value ∷ values) =
    let closed = suc (length block) ∷ (block ++ blocks [] values) in
    let full = 0xff ∷ ((block ++ value ∷ []) ++ blocks [] values) in
    let grown = blocks (block ++ value ∷ []) values in
    if value == 0 then closed else if length block == 253 then full else grown

-- The loop's state while `block` is open behind the finished bytes `front`.
abbrev at_block : List ℕ → List ℕ → Encoder
at_block front block = record {
  output = front ++ 0 ∷ block;
  code_offset = length front;
  code = suc (length block);
}

set_at_front :
    (front rest : List ℕ) (x y : ℕ) → set (front ++ x ∷ rest) (length front) y ≡ front ++ y ∷ rest
set_at_front [] rest x y = refl
set_at_front (z ∷ front) rest x y = ap (◌∷◌ z) (set_at_front front rest x y)

close_block-at_block :
    (front block : List ℕ)
    → close_block (at_block front block) ≡ at_block (front ++ suc (length block) ∷ block) []
unfolding close_block
close_block-at_block front block = ground (
  arith,
  set_at_front front block 0 (suc (length block)),
  append_assoc front (suc (length block) ∷ block) (0 ∷ []),
  length-append front (0 ∷ block),
  length-append front (suc (length block) ∷ block),
)

push_byte :
    (front block : List ℕ) (value : ℕ)
    → value ≢ 0
    → length block ≢ 253
    → cobs_push (at_block front block) value ≡ at_block front (block ++ value ∷ [])
unfolding cobs_push
push_byte front block value h k =
    ground (arith, append_assoc front (0 ∷ block) (value ∷ []), length-append block (value ∷ []))

push_full :
    (front block : List ℕ) (value : ℕ)
    → value ≢ 0
    → length block ≡ 253
    → cobs_push (at_block front block) value ≡ at_block (front ++ 0xff ∷ (block ++ value ∷ [])) []
unfolding cobs_push
push_full front block value h k = ground (
  arith,
  append_assoc front (0 ∷ block) (value ∷ []),
  length-append block (value ∷ []),
  close_block-at_block front (block ++ value ∷ []),
)

push_zero :
    (front block : List ℕ) (value : ℕ)
    → value ≡ 0
    → cobs_push (at_block front block) value ≡ at_block (front ++ suc (length block) ∷ block) []
unfolding cobs_push
push_zero front block value z = ground (arith, close_block-at_block front block)

-- The cases of `blocks`.
pub blocks_nil : (block : List ℕ) → blocks block [] ≡ suc (length block) ∷ block
unfolding blocks
blocks_nil block = refl

pub blocks_zero :
    (block values : List ℕ) (value : ℕ)
    → value ≡ 0
    → blocks block (value ∷ values) ≡ suc (length block) ∷ (block ++ blocks [] values)
unfolding blocks
blocks_zero block values value z = ground arith

pub blocks_full :
    (block values : List ℕ) (value : ℕ)
    → value ≢ 0
    → length block ≡ 253
    → blocks block (value ∷ values) ≡ 0xff ∷ ((block ++ value ∷ []) ++ blocks [] values)
unfolding blocks
blocks_full block values value z k = ground arith

pub blocks_grown :
    (block values : List ℕ) (value : ℕ)
    → value ≢ 0
    → length block ≢ 253
    → blocks block (value ∷ values) ≡ blocks (block ++ value ∷ []) values
unfolding blocks
blocks_grown block values value z k = ground arith

-- From a state with an open block, the loop and the last write append `blocks`.
cobs_loop-blocks :
    (values front block : List ℕ)
    → cobs_finish (cobs_loop (at_block front block) values) ≡ front ++ blocks block values
unfolding cobs_loop cobs_finish
cobs_loop-blocks [] front block = unfold blocks in set_at_front front block 0 (suc (length block))
cobs_loop-blocks (value ∷ values) front block = elim (ℕ_discrete value 0) [
  | yes z ↦
      after (push_zero front block value z)
      ∙ cobs_loop-blocks values (front ++ suc (length block) ∷ block) []
      ∙ append_assoc front (suc (length block) ∷ block) (blocks [] values)
      ∙ ap (◌++◌ front) (sym (blocks_zero block values value z))
  | no nz ↦ elim (ℕ_discrete (length block) 253) [
    | yes f ↦
        after (push_full front block value nz f)
        ∙ cobs_loop-blocks values (front ++ 0xff ∷ (block ++ value ∷ [])) []
        ∙ append_assoc front (0xff ∷ (block ++ value ∷ [])) (blocks [] values)
        ∙ ap (◌++◌ front) (sym (blocks_full block values value nz f))
    | no g ↦
        after (push_byte front block value nz g)
        ∙ cobs_loop-blocks values front (block ++ value ∷ [])
        ∙ ap (◌++◌ front) (sym (blocks_grown block values value nz g))
  ]
]
  where
    after :
        {s : Encoder}
        → cobs_push (at_block front block) value ≡ s
        → cobs_finish (cobs_loop (cobs_push (at_block front block) value) values)
          ≡ cobs_finish (cobs_loop s values)
    after e = ap (λ s. cobs_finish (cobs_loop s values)) e

pub cobs_encode-blocks : (bytes : List ℕ) → cobs_encode bytes ≡ blocks [] bytes
unfolding cobs_encode
cobs_encode-blocks bytes = cobs_loop-blocks bytes [] []
