-- ===== src/Wire/Cobs/Total.antt =====
-- `cobs_decode` on any input.
use esp_iris.Common.{
  ℕ, zero, suc, ◌+◌, ◌-◌, ◌≤◌, ◌≢◌, ◌≡◌, ◌==◌, ltb, if◌then◌else◌, not, ◌&&◌, is_empty, List, [],
  ◌∷◌, ◌++◌, length, take, drop, arith, length-append, length-drop, length-take, All, All-append,
  All-take, All-drop, IsByte, ok, err, Bool-cases, inl, inr,
}
use esp_iris.Wire.Error.{out_of_fuel}
use esp_iris.Wire.Cobs.{decode_loop, cobs_decode}

-- The rest of the input, and the output, after one round.
abbrev after : ℕ → List ℕ → List ℕ
after code rest = drop (code - 1) rest

abbrev decoded : ℕ → List ℕ → List ℕ → List ℕ
decoded code rest output =
    if not (code == 0xff) && not (is_empty (after code rest))
    then (output ++ take (code - 1) rest) ++ 0 ∷ []
    else output ++ take (code - 1) rest

decode_loop_total :
    (fuel : ℕ) (rest output : List ℕ)
    → length rest ≤ fuel
    → decode_loop fuel rest output ≢ err out_of_fuel
unfolding decode_loop
decode_loop_total fuel [] output h = λ e. cc
decode_loop_total zero (code ∷ rest) output h = absurd (omega arith)
decode_loop_total (suc fuel) (code ∷ rest) output h = elim (Bool-cases (code == 0)) [
  | inl z ↦ rw z (λ e. cc)
  | inr nz ↦ elim (Bool-cases (ltb (length rest) (code - 1))) [
    | inl cut ↦ rw (nz, cut) (λ e. cc)
    | inr whole ↦
        rw (nz, whole)
          (decode_loop_total fuel (after code rest) (decoded code rest output)
            (omega (arith, length-drop (code - 1) rest)))
  ]
]

-- The loop's fuel, the length of the input, is enough on every input.
pub cobs_decode_total : (bytes : List ℕ) → cobs_decode bytes ≢ err out_of_fuel
unfolding cobs_decode
cobs_decode_total bytes = decode_loop_total (length bytes) bytes [] (omega arith)

-- What a round that does not raise has checked.
round_ok :
    (fuel code : ℕ) (rest output result : List ℕ)
    → decode_loop (suc fuel) (code ∷ rest) output ≡ ok result
    → (code ≢ 0)
      × (code - 1 ≤ length rest)
      × (decode_loop fuel (after code rest) (decoded code rest output) ≡ ok result)
unfolding decode_loop
round_ok fuel code rest output result e = elim (Bool-cases (code == 0)) [
  | inl z ↦ cc (rw z at e)
  | inr nz ↦ elim (Bool-cases (ltb (length rest) (code - 1))) [
    | inl cut ↦ cc (rw (nz, cut) at e)
    | inr whole ↦ (ground arith, ground arith, rw (nz, whole) at e)
  ]
]

length-decoded :
    (code : ℕ) (rest output : List ℕ)
    → code - 1 ≤ length rest
    → length (decoded code rest output) + length (after code rest) ≤ length output + length rest + 1
length-decoded code rest output h = ground (
  arith,
  length-drop (code - 1) rest,
  length-take (code - 1) rest,
  length-append output (take (code - 1) rest),
  length-append (output ++ take (code - 1) rest) (0 ∷ []),
)

decoded-IsByte :
    (code : ℕ) (rest output : List ℕ)
    → All IsByte rest
    → All IsByte output
    → All IsByte (decoded code rest output)
decoded-IsByte code rest output r o =
    let block = All-append IsByte output _ o (All-take IsByte (code - 1) rest r) in
    elim (Bool-cases (not (code == 0xff) && not (is_empty (after code rest)))) [
      | inl zero_next ↦ rw zero_next (All-append IsByte _ (0 ∷ []) block (omega arith, tt))
      | inr none_next ↦ rw none_next block
    ]

decode_loop_bytes :
    (fuel : ℕ) (rest output result : List ℕ)
    → decode_loop fuel rest output ≡ ok result
    → All IsByte rest
    → All IsByte output
    → All IsByte result × (length result ≤ length output + length rest)
decode_loop_bytes fuel [] output result e r o = unfold decode_loop in ground arith
decode_loop_bytes zero (code ∷ rest) output result e r o = unfold decode_loop in cc
decode_loop_bytes (suc fuel) (code ∷ rest) output result e r o =
    let (_, fits, next) = round_ok fuel code rest output result e in
    let (bytes, short) =
      decode_loop_bytes fuel (after code rest) (decoded code rest output) result next
        (All-drop IsByte (code - 1) rest r.1) (decoded-IsByte code rest output r.1 o) in
    (bytes, omega (arith, length-decoded code rest output fits))

-- What is read back are bytes, and no more of them than the input had.
pub cobs_decode_bytes :
    (bytes result : List ℕ)
    → cobs_decode bytes ≡ ok result
    → All IsByte bytes
    → All IsByte result × (length result ≤ length bytes)
unfolding cobs_decode
cobs_decode_bytes bytes result e h =
    let (b, n) = decode_loop_bytes (length bytes) bytes [] result e h tt in (b, omega arith)
