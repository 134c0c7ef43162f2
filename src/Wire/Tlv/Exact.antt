-- ===== src/Wire/Tlv/Exact.antt =====
-- `decode_tlv` reads the payloads that `encode_tlv` writes, and no others.
use esp_iris.Common.{
  subst, ◌*◌, ◌/◌, ◌%◌, ℕ, zero, suc, ◌+◌, ◌^◌, ◌≤◌, ◌<◌, ◌≡◌, ◌≢◌, refl, ap, sym, ◌∙◌, ltb, lt→ltb,
  ltb-false, List, [], ◌∷◌, ◌++◌, length, take, drop, ok, err, arith, ℤ, pos, uint_at, insert,
  nat_eq, append_assoc, append-nil, length-append, take-append_front, drop-append_front,
  take-append-drop, length-drop, length-take, All, IsByte, All-take, Bool-cases, inl, inr, false,
}
use esp_iris.Wire.Error.{out_of_fuel}
use esp_iris.Wire.Tlv.{
  Fields, encode_tlv_item, encode_tlv_loop, encode_tlv, decode_tlv_loop, decode_tlv,
}

-- An item that has an encoding, and the pairs of a payload as the encoder takes them.
pub record IsItem (item : ℕ × List ℕ) : Type 0 where
  pub tag_fits : item.0 < 256
  pub value_fits : length item.1 < 2 ^ 16
  pub value_bytes : All IsByte item.1

abbrev pub tagged : List (ℕ × List ℕ) → List (ℤ × List ℕ)
tagged [] = []
tagged ((tag, value) ∷ items) = (pos tag, value) ∷ tagged items

-- The bytes of one item and of all, and the dictionary that the items make.
abbrev item_bytes : ℕ × List ℕ → List ℕ
item_bytes (tag, value) = (tag % 256) ∷ (length value % 256) ∷ (length value / 256 % 256) ∷ value

abbrev all_bytes : List (ℕ × List ℕ) → List ℕ
all_bytes [] = []
all_bytes (item ∷ items) = item_bytes item ++ all_bytes items

unfoldable pub dict_of : Fields → List (ℕ × List ℕ) → Fields
dict_of result [] = result
dict_of result ((tag, value) ∷ items) = dict_of (insert tag value result) items

encode_item_bytes :
    (tag : ℕ) (value : List ℕ)
    → IsItem (tag, value)
    → encode_tlv_item (pos tag, value) ≡ ok (item_bytes (tag, value))
unfolding encode_tlv_item
encode_item_bytes tag value v =
    rw (ltb-false 0xffff (length value) (omega (arith, v.value_fits)), lt→ltb tag 256 v.tag_fits)
      refl

encode_tlv_loop-bytes :
    (items : List (ℕ × List ℕ)) (output : List ℕ)
    → All IsItem items
    → encode_tlv_loop output (tagged items) ≡ ok (output ++ all_bytes items)
unfolding encode_tlv_loop
encode_tlv_loop-bytes [] output v = ap ok (sym (append-nil output))
encode_tlv_loop-bytes ((tag, value) ∷ items) output (vi, v) = rw (encode_item_bytes tag value vi) (
    encode_tlv_loop-bytes items (output ++ item_bytes (tag, value)) v
    ∙ ap ok (append_assoc output (item_bytes (tag, value)) (all_bytes items)))

decode_item :
    (fuel tag : ℕ) (value rest : List ℕ) (result : Fields)
    → IsItem (tag, value)
    → decode_tlv_loop (suc fuel) (item_bytes (tag, value) ++ rest) result
      ≡ decode_tlv_loop fuel rest (insert tag value result)
unfolding decode_tlv_loop
decode_item fuel tag value rest result v =
    let size : uint_at 2 1 (item_bytes (tag, value) ++ rest) ≡ length value =
      omega (arith, v.value_fits) in
    let id : uint_at 1 0 (item_bytes (tag, value) ++ rest) ≡ tag = omega (arith, v.tag_fits) in
    rw size (
      rw (id, take-append_front value rest, drop-append_front value rest)
        (rw (ltb-false (suc (suc (suc (length (value ++ rest))))) 3 (omega arith)) (
          rw
            (ltb-false (length (value ++ rest)) (length value)
              (omega (arith, length-append value rest)))
            refl)))

decode_items :
    (items : List (ℕ × List ℕ)) (fuel : ℕ) (result : Fields)
    → All IsItem items
    → length (all_bytes items) ≤ fuel
    → decode_tlv_loop fuel (all_bytes items) result ≡ ok (dict_of result items)
decode_items [] fuel result v h = unfold decode_tlv_loop dict_of in refl
decode_items ((tag, value) ∷ items) zero result v h = absurd (omega arith)
decode_items ((tag, value) ∷ items) (suc fuel) result (vi, v) h =
    decode_item fuel tag value (all_bytes items) result vi
    ∙ decode_items items fuel (insert tag value result) v
        (omega (arith, length-append value (all_bytes items)))
    ∙ unfold dict_of in refl

-- A round of the loop that does not raise has an item in front of it.
IsItem-in_front :
    (fuel b : ℕ) (rest : List ℕ) (result final : Fields)
    → All IsByte (b ∷ rest)
    → decode_tlv_loop (suc fuel) (b ∷ rest) result ≡ ok final
    → (item : ℕ × List ℕ) × (tail : List ℕ) × IsItem item
      × (b ∷ rest ≡ item_bytes item ++ tail)
      × (decode_tlv_loop fuel tail (insert item.0 item.1 result) ≡ ok final)
unfolding decode_tlv_loop
IsItem-in_front fuel b [] result final h e = absurd (cc)
IsItem-in_front fuel b (x ∷ []) result final h e = absurd (cc)
IsItem-in_front fuel b (x ∷ y ∷ body) result final (hb, (hx, (hy, h))) e =
    let size : ℕ = x + 256 * (y + 256 * 0) in
    elim (Bool-cases (ltb (length body) size)) [
      | inl cut ↦ absurd (cc (rw (long_enough, cut) at e))
      | inr whole ↦
          let fits : length (take size body) ≡ size = ground (arith, length-take size body) in
          (
            (b, take size body),
            drop size body,
            record {
              tag_fits = hb;
              value_fits = omega arith;
              value_bytes = All-take IsByte size body h;
            },
            bytes size fits,
            subst
                (λ n.
                  decode_tlv_loop fuel (drop size body) (insert n (take size body) result)
                  ≡ ok final)
                (omega arith) (rw (long_enough, whole) at e),
          )
    ]
  where
    long_enough : ltb (suc (suc (suc (length body)))) 3 ≡ false
    long_enough = ltb-false (suc (suc (suc (length body)))) 3 (omega arith)

    bytes :
        (size : ℕ)
        → length (take size body) ≡ x + 256 * (y + 256 * 0)
        → b ∷ x ∷ y ∷ body ≡ item_bytes (b, take size body) ++ drop size body
    bytes size fits =
        let tag : b ≡ b % 256 = omega arith in
        let low : x ≡ length (take size body) % 256 = omega arith in
        let high : y ≡ length (take size body) / 256 % 256 = omega arith in
        λ i. tag i ∷ low i ∷ high i ∷ sym (take-append-drop size body) i

All-suffix : (xs ys : List ℕ) → All IsByte (xs ++ ys) → All IsByte ys
All-suffix [] ys h = h
All-suffix (x ∷ xs) ys h = All-suffix xs ys h.1

items_of_payload :
    (fuel : ℕ) (payload : List ℕ) (result final : Fields)
    → All IsByte payload
    → decode_tlv_loop fuel payload result ≡ ok final
    → (items : List (ℕ × List ℕ)) × All IsItem items
      × (payload ≡ all_bytes items)
      × (final ≡ dict_of result items)
unfolding dict_of
items_of_payload fuel [] result final h e = ([], tt, refl, unfold decode_tlv_loop in ground arith)
items_of_payload zero (b ∷ rest) result final h e = absurd (unfold decode_tlv_loop in cc)
items_of_payload (suc fuel) (b ∷ rest) result final h e =
    let ((tag, value), tail, fits, front, next) = IsItem-in_front fuel b rest result final h e in
    let (items, valid, bytes, dict) =
      items_of_payload fuel tail (insert tag value result) final
        (All-suffix (item_bytes (tag, value)) tail (subst (All IsByte) front h)) next in
    ((tag, value) ∷ items, (fits, valid), front ∙ ap (◌++◌ (item_bytes (tag, value))) bytes, dict)

-- The payload of any items whose tags fit a byte and whose values fit 16 bits is decoded to their
-- dictionary, in which the last value of a tag counts.
pub decode_tlv-encode_tlv :
    (items : List (ℕ × List ℕ))
    → All IsItem items
    → (payload : List ℕ) × (encode_tlv (tagged items) ≡ ok payload)
      × (decode_tlv payload ≡ ok (dict_of [] items))
unfolding encode_tlv decode_tlv
decode_tlv-encode_tlv items v = (
  all_bytes items,
  encode_tlv_loop-bytes items [] v,
  decode_items items (length (all_bytes items)) [] v (omega arith),
)

-- And nothing else is decoded: a payload that `decode_tlv` accepts is what `encode_tlv` writes for
-- some items, and the result is their dictionary.
pub decode_tlv_exact :
    (payload : List ℕ) (fields : Fields)
    → All IsByte payload
    → decode_tlv payload ≡ ok fields
    → (items : List (ℕ × List ℕ)) × All IsItem items
      × (encode_tlv (tagged items) ≡ ok payload)
      × (fields ≡ dict_of [] items)
unfolding encode_tlv decode_tlv
decode_tlv_exact payload fields h e =
    let (items, valid, bytes, dict) = items_of_payload (length payload) payload [] fields h e in
    (items, valid, encode_tlv_loop-bytes items [] valid ∙ ap ok (sym bytes), dict)

decode_tlv_loop_total :
    (fuel : ℕ) (payload : List ℕ) (result : Fields)
    → length payload ≤ fuel
    → decode_tlv_loop fuel payload result ≢ err out_of_fuel
unfolding decode_tlv_loop
decode_tlv_loop_total fuel [] result h = λ e. cc
decode_tlv_loop_total zero (b ∷ rest) result h = absurd (omega arith)
decode_tlv_loop_total (suc fuel) (b ∷ rest) result h =
    elim (Bool-cases (ltb (length (b ∷ rest)) 3)) [
      | inl short ↦ rw short (λ e. cc)
      | inr header ↦ elim (Bool-cases (ltb (length (drop 3 (b ∷ rest))) (uint_at 2 1 (b ∷ rest)))) [
        | inl cut ↦ rw (header, cut) (λ e. cc)
        | inr whole ↦
            rw (header, whole)
              (decode_tlv_loop_total fuel _ _ (
                omega (
                  arith,
                  length-drop (uint_at 2 1 (b ∷ rest)) (drop 3 (b ∷ rest)),
                  length-drop 3 (b ∷ rest),
                )))
      ]
    ]

-- The length of the payload is fuel enough for every payload.
pub decode_tlv_total : (payload : List ℕ) → decode_tlv payload ≢ err out_of_fuel
unfolding decode_tlv
decode_tlv_total payload = decode_tlv_loop_total (length payload) payload [] (omega arith)
