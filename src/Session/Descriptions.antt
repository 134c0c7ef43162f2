-- ===== src/Session/Descriptions.antt =====
-- Media descriptions between a session and its device.
use esp_iris.Common.{
  ok-injective, ℕ, ◌^◌, ltb, ltb→lt, not, ◌&&◌, ◌||◌, ◌≡◌, refl, ap, ◌∙◌, subst, Bool, true, false,
  List, length, ok, raise_if-ok, to_le, uint_at, ℤ, pos, negsuc, from_le-to_le_u16,
  from_le-to_le_u32,
}
use esp_iris.Wire.Codes.Transport.{control_type_enum}
use esp_iris.Session.Records.{nat}
use esp_iris.Session.Requests.{
  Description, any_negative, fits_struct, encode_media_description, decode_media_description,
  is_negative,
}

pos-nat : (z : ℤ) → is_negative z ≡ false → pos (nat z) ≡ z
pos-nat (pos n) h = refl
pos-nat (negsuc n) h = absurd (cc)

none_of : (a b : Bool) → (a || b) ≡ false → (a ≡ false) × (b ≡ false)
none_of false b h = (refl, h)
none_of true b h = absurd (cc)

all_of : (a b : Bool) → not (a && b) ≡ false → (a ≡ true) × (not b ≡ false)
all_of true b h = (refl, h)
all_of false b h = absurd (cc)

negated : (a : Bool) → not a ≡ false → a ≡ true
negated true h = refl
negated false h = absurd (cc)

-- A description that is encoded has 16 bytes, and is decoded again.
pub decode-encode_media_description :
    (d : Description) (payload : List ℕ)
    → encode_media_description d ≡ ok payload
    → (length payload ≡ 16) × (decode_media_description payload ≡ ok d)
unfolding encode_media_description decode_media_description
decode-encode_media_description d payload h =
    let (positive, h1) = raise_if-ok (any_negative d) _ _ h in
    let (fits, h2) = raise_if-ok (not (fits_struct d)) _ _ h1 in
    let (nx, r1) = none_of _ _ positive in
    let (ny, r2) = none_of _ _ r1 in
    let (nw, r3) = none_of _ _ r2 in
    let (nh, r4) = none_of _ _ r3 in
    let (ns, r5) = none_of _ _ r4 in
    let (nf, nq) = none_of _ _ r5 in
    let (fx, s1) = all_of _ _ fits in
    let (fy, s2) = all_of _ _ s1 in
    let (fw, s3) = all_of _ _ s2 in
    let (fh, s4) = all_of _ _ s3 in
    let (fs, s5) = all_of _ _ s4 in
    let (ff, s6) = all_of _ _ s5 in
    let fq = negated _ s6 in
    let u16 : (z : ℤ)
        → ltb (nat z) (2 ^ 16) ≡ true
        → is_negative z ≡ false
        → pos (uint_at 2 0 (to_le 2 (nat z))) ≡ z =
      λ z f n. ap pos (from_le-to_le_u16 (nat z) (ltb→lt _ _ f)) ∙ pos-nat z n in
    let stride : pos (uint_at 4 0 (to_le 4 (nat d.stride))) ≡ d.stride =
      ap pos (from_le-to_le_u32 (nat d.stride) (ltb→lt _ _ fs)) ∙ pos-nat d.stride ns in
    subst (λ p. (length p ≡ 16) × (decode_media_description p ≡ ok d)) (ok-injective h2)
      (
        refl,
        λ i. ok (record {
          x = u16 d.x fx nx i;
          y = u16 d.y fy ny i;
          width = u16 d.width fw nw i;
          height = u16 d.height fh nh i;
          stride = stride i;
          format = u16 d.format ff nf i;
          quality = u16 d.quality fq nq i;
        }),
      )
