-- ===== src/Files/Names.antt =====
-- Which paths `_path_payload` lets through, and that its payload names them.
use esp_iris.Common.{
  ℕ, ◌≤◌, ◌==◌, ltb, leb, not, ◌&&◌, ◌||◌, ◌≡◌, ◌≢◌, refl, sym, ap, ◌∙◌, inl, inr, Bool, true,
  false, List, [], ◌∷◌, ◌++◌, length, take, drop, All, ok, ok-injective, arith, Bool-cases, bind-ok,
  raise_if, raise_if-ok, subst, uint_at, take-append_front, drop-append_front,
}
use esp_iris.Files.Errors.{path_too_long}
use esp_iris.Files.Paths.{
  any, slash, is_identifier, is_volume_id, starts_rooted, ends_with_slash, put_first, split_slash,
  path_parts, is_special, any_special, is_control, check_volume, check_path, pack_path,
  path_payload,
}

-- The components of a path, with slashes between them.
unfoldable pub join_slash : List (List ℕ) → List ℕ
join_slash [] = []
join_slash (part ∷ []) = part
join_slash (part ∷ next ∷ parts) = part ++ slash ∷ join_slash (next ∷ parts)

-- A component that names an entry of its directory.
abbrev pub IsComponent : List ℕ → Type 0
IsComponent part =
    (part ≢ [])
    × (part ≢ b'.' ∷ [])
    × (part ≢ b'.' ∷ b'.' ∷ [])
    × (any (λ c. c == slash) part ≡ false)

join-put_first :
    (c : ℕ) (part : List ℕ) (parts : List (List ℕ))
    → join_slash (put_first c (part ∷ parts)) ≡ c ∷ join_slash (part ∷ parts)
unfolding join_slash
join-put_first c part [] = refl
join-put_first c part (next ∷ parts) = refl

split-cons :
    (path : List ℕ) → (part : List ℕ) × (parts : List (List ℕ)) × (split_slash path ≡ part ∷ parts)
unfolding split_slash
split-cons [] = ([], [], refl)
split-cons (c ∷ path) = elim (Bool-cases (c == slash)) [
  | inl y ↦ ([], split_slash path, rw y)
  | inr n ↦ let (part, parts, e) = split-cons path in (c ∷ part, parts, rw (n, e))
]

join-split : (path : List ℕ) → join_slash (split_slash path) ≡ path
unfolding split_slash join_slash
join-split [] = refl
join-split (c ∷ path) =
    let (part, parts, e) = split-cons path in
    let ih : join_slash (part ∷ parts) ≡ path = ap join_slash (sym e) ∙ join-split path in
    elim (Bool-cases (c == slash)) [
      | inl y ↦ rw (y, e) (ground (arith, ih, y))
      | inr n ↦ rw (n, e) (join-put_first c part parts ∙ ap (◌∷◌ c) ih)
    ]

abbrev HasNoSlash : List ℕ → Type 0
HasNoSlash part = any (λ c. c == slash) part ≡ false

split-HasNoSlash : (path : List ℕ) → All HasNoSlash (split_slash path)
unfolding split_slash
split-HasNoSlash [] = (refl, tt)
split-HasNoSlash (c ∷ path) = elim (Bool-cases (c == slash)) [
  | inl y ↦ rw y (refl, split-HasNoSlash path)
  | inr n ↦ rw n (first (split_slash path) n (split-HasNoSlash path))
]
  where
    first :
        (parts : List (List ℕ))
        → (c == slash) ≡ false
        → All HasNoSlash parts
        → All HasNoSlash (put_first c parts)
    first [] n h = (rw n refl, tt)
    first (part ∷ parts) n h = (rw n h.0, h.1)

components :
    (parts : List (List ℕ))
    → any_special parts ≡ false
    → All HasNoSlash parts
    → All IsComponent parts
components [] h k = tt
components (part ∷ parts) h k =
    (component part (ground (arith, h)) k.0, components parts (ground (arith, h)) k.1)
  where
    component : (part : List ℕ) → is_special part ≡ false → HasNoSlash part → IsComponent part
    component part h k = (
      λ e. cc (ap is_special e, h),
      λ e. cc (ap is_special e, h),
      λ e. cc (ap is_special e, h),
      k,
    )

-- What a device reads from a payload that names a volume and a path.
abbrev pub IsNamed : List ℕ → List ℕ → List ℕ → Type 0
IsNamed volume path payload =
    (uint_at 1 0 payload ≡ length volume)
    × (uint_at 2 2 payload ≡ length path)
    × (take (length volume) (drop 4 payload) ≡ volume)
    × (drop (length volume) (drop 4 payload) ≡ path)

packed-IsNamed :
    (volume path : List ℕ)
    → length volume ≤ 15
    → length path ≤ 255
    → IsNamed volume path (pack_path volume path)
unfolding pack_path
packed-IsNamed volume path h k =
    (omega arith, omega arith, take-append_front volume path, drop-append_front volume path)

path_parts_lem :
    (path : List ℕ)
    → any_special (path_parts path) ≡ false
    → (path ≡ join_slash (path_parts path)) × All IsComponent (path_parts path)
unfolding path_parts join_slash
path_parts_lem [] h = (refl, tt)
path_parts_lem (c ∷ path) h = (
  sym (join-split (c ∷ path)),
  components (split_slash (c ∷ path)) h (split-HasNoSlash (c ∷ path)),
)

raised : (b : Bool) → raise_if b path_too_long ≡ ok tt → b ≡ false
raised true h = absurd (cc)
raised false h = refl

-- A path is let through only if it is the components of some names with slashes between them, none
-- of them empty, `.` or `..`, and the lengths of the volume and of the path are in their bounds; the
-- payload tells a device the volume and the path.
pub path_payload_sound :
    (volume path payload : List ℕ)
    → path_payload volume path ≡ ok payload
    → ((parts : List (List ℕ)) × (path ≡ join_slash parts) × All IsComponent parts)
      × (1 ≤ length volume)
      × (length volume ≤ 15)
      × (length path ≤ 255)
      × IsNamed volume path payload
unfolding path_payload check_volume check_path is_volume_id
path_payload_sound volume path payload h =
    let (named, k) =
      raise_if-ok
        (not (
          leb 1 (length volume)
          && (leb (length volume) 15 && not (any (λ c. not (is_identifier c)) volume))))
        _ _ h in
    let (unit, checks, l) = bind-ok (check_path path) _ k in
    let (rooted, checks1) =
      raise_if-ok (starts_rooted path || (ends_with_slash path || any (λ c. c == 0x5c) path)) _ _
        checks in
    let (special, checks2) = raise_if-ok (any_special (path_parts path)) _ _ checks1 in
    let short : (ltb 255 (length path) || any is_control path) ≡ false =
      raised (ltb 255 (length path) || any is_control path) checks2 in
    let (whole, parts) = path_parts_lem path special in
    let few : length volume ≤ 15 = ground (arith, named) in
    let bound : length path ≤ 255 = ground (arith, short) in
    (
      (path_parts path, whole, parts),
      ground (arith, named),
      few,
      bound,
      subst (IsNamed volume path) (ok-injective l) (packed-IsNamed volume path few bound),
    )
