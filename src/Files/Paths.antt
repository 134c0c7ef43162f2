-- ===== src/Files/Paths.antt =====
-- `DeviceFiles._path_payload` of files.py. Texts are their UTF-8 bytes.
use esp_iris.Common.{
  ℕ, ◌==◌, ltb, leb, not, ◌&&◌, ◌||◌, Bool, false, if◌then◌else◌, List, [], ◌∷◌, ◌++◌, length,
  Result, ok, ◌>>◌, raise_if, to_le, is_empty, bytes_eq,
}
use esp_iris.Files.Errors.{
  FileError, invalid_volume, invalid_path, invalid_component, path_too_long,
}

abbrev pub any : (ℕ → Bool) → List ℕ → Bool
any test [] = false
any test (x ∷ xs) = test x || any test xs

abbrev pub slash : ℕ
slash = b'/'

-- One character of the expression `[A-Za-z0-9_-]`.
unfoldable pub is_identifier : ℕ → Bool
is_identifier c =
    (leb b'A' c && leb c b'Z')
    || ((leb b'a' c && leb c b'z') || ((leb b'0' c && leb c b'9') || (c == b'_' || c == b'-')))

-- `VOLUME_ID.fullmatch`
unfoldable pub is_volume_id : List ℕ → Bool
unfolding is_identifier
is_volume_id volume =
    leb 1 (length volume)
    && (leb (length volume) 15 && not (any (λ c. not (is_identifier c)) volume))

abbrev pub starts_rooted : List ℕ → Bool
starts_rooted [] = false
starts_rooted (c ∷ path) = c == slash

abbrev pub ends_with_slash : List ℕ → Bool
ends_with_slash [] = false
ends_with_slash (c ∷ []) = c == slash
ends_with_slash (c ∷ d ∷ path) = ends_with_slash (d ∷ path)

-- `text.split("/")`, of which there is at least one part.
abbrev pub put_first : ℕ → List (List ℕ) → List (List ℕ)
put_first c [] = (c ∷ []) ∷ []
put_first c (part ∷ parts) = (c ∷ part) ∷ parts

unfoldable pub split_slash : List ℕ → List (List ℕ)
split_slash [] = [] ∷ []
split_slash (c ∷ path) =
    let parts = split_slash path in if c == slash then [] ∷ parts else put_first c parts

unfoldable pub path_parts : List ℕ → List (List ℕ)
unfolding split_slash
path_parts path = if is_empty path then [] else split_slash path

-- `part in {"", ".", ".."}`
abbrev pub is_special : List ℕ → Bool
is_special part = is_empty part || (bytes_eq part (b'.' ∷ []) || bytes_eq part (b'.' ∷ b'.' ∷ []))

abbrev pub any_special : List (List ℕ) → Bool
any_special [] = false
any_special (part ∷ parts) = is_special part || any_special parts

-- value < 0x20 or value == 0x7F
abbrev pub is_control : ℕ → Bool
is_control c = ltb c 0x20 || c == 0x7f

unfoldable pub check_volume : List ℕ → Result FileError (Unit {0})
unfolding is_volume_id
check_volume volume = raise_if (not (is_volume_id volume)) invalid_volume

unfoldable pub check_path : List ℕ → Result FileError (Unit {0})
unfolding path_parts
check_path path = do
  raise_if (starts_rooted path || (ends_with_slash path || any (λ c. c == 0x5c) path)) invalid_path
  raise_if (any_special (path_parts path)) invalid_component
  raise_if (ltb 255 (length path) || any is_control path) path_too_long

unfoldable pub pack_path : List ℕ → List ℕ → List ℕ
pack_path volume path =
    to_le 1 (length volume) ++ (to_le 1 0 ++ (to_le 2 (length path) ++ (volume ++ path)))

unfoldable pub path_payload : List ℕ → List ℕ → Result FileError (List ℕ)
unfolding check_volume check_path pack_path
path_payload volume path = do check_volume volume; check_path path; ok (pack_path volume path)
