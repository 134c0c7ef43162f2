-- ===== src/Session/Answers.antt =====
-- What `screenshot` returns of a device's screen.
use esp_iris.Common.{
  ok-injective, ℕ, suc, ◌+◌, ◌≤◌, ◌<◌, min, ◌==◌, ltb, not, ◌||◌, ◌≡◌, refl, sym, ap, ◌∙◌, subst,
  arith, Bool, true, false, List, [], ◌∷◌, ◌++◌, length, take, drop, is_empty, take-whole,
  length-append, length-take, ok, err, ◌>>=◌, raise_if-ok, bind-ok, uint_at, Bool-cases, All, inl,
  inr,
}
use esp_iris.Wire.Codes.Enum.{int}
use esp_iris.Wire.Codes.Services.{MediaType, media_type_enum}
use esp_iris.Wire.Frame.{Frame}
use esp_iris.Files.Rounds.{take-append-drop_parts}
use esp_iris.Session.Requests.{
  Answer, Description, take_chunk, read_screen, has_type, opened_screen, screenshot,
  encode_media_description, decode_media_description, unexpected_response, invalid_response,
}

-- What is assumed of a frame of a device that shows a screen: an OPENED announces the size of the
-- screen, and a DATA that names this size carries the bytes of the screen at the offset that it
-- names. It may name any offset, and be any other frame.
pub record ShowsScreen (screen : List ℕ) (frame : Frame) : Type 0 where
  pub opens :
      has_type frame (int MediaType.opened) ≡ true
      → length frame.payload ≡ 20
      → uint_at 4 16 frame.payload ≡ length screen
  pub shows :
      has_type frame (int MediaType.data_frame) ≡ true
      → 8 ≤ length frame.payload
      → uint_at 4 4 frame.payload ≡ length screen
      → drop 8 frame.payload
        ≡ take (length (drop 8 frame.payload)) (drop (uint_at 4 0 frame.payload) screen)

-- An answer is such a frame, or an exception of the request.
abbrev pub IsAnswerOf : List ℕ → Answer → Type 0
IsAnswerOf screen (ok frame) = ShowsScreen screen frame
IsAnswerOf screen (err e) = Unit

data_lem : (type : Bool) (n : ℕ) → (not type || ltb n 8) ≡ false → (type ≡ true) × (8 ≤ n)
data_lem type n h = ground (arith, h)

placed_lem :
    (offset received size total : ℕ) (empty : Bool)
    → (not (offset == received) || (not (size == total) || empty)) ≡ false
    → (offset ≡ received) × (size ≡ total) × (empty ≡ false)
placed_lem offset received size total empty h = ground (arith, h)

opened_lem : (type : Bool) (n : ℕ) → (not type || not (n == 20)) ≡ false → (type ≡ true) × (n ≡ 20)
opened_lem type n h = ground (arith, h)

some_bytes : (xs : List ℕ) → is_empty xs ≡ false → 0 < length xs
some_bytes [] h = absurd (cc)
some_bytes (x ∷ xs) h = omega arith

-- A chunk that is taken is that of the screen behind what was received.
chunk-IsPiece :
    (screen received : List ℕ) (frame : Frame) (chunk : List ℕ)
    → ShowsScreen screen frame
    → take_chunk (length screen) received frame ≡ ok chunk
    → (chunk ≡ take (length chunk) (drop (length received) screen)) × (0 < length chunk)
unfolding take_chunk
chunk-IsPiece screen received frame chunk shown h =
    let (a, h1) =
      raise_if-ok (not (has_type frame (int MediaType.data_frame)) || ltb (length frame.payload) 8)
        unexpected_response _ h in
    let (b, h2) =
      raise_if-ok
        (not (uint_at 4 0 frame.payload == length received)
          || (not (uint_at 4 4 frame.payload == length screen) || is_empty (drop 8 frame.payload)))
        invalid_response _ h1 in
    let (type, long) =
      data_lem (has_type frame (int MediaType.data_frame)) (length frame.payload) a in
    let (at, size, full) =
      placed_lem (uint_at 4 0 frame.payload) (length received) (uint_at 4 4 frame.payload)
        (length screen) (is_empty (drop 8 frame.payload)) b in
    subst (λ (c : List ℕ). (c ≡ take (length c) (drop (length received) screen)) × (0 < length c))
      (ok-injective h2)
      (
        subst (λ n. drop 8 frame.payload ≡ take (length (drop 8 frame.payload)) (drop n screen)) at
            (shown.shows type long size),
        some_bytes (drop 8 frame.payload) full,
      )

-- What is promised of the loop: the screen, from no more answers than there are bytes left.
abbrev IsShown : List ℕ → List ℕ → List Answer → List ℕ → Type 0
IsShown screen received answers bytes =
    (bytes ≡ screen)
    × (count : ℕ) × (count + length received ≤ length screen)
    × (read_screen (length screen) received (take count answers) ≡ ok bytes)

full_screen :
    (screen received : List ℕ)
    → received ≡ take (length received) screen
    → ltb (length received) (length screen) ≡ false
    → (received ≡ screen) × (length received ≡ length screen)
full_screen screen received h n =
    let size : length received ≡ min (length received) (length screen) =
      ap length h ∙ length-take (length received) screen in
    (h ∙ take-whole (length received) screen (ground (arith, n)), ground (arith, n, size))

stopped :
    (screen received : List ℕ) (answers : List Answer) (bytes : List ℕ)
    → received ≡ take (length received) screen
    → ltb (length received) (length screen) ≡ false
    → received ≡ bytes
    → IsShown screen received answers bytes
unfolding read_screen
stopped screen received answers bytes h n e =
    let (whole, size) = full_screen screen received h n in
    (sym e ∙ whole, 0, omega (arith, size), rw n (ap (λ (b : List ℕ). ok b) e))

read_screen-IsShown :
    (screen received : List ℕ) (answers : List Answer) (bytes : List ℕ)
    → All (IsAnswerOf screen) answers
    → received ≡ take (length received) screen
    → read_screen (length screen) received answers ≡ ok bytes
    → IsShown screen received answers bytes
unfolding read_screen
read_screen-IsShown screen received [] bytes shown at h =
    elim (Bool-cases (ltb (length received) (length screen))) [
      | inl y ↦ absurd (cc (rw y at h))
      | inr n ↦ stopped screen received [] bytes at n (ok-injective (rw n at h))
    ]
read_screen-IsShown screen received (err x ∷ answers) bytes shown at h =
    elim (Bool-cases (ltb (length received) (length screen))) [
      | inl y ↦ absurd (cc (rw y at h))
      | inr n ↦ stopped screen received (err x ∷ answers) bytes at n (ok-injective (rw n at h))
    ]
read_screen-IsShown screen received (ok frame ∷ answers) bytes shown at h =
    elim (Bool-cases (ltb (length received) (length screen))) [
      | inr n ↦ stopped screen received (ok frame ∷ answers) bytes at n (ok-injective (rw n at h))
      | inl y ↦
          let (chunk, e, k) =
            bind-ok (take_chunk (length screen) received frame)
              (λ chunk. read_screen (length screen) (received ++ chunk) answers) (rw y at h) in
          let (piece, some) = chunk-IsPiece screen received frame chunk shown.0 e in
          let sum : length (received ++ chunk) ≡ length received + length chunk =
            length-append received chunk in
          let (whole, count, few, again) =
            read_screen-IsShown screen (received ++ chunk) answers bytes shown.1
              (take-append-drop_parts received chunk screen at piece) k in
          (
            whole,
            suc count,
            omega (arith, few, sum, some),
            rw y (
                ap
                  (λ r. r >>= λ c. read_screen (length screen) (received ++ c) (take count answers))
                  e
                ∙ again),
          )
    ]

abbrev OpenedShows : List ℕ → Frame → List Answer → Description → List ℕ → Type 0
OpenedShows screen frame answers actual bytes =
    (bytes ≡ screen)
    × (count : ℕ) × (count ≤ length screen)
    × (opened_screen frame (take count answers) ≡ ok (actual, bytes))

opened_screen-Shows :
    (screen : List ℕ) (frame : Frame) (answers : List Answer) (actual : Description)
    (bytes : List ℕ)
    → ShowsScreen screen frame
    → All (IsAnswerOf screen) answers
    → opened_screen frame answers ≡ ok (actual, bytes)
    → OpenedShows screen frame answers actual bytes
unfolding opened_screen
opened_screen-Shows screen frame answers actual bytes opening shown h =
    let (a, h1) =
      raise_if-ok (not (has_type frame (int MediaType.opened)) || not (length frame.payload == 20))
        unexpected_response _ h in
    let (described, e1, h2) = bind-ok (decode_media_description frame.payload) _ h1 in
    let (got, e2, h3) = bind-ok (read_screen (uint_at 4 16 frame.payload) [] answers) _ h2 in
    let (type, long) =
      opened_lem (has_type frame (int MediaType.opened)) (length frame.payload) a in
    let size = opening.opens type long in
    let (whole, count, few, again) =
      read_screen-IsShown screen [] answers got shown refl
        (subst (λ n. read_screen n [] answers ≡ ok got) size e2) in
    let same : got ≡ bytes = ap (λ (r : Description × List ℕ). r.1) (ok-injective h3) in
    (
      sym same ∙ whole,
      count,
      omega (arith, few),
      rw a (
          ap
            (λ r. r >>= λ d.
              read_screen (uint_at 4 16 frame.payload) [] (take count answers) >>= λ b. ok (d, b))
            e1
          ∙ ap (λ r. r >>= λ b. ok (described, b))
              (subst (λ n. read_screen n [] (take count answers) ≡ ok got) (sym size) again)
          ∙ h3),
    )

-- Of a device that shows a screen: a screenshot that is returned is the screen, byte for byte, and
-- takes no more answers to READ than the screen has bytes: with the later ones gone it is the same.
pub screenshot_lem :
    (screen : List ℕ) (requested actual : Description) (open_screen : List ℕ → Answer)
    (answers : List Answer) (bytes : List ℕ)
    → ((request : List ℕ) → IsAnswerOf screen (open_screen request))
    → All (IsAnswerOf screen) answers
    → screenshot requested open_screen answers ≡ ok (actual, bytes)
    → (bytes ≡ screen)
      × (count : ℕ) × (count ≤ length screen)
      × (screenshot requested open_screen (take count answers) ≡ ok (actual, bytes))
unfolding screenshot
screenshot_lem screen requested actual open_screen answers bytes opening shown h =
    let (request, e1, h1) = bind-ok (encode_media_description requested) _ h in
    let (frame, e2, h2) = bind-ok (open_screen request) _ h1 in
    let (whole, count, few, again) =
      opened_screen-Shows screen frame answers actual bytes
        (subst (IsAnswerOf screen) e2 (opening request)) shown h2 in
    (
      whole,
      count,
      few,
      ap
            (λ r. r >>= λ request.
              open_screen request >>= λ frame. opened_screen frame (take count answers))
            e1
          ∙ ap (λ r. r >>= λ frame. opened_screen frame (take count answers)) e2
          ∙ again,
    )
