-- ===== src/Files/Etags.antt =====
-- The tag of a file as text, given back in `if_match`.
use esp_iris.Common.{
  ℕ, zero, suc, ◌+◌, ◌*◌, ◌/◌, ◌%◌, ◌^◌, ◌≤◌, ◌<◌, ◌==◌, ◌≡◌, refl, sym, ap, ◌∙◌, Bool, false,
  if◌then◌else◌, List, [], ◌∷◌, ◌++◌, append-nil, append_assoc, is_empty, ◌&&◌, length,
  length-append, All, All-append, some, ok, arith,
}
use native.Mathlib.Nat.{pow-suc}
use esp_iris.Session.Probes.{hex_digit}
use esp_iris.Files.Answers.{hex_digits}
use esp_iris.Files.Writing.{
  is_space, strip_left, strip_right, strip, without_weak, digit_value, push_digit, hex_value,
  normalized_etag, etag_value,
}

-- A character of a lower-case hexadecimal number.
abbrev IsDigit : ℕ → Type 0
IsDigit c = (b'0' ≤ c) × (c ≤ b'f')

digit_value-hex_digit : (d : ℕ) → d < 16 → digit_value (hex_digit d) ≡ some d
unfolding digit_value
digit_value-hex_digit d h = ground (arith)

hex_digits-IsDigit : (k n : ℕ) → All IsDigit (hex_digits k n)
unfolding hex_digits
hex_digits-IsDigit zero n = tt
hex_digits-IsDigit (suc k) n =
    All-append IsDigit (hex_digits k (n / 16)) (hex_digit (n % 16) ∷ [])
      (hex_digits-IsDigit k (n / 16)) (ground (arith), tt)

length-hex_digits : (k n : ℕ) → length (hex_digits k n) ≡ k
unfolding hex_digits
length-hex_digits zero n = refl
length-hex_digits (suc k) n = omega (
  arith,
  length-append (hex_digits k (n / 16)) (hex_digit (n % 16) ∷ []),
  length-hex_digits k (n / 16),
)

-- Reading the digits of a number behind a value.
hex_value-hex_digits :
    (k n value : ℕ) (rest : List ℕ)
    → n < 16 ^ k
    → hex_value (some value) (hex_digits k n ++ rest) ≡ hex_value (some (16 ^ k * value + n)) rest
unfolding hex_digits hex_value
hex_value-hex_digits zero n value rest h = ap (λ v. hex_value (some v) rest) (omega arith)
hex_value-hex_digits (suc k) n value rest h =
    ap (hex_value (some value))
      (append_assoc (hex_digits k (n / 16)) (hex_digit (n % 16) ∷ []) rest)
    ∙ (hex_value-hex_digits k (n / 16) value (hex_digit (n % 16) ∷ rest) (small k n h) ∙ last)
  where
    last :
        hex_value (push_digit (16 ^ k * value + n / 16) (digit_value (hex_digit (n % 16)))) rest
        ≡ hex_value (some (16 ^ suc k * value + n)) rest
    last =
        rw (digit_value-hex_digit (n % 16) (omega arith))
          (ap (λ v. hex_value (some v) rest) (rw pow-suc (grind arith)))

    small : (k n : ℕ) → n < 16 ^ suc k → n / 16 < 16 ^ k
    small k n h = let e = pow-suc 16 k in omega (arith, e)

-- Nothing is stripped of a text of such characters.
strip_left-IsDigit :
    (test : ℕ → Bool)
    → ((c : ℕ) → IsDigit c → test c ≡ false)
    → (text : List ℕ) → All IsDigit text
    → strip_left test text ≡ text
unfolding strip_left
strip_left-IsDigit test keeps [] h = refl
strip_left-IsDigit test keeps (c ∷ text) h = rw (keeps c h.0) refl

strip_right-IsDigit :
    (test : ℕ → Bool)
    → ((c : ℕ) → IsDigit c → test c ≡ false)
    → (text : List ℕ) → All IsDigit text
    → strip_right test text ≡ text
unfolding strip_right
strip_right-IsDigit test keeps [] h = refl
strip_right-IsDigit test keeps (c ∷ text) h =
    rw (strip_right-IsDigit test keeps text h.1, keeps c h.0) (no_end text)
  where
    no_end : (text : List ℕ) → (if is_empty text && false then [] else c ∷ text) ≡ c ∷ text
    no_end [] = refl
    no_end (d ∷ text) = refl

without_weak-IsDigit : (text : List ℕ) → All IsDigit text → without_weak text ≡ text
unfolding without_weak
without_weak-IsDigit [] h = refl
without_weak-IsDigit (c ∷ []) h = refl
without_weak-IsDigit (c ∷ d ∷ text) h = ground (arith, h.0, h.1)

strip-IsDigit :
    (test : ℕ → Bool)
    → ((c : ℕ) → IsDigit c → test c ≡ false)
    → (text : List ℕ) → All IsDigit text
    → strip test text ≡ text
unfolding strip
strip-IsDigit test keeps text h =
    ap (strip_right test) (strip_left-IsDigit test keeps text h)
    ∙ strip_right-IsDigit test keeps text h

digit-is_space : (c : ℕ) → IsDigit c → is_space c ≡ false
digit-is_space c h = ground (arith)

digit-is_quote : (c : ℕ) → IsDigit c → (c == b'"') ≡ false
digit-is_quote c h = ground (arith)

normalized_etag-IsDigit : (text : List ℕ) → All IsDigit text → normalized_etag text ≡ text
unfolding normalized_etag
normalized_etag-IsDigit text h =
    ap (λ t. strip (λ c. c == b'"') (without_weak t)) (strip-IsDigit is_space digit-is_space text h)
    ∙ (ap (strip (λ c. c == b'"')) (without_weak-IsDigit text h)
        ∙ strip-IsDigit (λ c. c == b'"') digit-is_quote text h)

hex_value-whole : (n : ℕ) → n < 16 ^ 16 → hex_value (some 0) (hex_digits 16 n) ≡ some n
hex_value-whole n h =
    ap (hex_value (some 0)) (sym (append-nil (hex_digits 16 n)))
    ∙ (hex_value-hex_digits 16 n 0 [] h ∙ unfold hex_value in ap some (omega arith))

-- The tag that a file's metadata show, sent in `if_match`, is the number that the device has.
pub etag_value-hex_digits : (n : ℕ) → n < 2 ^ 64 → etag_value (some (hex_digits 16 n)) ≡ ok n
unfolding etag_value
etag_value-hex_digits n h =
    rw
      (
        normalized_etag-IsDigit (hex_digits 16 n) (hex_digits-IsDigit 16 n),
        length-hex_digits 16 n,
        hex_value-whole n (omega arith),
      )
      refl
