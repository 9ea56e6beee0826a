-- ===== src/Binding/Digest.antt =====
-- src/qmt_execution_core/miniqmt/binding.py, `_validate_sha256`.
use qmt_execution_core.Common.{
  ℕ, ◌≡◌, ◌+◌, refl, Bool, true, false, ◌&&◌, ◌||◌, List, [], ◌∷◌, ◌==◌, leb, length, arith,
  if◌then◌else◌,
}
use qmt_execution_core.Errors.{Result, ok, err, account_binding_error}

abbrev pub text_eq : List ℕ → List ℕ → Bool
text_eq [] [] = true
text_eq (c ∷ s) (d ∷ t) = c == d && text_eq s t
text_eq _ _ = false

-- the characters that `str.strip` removes
unfoldable pub is_space : ℕ → Bool
is_space c =
    (leb 9 c && leb c 13)
    || ((leb 28 c && leb c 32)
        || (c == 133
            || (c == 160
                || (c == 5760
                    || ((leb 8192 c && leb c 8202)
                        || ((leb 8232 c && leb c 8233)
                            || (c == 8239 || (c == 8287 || c == 12288))))))))

unfoldable pub strip_left : List ℕ → List ℕ
strip_left [] = []
strip_left (c ∷ s) = let rest = strip_left s in if is_space c then rest else c ∷ s

abbrev pub keep_unless_blank : ℕ → List ℕ → List ℕ
keep_unless_blank c [] = if is_space c then [] else c ∷ []
keep_unless_blank c (d ∷ s) = c ∷ d ∷ s

unfoldable pub strip_right : List ℕ → List ℕ
strip_right [] = []
strip_right (c ∷ s) = keep_unless_blank c (strip_right s)

-- `str.lower` on the letters of ASCII; no other character becomes a hexadecimal digit
unfoldable pub lower_char : ℕ → ℕ
lower_char c = if leb 65 c && leb c 90 then c + 32 else c

unfoldable pub lower : List ℕ → List ℕ
lower [] = []
lower (c ∷ s) = lower_char c ∷ lower s

unfoldable pub is_hex : ℕ → Bool
is_hex c = (leb 48 c && leb c 57) || (leb 97 c && leb c 102)

unfoldable pub all_hex : List ℕ → Bool
all_hex [] = true
all_hex (c ∷ s) = is_hex c && all_hex s

unfoldable pub is_digest : List ℕ → Bool
is_digest s = length s == 64 && all_hex s

unfoldable pub normalized_digest : List ℕ → Result (List ℕ)
normalized_digest value =
    let digest = lower (strip_right (strip_left value)) in
    if is_digest digest then ok digest else err account_binding_error

strip_left_hex : (s : List ℕ) → all_hex s ≡ true → strip_left s ≡ s
unfolding strip_left all_hex is_hex is_space
strip_left_hex [] h = refl
strip_left_hex (c ∷ s) h = ground arith

strip_right_hex : (s : List ℕ) → all_hex s ≡ true → strip_right s ≡ s
unfolding strip_right all_hex is_hex is_space
strip_right_hex [] h = refl
strip_right_hex (c ∷ []) h = ground arith
strip_right_hex (c ∷ d ∷ s) h =
    let deeper : all_hex (d ∷ s) ≡ true = ground arith in rw (strip_right_hex (d ∷ s) deeper) refl

lower_hex : (s : List ℕ) → all_hex s ≡ true → lower s ≡ s
unfolding lower lower_char all_hex is_hex
lower_hex [] h = refl
lower_hex (c ∷ s) h = ground (arith, lower_hex s)

-- a digest is its own normal form
pub digest_stays : (s : List ℕ) → is_digest s ≡ true → normalized_digest s ≡ ok s
unfolding normalized_digest is_digest
digest_stays s h =
    let hex : all_hex s ≡ true = ground arith in
    rw (strip_left_hex s hex, strip_right_hex s hex, lower_hex s hex) (rw h refl)

pub normalized-is_digest : (value s : List ℕ) → normalized_digest value ≡ ok s → is_digest s ≡ true
unfolding normalized_digest
normalized-is_digest value s h = ground arith

pub text_eq_refl : (s : List ℕ) → text_eq s s ≡ true
text_eq_refl [] = refl
text_eq_refl (c ∷ s) = ground (arith, text_eq_refl s)

pub text_eq_sound : (s t : List ℕ) → text_eq s t ≡ true → s ≡ t
text_eq_sound [] [] h = refl
text_eq_sound (c ∷ s) (d ∷ t) h = ground (arith, text_eq_sound s t)
text_eq_sound [] (d ∷ t) h = cc h
text_eq_sound (c ∷ s) [] h = cc h
