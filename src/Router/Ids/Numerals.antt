-- ===== src/Router/Ids/Numerals.antt =====
-- The number that a text of digits shows, by its positions, and `from_chars` against it.
use native.Mathlib.Nat.{pow-suc}
use recipes_core.Prelude.{
  ℕ, ◌+◌, ◌-◌, ◌*◌, ◌^◌, ◌≤◌, ◌<◌, pos, Text, ◌≡◌, ap, true, false, Bool-cases, none, some, [], ◌∷◌,
  inl, inr, length, All, ◌==◌, arith,
}
use recipes_core.Router.Ids.{
  is_digit, scan_digits, from_chars, accept_id, in_range, negated, int64_max, starts_with_digit,
}

abbrev pub numeral : Text → ℕ
numeral [] = 0
numeral (c ∷ s) = (c - b'0') * 10 ^ length s + numeral s

abbrev pub AllDigits : Text → Type 0
AllDigits = All (λ c. is_digit c ≡ true)

shift : (acc d p rest : ℕ) → (acc * 10 + d) * p + rest ≡ acc * (p * 10) + (d * p + rest)
shift acc d p rest = grind arith

scan_digits-numeral :
    (acc : ℕ) (s : Text) → AllDigits s → scan_digits acc s ≡ (acc * 10 ^ length s + numeral s, [])
unfolding scan_digits
scan_digits-numeral acc [] h = ground arith
scan_digits-numeral acc (c ∷ s) h =
    rw (h.0, scan_digits-numeral (acc * 10 + (c - b'0')) s h.1, pow-suc 10 (length s))
      (ap {B = ℕ × Text} (λ k. (k, [])) (shift acc (c - b'0') (10 ^ length s) (numeral s)))

scan_digits-rest : (acc : ℕ) (s : Text) → (scan_digits acc s).1 ≡ [] → AllDigits s
unfolding scan_digits
scan_digits-rest acc [] h = tt
scan_digits-rest acc (c ∷ s) h = ground (arith, scan_digits-rest (acc * 10 + (c - b'0')) s)

negated-refused : (most : ℕ) (scanned : ℕ × Text) → accept_id (in_range most negated scanned) ≡ none
negated-refused most (n, []) = ground arith
negated-refused most (n, b ∷ rest) = ground arith

accept-in_range :
    (n k : ℕ) (rest : Text)
    → accept_id (in_range int64_max pos (k, rest)) ≡ some n
    → (rest ≡ []) × (k ≡ n) × (0 < n) × (n ≤ int64_max)
accept-in_range n k [] h = ground arith
accept-in_range n k (b ∷ rest) h = ground arith

in_range-accept :
    (n : ℕ) → 0 < n → n ≤ int64_max → accept_id (in_range int64_max pos (n, [])) ≡ some n
in_range-accept n p h = ground arith

-- What the parsers take from the text behind the prefix: a positive number that an int64_t holds,
-- written by digits alone.
pub record IsIdText (n : ℕ) (id_text : Text) : Type 0 where
  pub digits : AllDigits id_text
  pub shows : numeral id_text ≡ n
  pub positive : 0 < n
  pub fits : n ≤ int64_max

unsigned_sound :
    (n : ℕ) (s : Text)
    → accept_id (in_range int64_max pos (scan_digits 0 s)) ≡ some n
    → IsIdText n s
unsigned_sound n s h = record {
  digits = digits;
  shows = omega (arith, ap (λ (r : ℕ × Text). r.0) (scan_digits-numeral 0 s digits), parts.1);
  positive = parts.2;
  fits = parts.3;
}
  where
    parts : ((scan_digits 0 s).1 ≡ []) × ((scan_digits 0 s).0 ≡ n) × (0 < n) × (n ≤ int64_max)
    parts = accept-in_range n (scan_digits 0 s).0 (scan_digits 0 s).1 h

    digits : AllDigits s
    digits = scan_digits-rest 0 s parts.0

-- The three ways that a text can begin.
from_chars-digit :
    (c : ℕ) (s : Text)
    → is_digit c ≡ true
    → from_chars (c ∷ s) ≡ in_range int64_max pos (scan_digits 0 (c ∷ s))
unfolding from_chars
from_chars-digit c s d = rw (not_minus c d, d)
  where
    not_minus : (c : ℕ) → is_digit c ≡ true → (c == b'-') ≡ false
    not_minus c d = unfold is_digit in ground arith

from_chars-other : (c : ℕ) (s : Text) → is_digit c ≡ false → accept_id (from_chars (c ∷ s)) ≡ none
unfolding from_chars
from_chars-other c s d = elim (Bool-cases (c == b'-')) [
  | inl e ↦ elim (Bool-cases (starts_with_digit s)) [
    | inl f ↦ rw (e, f) (negated-refused (int64_max + 1) (scan_digits 0 s))
    | inr f ↦ rw (e, f)
  ]
  | inr e ↦ rw (e, d)
]

pub from_chars_sound :
    (n : ℕ) (id_text : Text) → accept_id (from_chars id_text) ≡ some n → IsIdText n id_text
from_chars_sound n [] h = unfold from_chars in cc
from_chars_sound n (c ∷ s) h = elim (Bool-cases (is_digit c)) [
  | inl d ↦ unsigned_sound n (c ∷ s) (rw (from_chars-digit c s d) at h)
  | inr d ↦ cc (from_chars-other c s d)
]

pub from_chars_complete :
    (n : ℕ) (id_text : Text) → IsIdText n id_text → accept_id (from_chars id_text) ≡ some n
from_chars_complete n [] h = absurd (omega (arith, h.shows, h.positive))
from_chars_complete n (c ∷ s) h =
    rw (from_chars-digit c s h.digits.0, scan_digits-numeral 0 (c ∷ s) h.digits, total)
      (in_range-accept n h.positive h.fits)
  where
    total : 0 * 10 ^ length (c ∷ s) + numeral (c ∷ s) ≡ n
    total = omega (arith, h.shows)
