-- ===== src/Courts/Autumn/Elements/Names.antt =====
-- The name of an element gives its id back.

use Prim.Native.Char.{char, code}
use package.text.Mathlib.TextLemmas.{nil-append, cons-append}
use jasons_game.Base.{
  ℕ, zero, suc, ◌<◌, ◌≤◌, ◌/◌, ◌%◌, ◌*◌, ◌+◌, ◌≡◌, refl, sym, ◌∙◌, ap, String, false, some, ◌<>◌,
  eqb, ltb, arith, true, Bool-cases, inl, inr,
}
use jasons_game.Game.Commands.Found.{after_prefix-append}
use jasons_game.Courts.Autumn.Combinations.{ℤ, pos, negsuc}
use jasons_game.Courts.Autumn.Elements.{
  Element, digit, hex_digits, format_int, name_of_element, digit_value, digits_value, parse_uint,
  as_positive, as_negative, bounded, parse_int, trim_prefix, element_name_to_id, id_or_zero,
  element_name_prefix,
}

absurd {ℓ} : {A : Type ℓ} → ⊥ → A
absurd e = elim e [ ]

below : (n k : ℕ) → ltb n k ≡ true → n < k
below n k e = ground arith

above : (n k : ℕ) → ltb n k ≡ false → k ≤ n
above n k e = ground arith

ltb_of_lt : (n k : ℕ) → n < k → ltb n k ≡ true
ltb_of_lt n k h = ground arith

digit_lem :
    (k : ℕ)
    → k < 16
    → (digit_value (code (digit k)) ≡ some k)
      × (eqb (code (digit k)) 43 ≡ false)
      × (eqb (code (digit k)) 45 ≡ false)
unfolding digit_value
digit_lem zero h = (refl, refl, refl)
digit_lem (suc zero) h = (refl, refl, refl)
digit_lem (suc (suc zero)) h = (refl, refl, refl)
digit_lem (suc (suc (suc zero))) h = (refl, refl, refl)
digit_lem (suc (suc (suc (suc zero)))) h = (refl, refl, refl)
digit_lem (suc (suc (suc (suc (suc zero))))) h = (refl, refl, refl)
digit_lem (suc (suc (suc (suc (suc (suc zero)))))) h = (refl, refl, refl)
digit_lem (suc (suc (suc (suc (suc (suc (suc zero))))))) h = (refl, refl, refl)
digit_lem (suc (suc (suc (suc (suc (suc (suc (suc zero)))))))) h = (refl, refl, refl)
digit_lem (suc (suc (suc (suc (suc (suc (suc (suc (suc zero))))))))) h = (refl, refl, refl)
digit_lem (suc (suc (suc (suc (suc (suc (suc (suc (suc (suc zero)))))))))) h = (refl, refl, refl)
digit_lem (suc (suc (suc (suc (suc (suc (suc (suc (suc (suc (suc zero))))))))))) h =
    (refl, refl, refl)
digit_lem (suc (suc (suc (suc (suc (suc (suc (suc (suc (suc (suc (suc zero)))))))))))) h =
    (refl, refl, refl)
digit_lem (suc (suc (suc (suc (suc (suc (suc (suc (suc (suc (suc (suc (suc zero))))))))))))) h =
    (refl, refl, refl)
digit_lem (suc (suc (suc (suc (suc (suc (suc (suc (suc (suc (suc (suc (suc (suc zero))))))))))))))
      h =
    (refl, refl, refl)
digit_lem
      (suc (suc (suc (suc (suc (suc (suc (suc (suc (suc (suc (suc (suc (suc (suc zero)))))))))))))))
      h =
    (refl, refl, refl)
digit_lem
      (suc
        (suc (suc (suc (suc (suc (suc (suc (suc (suc (suc (suc (suc (suc (suc (suc k))))))))))))))))
      h =
    absurd (omega arith)

digits_value-digit :
    (n k : ℕ) (s : String)
    → k < 16
    → digits_value n (String.◌∷◌ (digit k) s) ≡ digits_value (n * 16 + k) s
unfolding digits_value
digits_value-digit n k s h = rw (digits_value, (digit_lem k h).0) refl

-- Digits put before a text are read as their number, and reading goes on with the text.
digits_value-hex_digits :
    (f n : ℕ) (rest : String) → n < f → digits_value 0 (hex_digits f n rest) ≡ digits_value n rest
unfolding hex_digits
digits_value-hex_digits zero n rest h = absurd (omega arith)
digits_value-hex_digits (suc f) n rest h =
    let next = String.◌∷◌ (digit (n % 16)) rest in
    elim (Bool-cases (ltb n 16)) [
      | inl l ↦
          let lt = below n 16 l in
          rw (l) (
            digits_value-digit 0 (n % 16) rest (omega arith)
            ∙ ap (λ k. digits_value k rest) (omega arith))
      | inr g ↦
          let le = above n 16 g in
          rw (g) (
            digits_value-hex_digits f (n / 16) next (omega arith)
            ∙ digits_value-digit (n / 16) (n % 16) rest (omega arith)
            ∙ ap (λ k. digits_value k rest) (omega arith))
    ]

-- Digits begin with a digit.
hex_digits_first :
    (f n : ℕ) (rest : String)
    → n < f
    → (k : ℕ) × (s : String) × (k < 16) × (hex_digits f n rest ≡ String.◌∷◌ (digit k) s)
unfolding hex_digits
hex_digits_first zero n rest h = absurd (omega arith)
hex_digits_first (suc f) n rest h = elim (Bool-cases (ltb n 16)) [
  | inl l ↦ (n % 16, rest, omega arith, rw (l) refl)
  | inr g ↦
      let le = above n 16 g in
      let (k, s, b, e) =
        hex_digits_first f (n / 16) (String.◌∷◌ (digit (n % 16)) rest) (omega arith) in
      (k, s, b, rw (g) e)
]

parse_uint-hex_digits : (f n : ℕ) → n < f → parse_uint (hex_digits f n "") ≡ some n
unfolding parse_uint digits_value
parse_uint-hex_digits f n h =
    let (k, s, b, e) = hex_digits_first f n "" h in
    ap parse_uint e ∙ ap (digits_value 0) (sym e) ∙ digits_value-hex_digits f n "" h

parse_int_unsigned :
    (f n : ℕ) → n < f → parse_int (hex_digits f n "") ≡ bounded as_positive (some n)
unfolding parse_int
parse_int_unsigned f n h =
    let (k, s, b, e) = hex_digits_first f n "" h in
    let (_, plus, minus) = digit_lem k b in
    ap parse_int e
    ∙ rw (plus, minus) refl
    ∙ ap (λ t. bounded as_positive (parse_uint t)) (sym e)
    ∙ ap (bounded as_positive) (parse_uint-hex_digits f n h)

-- The integers of 64 bits.
abbrev pub IsInt64 : ℤ → Type 0
IsInt64 (pos n) = n < 9223372036854775808
IsInt64 (negsuc n) = n < 9223372036854775808

parse_int-format_int : (i : ℤ) → IsInt64 i → parse_int (format_int i) ≡ some i
unfolding parse_int format_int bounded as_positive as_negative
parse_int-format_int (pos n) h =
    parse_int_unsigned (suc n) n (omega arith) ∙ rw (ltb_of_lt n 9223372036854775808 h) refl
parse_int-format_int (negsuc n) h =
    let digits = hex_digits (suc (suc n)) (suc n) "" in
    ap parse_int (cons-append (char 45 tt) "" digits)
    ∙ ap (λ t. bounded as_negative (parse_uint t)) (nil-append digits)
    ∙ ap (bounded as_negative) (parse_uint-hex_digits (suc (suc n)) (suc n) (omega arith))
    ∙ rw (ltb_of_lt n 9223372036854775808 h) refl

trim_prefix-append : (p s : String) → trim_prefix (p <> s) p ≡ s
unfolding trim_prefix
trim_prefix-append p s = rw (trim_prefix, after_prefix-append p s) refl

-- The name of an element whose id is an integer of 64 bits is read as the id.
pub element_name_to_id-name :
    (e : Element) → IsInt64 e.id → element_name_to_id (name_of_element e) ≡ e.id
unfolding element_name_to_id name_of_element id_or_zero
element_name_to_id-name e h =
    ap (λ t. id_or_zero (parse_int t)) (trim_prefix-append element_name_prefix (format_int e.id))
    ∙ ap id_or_zero (parse_int-format_int e.id h)
