-- ===== src/Text/Numbers.antt =====
-- std::to_string and std::stoi, as src/spinner_core uses them.
use data_spinner.Base.{
  ℕ, zero, suc, ◌+◌, ◌-◌, ◌*◌, ◌/◌, ◌%◌, ◌<◌, ◌==◌, ◌≡◌, ◌≢◌, ◌∙◌, All, refl, arith, true, false,
  some, [], ◌∷◌, ltb, Bool-cases, inl, inr, ltb→lt, ltb_false→le, lt→ltb, le→ltb_false,
}
use data_spinner.Records.{Str}
use data_spinner.Text.{
  ℤ, pos, negsuc, digits_onto, to_string, isdigit, digits_value, unsigned, stoi, isspace, to_int,
}

-- The text begins with a digit.
abbrev pub StartsDigit : Str → Type 0
StartsDigit [] = ⊥
StartsDigit (c ∷ s) = isdigit c ≡ true

digits_onto-StartsDigit : (fuel n : ℕ) (acc : Str) → n < fuel → StartsDigit (digits_onto fuel n acc)
unfolding digits_onto
digits_onto-StartsDigit zero n acc h = absurd (omega arith)
digits_onto-StartsDigit (suc fuel) n acc h = elim (Bool-cases (ltb n 10)) [
  | inl few ↦ rw few (ground (arith, few))
  | inr more ↦
      let big = ltb_false→le 10 n more in
      rw more (digits_onto-StartsDigit fuel (n / 10) ((48 + n % 10) ∷ acc) (omega arith))
]

digits_value_digit :
    (v d : ℕ) (acc : Str) → d < 10 → digits_value v ((48 + d) ∷ acc) ≡ digits_value (v * 10 + d) acc
unfolding digits_value
digits_value_digit v d acc h =
    let e : 48 + d - 48 ≡ d = omega arith in
    let digit : isdigit (48 + d) ≡ true = ground arith in rw (digit, e) refl

digits_value-digits_onto :
    (fuel n : ℕ) (acc : Str)
    → n < fuel
    → digits_value 0 (digits_onto fuel n acc) ≡ digits_value n acc
unfolding digits_onto
digits_value-digits_onto zero n acc h = absurd (omega arith)
digits_value-digits_onto (suc fuel) n acc h = elim (Bool-cases (ltb n 10)) [
  | inl few ↦
      let e : 0 * 10 + n ≡ n = omega arith in
      rw few (digits_value_digit 0 n acc (ltb→lt n 10 few) ∙ rw e refl)
  | inr more ↦
      let big = ltb_false→le 10 n more in
      let e : n / 10 * 10 + n % 10 ≡ n = omega arith in
      rw more (
        digits_value-digits_onto fuel (n / 10) ((48 + n % 10) ∷ acc) (omega arith)
        ∙ digits_value_digit (n / 10) (n % 10) acc (omega arith)
        ∙ rw e refl)
]

unsigned-digits : (fuel n : ℕ) → n < fuel → unsigned (digits_onto fuel n []) ≡ some n
unsigned-digits fuel n h =
    go (digits_onto fuel n []) (digits_onto-StartsDigit fuel n [] h)
      (digits_value-digits_onto fuel n [] h ∙ unfold digits_value in refl)
  where
    go : (s : Str) → StartsDigit s → digits_value 0 s ≡ n → unsigned s ≡ some n
    go [] d e = absurd d
    go (c ∷ s) d e = unfold unsigned in rw (d, e) refl

-- A text that begins with a digit has no sign and no space in front.
stoi-digits : (s : Str) → StartsDigit s → stoi s ≡ to_int (unsigned s)
unfolding stoi
stoi-digits [] d = absurd d
stoi-digits (c ∷ s) d =
    let (no_space, (no_minus, no_plus)) : (isspace c ≡ false)
        × (((c == 45) ≡ false) × ((c == 43) ≡ false)) =
      (ground (arith, d), (ground (arith, d), ground (arith, d))) in
    rw (no_space, no_minus, no_plus) refl

-- The range of an int.
abbrev pub IsInt : ℤ → Type 0
IsInt (pos n) = n < 2147483648
IsInt (negsuc n) = n < 2147483648

-- std::stoi reads back what std::to_string writes, for every int.
pub stoi-to_string : (z : ℤ) → IsInt z → stoi (to_string z) ≡ some z
stoi-to_string (pos n) h =
    unfold to_string in
    (stoi-digits (digits_onto (suc n) n []) (digits_onto-StartsDigit (suc n) n [] (omega arith))
      ∙ rw (unsigned-digits (suc n) n (omega arith), lt→ltb n 2147483648 h) refl)
stoi-to_string (negsuc n) h =
    unfold to_string stoi in
    rw (unsigned-digits (suc (suc n)) (suc n) (omega arith), lt→ltb n 2147483648 h) refl

digits_onto-Lacks :
    (fuel n : ℕ) (acc : Str) → All (λ b. b ≢ 10) acc → All (λ b. b ≢ 10) (digits_onto fuel n acc)
unfolding digits_onto
digits_onto-Lacks zero n acc h = h
digits_onto-Lacks (suc fuel) n acc h = elim (Bool-cases (ltb n 10)) [
  | inl few ↦ rw few (omega arith, h)
  | inr more ↦ rw more (digits_onto-Lacks fuel (n / 10) ((48 + n % 10) ∷ acc) (omega arith, h))
]

ne-nil_of_digit : (s : Str) → StartsDigit s → s ≢ []
ne-nil_of_digit [] d = absurd d
ne-nil_of_digit (c ∷ s) d = λ e. cc

-- A number stands on a line of its own.
pub to_string-IsLine : (z : ℤ) → All (λ b. b ≢ 10) (to_string z) × (to_string z ≢ [])
unfolding to_string
to_string-IsLine (pos n) = (
  digits_onto-Lacks (suc n) n [] tt,
  ne-nil_of_digit (digits_onto (suc n) n []) (digits_onto-StartsDigit (suc n) n [] (omega arith)),
)
to_string-IsLine (negsuc n) =
    ((omega arith, digits_onto-Lacks (suc (suc n)) (suc n) [] tt), λ e. cc)

-- A number of three digits.
pub digits_three :
    (fuel n : ℕ)
    → 99 < n
    → n < 1000
    → n < fuel
    → digits_onto fuel n [] ≡ (48 + n / 100) ∷ (48 + n / 10 % 10) ∷ (48 + n % 10) ∷ []
unfolding digits_onto
digits_three (suc (suc (suc fuel))) n h k f =
    let a : ltb n 10 ≡ false = le→ltb_false 10 n (omega arith) in
    let b : ltb (n / 10) 10 ≡ false = le→ltb_false 10 (n / 10) (omega arith) in
    let c : ltb (n / 10 / 10) 10 ≡ true = lt→ltb (n / 10 / 10) 10 (omega arith) in
    let e : n / 10 / 10 ≡ n / 100 = omega arith in rw (a, b, c, e) refl
digits_three (suc (suc zero)) n h k f = absurd (omega arith)
digits_three (suc zero) n h k f = absurd (omega arith)
digits_three zero n h k f = absurd (omega arith)
