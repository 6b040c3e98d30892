-- ===== src/Text/Commas.antt =====
-- format_with_commas of src/spinner_core/spinner_core_util.cpp.
use data_spinner.Base.{
  ℕ, zero, suc, ◌+◌, ◌-◌, ◌/◌, ◌%◌, ◌≤◌, ◌<◌, ◌≡◌, refl, ap, sym, ◌∙◌, arith, [], ◌∷◌, ◌++◌, ltb,
  if◌then◌else◌, length, take, drop, length-take, take-append-drop, append_assoc, take-append,
  drop-append, subst, Bool-cases, inl, inr, ltb→lt, lt→ltb, ltb_false→le,
}
use data_spinner.Records.{Str}
use data_spinner.Text.Numbers.{digits_three}
use data_spinner.Text.{insert_comma, comma_loop, with_commas, format_with_commas, negsuc}

-- The text cut from its end into groups of three, with a comma before each but the first.
unfoldable pub grouped : ℕ → Str → Str
grouped zero s = s
grouped (suc k) s =
    let rest = grouped k (take (length s - 3) s) in
    if ltb 3 (length s) then rest ++ (44 ∷ drop (length s - 3) s) else s

comma_loop_end : (fuel : ℕ) (s : Str) → comma_loop fuel 0 s ≡ s
unfolding comma_loop
comma_loop_end zero s = refl
comma_loop_end (suc fuel) s = refl

insert_comma-append : (s tail : Str) → insert_comma (length s) (s ++ tail) ≡ s ++ (44 ∷ tail)
unfolding insert_comma
insert_comma-append s tail = rw (take-append s tail, drop-append s tail) refl

-- Each pass of the loop works on the front of the text alone.
comma_loop-grouped :
    (fuel k : ℕ) (s tail : Str)
    → length s ≤ fuel
    → length s ≤ k
    → 0 < length s
    → comma_loop fuel (length s) (s ++ tail) ≡ grouped k s ++ (44 ∷ tail)
unfolding comma_loop grouped
comma_loop-grouped zero k s tail h l p = absurd (omega arith)
comma_loop-grouped (suc fuel) zero s tail h l p = absurd (omega arith)
comma_loop-grouped (suc fuel) (suc k) s tail h l p = elim (Bool-cases (ltb 3 (length s))) [
  | inl more ↦
      let n = length s - 3 in
      let front = take n s in
      let back = drop n s in
      let long : 3 < length s = ltb→lt 3 (length s) more in
      let e : length front ≡ n = omega (arith, length-take n s) in
      let split : s ++ (44 ∷ tail) ≡ front ++ (back ++ (44 ∷ tail)) =
        ap (λ t. t ++ (44 ∷ tail)) (sym (take-append-drop n s))
        ∙ append_assoc front back (44 ∷ tail) in
      let rest : comma_loop fuel n (front ++ (back ++ (44 ∷ tail)))
          ≡ grouped k front ++ (44 ∷ (back ++ (44 ∷ tail))) =
        subst
          (λ j.
            comma_loop fuel j (front ++ (back ++ (44 ∷ tail)))
            ≡ grouped k front ++ (44 ∷ (back ++ (44 ∷ tail))))
          e
          (comma_loop-grouped fuel k front (back ++ (44 ∷ tail)) (omega arith) (omega arith)
            (omega arith)) in
      rw (lt→ltb 0 (length s) p, more, insert_comma-append s tail)
        (ap (comma_loop fuel n) split
          ∙ rest
          ∙ sym (append_assoc (grouped k front) (44 ∷ back) (44 ∷ tail)))
  | inr few ↦
      let short : length s ≤ 3 = ltb_false→le (length s) 3 few in
      let e : length s - 3 ≡ 0 = omega arith in
      rw (lt→ltb 0 (length s) p, few, insert_comma-append s tail, e)
        (comma_loop_end fuel (s ++ (44 ∷ tail)))
]

-- format_with_commas cuts the text of the number from its end into groups of three.
pub with_commas-grouped : (s : Str) → with_commas s ≡ grouped (length s) s
unfolding with_commas grouped
with_commas-grouped [] = refl
with_commas-grouped (c ∷ t) =
    let s : Str = c ∷ t in
    let n = length s - 3 in
    elim (Bool-cases (ltb 3 (length s))) [
      | inl more ↦
          let long : 3 < length s = ltb→lt 3 (length s) more in
          let front = take n s in
          let e : length front ≡ n = omega (arith, length-take n s) in
          let rest =
            comma_loop-grouped n (length t) front (drop n s) (omega arith) (omega arith)
              (omega arith) in
          rw more (
            ap (comma_loop n n) (sym (take-append-drop n s))
            ∙ subst
                (λ j.
                  comma_loop n j (front ++ drop n s) ≡ grouped (length t) front ++ (44 ∷ drop n s))
                e rest)
      | inr few ↦
          let short : length s ≤ 3 = ltb_false→le (length s) 3 few in
          let e : n ≡ 0 = omega arith in rw (few, e) (comma_loop_end 0 s)
    ]

with_commas_minus : (a b c : ℕ) → with_commas (45 ∷ a ∷ b ∷ c ∷ []) ≡ 45 ∷ 44 ∷ a ∷ b ∷ c ∷ []
unfolding with_commas
with_commas_minus a b c = refl

-- A number from -999 to -100 gets a comma behind its minus sign.
pub format_with_commas_minus :
    (n : ℕ)
    → 98 < n
    → n < 999
    → format_with_commas (negsuc n)
      ≡ 45 ∷ 44 ∷ (48 + (n + 1) / 100) ∷ (48 + (n + 1) / 10 % 10) ∷ (48 + (n + 1) % 10) ∷ []
unfolding format_with_commas
format_with_commas_minus n h k =
    let e : suc n ≡ n + 1 = omega arith in
    rw (digits_three (suc (suc n)) (suc n) (omega arith) (omega arith) (omega arith), e)
      (with_commas_minus _ _ _)
