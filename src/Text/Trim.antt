-- ===== src/Text/Trim.antt =====
-- trim of src/spinner_core/spinner_core_util.cpp.
use data_spinner.Base.{ℕ, ◌≡◌, refl, ap, ◌∙◌, true, false, [], ◌∷◌, ◌++◌, All, Bool-cases, inl, inr}
use data_spinner.Records.{Str}
use data_spinner.Text.{isspace, erase_front, erase_back, keep, trim}

abbrev pub Blank : Str → Type 0
Blank = All (λ c. isspace c ≡ true)

-- No space in front, and none at the end.
abbrev pub StartsWell : Str → Type 0
StartsWell [] = Unit
StartsWell (c ∷ s) = isspace c ≡ false

abbrev pub EndsWell : Str → Type 0
EndsWell [] = Unit
EndsWell (c ∷ []) = isspace c ≡ false
EndsWell (c ∷ d ∷ s) = EndsWell (d ∷ s)

-- The text is `t` between spaces, and `t` has none at its ends.
pub record Trimmed (s t : Str) : Type 0 where
  pub front : Str
  pub back : Str
  pub whole : s ≡ front ++ (t ++ back)
  pub front_blank : Blank front
  pub back_blank : Blank back
  pub starts : StartsWell t
  pub ends : EndsWell t

erase_front-parts :
    (s : Str)
    → (front : Str) × (s ≡ front ++ erase_front s) × Blank front × StartsWell (erase_front s)
unfolding erase_front
erase_front-parts [] = ([], refl, tt, tt)
erase_front-parts (c ∷ s) = elim (Bool-cases (isspace c)) [
  | inl y ↦
      let (front, e, b, w) = erase_front-parts s in rw y (c ∷ front, ap (λ t. c ∷ t) e, (y, b), w)
  | inr n ↦ rw n ([], refl, tt, n)
]

keep-parts :
    (c : ℕ) (t back : Str)
    → Blank back
    → EndsWell t
    → (b : Str) × (c ∷ (t ++ back) ≡ keep c t ++ b) × Blank b × EndsWell (keep c t)
unfolding keep
keep-parts c [] back b w = elim (Bool-cases (isspace c)) [
  | inl y ↦ rw y (c ∷ back, refl, (y, b), tt)
  | inr n ↦ rw n (back, refl, b, n)
]
keep-parts c (d ∷ t) back b w = (back, refl, b, w)

erase_back-parts :
    (s : Str) → (back : Str) × (s ≡ erase_back s ++ back) × Blank back × EndsWell (erase_back s)
unfolding erase_back
erase_back-parts [] = ([], refl, tt, tt)
erase_back-parts (c ∷ s) =
    let (back, e, b, w) = erase_back-parts s in
    let (back', e', b', w') = keep-parts c (erase_back s) back b w in
    (back', ap (λ t. c ∷ t) e ∙ e', b', w')

keep-StartsWell : (c : ℕ) (t : Str) → isspace c ≡ false → StartsWell (keep c t)
unfolding keep
keep-StartsWell c [] n = rw n n
keep-StartsWell c (d ∷ t) n = n

erase_back-StartsWell : (s : Str) → StartsWell s → StartsWell (erase_back s)
unfolding erase_back
erase_back-StartsWell [] w = tt
erase_back-StartsWell (c ∷ s) w = keep-StartsWell c (erase_back s) w

-- trim takes the spaces off both ends of a text, and nothing else.
pub trim-Trimmed : (s : Str) → Trimmed s (trim s)
unfolding trim
trim-Trimmed s =
    let (front, e, b, w) = erase_front-parts s in
    let (back, e', b', w') = erase_back-parts (erase_front s) in
    record {
      front = front;
      back = back;
      whole = e ∙ ap (λ t. front ++ t) e';
      front_blank = b;
      back_blank = b';
      starts = erase_back-StartsWell (erase_front s) w;
      ends = w';
    }
