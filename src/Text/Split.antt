-- ===== src/Text/Split.antt =====
-- split and join of src/spinner_core/spinner_core_util.cpp.
use data_spinner.Base.{
  ℕ, zero, suc, ◌≤◌, ◌<◌, ◌≡◌, ◌≢◌, ◌⊎◌, inl, inr, refl, ap, sym, ◌∙◌, arith, none, some, List, [],
  ◌∷◌, ◌++◌, length, length-append, All, append_assoc, Option-cases,
}
use data_spinner.Records.{Str}
use data_spinner.Text.{join, join_onto, getline, split_loop, split}

-- The byte does not occur in the text.
abbrev pub Lacks : ℕ → Str → Type 0
Lacks c = All (λ b. b ≢ c)

-- Each part with the separator behind it.
abbrev pub terminated : ℕ → List Str → Str
terminated c [] = []
terminated c (p ∷ ps) = p ++ (c ∷ terminated c ps)

-- The last part is not empty.
abbrev pub HasEnd : List Str → Type 0
HasEnd [] = ⊥
HasEnd (p ∷ []) = p ≢ []
HasEnd (p ∷ q ∷ ps) = HasEnd (q ∷ ps)

module _ (c : ℕ) where
  split_loop_end : (fuel : ℕ) → split_loop fuel c [] ≡ []
  unfolding split_loop getline
  split_loop_end zero = refl
  split_loop_end (suc fuel) = refl

  pub getline_part : (p rest : Str) → Lacks c p → getline c (p ++ (c ∷ rest)) ≡ some (p, rest)
  unfolding getline
  getline_part [] rest h = ground arith
  getline_part (b ∷ p) rest (hb, hp) = ground (arith, hb, getline_part p rest hp)

  pub getline_last : (p : Str) → Lacks c p → p ≢ [] → getline c p ≡ some (p, [])
  unfolding getline
  getline_last [] h n = absurd (n refl)
  getline_last (b ∷ []) (hb, hp) n = ground (arith, hb)
  getline_last (b ∷ d ∷ p) (hb, hp) n = ground (arith, hb, getline_last (d ∷ p) hp (λ e. cc))

  pub join_onto-append :
      (a b : Str) (ps : List Str) → join_onto c (a ++ b) ps ≡ a ++ join_onto c b ps
  unfolding join_onto
  join_onto-append a b [] = refl
  join_onto-append a b (p ∷ ps) =
      rw (append_assoc a b (c ∷ p)) (join_onto-append a (b ++ (c ∷ p)) ps)

  join_onto_next :
      (p q : Str) (ps : List Str) → join_onto c p (q ∷ ps) ≡ p ++ (c ∷ join_onto c q ps)
  unfolding join_onto
  join_onto_next p q ps =
      join_onto-append p (c ∷ q) ps ∙ ap (λ t. p ++ t) (join_onto-append (c ∷ []) q ps)

  length-join_onto :
      (p : Str) (ps : List Str) → HasEnd (p ∷ ps) → length (p ∷ ps) ≤ length (join_onto c p ps)
  unfolding join_onto
  length-join_onto [] [] h = absurd (h refl)
  length-join_onto (b ∷ p) [] h = omega arith
  length-join_onto p (q ∷ ps) h =
      rw (join_onto_next p q ps)
        (omega (arith, length-append p (c ∷ join_onto c q ps), length-join_onto q ps h))

  split_loop-joined :
      (fuel : ℕ) (p : Str) (ps : List Str)
      → All (Lacks c) (p ∷ ps)
      → HasEnd (p ∷ ps)
      → length (p ∷ ps) ≤ fuel
      → split_loop fuel c (join_onto c p ps) ≡ p ∷ ps
  unfolding split_loop join_onto
  split_loop-joined zero p ps v h l = absurd (omega arith)
  split_loop-joined (suc fuel) p [] v h l =
      rw (getline_last p v.0 h, split_loop) (ap (λ t. p ∷ t) (split_loop_end fuel))
  split_loop-joined (suc fuel) p (q ∷ ps) v h l =
      rw (join_onto_next p q ps, getline_part p (join_onto c q ps) v.0, split_loop)
        (ap (λ t. p ∷ t) (split_loop-joined fuel q ps v.1 h (omega arith)))

  getline-none : (s : Str) → getline c s ≡ none → s ≡ []
  unfolding getline
  getline-none [] h = refl
  getline-none (d ∷ s) h = ground (arith, h)

  length-terminated : (ps : List Str) → length ps ≤ length (terminated c ps)
  length-terminated [] = omega arith
  length-terminated (p ∷ ps) =
      omega (arith, length-append p (c ∷ terminated c ps), length-terminated ps)

  split_loop-terminated :
      (fuel : ℕ) (ps : List Str)
      → All (Lacks c) ps
      → length ps ≤ fuel
      → split_loop fuel c (terminated c ps) ≡ ps
  unfolding split_loop
  split_loop-terminated fuel [] v l = split_loop_end fuel
  split_loop-terminated zero (p ∷ ps) v l = absurd (omega arith)
  split_loop-terminated (suc fuel) (p ∷ ps) v l =
      rw (getline_part p (terminated c ps) v.0, split_loop)
        (ap (λ t. p ∷ t) (split_loop-terminated fuel ps v.1 (omega arith)))

  -- What getline took and left spells the text, with the separator between them if it was found.
  getline-parts :
      (s l r : Str)
      → getline c s ≡ some (l, r)
      → ((s ≡ l ++ (c ∷ r)) ⊎ ((s ≡ l) × (r ≡ []))) × (length r < length s)
  unfolding getline
  getline-parts [] l r h = cc
  getline-parts (d ∷ s) l r h = elim (Option-cases (getline c s)) [
    | inl e ↦ ground (arith, h, e, getline-none s e)
    | inr ((l', r'), e) ↦ ground (arith, h, e, getline-parts s l' r' e)
  ]

  -- The parts with the separator behind each spell the text, or the text and a separator.
  terminated-split_loop :
      (fuel : ℕ) (s : Str)
      → length s ≤ fuel
      → (terminated c (split_loop fuel c s) ≡ s)
        ⊎ (terminated c (split_loop fuel c s) ≡ s ++ (c ∷ []))
  unfolding split_loop
  terminated-split_loop zero [] h = inl refl
  terminated-split_loop zero (b ∷ s) h = absurd (omega arith)
  terminated-split_loop (suc fuel) s h = elim (Option-cases (getline c s)) [
    | inl e ↦ rw (e, split_loop) (inl (sym (getline-none s e)))
    | inr ((l, r), e) ↦
        let (parts, shorter) = getline-parts s l r e in
        rw (e, split_loop)
          (elim parts [
            | inl whole ↦ elim (terminated-split_loop fuel r (omega arith)) [
              | inl f ↦ inl (ap (λ t. l ++ (c ∷ t)) f ∙ sym whole)
              | inr f ↦ inr (
                  ap (λ t. l ++ (c ∷ t)) f
                  ∙ sym (append_assoc l (c ∷ r) (c ∷ []))
                  ∙ ap (λ t. t ++ (c ∷ [])) (sym whole))
            ]
            | inr (same, empty) ↦ inr (rw (empty, split_loop_end fuel, same) refl)
          ])
  ]

-- Splitting what join made gives the parts back, if none of them has the separator and the last one is not
-- empty.
pub split-join :
    (p : Str) (ps : List Str) (c : ℕ) (s : Str)
    → All (Lacks c) (p ∷ ps)
    → HasEnd (p ∷ ps)
    → join (p ∷ ps) c ≡ some s
    → split s c ≡ p ∷ ps
unfolding split join
split-join p ps c s v h e =
    let e₁ : s ≡ join_onto c p ps = ground (arith, e) in
    rw e₁ (split_loop-joined c (length (join_onto c p ps)) p ps v h (length-join_onto c p ps h))

-- The parts of any text, each with the separator behind it, spell the text, or the text and one separator
-- more: split loses nothing but whether the text ends with the separator.
pub terminated-split :
    (s : Str) (c : ℕ) → (terminated c (split s c) ≡ s) ⊎ (terminated c (split s c) ≡ s ++ (c ∷ []))
unfolding split
terminated-split s c = terminated-split_loop c (length s) s (omega arith)

-- Splitting parts that each end with the separator gives them back, if none of them has it inside.
pub split-terminated : (ps : List Str) (c : ℕ) → All (Lacks c) ps → split (terminated c ps) c ≡ ps
unfolding split
split-terminated ps c v =
    split_loop-terminated c (length (terminated c ps)) ps v (length-terminated c ps)

pub Lacks-append : (c : ℕ) (s t : Str) → Lacks c s → Lacks c t → Lacks c (s ++ t)
Lacks-append c [] t h k = k
Lacks-append c (b ∷ s) t h k = (h.0, Lacks-append c s t h.1 k)
