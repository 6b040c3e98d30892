-- ===== src/Builder/Values.antt =====
-- A whole run of a builder: begin, any number of values, end.
use data_spinner.Base.{
  ℕ, ◌≡◌, refl, ap, sym, ◌∙◌, Bool, true, false, List, [], ◌∷◌, Bool-cases, inl, inr,
}
use data_spinner.Builder.{Publisher, MdDeltaBuilder, add_intdata, add_dbldata}
use data_spinner.Builder.Entries.{
  Entries, ◌and_then◌, no_entries, an_int, an_dbl, and_then_assoc, and_then_none, IsBuilder,
}
use data_spinner.Builder.Adds.{IsPublisher, given, Gives, add_intdata-Gives, add_dbldata-Gives}

pub data Value : Type 0 where
  int_value dbl_value : ℕ → ℕ → Value

unfoldable pub entry : Value → Entries
entry (int_value i v) = an_int i v
entry (dbl_value i v) = an_dbl i v

-- The values that a run was given and that it accepted.
unfoldable pub accepted : List (Value × Bool) → Entries
accepted [] = no_entries
accepted ((v, true) ∷ vs) = entry v and_then accepted vs
accepted ((v, false) ∷ vs) = accepted vs

module _ {P : Type 0} (publisher : Publisher P) where
  -- One value, at time `now`.
  unfoldable pub add_value : ℕ → Value → MdDeltaBuilder → P → Bool × MdDeltaBuilder × P
  add_value now (int_value i v) b p = add_intdata publisher now i v b p
  add_value now (dbl_value i v) b p = add_dbldata publisher now i v b p

  -- All values, with what the builder answered to each.
  unfoldable pub add_values :
      ℕ → List Value → MdDeltaBuilder → P → List (Value × Bool) × MdDeltaBuilder × P
  add_values now [] b p = ([], b, p)
  add_values now (v ∷ vs) b p =
      let r = add_value now v b p in let s = add_values now vs r.1 r.2 in ((v, r.0) ∷ s.0, s.1, s.2)

  module _ (law : IsPublisher publisher) where
    add_value-Gives :
        (now : ℕ) (v : Value) (b : MdDeltaBuilder) (p : P)
        → IsBuilder b
        → Gives publisher law b p (entry v) (add_value now v b p)
    unfolding add_value entry
    add_value-Gives now (int_value i v) b p w = add_intdata-Gives publisher law now i v b p w
    add_value-Gives now (dbl_value i v) b p w = add_dbldata-Gives publisher law now i v b p w

    -- Whatever the publisher takes or refuses, what was published and is held after any adds is
    -- what was before and, in order, the values whose add returned true.
    pub add_values-accepted :
        (now : ℕ) (vs : List Value) (b : MdDeltaBuilder) (p : P)
        → IsBuilder b
        → IsBuilder (add_values now vs b p).1
          × (given publisher law (add_values now vs b p).1 (add_values now vs b p).2
              ≡ given publisher law b p and_then accepted (add_values now vs b p).0)
    unfolding add_values accepted
    add_values-accepted now [] b p w = (w, sym (and_then_none (given publisher law b p)))
    add_values-accepted now (v ∷ vs) b p w =
        let (w₁, g) = add_value-Gives now v b p w in
        let b₁ : MdDeltaBuilder = (add_value now v b p).1 in
        let p₁ : P = (add_value now v b p).2 in
        let (w₂, h) = add_values-accepted now vs b₁ p₁ w₁ in
        let rest : Entries = accepted (add_values now vs b₁ p₁).0 in
        elim (Bool-cases (add_value now v b p).0) [
          | inl t ↦ (
            w₂,
            h
                ∙ ap (λ e. e and_then rest) (rw t at g)
                ∙ and_then_assoc (given publisher law b p) (entry v) rest
                ∙ rw t refl,
          )
          | inr n ↦ (w₂, h ∙ ap (λ e. e and_then rest) (rw n at g) ∙ rw n refl)
        ]
