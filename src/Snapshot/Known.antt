-- ===== src/Snapshot/Known.antt =====
-- Which references MdRefTable (src/ref_table.cpp) has after regenerate_ref_data (src/simulator.cpp).
use data_spinner.Base.{
  ℕ, zero, suc, ◌+◌, ◌≤◌, ◌<◌, ◌≡◌, refl, arith, Bool, true, false, ◌||◌, Option, none, some, List,
  [], ◌∷◌, Bool-cases, Option-cases, inl, inr, lt→ltb,
}
use data_spinner.Records.{Str}
use data_spinner.Ref.{
  MdRef, get_field, get_intdata, get_strdata, set_intdata, set_dbldata, set_strdata, set_bit,
  test_bit, snapshot_fields_num,
}
use data_spinner.Text.{same_str}
use data_spinner.Text.Equal.{same_str_refl, same_str_eq}
use data_spinner.Dispatcher.{contains}
use data_spinner.Snapshot.{
  MdRefTable, Doubles, find_ref, store_ref, next_int, next_dbl, next_str, next_fields, next_ref,
  fill_ref, regenerate_found, regenerate_ref_data, ◌>>=◌,
}

abbrev pub has_ref : Str → MdRefTable → Bool
has_ref s t = elim (find_ref s t) [ none ↦ false | some r ↦ true ]

has-store_ref :
    (s k : Str) (r : MdRef) (t : MdRefTable)
    → has_ref s (store_ref k r t) ≡ (same_str s k || has_ref s t)
unfolding find_ref store_ref
has-store_ref s k r [] = ground arith
has-store_ref s k r (e ∷ t) = elim (Bool-cases (same_str k e.0)) [
  | inl h ↦ rw (same_str_eq k e.0 h, same_str_refl e.0) (ground arith)
  | inr h ↦ ground (arith, h, has-store_ref s k r t)
]

abbrev is_there : {A : Type 0} → Option A → Bool
is_there none = false
is_there (some a) = true

is_there_bind :
    {A B : Type 0} (o : Option A) (f : A → Option B)
    → is_there o ≡ true
    → ((a : A) → is_there (f a) ≡ true)
    → is_there (o >>= f) ≡ true
is_there_bind none f h k = cc
is_there_bind (some a) f h k = k a

-- Within the bitset nothing is thrown.
next_int_there :
    (i : ℕ) (r : MdRef) → i < snapshot_fields_num → is_there (next_int i r (get_intdata i r)) ≡ true
unfolding next_int get_intdata set_intdata get_field test_bit set_bit
next_int_there i r h = ground (arith, lt→ltb i snapshot_fields_num h)

next_dbl_there :
    (dbl : Doubles) (i : ℕ) (r : MdRef)
    → i < snapshot_fields_num
    → is_there (next_dbl dbl i r (get_intdata i r)) ≡ true
unfolding next_dbl get_intdata set_dbldata get_field test_bit set_bit
next_dbl_there dbl i r h = ground (arith, lt→ltb i snapshot_fields_num h)

next_str_there :
    (i : ℕ) (r : MdRef) → i < snapshot_fields_num → is_there (next_str i r (get_strdata i r)) ≡ true
unfolding next_str get_strdata set_strdata get_field test_bit set_bit
next_str_there i r h = ground (arith, lt→ltb i snapshot_fields_num h)

next_ref_there :
    (dbl : Doubles) (n i : ℕ) (r : MdRef)
    → i + n ≤ snapshot_fields_num
    → is_there (next_ref dbl n i r) ≡ true
unfolding next_ref next_fields
next_ref_there dbl zero i r h = refl
next_ref_there dbl (suc n) i r h =
    let room : i < snapshot_fields_num = omega arith in
    is_there_bind (next_fields dbl i r) (next_ref dbl n (i + 1))
      (is_there_bind (next_int i r (get_intdata i r)) _ (next_int_there i r room) λ r₁.
        is_there_bind (next_dbl dbl i r₁ (get_intdata i r₁)) _ (next_dbl_there dbl i r₁ room)
          λ r₂. next_str_there i r₂ room)
      λ r₁. next_ref_there dbl n (i + 1) r₁ (omega arith)

-- The table that is returned has what the one before had, and the symbols.
abbrev pub Regenerated : List Str → MdRefTable → Option MdRefTable → Type 0
Regenerated ss t none = ⊥
Regenerated ss t (some t₁) = (s : Str) → has_ref s t₁ ≡ (contains s ss || has_ref s t)

Regenerated-next :
    (k : Str) (ss : List Str) (t t₁ : MdRefTable)
    → ((s : Str) → has_ref s t₁ ≡ (same_str s k || has_ref s t))
    → (o : Option MdRefTable) → Regenerated ss t₁ o
    → Regenerated (k ∷ ss) t o
unfolding contains
Regenerated-next k ss t t₁ h none v = v
Regenerated-next k ss t t₁ h (some t₂) v = λ s. ground (arith, v s, h s)

-- regenerate_ref_data throws nothing, and the table behind it has a reference of exactly the symbols that it
-- had one of and of those that it was called with.
pub regenerate_ref_data-Regenerated :
    (dbl : Doubles) (blank : MdRef) (ss : List Str) (t : MdRefTable)
    → Regenerated ss t (regenerate_ref_data dbl blank ss t)
unfolding regenerate_ref_data regenerate_found contains
regenerate_ref_data-Regenerated dbl blank [] t = λ s. refl
regenerate_ref_data-Regenerated dbl blank (k ∷ ss) t = elim (Option-cases (find_ref k t)) [
  | inl e ↦
      let r = fill_ref dbl 30 0 (record blank { symbol = k }) in
      rw e (
        Regenerated-next k ss t (store_ref k r t) (λ s. has-store_ref s k r t)
          (regenerate_ref_data dbl blank ss (store_ref k r t))
          (regenerate_ref_data-Regenerated dbl blank ss (store_ref k r t)))
  | inr (r, e) ↦ elim (Option-cases (next_ref dbl 30 0 r)) [
    | inl f ↦ let there = next_ref_there dbl 30 0 r (omega arith) in absurd cc
    | inr (r₁, f) ↦
        rw (e, f)
          (Regenerated-next k ss t (store_ref k r₁ t) (λ s. has-store_ref s k r₁ t)
            (regenerate_ref_data dbl blank ss (store_ref k r₁ t))
            (regenerate_ref_data-Regenerated dbl blank ss (store_ref k r₁ t)))
  ]
]
