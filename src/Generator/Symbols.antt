-- ===== src/Generator/Symbols.antt =====
-- The symbols of the deltas that the generators of src/simulator.h publish.
use data_spinner.Base.{
  ℕ, zero, suc, ◌+◌, ◌*◌, ◌==◌, ◌≡◌, refl, ap, sym, ◌∙◌, true, List, [], ◌∷◌, ◌++◌, All,
  append_assoc, append-nil, append_cancel_left, Bool-cases, inl, inr,
}
use data_spinner.Wire.{u32}
use data_spinner.Records.{Str, u16}
use data_spinner.Delta.{MdDelta, int_delta_size, dbl_delta_size}
use data_spinner.Builder.{
  Publisher, MdDeltaBuilder, init_delta, begin_delta, full_delta, write_intdata, write_dbldata,
  flush_delta, flush_and_begin, add_intdata, add_dbldata, end_delta,
}
use data_spinner.Builder.Entries.{
  Entries, ◌and_then◌, arrays_entries, all_entries, and_then_assoc, IsBuilder,
}
use data_spinner.Builder.Adds.{IsPublisher}
use data_spinner.Generator.{
  new_builder, add_ints, add_dbls, send_symbol, send_symbols, send_generated_delta,
}
use data_spinner.Generator.Whole.{int_entries, dbl_entries, send_symbol-published}

-- Every delta is of the symbol.
abbrev pub Of : Str → List MdDelta → Type 0
Of s = All (λ d. d.symbol ≡ s)

Of-append : (s : Str) (xs ys : List MdDelta) → Of s xs → Of s ys → Of s (xs ++ ys)
Of-append s [] ys h k = k
Of-append s (x ∷ xs) ys h k = (h.0, Of-append s xs ys h.1 k)

pub all_entries-append_all :
    (xs ys : List MdDelta) → all_entries (xs ++ ys) ≡ all_entries xs and_then all_entries ys
unfolding all_entries
all_entries-append_all [] ys = refl
all_entries-append_all (x ∷ xs) ys =
    ap (λ t. arrays_entries x.size.intdata_len x.size.dbldata_len x and_then t)
      (all_entries-append_all xs ys)
    ∙ sym (
        and_then_assoc (arrays_entries x.size.intdata_len x.size.dbldata_len x) (all_entries xs)
          (all_entries ys))

pub and_then_cancel : (a b c : Entries) → a and_then b ≡ a and_then c → b ≡ c
and_then_cancel a b c h =
    let i = append_cancel_left a.int_idx (ap (λ e. e.int_idx) h) in
    let j = append_cancel_left a.int_val (ap (λ e. e.int_val) h) in
    let k = append_cancel_left a.dbl_idx (ap (λ e. e.dbl_idx) h) in
    let l = append_cancel_left a.dbl_val (ap (λ e. e.dbl_val) h) in cc

module _ {P : Type 0} (publisher : Publisher P) (law : IsPublisher publisher) (times : ℕ → ℕ)
    (now : ℕ) where
  -- The publisher took only deltas of the symbol.
  abbrev pub Adds : Str → P → P → Type 0
  Adds s p p' = (ds : List MdDelta) × (law.published p' ≡ law.published p ++ ds) × Of s ds

  Adds-refl : (s : Str) (p : P) → Adds s p p
  Adds-refl s p = ([], sym (append-nil (law.published p)), tt)

  Adds-trans : (s : Str) (p q r : P) → Adds s p q → Adds s q r → Adds s p r
  Adds-trans s p q r (ds, e, h) (fs, f, k) = (
    ds ++ fs,
    f ∙ ap (λ t. t ++ fs) e ∙ append_assoc (law.published p) ds fs,
    Of-append s ds fs h k,
  )

  -- The builder works on the symbol.
  pub record WorksOn (s : Str) (b : MdDeltaBuilder) : Type 0 where
    pub named : b.symbol ≡ s
    pub of_delta : b.delta.symbol ≡ s

  abbrev pub Tracks : Str → P → MdDeltaBuilder × P → Type 0
  Tracks s p r = WorksOn s r.0 × Adds s p r.1

  publish-Adds :
      (s : Str) (b : MdDeltaBuilder) (p : P)
      → b.delta.symbol ≡ s
      → Adds s p (publisher.publish (full_delta now b) p).1
  publish-Adds s b p h = elim (Bool-cases (publisher.publish (full_delta now b) p).0) [
    | inl t ↦
        (full_delta now b ∷ [], law.takes (full_delta now b) p t, (unfold full_delta in h, tt))
    | inr n ↦ ([], law.refuses (full_delta now b) p n ∙ sym (append-nil (law.published p)), tt)
  ]

  add_intdata-Tracks :
      (i v : ℕ) (s : Str) (b : MdDeltaBuilder) (p : P)
      → WorksOn s b
      → Tracks s p ((add_intdata publisher now i v b p).1, (add_intdata publisher now i v b p).2)
  unfolding add_intdata flush_and_begin flush_delta init_delta write_intdata full_delta
  add_intdata-Tracks i v s b p w = elim (Bool-cases (b.int_idx == int_delta_size)) [
    | inl y ↦ elim (Bool-cases (publisher.publish (full_delta now b) p).0) [
      | inl t ↦
          rw (y, t) (record { named = w.named; of_delta = w.named }, publish-Adds s b p w.of_delta)
      | inr n ↦
          rw (y, n)
            (record { named = w.named; of_delta = w.of_delta }, publish-Adds s b p w.of_delta)
    ]
    | inr n ↦ rw n (record { named = w.named; of_delta = w.of_delta }, Adds-refl s p)
  ]

  add_dbldata-Tracks :
      (i v : ℕ) (s : Str) (b : MdDeltaBuilder) (p : P)
      → WorksOn s b
      → Tracks s p ((add_dbldata publisher now i v b p).1, (add_dbldata publisher now i v b p).2)
  unfolding add_dbldata flush_and_begin flush_delta init_delta write_dbldata full_delta
  add_dbldata-Tracks i v s b p w = elim (Bool-cases (b.dbl_idx == dbl_delta_size)) [
    | inl y ↦ elim (Bool-cases (publisher.publish (full_delta now b) p).0) [
      | inl t ↦
          rw (y, t) (record { named = w.named; of_delta = w.named }, publish-Adds s b p w.of_delta)
      | inr n ↦
          rw (y, n)
            (record { named = w.named; of_delta = w.of_delta }, publish-Adds s b p w.of_delta)
    ]
    | inr n ↦ rw n (record { named = w.named; of_delta = w.of_delta }, Adds-refl s p)
  ]

  add_ints-Tracks :
      (n i : ℕ) (s : Str) (b : MdDeltaBuilder) (p : P)
      → WorksOn s b
      → Tracks s p (add_ints publisher times now n i b p)
  unfolding add_ints
  add_ints-Tracks zero i s b p w = (w, Adds-refl s p)
  add_ints-Tracks (suc n) i s b p w =
      let r = add_intdata publisher now (u16 i) (u32 (i * 10)) b p in
      let (w₁, a) = add_intdata-Tracks (u16 i) (u32 (i * 10)) s b p w in
      let (w₂, c) = add_ints-Tracks n (i + 1) s r.1 r.2 w₁ in
      (w₂, Adds-trans s p r.2 (add_ints publisher times now n (i + 1) r.1 r.2).1 a c)

  add_dbls-Tracks :
      (n i : ℕ) (s : Str) (b : MdDeltaBuilder) (p : P)
      → WorksOn s b
      → Tracks s p (add_dbls publisher times now n i b p)
  unfolding add_dbls
  add_dbls-Tracks zero i s b p w = (w, Adds-refl s p)
  add_dbls-Tracks (suc n) i s b p w =
      let r = add_dbldata publisher now (u16 i) (times i) b p in
      let (w₁, a) = add_dbldata-Tracks (u16 i) (times i) s b p w in
      let (w₂, c) = add_dbls-Tracks n (i + 1) s r.1 r.2 w₁ in
      (w₂, Adds-trans s p r.2 (add_dbls publisher times now n (i + 1) r.1 r.2).1 a c)

  pub send_symbol-Adds :
      (ints dbls : ℕ) (s : Str) (b : MdDeltaBuilder) (p : P)
      → Adds s p (send_symbol publisher times now ints dbls s b p).1
  unfolding send_symbol end_delta flush_delta
  send_symbol-Adds ints dbls s b p =
      let b₁ = begin_delta s b in
      let w : WorksOn s b₁ = record {
        named = unfold begin_delta in refl;
        of_delta = unfold begin_delta in refl;
      } in
      let r = add_ints publisher times now ints 1 b₁ p in
      let (w₁, a₁) = add_ints-Tracks ints 1 s b₁ p w in
      let q = add_dbls publisher times now dbls 1 r.0 r.1 in
      let (w₂, a₂) = add_dbls-Tracks dbls 1 s r.0 r.1 w₁ in
      let a₃ = publish-Adds s q.0 q.1 w₂.of_delta in
      let last : Adds s q.1 (end_delta publisher now q.0 q.1).2 =
        elim (Bool-cases (publisher.publish (full_delta now q.0) q.1).0) [
          | inl t ↦ rw t a₃
          | inr n ↦ rw n a₃
        ] in
      Adds-trans s p q.1 (end_delta publisher now q.0 q.1).2 (Adds-trans s p r.1 q.1 a₁ a₂) last

-- The deltas fall into one group for each symbol, in turn: those of the symbol, which carry together
-- exactly the integers and then the doubles of the loops.
abbrev pub Groups : (ℕ → ℕ) → ℕ → List Str → List MdDelta → Type 0
Groups times num [] ds = ds ≡ []
Groups times num (s ∷ ss) ds =
    (own : List MdDelta) × (others : List MdDelta) × (ds ≡ own ++ others)
    × Of s own
    × (all_entries own ≡ int_entries num 1 and_then dbl_entries times num 1)
    × Groups times num ss others

module _ {P : Type 0} (publisher : Publisher P) (law : IsPublisher publisher)
    (takes_all : (d : MdDelta) (p : P) → (publisher.publish d p).0 ≡ true) (times : ℕ → ℕ)
    (now : ℕ) where
  send_symbols-Groups :
      (num : ℕ) (ss : List Str) (b : MdDeltaBuilder) (p : P)
      → IsBuilder b
      → (ds : List MdDelta) × (law.published (send_symbols publisher times now num ss b p).1
          ≡ law.published p ++ ds)
        × Groups times num ss ds
  unfolding send_symbols
  send_symbols-Groups num [] b p w = ([], sym (append-nil (law.published p)), refl)
  send_symbols-Groups num (s ∷ ss) b p w =
      let r = send_symbol publisher times now num num s b p in
      let (own, e, of_s) = send_symbol-Adds publisher law times now num num s b p in
      let (v, g) = send_symbol-published publisher law takes_all times now num num s b p w in
      let (others, f, groups) = send_symbols-Groups num ss r.0 r.1 v.sizes in
      let values : all_entries own ≡ int_entries num 1 and_then dbl_entries times num 1 =
        and_then_cancel (all_entries (law.published p)) (all_entries own)
          (int_entries num 1 and_then dbl_entries times num 1)
          (sym (all_entries-append_all (law.published p) own) ∙ ap all_entries (sym e) ∙ g) in
      (
        own ++ others,
        f ∙ ap (λ t. t ++ others) e ∙ append_assoc (law.published p) own others,
        (own, others, refl, of_s, values, groups),
      )

  -- With a publisher that takes every delta, send_generated_delta publishes, for each symbol in turn, deltas
  -- of that symbol that carry together exactly the integers and then the doubles of its loops, and no
  -- other delta.
  pub send_generated_delta-Groups :
      (d : MdDelta) (symbols : List Str) (num : ℕ) (p : P)
      → IsBuilder (new_builder d)
      → (ds : List MdDelta) × (law.published
            (send_generated_delta publisher times now d symbols num p)
          ≡ law.published p ++ ds)
        × Groups times num symbols ds
  unfolding send_generated_delta
  send_generated_delta-Groups d symbols num p w =
      send_symbols-Groups num symbols (new_builder d) p w
