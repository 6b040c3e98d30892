-- ===== src/Builder/Adds.antt =====
-- The operations of src/spinner_core/delta_builder.h, with a publisher that may refuse a delta.
use data_spinner.Base.{
  ℕ, ◌%◌, ◌≡◌, refl, ap, sym, ◌∙◌, arith, Bool, true, false, List, [], ◌∷◌, ◌++◌, ◌==◌,
  if◌then◌else◌, Bool-cases, inl, inr,
}
use data_spinner.Delta.{MdDelta, int_delta_size, dbl_delta_size}
use data_spinner.Builder.{
  Publisher, MdDeltaBuilder, init_delta, full_delta, write_intdata, write_dbldata, flush_delta,
  flush_and_begin, add_intdata, add_dbldata, end_delta,
}
use data_spinner.Builder.Entries.{
  Entries, ◌and_then◌, no_entries, an_int, an_dbl, arrays_entries, all_entries, and_then_assoc,
  and_then_none, all_entries-append, IsBuilder, held, write_intdata-held, write_dbldata-held,
}

-- What a publisher promises: it has sent the deltas that it took, and no other.
pub record IsPublisher {P : Type 0} (publisher : Publisher P) : Type 0 where
  pub published : P → List MdDelta
  pub takes :
      (d : MdDelta) (p : P)
      → (publisher.publish d p).0 ≡ true
      → published (publisher.publish d p).1 ≡ published p ++ (d ∷ [])
  pub refuses :
      (d : MdDelta) (p : P)
      → (publisher.publish d p).0 ≡ false
      → published (publisher.publish d p).1 ≡ published p

module _ {P : Type 0} (publisher : Publisher P) (law : IsPublisher publisher) where
  -- The values that were published, and then those that the builder holds.
  abbrev pub given : MdDeltaBuilder → P → Entries
  given b p = all_entries (law.published p) and_then held b

  full_delta-entries :
      (now : ℕ) (b : MdDeltaBuilder)
      → IsBuilder b
      → arrays_entries
          (full_delta now b).size.intdata_len
          (full_delta now b).size.dbldata_len
          (full_delta now b)
        ≡ held b
  unfolding full_delta
  full_delta-entries now b w =
      let e : b.int_idx % 256 ≡ b.int_idx = omega (arith, w.ints_fit) in
      let f : b.dbl_idx % 256 ≡ b.dbl_idx = omega (arith, w.dbls_fit) in rw (e, f) refl

  -- flush_delta and flush_and_begin, whose delta the publisher took.
  flush_taken :
      (now : ℕ) (b : MdDeltaBuilder) (p : P)
      → IsBuilder b
      → (publisher.publish (full_delta now b) p).0 ≡ true
      → all_entries (law.published (publisher.publish (full_delta now b) p).1) ≡ given b p
  flush_taken now b p w e =
      ap all_entries (law.takes (full_delta now b) p e)
      ∙ all_entries-append (law.published p) (full_delta now b)
      ∙ ap (λ t. all_entries (law.published p) and_then t) (full_delta-entries now b w)

  -- What an operation makes of the values given so far: `more` joins them, or the publisher refused
  -- and nothing is lost.
  abbrev pub Gives : MdDeltaBuilder → P → Entries → Bool × MdDeltaBuilder × P → Type 0
  Gives b p entries r =
      IsBuilder r.1 × (given r.1 r.2 ≡ (if r.0 then given b p and_then entries else given b p))

  -- A flush that the publisher took leaves nothing behind, and one that it refused all.
  flush_and_begin-done :
      (now : ℕ) (b : MdDeltaBuilder) (p : P)
      → IsBuilder b
      → (flush_delta publisher now b p).0 ≡ true
      → IsBuilder (init_delta (flush_delta publisher now b p).1)
        × (given (init_delta (flush_delta publisher now b p).1) (flush_delta publisher now b p).2
            ≡ given b p)
  unfolding flush_delta init_delta full_delta
  flush_and_begin-done now b p w e = (
    record {
      int_idx_size = w.int_idx_size;
      int_val_size = w.int_val_size;
      dbl_idx_size = w.dbl_idx_size;
      dbl_val_size = w.dbl_val_size;
      ints_fit = omega arith;
      dbls_fit = omega arith;
    },
    and_then_none (all_entries (law.published (publisher.publish (full_delta now b) p).1))
        ∙ flush_taken now b p w e,
  )

  flush_delta-refused :
      (now : ℕ) (b : MdDeltaBuilder) (p : P)
      → IsBuilder b
      → (flush_delta publisher now b p).0 ≡ false
      → IsBuilder (flush_delta publisher now b p).1
        × (given (flush_delta publisher now b p).1 (flush_delta publisher now b p).2 ≡ given b p)
  unfolding flush_delta full_delta
  flush_delta-refused now b p w e = (
    record {
      int_idx_size = w.int_idx_size;
      int_val_size = w.int_val_size;
      dbl_idx_size = w.dbl_idx_size;
      dbl_val_size = w.dbl_val_size;
      ints_fit = w.ints_fit;
      dbls_fit = w.dbls_fit;
    },
    ap (λ ds. all_entries ds and_then held b) (law.refuses (full_delta now b) p e),
  )

  write_given :
      (b₀ b b' : MdDeltaBuilder) (p₀ p : P) (entries : Entries)
      → given b p ≡ given b₀ p₀
      → held b' ≡ held b and_then entries
      → given b' p ≡ given b₀ p₀ and_then entries
  write_given b₀ b b' p₀ p entries g e =
      ap (λ t. all_entries (law.published p) and_then t) e
      ∙ sym (and_then_assoc (all_entries (law.published p)) (held b) entries)
      ∙ ap (λ t. t and_then entries) g

  -- add_intdata keeps every value given so far, and the new one exactly when it returns true.
  pub add_intdata-Gives :
      (now i v : ℕ) (b : MdDeltaBuilder) (p : P)
      → IsBuilder b
      → Gives b p (an_int i v) (add_intdata publisher now i v b p)
  unfolding add_intdata flush_and_begin init_delta
  add_intdata-Gives now i v b p w = elim (Bool-cases (b.int_idx == int_delta_size)) [
    | inl y ↦ elim (Bool-cases (flush_delta publisher now b p).0) [
      | inl t ↦
          let (w₁, g) = flush_and_begin-done now b p w t in
          let b₁ : MdDeltaBuilder = init_delta (flush_delta publisher now b p).1 in
          let (w₂, e) = write_intdata-held i v b₁ w₁ (omega arith) in
          rw (y, t)
            (
              w₂,
              write_given b b₁ (write_intdata i v b₁) p (flush_delta publisher now b p).2
                  (an_int i v) g e,
            )
      | inr n ↦ rw (y, n) (flush_delta-refused now b p w n)
    ]
    | inr n ↦
        let (w₁, e) = write_intdata-held i v b w (ground (arith, n, w.ints_fit)) in
        rw n (w₁, write_given b b (write_intdata i v b) p p (an_int i v) refl e)
  ]

  pub add_dbldata-Gives :
      (now i v : ℕ) (b : MdDeltaBuilder) (p : P)
      → IsBuilder b
      → Gives b p (an_dbl i v) (add_dbldata publisher now i v b p)
  unfolding add_dbldata flush_and_begin init_delta
  add_dbldata-Gives now i v b p w = elim (Bool-cases (b.dbl_idx == dbl_delta_size)) [
    | inl y ↦ elim (Bool-cases (flush_delta publisher now b p).0) [
      | inl t ↦
          let (w₁, g) = flush_and_begin-done now b p w t in
          let b₁ : MdDeltaBuilder = init_delta (flush_delta publisher now b p).1 in
          let (w₂, e) = write_dbldata-held i v b₁ w₁ (omega arith) in
          rw (y, t)
            (
              w₂,
              write_given b b₁ (write_dbldata i v b₁) p (flush_delta publisher now b p).2
                  (an_dbl i v) g e,
            )
      | inr n ↦ rw (y, n) (flush_delta-refused now b p w n)
    ]
    | inr n ↦
        let (w₁, e) = write_dbldata-held i v b w (ground (arith, n, w.dbls_fit)) in
        rw n (w₁, write_given b b (write_dbldata i v b) p p (an_dbl i v) refl e)
  ]

  -- No value is lost by end.
  pub end_delta-Gives :
      (now : ℕ) (b : MdDeltaBuilder) (p : P)
      → IsBuilder b
      → Gives b p no_entries (end_delta publisher now b p)
  unfolding end_delta init_delta flush_delta full_delta
  end_delta-Gives now b p w = elim (Bool-cases (flush_delta publisher now b p).0) [
    | inl t ↦
        let (w₁, g) = flush_and_begin-done now b p w t in
        rw t (
          record {
            int_idx_size = w.int_idx_size;
            int_val_size = w.int_val_size;
            dbl_idx_size = w.dbl_idx_size;
            dbl_val_size = w.dbl_val_size;
            ints_fit = omega arith;
            dbls_fit = omega arith;
          },
          g ∙ sym (and_then_none (given b p)),
        )
    | inr n ↦ rw n (flush_delta-refused now b p w n)
  ]

  -- What `end` did: whether it returned true, what was published and what is held then.
  pub record Ended (now : ℕ) (b : MdDeltaBuilder) (p : P) (r : Bool × MdDeltaBuilder × P)
      : Type 0 where
    pub answer : r.0 ≡ (publisher.publish (full_delta now b) p).0
    pub deltas :
        law.published r.2
        ≡ (if r.0 then law.published p ++ (full_delta now b ∷ []) else law.published p)
    pub values : all_entries (law.published r.2) ≡ (
        if r.0
        then all_entries (law.published p) and_then held b
        else all_entries (law.published p))
    pub left : held r.1 ≡ (if r.0 then no_entries else held b)
    pub symbol : r.1.symbol ≡ (if r.0 then [] else b.symbol)

  -- end offers the delta with the values that are held to the publisher and returns its answer: if it was
  -- taken, it is published behind the others, with all those values, and the builder has no symbol and
  -- holds none; if it was refused, nothing is published and the builder holds the values still.
  pub end_delta-Ended :
      (now : ℕ) (b : MdDeltaBuilder) (p : P)
      → IsBuilder b
      → Ended now b p (end_delta publisher now b p)
  unfolding end_delta flush_delta
  end_delta-Ended now b p w = elim (Bool-cases (publisher.publish (full_delta now b) p).0) [
    | inl t ↦ rw t (record {
      answer = sym t;
      deltas = law.takes (full_delta now b) p t;
      values = flush_taken now b p w t;
      left = refl;
      symbol = refl;
    })
    | inr n ↦ rw n (record {
      answer = sym n;
      deltas = law.refuses (full_delta now b) p n;
      values = ap all_entries (law.refuses (full_delta now b) p n);
      left = unfold full_delta in refl;
      symbol = refl;
    })
  ]
