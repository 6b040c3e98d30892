-- ===== src/Generator/Subtype.antt =====
-- What send_generated_subtype_delta of src/simulator.h publishes for several symbols.
use data_spinner.Base.{
  ℕ, zero, suc, ◌+◌, ◌*◌, ◌==◌, ◌≤◌, ◌≡◌, refl, ap, sym, ◌∙◌, arith, true, false, List, [], ◌∷◌,
  ◌++◌,
}
use data_spinner.Wire.{u32}
use data_spinner.Records.{Str, u16}
use data_spinner.Delta.{MdDelta, int_delta_size}
use data_spinner.Builder.{
  full_delta, end_delta, Publisher, MdDeltaBuilder, begin_delta, write_intdata, add_intdata,
}
use data_spinner.Builder.Entries.{
  ◌and_then◌, an_int, all_entries, and_then_assoc, and_then_none, IsBuilder, held,
  write_intdata-held,
}
use data_spinner.Builder.Adds.{IsPublisher, end_delta-Ended}
use data_spinner.Generator.Symbols.{all_entries-append_all, and_then_cancel}
use data_spinner.Generator.{
  new_builder, add_ints, add_subtype, begin_symbols, send_generated_subtype_delta,
}
use data_spinner.Generator.Whole.{int_entries, held-IsEmpty, begin_delta-IsEmpty}

abbrev pub last_symbol : Str → List Str → Str
last_symbol s [] = s
last_symbol s (t ∷ ss) = last_symbol t ss

module _ {P : Type 0} (publisher : Publisher P) (times : ℕ → ℕ) (now : ℕ) where
  add_intdata_room :
      (i v : ℕ) (b : MdDeltaBuilder) (p : P)
      → b.int_idx + 1 ≤ int_delta_size
      → add_intdata publisher now i v b p ≡ (true, write_intdata i v b, p)
  unfolding add_intdata
  add_intdata_room i v b p h =
      let e : (b.int_idx == int_delta_size) ≡ false = ground (arith, h) in rw e refl

  -- The loop with room for all its values: nothing is published.
  add_ints-held :
      (n i : ℕ) (b : MdDeltaBuilder) (p : P)
      → IsBuilder b
      → b.int_idx + n ≤ int_delta_size
      → ((add_ints publisher times now n i b p).1 ≡ p)
        × IsBuilder (add_ints publisher times now n i b p).0
        × (held (add_ints publisher times now n i b p).0 ≡ held b and_then int_entries n i)
        × ((add_ints publisher times now n i b p).0.delta.symbol ≡ b.delta.symbol)
  unfolding add_ints int_entries
  add_ints-held zero i b p w h = (refl, w, sym (and_then_none (held b)), refl)
  add_ints-held (suc n) i b p w h =
      let b₁ = write_intdata (u16 i) (u32 (i * 10)) b in
      let (w₁, e) = write_intdata-held (u16 i) (u32 (i * 10)) b w (omega arith) in
      let idx : b₁.int_idx ≡ b.int_idx + 1 = unfold write_intdata in (omega arith) in
      let named : b₁.delta.symbol ≡ b.delta.symbol = unfold write_intdata in refl in
      let (same, w₂, g, kept) = add_ints-held n (i + 1) b₁ p w₁ (omega arith) in
      rw (add_intdata_room (u16 i) (u32 (i * 10)) b p (omega arith), add_ints)
        (
          same,
          w₂,
          g
              ∙ ap (λ t. t and_then int_entries n (i + 1)) e
              ∙ and_then_assoc (held b) (an_int (u16 i) (u32 (i * 10))) (int_entries n (i + 1)),
          kept ∙ named,
        )

  -- After a round of the loop over the symbols nothing was published, and the builder holds the values of
  -- that symbol.
  pub record HoldsFor (num : ℕ) (s : Str) (p : P) (r : MdDeltaBuilder × P) : Type 0 where
    pub same : r.1 ≡ p
    pub sizes : IsBuilder r.0
    pub values : held r.0 ≡ int_entries num 1
    pub symbol : r.0.delta.symbol ≡ s

  round-HoldsFor :
      (num : ℕ) (s : Str) (b : MdDeltaBuilder) (p : P)
      → num ≤ int_delta_size
      → IsBuilder b
      → HoldsFor num s p (add_ints publisher times now num 1 (begin_delta s b) p)
  round-HoldsFor num s b p h w =
      let v = begin_delta-IsEmpty s b w in
      let (same, w₁, g, kept) =
        add_ints-held num 1 (begin_delta s b) p v.sizes (omega (arith, v.no_ints)) in
      record {
        same = same;
        sizes = w₁;
        values = g ∙ ap (λ t. t and_then int_entries num 1) (held-IsEmpty (begin_delta s b) v);
        symbol = kept ∙ unfold begin_delta in refl;
      }

  begin_symbols-HoldsFor :
      (num : ℕ) (s : Str) (ss : List Str) (b : MdDeltaBuilder) (p : P)
      → num ≤ int_delta_size
      → IsBuilder b
      → HoldsFor num (last_symbol s ss) p (begin_symbols publisher times now num 105 (s ∷ ss) b p)
  unfolding begin_symbols add_subtype
  begin_symbols-HoldsFor num s [] b p h w =
      let r = round-HoldsFor num s b p h w in
      record { same = r.same; sizes = r.sizes; values = r.values; symbol = r.symbol }
  begin_symbols-HoldsFor num s (t ∷ ss) b p h w =
      let r = round-HoldsFor num s b p h w in
      let q = add_ints publisher times now num 1 (begin_delta s b) p in
      let v = begin_symbols-HoldsFor num t ss q.0 q.1 h r.sizes in
      record { same = v.same ∙ r.same; sizes = v.sizes; values = v.values; symbol = v.symbol }

  -- With a publisher that takes every delta, one symbol or more, the type 'i' and at most six integers, one
  -- delta alone is published: that of the last symbol, with its integers. begin drops what the builder
  -- held for each symbol before.
  pub send_generated_subtype_delta_last :
      (law : IsPublisher publisher)
      → ((d : MdDelta) (p : P) → (publisher.publish d p).0 ≡ true)
      → (d : MdDelta) (s : Str) (ss : List Str) (num : ℕ) (p : P) → num ≤ int_delta_size
      → IsBuilder (new_builder d)
      → (e : MdDelta) × (law.published
            (send_generated_subtype_delta publisher times now d (s ∷ ss) num 105 p)
          ≡ law.published p ++ (e ∷ []))
        × (e.symbol ≡ last_symbol s ss)
        × (all_entries (e ∷ []) ≡ int_entries num 1)
  unfolding send_generated_subtype_delta
  send_generated_subtype_delta_last law takes_all d s ss num p h w =
      let q = begin_symbols publisher times now num 105 (s ∷ ss) (new_builder d) p in
      let v = begin_symbols-HoldsFor num s ss (new_builder d) p h w in
      let e = full_delta now q.0 in
      let r = end_delta-Ended publisher law now q.0 q.1 v.sizes in
      let ok = r.answer ∙ takes_all e q.1 in
      let deltas : law.published (end_delta publisher now q.0 q.1).2
          ≡ law.published q.1 ++ (e ∷ []) =
        rw ok at r.deltas in
      let values : all_entries (law.published (end_delta publisher now q.0 q.1).2)
          ≡ all_entries (law.published q.1) and_then held q.0 =
        rw ok at r.values in
      (
        e,
        deltas ∙ ap (λ t. law.published t ++ (e ∷ [])) v.same,
        unfold full_delta in v.symbol,
        and_then_cancel (all_entries (law.published q.1)) (all_entries (e ∷ [])) (held q.0) (
              sym (all_entries-append_all (law.published q.1) (e ∷ []))
              ∙ ap all_entries (sym deltas)
              ∙ values)
            ∙ v.values,
      )
