-- ===== src/Generator/Whole.antt =====
-- What the generators of src/simulator.h and src/spinner_core/spinner_core_util.h publish.
use data_spinner.Base.{ℕ, zero, suc, ◌+◌, ◌*◌, ◌≡◌, refl, ap, sym, ◌∙◌, arith, true}
use data_spinner.Wire.{u32}
use data_spinner.Records.{Str, u16}
use data_spinner.Delta.{MdDelta, int_delta_size, dbl_delta_size}
use data_spinner.Builder.{
  Publisher, MdDeltaBuilder, begin_delta, flush_delta, flush_and_begin, full_delta, add_intdata,
  add_dbldata, end_delta,
}
use data_spinner.Builder.Entries.{
  Entries, ◌and_then◌, no_entries, an_int, an_dbl, all_entries, and_then_assoc, and_then_none,
  IsBuilder, held,
}
use data_spinner.Builder.Adds.{
  IsPublisher, given, add_intdata-Gives, add_dbldata-Gives, end_delta-Gives,
}
use data_spinner.Generator.{new_builder, add_ints, add_dbls, send_symbol, make_one_delta}

-- The values of the loops.
unfoldable pub int_entries : ℕ → ℕ → Entries
int_entries zero i = no_entries
int_entries (suc n) i = an_int (u16 i) (u32 (i * 10)) and_then int_entries n (i + 1)

unfoldable pub dbl_entries : (ℕ → ℕ) → ℕ → ℕ → Entries
dbl_entries times zero i = no_entries
dbl_entries times (suc n) i = an_dbl (u16 i) (times i) and_then dbl_entries times n (i + 1)

none_and_then : (a : Entries) → no_entries and_then a ≡ a
none_and_then a = refl

-- A builder with nothing in it.
pub record IsEmpty (b : MdDeltaBuilder) : Type 0 where
  pub sizes : IsBuilder b
  pub no_ints : b.int_idx ≡ 0
  pub no_dbls : b.dbl_idx ≡ 0

pub held-IsEmpty : (b : MdDeltaBuilder) → IsEmpty b → held b ≡ no_entries
held-IsEmpty b v = rw (v.no_ints, v.no_dbls) refl

pub begin_delta-IsEmpty :
    (symbol : Str) (b : MdDeltaBuilder) → IsBuilder b → IsEmpty (begin_delta symbol b)
unfolding begin_delta
begin_delta-IsEmpty symbol b v = record {
  sizes = record {
    int_idx_size = v.int_idx_size;
    int_val_size = v.int_val_size;
    dbl_idx_size = v.dbl_idx_size;
    dbl_val_size = v.dbl_val_size;
    ints_fit = omega arith;
    dbls_fit = omega arith;
  };
  no_ints = refl;
  no_dbls = refl;
}

module _ {P : Type 0} (publisher : Publisher P) (law : IsPublisher publisher)
    (takes_all : (d : MdDelta) (p : P) → (publisher.publish d p).0 ≡ true) (times : ℕ → ℕ)
    (now : ℕ) where
  flush_delta-true : (b : MdDeltaBuilder) (p : P) → (flush_delta publisher now b p).0 ≡ true
  unfolding flush_delta
  flush_delta-true b p = takes_all (full_delta now b) p

  add_intdata-true :
      (i v : ℕ) (b : MdDeltaBuilder) (p : P) → (add_intdata publisher now i v b p).0 ≡ true
  unfolding add_intdata flush_and_begin
  add_intdata-true i v b p = ground (arith, flush_delta-true b p)

  add_dbldata-true :
      (i v : ℕ) (b : MdDeltaBuilder) (p : P) → (add_dbldata publisher now i v b p).0 ≡ true
  unfolding add_dbldata flush_and_begin
  add_dbldata-true i v b p = ground (arith, flush_delta-true b p)

  add_ints-given :
      (n i : ℕ) (b : MdDeltaBuilder) (p : P)
      → IsBuilder b
      → IsBuilder (add_ints publisher times now n i b p).0
        × (given publisher law
              (add_ints publisher times now n i b p).0
              (add_ints publisher times now n i b p).1
            ≡ given publisher law b p and_then int_entries n i)
  unfolding add_ints int_entries
  add_ints-given zero i b p w = (w, sym (and_then_none (given publisher law b p)))
  add_ints-given (suc n) i b p w =
      let r = add_intdata publisher now (u16 i) (u32 (i * 10)) b p in
      let (w₁, g) = add_intdata-Gives publisher law now (u16 i) (u32 (i * 10)) b p w in
      let (w₂, h) = add_ints-given n (i + 1) r.1 r.2 w₁ in
      let e = add_intdata-true (u16 i) (u32 (i * 10)) b p in
      (
        w₂,
        h
            ∙ ap (λ t. t and_then int_entries n (i + 1)) (rw e at g)
            ∙ and_then_assoc (given publisher law b p) (an_int (u16 i) (u32 (i * 10)))
                (int_entries n (i + 1)),
      )

  add_dbls-given :
      (n i : ℕ) (b : MdDeltaBuilder) (p : P)
      → IsBuilder b
      → IsBuilder (add_dbls publisher times now n i b p).0
        × (given publisher law
              (add_dbls publisher times now n i b p).0
              (add_dbls publisher times now n i b p).1
            ≡ given publisher law b p and_then dbl_entries times n i)
  unfolding add_dbls dbl_entries
  add_dbls-given zero i b p w = (w, sym (and_then_none (given publisher law b p)))
  add_dbls-given (suc n) i b p w =
      let r = add_dbldata publisher now (u16 i) (times i) b p in
      let (w₁, g) = add_dbldata-Gives publisher law now (u16 i) (times i) b p w in
      let (w₂, h) = add_dbls-given n (i + 1) r.1 r.2 w₁ in
      let e = add_dbldata-true (u16 i) (times i) b p in
      (
        w₂,
        h
            ∙ ap (λ t. t and_then dbl_entries times n (i + 1)) (rw e at g)
            ∙ and_then_assoc (given publisher law b p) (an_dbl (u16 i) (times i))
                (dbl_entries times n (i + 1)),
      )

  given-IsEmpty :
      (b : MdDeltaBuilder) (p : P)
      → IsEmpty b
      → given publisher law b p ≡ all_entries (law.published p)
  given-IsEmpty b p v = rw (v.no_ints, v.no_dbls) (and_then_none (all_entries (law.published p)))

  -- end empties the builder, and all that it held is published.
  pub end_delta-IsEmpty :
      (b : MdDeltaBuilder) (p : P)
      → IsBuilder b
      → IsEmpty (end_delta publisher now b p).1
        × (all_entries (law.published (end_delta publisher now b p).2) ≡ given publisher law b p)
  end_delta-IsEmpty b p w =
      let (w₁, g) = end_delta-Gives publisher law now b p w in
      let e = flush_delta-true b p in
      let done : (end_delta publisher now b p).0 ≡ true = unfold end_delta in rw e refl in
      let v : IsEmpty (end_delta publisher now b p).1 = record {
        sizes = w₁;
        no_ints = unfold end_delta in rw e refl;
        no_dbls = unfold end_delta in rw e refl;
      } in
      (
        v,
        sym (given-IsEmpty (end_delta publisher now b p).1 (end_delta publisher now b p).2 v)
            ∙ rw done at g
            ∙ and_then_none (given publisher law b p),
      )

  pub send_symbol-published :
      (ints dbls : ℕ) (symbol : Str) (b : MdDeltaBuilder) (p : P)
      → IsBuilder b
      → IsEmpty (send_symbol publisher times now ints dbls symbol b p).0
        × (all_entries (law.published (send_symbol publisher times now ints dbls symbol b p).1)
            ≡ all_entries (law.published p)
              and_then (int_entries ints 1 and_then dbl_entries times dbls 1))
  unfolding send_symbol
  send_symbol-published ints dbls symbol b p w =
      let v = begin_delta-IsEmpty symbol b w in
      let b₁ = begin_delta symbol b in
      let r = add_ints publisher times now ints 1 b₁ p in
      let (w₁, g₁) = add_ints-given ints 1 b₁ p v.sizes in
      let s = add_dbls publisher times now dbls 1 r.0 r.1 in
      let (w₂, g₂) = add_dbls-given dbls 1 r.0 r.1 w₁ in
      let (v₃, g₃) = end_delta-IsEmpty s.0 s.1 w₂ in
      (
        v₃,
        g₃
            ∙ g₂
            ∙ ap (λ t. t and_then dbl_entries times dbls 1)
                (g₁ ∙ ap (λ t. t and_then int_entries ints 1) (given-IsEmpty b₁ p v))
            ∙ and_then_assoc (all_entries (law.published p)) (int_entries ints 1)
                (dbl_entries times dbls 1),
      )

  -- With a publisher that takes every delta, make_one_delta publishes six integers and eighteen doubles.
  pub make_one_delta-published :
      (d : MdDelta) (symbol : Str) (p : P)
      → IsBuilder (new_builder d)
      → all_entries (law.published (make_one_delta publisher times now d symbol p))
        ≡ all_entries (law.published p)
          and_then (int_entries int_delta_size 1 and_then dbl_entries times dbl_delta_size 1)
  unfolding make_one_delta
  make_one_delta-published d symbol p w =
      (send_symbol-published int_delta_size dbl_delta_size symbol (new_builder d) p w).1
