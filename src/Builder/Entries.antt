-- ===== src/Builder/Entries.antt =====
-- What becomes of the values that are given to a builder.
use data_spinner.Base.{
  ℕ, zero, suc, ◌+◌, ◌%◌, ◌≤◌, ◌<◌, ◌≡◌, refl, ap, sym, ◌∙◌, arith, List, [], ◌∷◌, ◌++◌, set,
  length, take, length-set, append_assoc, append-nil,
}
use data_spinner.Delta.{MdDelta, int_delta_size, dbl_delta_size}
use data_spinner.Builder.{MdDeltaBuilder, write_intdata, write_dbldata}

-- Values with their fields, the integers apart from the doubles.
pub record Entries : Type 0 where
  pub int_idx : List ℕ
  pub int_val : List ℕ
  pub dbl_idx : List ℕ
  pub dbl_val : List ℕ

infixl 55 ◌and_then◌
abbrev pub ◌and_then◌ : Entries → Entries → Entries
a and_then b = record {
  int_idx = a.int_idx ++ b.int_idx;
  int_val = a.int_val ++ b.int_val;
  dbl_idx = a.dbl_idx ++ b.dbl_idx;
  dbl_val = a.dbl_val ++ b.dbl_val;
}

abbrev pub no_entries : Entries
no_entries = record { int_idx = []; int_val = []; dbl_idx = []; dbl_val = [] }

abbrev pub an_int : ℕ → ℕ → Entries
an_int i v = record { int_idx = i ∷ []; int_val = v ∷ []; dbl_idx = []; dbl_val = [] }

abbrev pub an_dbl : ℕ → ℕ → Entries
an_dbl i v = record { int_idx = []; int_val = []; dbl_idx = i ∷ []; dbl_val = v ∷ [] }

abbrev pub arrays_entries : ℕ → ℕ → MdDelta → Entries
arrays_entries n m d = record {
  int_idx = take n d.intdata.idx;
  int_val = take n d.intdata.val;
  dbl_idx = take m d.dbldata.idx;
  dbl_val = take m d.dbldata.val;
}

-- The values that deltas carry, in order.
unfoldable pub all_entries : List MdDelta → Entries
all_entries [] = no_entries
all_entries (d ∷ ds) =
    arrays_entries d.size.intdata_len d.size.dbldata_len d and_then all_entries ds

pub and_then_assoc : (a b c : Entries) → (a and_then b) and_then c ≡ a and_then (b and_then c)
and_then_assoc a b c =
    rw
      (
        append_assoc a.int_idx b.int_idx c.int_idx,
        append_assoc a.int_val b.int_val c.int_val,
        append_assoc a.dbl_idx b.dbl_idx c.dbl_idx,
        append_assoc a.dbl_val b.dbl_val c.dbl_val,
      )
      refl

pub and_then_none : (a : Entries) → a and_then no_entries ≡ a
and_then_none a =
    rw (append-nil a.int_idx, append-nil a.int_val, append-nil a.dbl_idx, append-nil a.dbl_val) refl

pub all_entries-append :
    (ds : List MdDelta) (d : MdDelta)
    → all_entries (ds ++ (d ∷ []))
      ≡ all_entries ds and_then arrays_entries d.size.intdata_len d.size.dbldata_len d
unfolding all_entries
all_entries-append [] d = and_then_none (arrays_entries d.size.intdata_len d.size.dbldata_len d)
all_entries-append (x ∷ ds) d = rw (all_entries-append ds d) (
    sym (
      and_then_assoc (arrays_entries x.size.intdata_len x.size.dbldata_len x) (all_entries ds)
        (arrays_entries d.size.intdata_len d.size.dbldata_len d)))

take-set :
    (n : ℕ) (xs : List ℕ) (x : ℕ)
    → n < length xs
    → take (suc n) (set xs n x) ≡ take n xs ++ (x ∷ [])
take-set n [] x h = absurd (omega arith)
take-set zero (y ∷ xs) x h = refl
take-set (suc n) (y ∷ xs) x h = ap (λ t. y ∷ t) (take-set n xs x (omega arith))

-- The arrays of the builder's delta have their sizes, and the indices do not pass them.
pub record IsBuilder (b : MdDeltaBuilder) : Type 0 where
  pub int_idx_size : length b.delta.intdata.idx ≡ int_delta_size
  pub int_val_size : length b.delta.intdata.val ≡ int_delta_size
  pub dbl_idx_size : length b.delta.dbldata.idx ≡ dbl_delta_size
  pub dbl_val_size : length b.delta.dbldata.val ≡ dbl_delta_size
  pub ints_fit : b.int_idx ≤ int_delta_size
  pub dbls_fit : b.dbl_idx ≤ dbl_delta_size

-- The values that the builder holds.
abbrev pub held : MdDeltaBuilder → Entries
held b = arrays_entries b.int_idx b.dbl_idx b.delta

pub write_intdata-held :
    (i v : ℕ) (b : MdDeltaBuilder)
    → IsBuilder b
    → b.int_idx < int_delta_size
    → IsBuilder (write_intdata i v b) × (held (write_intdata i v b) ≡ held b and_then an_int i v)
unfolding write_intdata
write_intdata-held i v b w h =
    let e : (b.int_idx + 1) % 65536 ≡ suc b.int_idx = omega arith in
    (
      record {
        int_idx_size = length-set (b.delta.intdata.idx) b.int_idx i ∙ w.int_idx_size;
        int_val_size = length-set (b.delta.intdata.val) b.int_idx v ∙ w.int_val_size;
        dbl_idx_size = w.dbl_idx_size;
        dbl_val_size = w.dbl_val_size;
        ints_fit = omega arith;
        dbls_fit = w.dbls_fit;
      },
      rw
          (
            e,
            take-set b.int_idx b.delta.intdata.idx i (omega (arith, w.int_idx_size)),
            take-set b.int_idx b.delta.intdata.val v (omega (arith, w.int_val_size)),
            append-nil (take b.dbl_idx b.delta.dbldata.idx),
            append-nil (take b.dbl_idx b.delta.dbldata.val),
          )
          refl,
    )

pub write_dbldata-held :
    (i v : ℕ) (b : MdDeltaBuilder)
    → IsBuilder b
    → b.dbl_idx < dbl_delta_size
    → IsBuilder (write_dbldata i v b) × (held (write_dbldata i v b) ≡ held b and_then an_dbl i v)
unfolding write_dbldata
write_dbldata-held i v b w h =
    let e : (b.dbl_idx + 1) % 65536 ≡ suc b.dbl_idx = omega arith in
    (
      record {
        int_idx_size = w.int_idx_size;
        int_val_size = w.int_val_size;
        dbl_idx_size = length-set (b.delta.dbldata.idx) b.dbl_idx i ∙ w.dbl_idx_size;
        dbl_val_size = length-set (b.delta.dbldata.val) b.dbl_idx v ∙ w.dbl_val_size;
        ints_fit = w.ints_fit;
        dbls_fit = omega arith;
      },
      rw
          (
            e,
            take-set b.dbl_idx b.delta.dbldata.idx i (omega (arith, w.dbl_idx_size)),
            take-set b.dbl_idx b.delta.dbldata.val v (omega (arith, w.dbl_val_size)),
            append-nil (take b.int_idx b.delta.intdata.idx),
            append-nil (take b.int_idx b.delta.intdata.val),
          )
          refl,
    )
