-- ===== src/Ref/RoundTrip.antt =====
-- The operators << and >> on reference data agree.
use data_spinner.Base.{
  ℕ, ◌+◌, ◌≤◌, ◌<◌, ◌≡◌, refl, ap, sym, ◌∙◌, arith, List, [], ◌∷◌, ◌++◌, length, All, Bool, true,
  false, some, set, replicate, length-append, append_assoc,
}
use data_spinner.Archive.{
  Writer, Reader, put_u16, put_u32, put_u64, put_str, get_u32, get_u64, get_str,
}
use data_spinner.Archive.Writing.{
  Writes, then_write-Writes, nothing-Writes, bytes_u32, bytes_u64, bytes_str, put_u16-Writes,
  put_u32-Writes, put_u64-Writes, put_str-Writes,
}
use data_spinner.Archive.Reading.{
  Reads, >>=-Reads, >>=-Reads_last, map-Reads, pure-Reads, get_u16-Reads, get_u32-Reads,
  get_u64-Reads, get_str-Reads,
}
use data_spinner.Records.{u16}
use data_spinner.Records.RoundTrip.{IsStr}
use data_spinner.Ref.{
  MdRef, set_bit, count_bits, put_indices, put_bitset, get_indices, get_bitset, put_fields,
  get_fields, put_ref, get_ref_values, get_ref, snapshot_fields_num,
}
use data_spinner.Ref.Forms.{
  bytes_indices, bytes_bitset, bytes_fields, bytes_ref, merge_fields, received_ref, IsRef,
  count_bits-le,
}

put_indices-Writes : (i : ℕ) (fs : List Bool) → Writes (put_indices i fs) (bytes_indices i fs)
unfolding put_indices bytes_indices
put_indices-Writes i [] = nothing-Writes
put_indices-Writes i (true ∷ fs) =
    then_write-Writes {f = put_u16 i} {g = put_indices (i + 1) fs} (put_u16-Writes i)
      (put_indices-Writes (i + 1) fs)
put_indices-Writes i (false ∷ fs) = put_indices-Writes (i + 1) fs

put_bitset-Writes : (fs : List Bool) → Writes (put_bitset fs) (bytes_bitset fs)
unfolding put_bitset bytes_bitset
put_bitset-Writes fs =
    then_write-Writes {f = put_u16 (u16 (count_bits fs))} {g = put_indices 0 fs}
      (put_u16-Writes (u16 (count_bits fs))) (put_indices-Writes 0 fs)

put_fields-Writes :
    {T : Type 0} (put : T → Writer) (bytes : T → List ℕ)
    → ((x : T) → Writes (put x) (bytes x))
    → (fs : List Bool) (vs : List T) → Writes (put_fields put fs vs) (bytes_fields bytes fs vs)
unfolding put_fields bytes_fields
put_fields-Writes put bytes p [] vs = nothing-Writes
put_fields-Writes put bytes p (true ∷ fs) [] = nothing-Writes
put_fields-Writes put bytes p (false ∷ fs) [] = nothing-Writes
put_fields-Writes put bytes p (true ∷ fs) (v ∷ vs) =
    then_write-Writes {f = put v} {g = put_fields put fs vs} (p v)
      (put_fields-Writes put bytes p fs vs)
put_fields-Writes put bytes p (false ∷ fs) (v ∷ vs) = put_fields-Writes put bytes p fs vs

pub put_ref-Writes : (r : MdRef) → Writes (put_ref r) (bytes_ref r)
unfolding put_ref bytes_ref
put_ref-Writes r = then_write-Writes {f = put_str r.symbol} (put_str-Writes r.symbol) (
    then_write-Writes {f = put_bitset r.int_fields} (put_bitset-Writes r.int_fields) (
      then_write-Writes {f = put_bitset r.dbl_fields} (put_bitset-Writes r.dbl_fields) (
        then_write-Writes {f = put_bitset r.str_fields} (put_bitset-Writes r.str_fields) (
          then_write-Writes {f = put_fields put_u32 r.int_fields r.intdata}
            (put_fields-Writes put_u32 bytes_u32 put_u32-Writes r.int_fields r.intdata)
            (then_write-Writes {f = put_fields put_u64 r.dbl_fields r.dbldata}
              {g = put_fields put_str r.str_fields r.strdata}
              (put_fields-Writes put_u64 bytes_u64 put_u64-Writes r.dbl_fields r.dbldata)
              (put_fields-Writes put_str bytes_str put_str-Writes r.str_fields r.strdata))))))

set-append :
    {A : Type 0} (pre : List A) (x y : A) (post : List A)
    → set (pre ++ (x ∷ post)) (length pre) y ≡ (pre ++ (y ∷ [])) ++ post
set-append [] x y post = refl
set-append (p ∷ pre) x y post = ap (λ t. p ∷ t) (set-append pre x y post)

set_bit-append :
    (pre post : List Bool)
    → length pre < snapshot_fields_num
    → set_bit (length pre) (pre ++ (false ∷ post)) ≡ some ((pre ++ (true ∷ [])) ++ post)
unfolding set_bit
set_bit-append pre post h = ground (arith, set-append pre false true post)

snoc-append :
    {A : Type 0} (pre : List A) (x : A) (post : List A)
    → (pre ++ (x ∷ [])) ++ post ≡ pre ++ (x ∷ post)
snoc-append pre x post = append_assoc pre (x ∷ []) post

length-snoc : {A : Type 0} (pre : List A) (x : A) → length pre + 1 ≡ length (pre ++ (x ∷ []))
length-snoc pre x = omega (arith, length-append pre (x ∷ []))

-- The bits up to `length pre` are in place, and the others are still clear.
get_indices-Reads :
    (fs pre : List Bool) (idx : ℕ)
    → length pre + length fs ≤ snapshot_fields_num
    → Reads
        (get_indices (count_bits fs) idx (pre ++ replicate (length fs) false))
        (bytes_indices (length pre) fs)
        (some (pre ++ fs))
unfolding get_indices count_bits bytes_indices
get_indices-Reads [] pre idx h = pure-Reads (some (pre ++ []))
get_indices-Reads (true ∷ fs) pre idx h =
    let blank = replicate (length fs) false in
    let ih =
      get_indices-Reads fs (pre ++ (true ∷ [])) (length pre)
        (omega (arith, length-snoc pre true)) in
    >>=-Reads _ (get_u16-Reads idx (length pre) (omega arith)) (
      rw (set_bit-append pre blank (omega arith), length-snoc pre true, ← snoc-append pre true fs)
        ih)
get_indices-Reads (false ∷ fs) pre idx h =
    let blank = replicate (length fs) false in
    let ih =
      get_indices-Reads fs (pre ++ (false ∷ [])) idx (omega (arith, length-snoc pre false)) in
    rw (length-snoc pre false, ← snoc-append pre false blank, ← snoc-append pre false fs) ih

-- std::bitset as its constructor leaves it.
unfoldable pub clear_bits : List Bool
clear_bits = replicate snapshot_fields_num false

clear_bits-replicate :
    (fs : List Bool) → length fs ≡ snapshot_fields_num → clear_bits ≡ replicate (length fs) false
unfolding clear_bits
clear_bits-replicate fs full = ap (λ n. replicate n false) (sym full)

get_bitset-Reads :
    (blank fs : List Bool)
    → blank ≡ clear_bits
    → length fs ≡ snapshot_fields_num
    → Reads (get_bitset blank) (bytes_bitset fs) (some fs)
unfolding get_bitset bytes_bitset
get_bitset-Reads blank fs clear full =
    let small : u16 (count_bits fs) ≡ count_bits fs = omega (arith, count_bits-le fs) in
    let start : blank ≡ replicate (length fs) false = clear ∙ clear_bits-replicate fs full in
    >>=-Reads _ (get_u16-Reads 0 (u16 (count_bits fs)) (omega arith))
      (rw (small, start) (get_indices-Reads fs [] 0 (omega arith)))

get_fields-Reads :
    {T : Type 0} (get : Reader T) (bytes : T → List ℕ) (P : T → Type 0)
    → ((x : T) → P x → Reads get (bytes x) x)
    → (fs : List Bool) (new old : List T) → All P new
    → length fs ≡ length new
    → length fs ≡ length old
    → Reads (get_fields get fs old) (bytes_fields bytes fs new) (merge_fields fs new old)
unfolding get_fields bytes_fields merge_fields
get_fields-Reads get bytes P p [] new old all hn ho = pure-Reads old
get_fields-Reads get bytes P p (true ∷ fs) [] old all hn ho = absurd (omega arith)
get_fields-Reads get bytes P p (true ∷ fs) (v ∷ vs) [] all hn ho = absurd (omega arith)
get_fields-Reads get bytes P p (true ∷ fs) (v ∷ vs) (w ∷ ws) all hn ho = >>=-Reads _ (p v all.0) (
    map-Reads (λ xs. v ∷ xs)
      (get_fields-Reads get bytes P p fs vs ws all.1 (omega arith) (omega arith)))
get_fields-Reads get bytes P p (false ∷ fs) [] old all hn ho = absurd (omega arith)
get_fields-Reads get bytes P p (false ∷ fs) (v ∷ vs) [] all hn ho = absurd (omega arith)
get_fields-Reads get bytes P p (false ∷ fs) (v ∷ vs) (w ∷ ws) all hn ho =
    map-Reads (λ xs. w ∷ xs)
      (get_fields-Reads get bytes P p fs vs ws all.1 (omega arith) (omega arith))

-- A MdRef as its constructor leaves it: no field is set, and the arrays have their sizes.
pub record IsBlankRef (r : MdRef) : Type 0 where
  pub no_ints : r.int_fields ≡ clear_bits
  pub no_dbls : r.dbl_fields ≡ clear_bits
  pub no_strs : r.str_fields ≡ clear_bits
  pub ints_full : length r.intdata ≡ snapshot_fields_num
  pub dbls_full : length r.dbldata ≡ snapshot_fields_num
  pub strs_full : length r.strdata ≡ snapshot_fields_num

get_ref_values-Reads :
    (old new : MdRef)
    → IsBlankRef old
    → IsRef new
    → Reads
        (get_ref_values new.symbol old new.int_fields new.dbl_fields new.str_fields)
        (bytes_fields bytes_u32 new.int_fields new.intdata
          ++ (bytes_fields bytes_u64 new.dbl_fields new.dbldata
              ++ bytes_fields bytes_str new.str_fields new.strdata))
        (some (received_ref old new))
unfolding get_ref_values received_ref
get_ref_values-Reads old new o v =
    >>=-Reads _
      (get_fields-Reads (get_u32 0) bytes_u32 (λ x. x < 4294967296) (get_u32-Reads 0) new.int_fields
        new.intdata old.intdata v.ints.in_range (v.ints.bits_full ∙ sym v.ints.values_full)
        (v.ints.bits_full ∙ sym o.ints_full))
      (>>=-Reads _
        (get_fields-Reads (get_u64 0) bytes_u64 (λ x. x < 18446744073709551616) (get_u64-Reads 0)
          new.dbl_fields new.dbldata old.dbldata v.dbls.in_range
          (v.dbls.bits_full ∙ sym v.dbls.values_full) (v.dbls.bits_full ∙ sym o.dbls_full))
        (>>=-Reads_last _
          (get_fields-Reads (get_str []) bytes_str IsStr (get_str-Reads []) new.str_fields
            new.strdata old.strdata v.strs.in_range (v.strs.bits_full ∙ sym v.strs.values_full)
            (v.strs.bits_full ∙ sym o.strs_full))
          (pure-Reads (some (received_ref old new)))))

-- Reference data is read into an object that was just constructed.
pub get_ref-Reads :
    (old new : MdRef)
    → IsBlankRef old
    → IsRef new
    → Reads (get_ref old) (bytes_ref new) (some (received_ref old new))
unfolding get_ref bytes_ref
get_ref-Reads old new o v = >>=-Reads _ (get_str-Reads old.symbol new.symbol v.symbol_fits) (
    >>=-Reads _ (get_bitset-Reads old.int_fields new.int_fields o.no_ints v.ints.bits_full) (
      >>=-Reads _ (get_bitset-Reads old.dbl_fields new.dbl_fields o.no_dbls v.dbls.bits_full) (
        >>=-Reads _ (get_bitset-Reads old.str_fields new.str_fields o.no_strs v.strs.bits_full)
          (get_ref_values-Reads old new o v))))
