-- ===== src/Ref.antt =====
-- MdRef of src/spinner_core/md_ref.h, its methods in md_ref.cpp, the operators on std::bitset of
-- src/archive.h and those on MdRef of src/archive.cpp.
-- The mutex of an object is not modelled: a method is one step.
pub mod Forms
pub mod RoundTrip
use data_spinner.Base.{
  ℕ, zero, suc, ◌+◌, ◌*◌, ◌%◌, Bool, true, false, Option, none, some, List, [], ◌∷◌, ltb,
  if◌then◌else◌, length, set, get_or, replicate,
}
use data_spinner.Archive.{
  Writer, Reader, ◌>>=◌, pure, ◌then_write◌, put_u16, get_u16, put_u32, get_u32, put_u64, get_u64,
  put_str, get_str,
}
use data_spinner.Records.{Str, u16, str_archive_len}

abbrev pub snapshot_fields_num : ℕ
snapshot_fields_num = 1024

-- The arrays and the bitsets by their elements; a double by its bits.
pub record MdRef : Type 0 where
  pub symbol : Str
  pub intdata : List ℕ
  pub dbldata : List ℕ
  pub strdata : List Str
  pub int_fields : List Bool
  pub dbl_fields : List Bool
  pub str_fields : List Bool

-- std::bitset::set: `none` is std::out_of_range.
unfoldable pub set_bit : ℕ → List Bool → Option (List Bool)
set_bit i fields = if ltb i snapshot_fields_num then some (set fields i true) else none

-- std::bitset::test
unfoldable pub test_bit : ℕ → List Bool → Option Bool
test_bit i fields = if ltb i snapshot_fields_num then some (get_or fields i false) else none

-- std::bitset::count
unfoldable pub count_bits : List Bool → ℕ
count_bits [] = 0
count_bits (true ∷ fields) = suc (count_bits fields)
count_bits (false ∷ fields) = count_bits fields

-- The setters; beyond the arrays they end in std::out_of_range (after a write out of bounds).
unfoldable pub set_intdata : ℕ → ℕ → MdRef → Option MdRef
set_intdata i v r = elim (set_bit i r.int_fields) [
  | none ↦ none
  | some f ↦ some (record r { intdata = set r.intdata i v; int_fields = f })
]

unfoldable pub set_dbldata : ℕ → ℕ → MdRef → Option MdRef
set_dbldata i v r = elim (set_bit i r.dbl_fields) [
  | none ↦ none
  | some f ↦ some (record r { dbldata = set r.dbldata i v; dbl_fields = f })
]

unfoldable pub set_strdata : ℕ → Str → MdRef → Option MdRef
set_strdata i v r = elim (set_bit i r.str_fields) [
  | none ↦ none
  | some f ↦ some (record r { strdata = set r.strdata i v; str_fields = f })
]

-- The getters: `none` is std::out_of_range, and `some none` is std::nullopt.
unfoldable pub get_field : {T : Type 0} → T → ℕ → List Bool → List T → Option (Option T)
get_field blank i fields values = elim (test_bit i fields) [
  | none ↦ none
  | some present ↦ some (if present then some (get_or values i blank) else none)
]

unfoldable pub get_intdata : ℕ → MdRef → Option (Option ℕ)
get_intdata i r = get_field 0 i r.int_fields r.intdata

unfoldable pub get_dbldata : ℕ → MdRef → Option (Option ℕ)
get_dbldata i r = get_field 0 i r.dbl_fields r.dbldata

unfoldable pub get_strdata : ℕ → MdRef → Option (Option Str)
get_strdata i r = get_field [] i r.str_fields r.strdata

-- The loop of calc_len over the strings.
unfoldable pub strings_len : ℕ → List Bool → List Str → ℕ
strings_len rv [] vs = rv
strings_len rv (f ∷ fs) [] = rv
strings_len rv (f ∷ fs) (v ∷ vs) = strings_len (if f then u16 (rv + (2 + length v)) else rv) fs vs

unfoldable pub ref_calc_len : MdRef → ℕ
ref_calc_len r =
    let rv₁ = u16 (str_archive_len r.symbol + (2 + count_bits r.int_fields * 2)) in
    let rv₂ = u16 (rv₁ + (2 + count_bits r.dbl_fields * 2)) in
    let rv₃ = u16 (rv₂ + (2 + count_bits r.str_fields * 2)) in
    let rv₄ = u16 (rv₃ + 4 * count_bits r.int_fields) in
    let rv₅ = u16 (rv₄ + 8 * count_bits r.dbl_fields) in strings_len rv₅ r.str_fields r.strdata

-- The loop of `operator<<` on a bitset, from bit `i` on.
unfoldable pub put_indices : ℕ → List Bool → Writer
put_indices i [] ar = ar
put_indices i (true ∷ fields) ar = put_indices (i + 1) fields (put_u16 i ar)
put_indices i (false ∷ fields) ar = put_indices (i + 1) fields ar

unfoldable pub put_bitset : List Bool → Writer
put_bitset fields = put_u16 (u16 (count_bits fields)) then_write put_indices 0 fields

-- `none` is an exception: what follows is not executed.
abbrev pub or_throw : {A B : Type 0} → Option A → (A → Reader (Option B)) → Reader (Option B)
or_throw none k = pure none
or_throw (some a) k = k a

-- The loop of `operator>>` on a bitset; `idx` is the variable that each round reads into.
unfoldable pub get_indices : ℕ → ℕ → List Bool → Reader (Option (List Bool))
get_indices zero idx fields = pure (some fields)
get_indices (suc n) idx fields = do i ← get_u16 idx; or_throw (set_bit i fields) (get_indices n i)

unfoldable pub get_bitset : List Bool → Reader (Option (List Bool))
get_bitset fields = do num ← get_u16 0; get_indices num 0 fields

-- The loops over the fields that are set.
unfoldable pub put_fields : {T : Type 0} → (T → Writer) → List Bool → List T → Writer
put_fields put [] vs ar = ar
put_fields put (f ∷ fs) [] ar = ar
put_fields put (true ∷ fs) (v ∷ vs) ar = put_fields put fs vs (put v ar)
put_fields put (false ∷ fs) (v ∷ vs) ar = put_fields put fs vs ar

unfoldable pub get_fields : {T : Type 0} → Reader T → List Bool → List T → Reader (List T)
get_fields get [] vs = pure vs
get_fields get (f ∷ fs) [] = pure []
get_fields get (true ∷ fs) (v ∷ vs) = do x ← get; xs ← get_fields get fs vs; pure (x ∷ xs)
get_fields get (false ∷ fs) (v ∷ vs) = do xs ← get_fields get fs vs; pure (v ∷ xs)

unfoldable pub put_ref : MdRef → Writer
put_ref r =
    put_str r.symbol
    then_write put_bitset r.int_fields
    then_write put_bitset r.dbl_fields
    then_write put_bitset r.str_fields
    then_write put_fields put_u32 r.int_fields r.intdata
    then_write put_fields put_u64 r.dbl_fields r.dbldata
    then_write put_fields put_str r.str_fields r.strdata

-- The part of `operator>>` behind the bitsets.
unfoldable pub get_ref_values :
    Str → MdRef → List Bool → List Bool → List Bool → Reader (Option MdRef)
get_ref_values s r ints dbls strs = do
  i ← get_fields (get_u32 0) ints r.intdata
  d ← get_fields (get_u64 0) dbls r.dbldata
  t ← get_fields (get_str []) strs r.strdata
  pure (
      some (record {
        symbol = s;
        intdata = i;
        dbldata = d;
        strdata = t;
        int_fields = ints;
        dbl_fields = dbls;
        str_fields = strs;
      }))

-- `none` is std::out_of_range out of a bitset's set.
unfoldable pub get_ref : MdRef → Reader (Option MdRef)
get_ref r = do
  s ← get_str r.symbol
  ints ← get_bitset r.int_fields
  or_throw ints λ i. do
    dbls ← get_bitset r.dbl_fields
    or_throw dbls
        λ d. do strs ← get_bitset r.str_fields; or_throw strs λ t. get_ref_values s r i d t
