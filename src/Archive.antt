-- ===== src/Archive.antt =====
-- BuffMsgArchive of src/archive.h and the string operators of src/archive.cpp.
-- `ar << d` is a function from archive to archive. `ar >> d` also takes what `d` holds before, since
-- a read that fails leaves it there, and returns what it holds after.
pub mod Writing
pub mod Reading
use data_spinner.Base.{
  ℕ, zero, suc, ◌+◌, ◌-◌, ◌%◌, Bool, true, false, Option, none, some, List, [], ◌∷◌, ◌++◌,
  if◌then◌else◌, length, take, replicate,
}
use data_spinner.Wire.{htons, htonl, hton64, ntoh64, le_bytes, of_le}
use data_spinner.Header.{MsgHeader, header_word}
use data_spinner.Buffer
use data_spinner.Buffer.{SingleRecordBuffer}

pub record BuffMsgArchive : Type 0 where
  pub is_valid : Bool
  pub bytebuff : SingleRecordBuffer

-- A BuffMsgArchive before anything is done with it; the array is not initialised.
abbrev pub fresh_archive : List ℕ → BuffMsgArchive
fresh_archive garbage = record {
  is_valid = true;
  bytebuff = record { buff = garbage; len = 0; read_pos = 0; start_pos = 0 };
}

abbrev pub set_invalid_archive : BuffMsgArchive → BuffMsgArchive
set_invalid_archive ar = record ar { is_valid = false }

abbrev pub Writer : Type 0
Writer = BuffMsgArchive → BuffMsgArchive

abbrev pub Reader : Type 0 → Type 0
Reader A = BuffMsgArchive → A × BuffMsgArchive

infixl 5 ◌>>=◌
unfoldable pub ◌>>=◌ : {A B : Type 0} → Reader A → (A → Reader B) → Reader B
◌>>=◌ m f ar = f (m ar).0 (m ar).1

unfoldable pub pure : {A : Type 0} → A → Reader A
pure a ar = (a, ar)

-- One write after the other.
infixr 6 ◌then_write◌
abbrev pub ◌then_write◌ : Writer → Writer → Writer
◌then_write◌ f g ar = g (f ar)

unfoldable pub buffer_write : List ℕ → BuffMsgArchive → Bool × BuffMsgArchive
buffer_write bytes ar =
    let (done, b) = Buffer.write bytes ar.bytebuff in
    if done then (true, record ar { bytebuff = b }) else (false, set_invalid_archive ar)

-- The bytes read, if they are there.
unfoldable pub buffer_read : ℕ → Reader (Option (List ℕ))
buffer_read size ar = elim (Buffer.read size ar.bytebuff) [
  | none ↦ (none, set_invalid_archive ar)
  | some (bytes, b) ↦ (some bytes, record ar { bytebuff = b })
]

abbrev pub put_bytes : List ℕ → Writer
put_bytes bytes ar = (buffer_write bytes ar).1

-- The memory of an integer after a read into it.
abbrev pub loaded : ℕ → Option (List ℕ) → ℕ
loaded old none = old
loaded old (some bytes) = of_le bytes

-- The operators on uint8_t, uint16_t, uint32_t and uint64_t. An int32_t goes by its bits, as a
-- uint32_t, and a double by reinterpret_cast, as a uint64_t.
unfoldable pub put_u8 : ℕ → Writer
put_u8 d = put_bytes (le_bytes 1 d)

unfoldable pub get_u8 : ℕ → Reader ℕ
get_u8 d = do bytes ← buffer_read 1; pure (loaded d bytes)

unfoldable pub put_u16 : ℕ → Writer
put_u16 d = put_bytes (le_bytes 2 (htons d))

unfoldable pub get_u16 : ℕ → Reader ℕ
get_u16 d = do bytes ← buffer_read 2; pure (htons (loaded d bytes))

unfoldable pub put_u32 : ℕ → Writer
put_u32 d = put_bytes (le_bytes 4 (htonl d))

unfoldable pub get_u32 : ℕ → Reader ℕ
get_u32 d = do bytes ← buffer_read 4; pure (htonl (loaded d bytes))

unfoldable pub put_u64 : ℕ → Writer
put_u64 d = put_bytes (le_bytes 8 (hton64 d))

unfoldable pub get_u64 : ℕ → Reader ℕ
get_u64 d = do bytes ← buffer_read 8; pure (ntoh64 (loaded d bytes))

-- bool store_header(const UMsgHeader& h): the time stamp is that of the call.
unfoldable pub store_header : MsgHeader → ℕ → BuffMsgArchive → Bool × BuffMsgArchive
store_header h time_stamp ar =
    let (stored, ar₁) = buffer_write (le_bytes 8 (hton64 (header_word h))) ar in
    let (stamped, ar₂) = buffer_write (le_bytes 8 (hton64 time_stamp)) ar₁ in
    if stored then if stamped then (ar₂.is_valid, ar₂) else (false, ar₂) else (false, ar₁)

-- The length goes through a uint16_t; the characters are all written.
unfoldable pub put_str : List ℕ → Writer
put_str s = put_bytes (le_bytes 2 (htons (length s % 65536))) then_write put_bytes s

-- std::string::resize
abbrev pub resize : ℕ → List ℕ → List ℕ
resize n s = take n s ++ replicate (n - length s) 0

-- `len` is 0 if it cannot be read; a string whose characters are missing is resized all the same.
unfoldable pub get_str : List ℕ → Reader (List ℕ)
get_str s = do
  len ← get_u16 0
  chars ← buffer_read len
  pure (elim chars [ none ↦ resize len s | some bytes ↦ bytes ])

-- The loop of `operator<<` on a vector, and the operator.
unfoldable pub put_all : {T : Type 0} → (T → Writer) → List T → Writer
put_all put [] ar = ar
put_all put (d ∷ ds) ar = put_all put ds (put d ar)

unfoldable pub put_vec : {T : Type 0} → (T → Writer) → List T → Writer
unfolding put_all
put_vec put v = put_u16 (length v % 65536) then_write put_all put v

-- The loop of `operator>>`: `n` rounds are left, and `d` is the variable that each round reads into.
unfoldable pub get_all : {T : Type 0} → (T → Reader T) → ℕ → T → List T → Reader (List T)
get_all get zero d v = pure v
get_all get (suc n) d v = do x ← get d; get_all get n x (v ++ (x ∷ []))

unfoldable pub get_vec : {T : Type 0} → (T → Reader T) → T → List T → Reader (List T)
unfolding get_all
get_vec get d v = do len ← get_u16 0; get_all get len d v

-- store_arr, and each loop of store_sor_data: the first `len` elements of an array. store_arr stops
-- at the array's end; store_sor_data has no such test, and is undefined beyond it.
unfoldable pub store_arr : {T : Type 0} → (T → Writer) → ℕ → List T → Writer
store_arr put zero xs ar = ar
store_arr put (suc n) [] ar = ar
store_arr put (suc n) (x ∷ xs) ar = store_arr put n xs (put x ar)

-- load_arr: the array with its first elements read anew, and `false` past its end.
unfoldable pub load_arr : {T : Type 0} → (T → Reader T) → ℕ → List T → Reader (Bool × List T)
load_arr get zero xs = pure (true, xs)
load_arr get (suc n) [] = pure (false, [])
load_arr get (suc n) (x ∷ xs) = do y ← get x; r ← load_arr get n xs; pure (r.0, y ∷ r.1)
