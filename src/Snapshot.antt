-- ===== src/Snapshot.antt =====
-- MdRefTable of src/ref_table.cpp, and regenerate_ref_data and send_regenerated_snapshot of src/simulator.cpp.
-- The table is an association list; a method under the mutex is one step. A double is its bits.
pub mod Known
use data_spinner.Base.{
  ℕ, zero, suc, ◌+◌, ◌*◌, ◌==◌, ◌&&◌, Bool, true, false, Option, none, some, List, [], ◌∷◌, ◌++◌,
  ltb, if◌then◌else◌, length, set, take,
}
use data_spinner.Wire.{u32}
use data_spinner.Records.{Str}
use data_spinner.Ref.{
  MdRef, get_intdata, get_strdata, set_intdata, set_dbldata, set_strdata, set_bit,
}
use data_spinner.Message.{Message, ref_msg, text_msg}
use data_spinner.Queue.{SendResult}
use data_spinner.Connection.{Call}
use data_spinner.Text.{codes, same_str, to_string, pos}
use data_spinner.Session.{Peer, send_to}

infixl 5 ◌>>=◌
abbrev pub ◌>>=◌ : {A B : Type 0} → Option A → (A → Option B) → Option B
none >>= f = none
some a >>= f = f a

-- m_ref_table_
abbrev pub MdRefTable : Type 0
MdRefTable = List (Str × MdRef)

unfoldable pub find_ref : Str → MdRefTable → Option MdRef
find_ref s [] = none
find_ref s (e ∷ t) = if same_str s e.0 then some e.1 else find_ref s t

-- `m_ref_table_[s] = r`, and what a write through the pointer of get_ref does.
unfoldable pub store_ref : Str → MdRef → MdRefTable → MdRefTable
store_ref s r [] = (s, r) ∷ []
store_ref s r (e ∷ t) = if same_str s e.0 then (e.0, r) ∷ t else e ∷ store_ref s r t

-- What floating point does: the bits of v + 1.1 for an integer v, of 10 where that is above 1000, and of
-- 100.1 + 10.1 * i.
pub record Doubles : Type 0 where
  pub next : ℕ → ℕ
  pub first : ℕ → ℕ

-- The three blocks of a round; std::out_of_range is `none`.
unfoldable pub next_int : ℕ → MdRef → Option (Option ℕ) → Option MdRef
next_int i r none = none
next_int i r (some none) = some r
next_int i r (some (some v)) =
    let w = u32 (v + 1) in set_intdata i (if ltb 1000 w && ltb w 2147483648 then 10 else w) r

-- The double is made from the integer: the source asks get_intdata here too.
unfoldable pub next_dbl : Doubles → ℕ → MdRef → Option (Option ℕ) → Option MdRef
next_dbl dbl i r none = none
next_dbl dbl i r (some none) = some r
next_dbl dbl i r (some (some v)) = set_dbldata i (dbl.next v) r

unfoldable pub next_str : ℕ → MdRef → Option (Option Str) → Option MdRef
next_str i r none = none
next_str i r (some none) = some r
next_str i r (some (some v)) =
    let w = v ++ codes "+1" in set_strdata i (if ltb 80 (length w) then take 10 w else w) r

unfoldable pub next_fields : Doubles → ℕ → MdRef → Option MdRef
next_fields dbl i r = do
  r₁ ← next_int i r (get_intdata i r)
  r₂ ← next_dbl dbl i r₁ (get_intdata i r₁)
  next_str i r₂ (get_strdata i r₂)

-- The loop over the fields of a reference that exists, for that many rounds.
unfoldable pub next_ref : Doubles → ℕ → ℕ → MdRef → Option MdRef
next_ref dbl zero i r = some r
next_ref dbl (suc n) i r = do r₁ ← next_fields dbl i r; next_ref dbl n (i + 1) r₁

-- The loop that fills a new one.
unfoldable pub fill_ref : Doubles → ℕ → ℕ → MdRef → MdRef
fill_ref dbl zero i r = r
fill_ref dbl (suc n) i r = fill_ref dbl n (i + 1) (record {
  symbol = r.symbol;
  intdata = set r.intdata i (10 * i);
  dbldata = set r.dbldata i (dbl.first i);
  strdata = set r.strdata i (r.symbol ++ (codes "ref string #" ++ to_string (pos i)));
  int_fields = set r.int_fields i true;
  dbl_fields = set r.dbl_fields i true;
  str_fields = set r.str_fields i true;
})

-- One symbol of regenerate_ref_data; `blank` has the local arrays as the memory is, and empty bitsets.
unfoldable pub regenerate_found :
    Doubles → MdRef → Str → MdRefTable → Option MdRef → Option MdRefTable
regenerate_found dbl blank s t none =
    some (store_ref s (fill_ref dbl 30 0 (record blank { symbol = s })) t)
regenerate_found dbl blank s t (some r) = do r₁ ← next_ref dbl 30 0 r; some (store_ref s r₁ t)

unfoldable pub regenerate_ref_data : Doubles → MdRef → List Str → MdRefTable → Option MdRefTable
regenerate_ref_data dbl blank [] t = some t
regenerate_ref_data dbl blank (s ∷ ss) t = do
  t₁ ← regenerate_found dbl blank s t (find_ref s t)
  regenerate_ref_data dbl blank ss t₁

-- A connection and how many messages it has sent: `calls` has what each send_message finds.
pub record Line : Type 0 where
  pub peer : Peer
  pub sends : ℕ

module _ (answer : ℕ → ℕ → SendResult) (fuel : ℕ) (calls : ℕ → Call) where
  unfoldable pub send_next : Message → Line → Option (Bool × Line)
  send_next m l = do
    (ok, c) ← send_to answer fuel (calls l.sends) m l.peer
    some (ok, record { peer = c; sends = l.sends + 1 })

  -- A send whose result is not looked at.
  unfoldable pub send_on : Message → Line → Option Line
  send_on m l = do (ok, l₁) ← send_next m l; some l₁

  -- The body of the loop of send_snapshot.
  unfoldable pub send_ref : Option MdRef → Line → Option Line
  send_ref none l = some l
  send_ref (some r) l = send_on (ref_msg r) l

  -- bool send_snapshot(symbols, c): always true.
  unfoldable pub send_snapshot : List Str → MdRefTable → Line → Option Line
  send_snapshot [] t l = some l
  send_snapshot (s ∷ ss) t l = do l₁ ← send_ref (find_ref s t) l; send_snapshot ss t l₁

  unfoldable pub send_regenerated_snapshot :
      Doubles → MdRef → List Str → MdRefTable → Line → Option (MdRefTable × Line)
  send_regenerated_snapshot dbl blank ss t l = do
    t₁ ← regenerate_ref_data dbl blank ss t
    l₁ ← send_snapshot ss t₁ l
    some (t₁, l₁)
