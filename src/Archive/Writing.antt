-- ===== src/Archive/Writing.antt =====
-- What the writing operators put into the buffer, given room.
use data_spinner.Base.{
  ℕ, zero, suc, ◌+◌, ◌%◌, ◌≤◌, ◌≡◌, refl, ap, sym, ◌∙◌, true, List, [], ◌∷◌, ◌++◌, arith, length,
  take, length-append, append_assoc, append-nil,
}
use data_spinner.Wire.{htons, htonl, hton64, le_bytes}
use data_spinner.Buffer.{capacity}
use data_spinner.Buffer.Views.{contents, IsWritable, write_fits, start_pos-write}
use data_spinner.Archive.{
  BuffMsgArchive, Writer, buffer_write, put_bytes, put_u8, put_u16, put_u32, put_u64, put_str,
  put_all, put_vec, store_arr, ◌then_write◌,
}

-- `bytes` were appended, and nothing went wrong.
pub record Appended (bytes : List ℕ) (ar ar' : BuffMsgArchive) : Type 0 where
  pub still_valid : ar'.is_valid ≡ ar.is_valid
  pub appended : contents ar'.bytebuff ≡ contents ar.bytebuff ++ bytes
  pub longer : ar'.bytebuff.len ≡ ar.bytebuff.len + length bytes
  pub writable : IsWritable ar'.bytebuff
  pub same_start : ar'.bytebuff.start_pos ≡ ar.bytebuff.start_pos

-- A writer that appends `bytes` whenever there is room for them.
abbrev pub Writes : Writer → List ℕ → Type 0
Writes f bytes =
    (ar : BuffMsgArchive)
    → IsWritable ar.bytebuff
    → ar.bytebuff.len + length bytes ≤ capacity
    → Appended bytes ar (f ar)

pub put_bytes-Writes : (bytes : List ℕ) → Writes (put_bytes bytes) bytes
unfolding buffer_write
put_bytes-Writes bytes ar v h =
    let w = write_fits bytes v h in
    rw (w.0, put_bytes)
      (record {
        still_valid = refl;
        appended = w.1;
        longer = w.2;
        writable = w.3;
        same_start = start_pos-write bytes ar.bytebuff;
      })

pub buffer_write-true :
    (bytes : List ℕ) (ar : BuffMsgArchive)
    → IsWritable ar.bytebuff
    → ar.bytebuff.len + length bytes ≤ capacity
    → (buffer_write bytes ar).0 ≡ true
unfolding buffer_write
buffer_write-true bytes ar v h = rw (buffer_write, (write_fits bytes v h).0)

pub nothing-Writes : Writes (λ ar. ar) []
nothing-Writes ar v h = record {
  still_valid = refl;
  appended = sym (append-nil (contents ar.bytebuff));
  longer = omega arith;
  writable = v;
  same_start = refl;
}

pub then_write-Writes :
    {f g : Writer} {bs cs : List ℕ} → Writes f bs → Writes g cs → Writes (f then_write g) (bs ++ cs)
then_write-Writes {f} {g} {bs} {cs} p q ar v h =
    let n = length-append bs cs in
    let a = p ar v (omega arith) in
    let c = q (f ar) a.writable (omega (arith, a.longer)) in
    record {
      still_valid = c.still_valid ∙ a.still_valid;
      appended =
          c.appended ∙ ap (λ t. t ++ cs) a.appended ∙ append_assoc (contents ar.bytebuff) bs cs;
      longer = omega (arith, a.longer, c.longer);
      writable = c.writable;
      same_start = c.same_start ∙ a.same_start;
    }

-- The wire form of each type.
abbrev pub bytes_u8 : ℕ → List ℕ
bytes_u8 d = le_bytes 1 d

abbrev pub bytes_u16 : ℕ → List ℕ
bytes_u16 d = le_bytes 2 (htons d)

abbrev pub bytes_u32 : ℕ → List ℕ
bytes_u32 d = le_bytes 4 (htonl d)

abbrev pub bytes_u64 : ℕ → List ℕ
bytes_u64 d = le_bytes 8 (hton64 d)

unfoldable pub bytes_str : List ℕ → List ℕ
bytes_str s = bytes_u16 (length s % 65536) ++ s

module _ {T : Type 0} (bytes : T → List ℕ) where
  unfoldable pub bytes_all : List T → List ℕ
  bytes_all [] = []
  bytes_all (x ∷ xs) = bytes x ++ bytes_all xs

unfoldable pub bytes_vec : {T : Type 0} (bytes : T → List ℕ) → List T → List ℕ
bytes_vec bytes xs = bytes_u16 (length xs % 65536) ++ bytes_all bytes xs

pub put_u8-Writes : (d : ℕ) → Writes (put_u8 d) (bytes_u8 d)
unfolding put_u8
put_u8-Writes d = put_bytes-Writes (bytes_u8 d)

pub put_u16-Writes : (d : ℕ) → Writes (put_u16 d) (bytes_u16 d)
unfolding put_u16
put_u16-Writes d = put_bytes-Writes (bytes_u16 d)

pub put_u32-Writes : (d : ℕ) → Writes (put_u32 d) (bytes_u32 d)
unfolding put_u32
put_u32-Writes d = put_bytes-Writes (bytes_u32 d)

pub put_u64-Writes : (d : ℕ) → Writes (put_u64 d) (bytes_u64 d)
unfolding put_u64
put_u64-Writes d = put_bytes-Writes (bytes_u64 d)

pub put_str-Writes : (s : List ℕ) → Writes (put_str s) (bytes_str s)
unfolding put_str bytes_str
put_str-Writes s =
    then_write-Writes (put_bytes-Writes (bytes_u16 (length s % 65536))) (put_bytes-Writes s)

module _ {T : Type 0} {put : T → Writer} {bytes : T → List ℕ}
    (p : (x : T) → Writes (put x) (bytes x)) where
  pub put_all-Writes : (xs : List T) → Writes (put_all put xs) (bytes_all bytes xs)
  unfolding put_all bytes_all
  put_all-Writes [] = nothing-Writes
  put_all-Writes (x ∷ xs) = then_write-Writes {g = put_all put xs} (p x) (put_all-Writes xs)

  pub put_vec-Writes : (xs : List T) → Writes (put_vec put xs) (bytes_vec bytes xs)
  unfolding put_vec bytes_vec
  put_vec-Writes xs =
      then_write-Writes {g = put_all put xs} (put_u16-Writes (length xs % 65536))
        (put_all-Writes xs)

  pub store_arr-Writes :
      (n : ℕ) (xs : List T)
      → n ≤ length xs
      → Writes (store_arr put n xs) (bytes_all bytes (take n xs))
  unfolding store_arr bytes_all
  store_arr-Writes zero xs h = nothing-Writes
  store_arr-Writes (suc n) [] h = absurd (omega arith)
  store_arr-Writes (suc n) (x ∷ xs) h =
      then_write-Writes {g = store_arr put n xs} (p x) (store_arr-Writes n xs (omega arith))
