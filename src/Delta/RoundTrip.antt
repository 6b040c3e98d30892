-- ===== src/Delta/RoundTrip.antt =====
-- The operators << and >> on deltas agree.
use data_spinner.Base.{
  le→ltb_false, ℕ, zero, suc, ◌≤◌, ◌<◌, ◌≡◌, ap, ◌∙◌, arith, List, [], ◌∷◌, ◌++◌, length, take, All,
  Bool, true, length-take,
}
use data_spinner.Archive.{
  BuffMsgArchive, Writer, Reader, pure, put_u16, put_u32, put_u64, get_u16, get_u32, get_u64,
  put_str, store_arr, load_arr,
}
use data_spinner.Archive.Writing.{
  Writes, then_write-Writes, bytes_u16, bytes_u32, bytes_u64, bytes_all, put_u16-Writes,
  put_u32-Writes, put_u64-Writes, put_str-Writes, store_arr-Writes,
}
use data_spinner.Archive.Reading.{
  Reads, >>=-Reads, >>=-Reads_last, map-Reads, pure-Reads, get_u16-Reads, get_u32-Reads,
  get_u64-Reads, get_str-Reads, load_arr-Reads,
}
use data_spinner.Delta.{
  SorData, DeltaSize, MdDelta, size_word, store_sor_data, load_sor_data, put_delta, get_delta_body,
  get_delta,
}
use data_spinner.Delta.Forms.{
  bytes_sor, bytes_delta, received_delta, IsArray, IsSor, HasArrays, IsDelta, word_size-size_word,
  overlay, sor_overlay, delta_view, delta_view-received,
}
use data_spinner.Buffer.{capacity}
use data_spinner.Buffer.Views.{contents, unread, IsWritable, IsReadable}

All-take : {A : Type 0} (P : A → Type 0) (n : ℕ) (xs : List A) → All P xs → All P (take n xs)
All-take P zero xs h = tt
All-take P (suc n) [] h = tt
All-take P (suc n) (x ∷ xs) h = (h.0, All-take P n xs h.1)

store_sor-Writes :
    (put : ℕ → Writer) (bytes : ℕ → List ℕ)
    → ((d : ℕ) → Writes (put d) (bytes d))
    → (n : ℕ) (d : SorData) → n ≤ length d.idx
    → n ≤ length d.val
    → Writes (store_sor_data put n d) (bytes_sor bytes n d)
unfolding store_sor_data bytes_sor
store_sor-Writes put bytes p n d hi hv =
    then_write-Writes {f = store_arr put_u16 n d.idx} {g = store_arr put n d.val}
      (store_arr-Writes put_u16-Writes n d.idx hi) (store_arr-Writes p n d.val hv)

pub put_delta-Writes : (d : MdDelta) → IsDelta d → Writes (put_delta d) (bytes_delta d)
unfolding put_delta bytes_delta
put_delta-Writes d v =
    let n = d.size.intdata_len in
    let m = d.size.dbldata_len in
    let k = d.size.stamps_len in
    then_write-Writes {f = put_str d.symbol} (put_str-Writes d.symbol) (
      then_write-Writes {f = put_u32 (size_word d.size)} (put_u32-Writes (size_word d.size)) (
        then_write-Writes {f = store_sor_data put_u32 n d.intdata}
          (store_sor-Writes put_u32 bytes_u32 put_u32-Writes n d.intdata
            (omega (arith, v.ints_fit, v.arrays.ints.idx_array.full))
            (omega (arith, v.ints_fit, v.arrays.ints.val_array.full)))
          (then_write-Writes {f = store_sor_data put_u64 m d.dbldata}
            {g = store_arr put_u64 k d.stamps}
            (store_sor-Writes put_u64 bytes_u64 put_u64-Writes m d.dbldata
              (omega (arith, v.dbls_fit, v.arrays.dbls.idx_array.full))
              (omega (arith, v.dbls_fit, v.arrays.dbls.val_array.full)))
            (store_arr-Writes put_u64-Writes k d.stamps
              (omega (arith, v.stamps_fit, v.arrays.times.full))))))

-- An array's first `n` elements are read over those of another of the same size.
load_part-Reads :
    (get : ℕ → Reader ℕ) (bytes : ℕ → List ℕ) (bound : ℕ)
    → ((old x : ℕ) → x < bound → Reads (get old) (bytes x) x)
    → (size n : ℕ) (new old : List ℕ) → IsArray size bound new
    → length old ≡ size
    → n ≤ size
    → Reads (load_arr get n old) (bytes_all bytes (take n new)) (true, overlay n new old)
load_part-Reads get bytes bound p size n new old v ho h =
    let e : length (take n new) ≡ n = omega (arith, length-take n new, v.full) in
    rw e at (
      load_arr-Reads bytes (λ x. x < bound) p (take n new) old
        (All-take (λ x. x < bound) n new v.in_range) (omega (arith, e)))

load_sor-Reads :
    (get : ℕ → Reader ℕ) (bytes : ℕ → List ℕ) (bound : ℕ)
    → ((old x : ℕ) → x < bound → Reads (get old) (bytes x) x)
    → (size n : ℕ) (new old : SorData) → IsSor size bound new
    → IsSor size bound old
    → n ≤ size
    → Reads (load_sor_data get n old) (bytes_sor bytes n new) (sor_overlay n new old)
unfolding load_sor_data bytes_sor
load_sor-Reads get bytes bound p size n new old v o h =
    >>=-Reads _
      (load_part-Reads get_u16 bytes_u16 65536 get_u16-Reads size n new.idx old.idx v.idx_array
        o.idx_array.full h)
      (map-Reads (λ (r : Bool × List ℕ). record { idx = overlay n new.idx old.idx; val = r.1 })
        (load_part-Reads get bytes bound p size n new.val old.val v.val_array o.val_array.full h))

-- What follows the tests, once the symbol and the lengths are in place.
get_delta_body-Reads :
    (old new : MdDelta)
    → HasArrays old
    → IsDelta new
    → Reads
        (get_delta_body (record old { symbol = new.symbol; size = new.size }))
        (bytes_sor bytes_u32 new.size.intdata_len new.intdata
          ++ (bytes_sor bytes_u64 new.size.dbldata_len new.dbldata
              ++ bytes_all bytes_u64 (take new.size.stamps_len new.stamps)))
        (received_delta old new)
unfolding get_delta_body received_delta pure
get_delta_body-Reads old new o v =
    >>=-Reads _
      (load_sor-Reads get_u32 bytes_u32 4294967296 get_u32-Reads 6 new.size.intdata_len new.intdata
        old.intdata v.arrays.ints o.ints v.ints_fit)
      (>>=-Reads _
        (load_sor-Reads get_u64 bytes_u64 18446744073709551616 get_u64-Reads 18 new.size.dbldata_len
          new.dbldata old.dbldata v.arrays.dbls o.dbls v.dbls_fit)
        (>>=-Reads_last _
          (load_part-Reads get_u64 bytes_u64 18446744073709551616 get_u64-Reads 2
            new.size.stamps_len new.stamps old.stamps v.arrays.times o.times.full v.stamps_fit)
          (pure-Reads (received_delta old new))))

size_word-lt :
    (s : DeltaSize)
    → s.intdata_len < 256
    → s.dbldata_len < 256
    → s.reserved < 256
    → s.stamps_len < 256
    → size_word s < 4294967296
unfolding size_word
size_word-lt s h₁ h₂ h₃ h₄ = omega arith

-- A delta is read over any object whose arrays have their sizes.
pub get_delta-Reads :
    (old new : MdDelta)
    → HasArrays old
    → IsDelta new
    → Reads (get_delta old) (bytes_delta new) (received_delta old new)
unfolding get_delta bytes_delta
get_delta-Reads old new o v =
    let i : new.size.intdata_len ≤ 6 = v.ints_fit in
    let d : new.size.dbldata_len ≤ 18 = v.dbls_fit in
    let k : new.size.stamps_len ≤ 2 = v.stamps_fit in
    let r = v.reserved_fits in
    let e = word_size-size_word new.size (omega arith) (omega arith) r (omega arith) in
    >>=-Reads _ (get_str-Reads old.symbol new.symbol v.symbol_fits) (
      >>=-Reads _
        (get_u32-Reads (size_word old.size) (size_word new.size)
          (size_word-lt new.size (omega arith) (omega arith) r (omega arith)))
        (rw (e, le→ltb_false new.size.intdata_len 6 i, le→ltb_false new.size.dbldata_len 18 d)
          (get_delta_body-Reads old new o v)))

-- What put_delta writes into an empty archive with room for it, get_delta reads over any object with whole
-- arrays: the object says what the delta said (symbol, lengths, the entries within them and the stamps),
-- whatever stands behind it is left, and neither archive becomes invalid.
pub get_delta-put_delta :
    (old new : MdDelta) (w ar : BuffMsgArchive) (rest : List ℕ)
    → HasArrays old
    → IsDelta new
    → IsWritable w.bytebuff
    → w.bytebuff.len ≡ 0
    → length (bytes_delta new) ≤ capacity
    → IsReadable ar.bytebuff
    → unread ar.bytebuff ≡ contents (put_delta new w).bytebuff ++ rest
    → (delta_view (get_delta old ar).0 ≡ delta_view new)
      × (unread (get_delta old ar).1.bytebuff ≡ rest)
      × ((put_delta new w).is_valid ≡ w.is_valid)
      × ((get_delta old ar).1.is_valid ≡ ar.is_valid)
get_delta-put_delta old new w ar rest o v writable empty room readable holds =
    let written = put_delta-Writes new v w writable (omega arith) in
    let bytes : contents (put_delta new w).bytebuff ≡ bytes_delta new =
      written.appended ∙ ap (λ n. take n w.bytebuff.buff ++ bytes_delta new) empty in
    let t =
      (get_delta-Reads old new o v).takes ar rest readable (holds ∙ ap (λ b. b ++ rest) bytes) in
    (
      ap delta_view t.result ∙ delta_view-received old new v,
      t.remaining,
      written.still_valid,
      t.still_valid,
    )
