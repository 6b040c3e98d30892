-- ===== src/Archive/Reading.antt =====
-- What the reading operators take off the buffer.
use data_spinner.Base.{
  ℕ, ◌%◌, ◌≤◌, ◌<◌, ◌≡◌, refl, ap, sym, ◌∙◌, Bool, true, List, [], ◌∷◌, ◌++◌, arith, length, take,
  drop, length-append, append_assoc, append-nil, take-append, drop-append, All, none, some,
}
use data_spinner.Wire.{htons, htonl, hton64, ntoh64}
use data_spinner.Wire.Order.{
  length-le_bytes, of_le-le_bytes, htons-lt, htonl-lt, hton64-lt, htons_involutive,
  htonl_involutive, ntoh64-hton64,
}
use data_spinner.Buffer.Views.{unread, IsReadable, read_ready, unread-advance, advance-IsReadable}
use data_spinner.Archive.{
  BuffMsgArchive, Reader, ◌>>=◌, pure, loaded, buffer_read, get_u8, get_u16, get_u32, get_u64,
  get_str, get_all, get_vec, load_arr, resize,
}
use data_spinner.Archive.Writing.{
  bytes_u8, bytes_u16, bytes_u32, bytes_u64, bytes_str, bytes_all, bytes_vec,
}

-- `a` was read, `rest` is still to come, and nothing went wrong.
pub record Taken {A : Type 0} (a : A) (rest : List ℕ) (ar : BuffMsgArchive) (r : A × BuffMsgArchive)
    : Type 0 where
  pub result : r.0 ≡ a
  pub still_valid : r.1.is_valid ≡ ar.is_valid
  pub remaining : unread r.1.bytebuff ≡ rest
  pub readable : IsReadable r.1.bytebuff
  pub same_start : r.1.bytebuff.start_pos ≡ ar.bytebuff.start_pos

-- A reader that takes `bytes` off the input and returns `a`.
pub record Reads {A : Type 0} (m : Reader A) (bytes : List ℕ) (a : A) : Type 0 where
  pub takes :
      (ar : BuffMsgArchive) (rest : List ℕ)
      → IsReadable ar.bytebuff
      → unread ar.bytebuff ≡ bytes ++ rest
      → Taken a rest ar (m ar)

pub pure-Reads : {A : Type 0} (a : A) → Reads (pure a) [] a
unfolding pure
pure-Reads a = record {
  takes = λ ar rest v h. record {
    result = refl;
    still_valid = refl;
    remaining = h;
    readable = v;
    same_start = refl;
  };
}

-- One reader after the other; the second may depend on what the first returns.
pub >>=-Reads :
    {A B : Type 0} {m : Reader A} (f : A → Reader B) {bs cs : List ℕ} {a : A} {b : B}
    → Reads m bs a
    → Reads (f a) cs b
    → Reads (m >>= f) (bs ++ cs) b
unfolding ◌>>=◌
>>=-Reads {m = m} f {bs} {cs} {b = b} p q = record { takes = both }
  where
    both :
        (ar : BuffMsgArchive) (rest : List ℕ)
        → IsReadable ar.bytebuff
        → unread ar.bytebuff ≡ (bs ++ cs) ++ rest
        → Taken b rest ar ((m >>= f) ar)
    both ar rest v h =
        let t = p.takes ar (cs ++ rest) v (h ∙ append_assoc bs cs rest) in
        let s : Taken b rest (m ar).1 (f (m ar).0 (m ar).1) =
          rw t.result (q.takes (m ar).1 rest t.readable t.remaining) in
        record {
          result = s.result;
          still_valid = s.still_valid ∙ t.still_valid;
          remaining = s.remaining;
          readable = s.readable;
          same_start = s.same_start ∙ t.same_start;
        }

-- A last step that reads nothing.
pub >>=-Reads_last :
    {A B : Type 0} {m : Reader A} (f : A → Reader B) {bs : List ℕ} {a : A} {b : B}
    → Reads m bs a
    → Reads (f a) [] b
    → Reads (m >>= f) bs b
>>=-Reads_last f p q = rw append-nil at (>>=-Reads f p q)

pub map-Reads :
    {A B : Type 0} {m : Reader A} {bs : List ℕ} {a : A} (f : A → B)
    → Reads m bs a
    → Reads (m >>= λ x. pure (f x)) bs (f a)
map-Reads {a = a} f p = >>=-Reads_last (λ x. pure (f x)) p (pure-Reads (f a))

pub buffer_read-Reads : (n : ℕ) (bs : List ℕ) → length bs ≡ n → Reads (buffer_read n) bs (some bs)
unfolding buffer_read
buffer_read-Reads n bs e = record { takes = off }
  where
    off :
        (ar : BuffMsgArchive) (rest : List ℕ)
        → IsReadable ar.bytebuff
        → unread ar.bytebuff ≡ bs ++ rest
        → Taken (some bs) rest ar (buffer_read n ar)
    off ar rest v h =
        let enough : n ≤ length (unread ar.bytebuff) =
          omega (arith, ap length h, length-append bs rest) in
        let first : take n (unread ar.bytebuff) ≡ bs = rw (h, ← e) (take-append bs rest) in
        let others : drop n (unread ar.bytebuff) ≡ rest = rw (h, ← e) (drop-append bs rest) in
        rw (buffer_read, read_ready n v enough, first)
          (record {
            result = refl;
            still_valid = refl;
            remaining = unread-advance n ar.bytebuff ∙ others;
            readable = advance-IsReadable n v enough;
            same_start = refl;
          })

pub get_u8-Reads : (old d : ℕ) → d < 256 → Reads (get_u8 old) (bytes_u8 d) d
unfolding get_u8
get_u8-Reads old d h =
    let e = of_le-le_bytes 1 d (omega arith) in
    rw e at (map-Reads (loaded old) (buffer_read-Reads 1 (bytes_u8 d) (length-le_bytes 1 d)))

pub get_u16-Reads : (old d : ℕ) → d < 65536 → Reads (get_u16 old) (bytes_u16 d) d
unfolding get_u16
get_u16-Reads old d h =
    let e = of_le-le_bytes 2 (htons d) (omega (arith, htons-lt d)) in
    rw (e, htons_involutive d h) at
      (map-Reads (λ x. htons (loaded old x))
        (buffer_read-Reads 2 (bytes_u16 d) (length-le_bytes 2 (htons d))))

pub get_u32-Reads : (old d : ℕ) → d < 4294967296 → Reads (get_u32 old) (bytes_u32 d) d
unfolding get_u32
get_u32-Reads old d h =
    let e = of_le-le_bytes 4 (htonl d) (omega (arith, htonl-lt d)) in
    rw (e, htonl_involutive d h) at
      (map-Reads (λ x. htonl (loaded old x))
        (buffer_read-Reads 4 (bytes_u32 d) (length-le_bytes 4 (htonl d))))

pub get_u64-Reads : (old d : ℕ) → d < 18446744073709551616 → Reads (get_u64 old) (bytes_u64 d) d
unfolding get_u64
get_u64-Reads old d h =
    let e = of_le-le_bytes 8 (hton64 d) (omega (arith, hton64-lt d)) in
    rw (e, ntoh64-hton64 d h) at
      (map-Reads (λ x. ntoh64 (loaded old x))
        (buffer_read-Reads 8 (bytes_u64 d) (length-le_bytes 8 (hton64 d))))

pub get_str-Reads : (old s : List ℕ) → length s < 65536 → Reads (get_str old) (bytes_str s) s
unfolding get_str bytes_str
get_str-Reads old s h =
    let e : length s % 65536 ≡ length s = omega arith in
    >>=-Reads _ (get_u16-Reads 0 (length s % 65536) (omega arith)) (
      map-Reads (λ c. elim c [ none ↦ resize (length s % 65536) old | some bytes ↦ bytes ])
        (buffer_read-Reads (length s % 65536) s (sym e)))

module _ {T : Type 0} {get : T → Reader T} (bytes : T → List ℕ) (P : T → Type 0)
    (p : (old x : T) → P x → Reads (get old) (bytes x) x) where
  pub get_all-Reads :
      (xs : List T) (d : T) (v : List T)
      → All P xs
      → Reads (get_all get (length xs) d v) (bytes_all bytes xs) (v ++ xs)
  unfolding get_all bytes_all
  get_all-Reads [] d v h = rw append-nil (pure-Reads v)
  get_all-Reads (x ∷ xs) d v h =
      let ih = get_all-Reads xs x (v ++ (x ∷ [])) h.1 in
      >>=-Reads _ (p d x h.0) (rw (append_assoc v (x ∷ []) xs) at ih)

  pub get_vec-Reads :
      (xs : List T) (d : T)
      → All P xs
      → length xs < 65536
      → Reads (get_vec get d []) (bytes_vec bytes xs) xs
  unfolding get_vec bytes_vec
  get_vec-Reads xs d h small =
      let e : length xs % 65536 ≡ length xs = omega arith in
      >>=-Reads _ (get_u16-Reads 0 (length xs % 65536) (omega arith))
        (rw e (get_all-Reads xs d [] h))

  pub load_arr-Reads :
      (xs old : List T)
      → All P xs
      → length xs ≤ length old
      → Reads (load_arr get (length xs) old) (bytes_all bytes xs) (true, xs ++ drop (length xs) old)
  unfolding load_arr bytes_all
  load_arr-Reads [] old h short = pure-Reads (true, old)
  load_arr-Reads (x ∷ xs) [] h short = absurd (omega arith)
  load_arr-Reads (x ∷ xs) (y ∷ old) h short =
      >>=-Reads _ (p y x h.0) (
        map-Reads (λ (r : Bool × List T). (r.0, x ∷ r.1)) (load_arr-Reads xs old h.1 (omega arith)))
