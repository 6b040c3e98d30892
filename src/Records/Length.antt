-- ===== src/Records/Length.antt =====
-- calc_len of each message is the number of bytes that its operator << writes, as a uint16_t.
use data_spinner.Base.{
  ℕ, ◌+◌, ◌*◌, ◌%◌, ◌<◌, ◌≡◌, arith, List, [], ◌∷◌, ◌++◌, length, length-append,
}
use data_spinner.Wire.{htons, htonl}
use data_spinner.Wire.Order.{length-le_bytes}
use data_spinner.Archive.Writing.{bytes_u8, bytes_u16, bytes_str, bytes_all, bytes_vec}
use data_spinner.Records.{
  Str, u16, str_archive_len, str_arr_archive_len, num_arr_archive_len, TextMsg, HbMsg, SubscribeMsg,
  LoginMsg, LoginReplyMsg, StrData, MenuMsg, CommandMsg, NumVecMsg, text_calc_len, hb_calc_len,
  subscribe_calc_len, login_calc_len, login_reply_calc_len, menu_calc_len, command_calc_len,
  num_vec_calc_len,
}
use data_spinner.Records.Forms.{
  bytes_text, bytes_hb, bytes_subscribe, bytes_login, bytes_login_reply, bytes_str_data, bytes_menu,
  bytes_command, bytes_num_vec,
}
use mathlib.Core.List.{foldl}

pub length-bytes_str : (s : Str) → length (bytes_str s) ≡ 2 + length s
unfolding bytes_str
length-bytes_str s = omega (
  arith,
  length-append (bytes_u16 (length s % 65536)) s,
  length-le_bytes 2 (htons (length s % 65536)),
)

length-bytes_vec :
    {T : Type 0} (bytes : T → List ℕ) (xs : List T)
    → length (bytes_vec bytes xs) ≡ 2 + length (bytes_all bytes xs)
unfolding bytes_vec
length-bytes_vec bytes xs = omega (
  arith,
  length-append (bytes_u16 (length xs % 65536)) (bytes_all bytes xs),
  length-le_bytes 2 (htons (length xs % 65536)),
)

-- A sum that is cut to 16 bits at each step.
fold_len :
    {T : Type 0} (bytes : T → List ℕ) (step : ℕ → T → ℕ)
    → ((r : ℕ) (x : T) → step r x ≡ u16 (r + length (bytes x)))
    → (xs : List T) (r : ℕ) → u16 (foldl step r xs) ≡ u16 (r + length (bytes_all bytes xs))
unfolding bytes_all
fold_len bytes step h [] r = omega arith
fold_len bytes step h (x ∷ xs) r = omega (
  arith,
  h r x,
  fold_len bytes step h xs (step r x),
  length-append (bytes x) (bytes_all bytes xs),
)

fold_small :
    {T : Type 0} (step : ℕ → T → ℕ)
    → ((r : ℕ) (x : T) → step r x < 65536)
    → (xs : List T) (r : ℕ) → r < 65536
    → foldl step r xs < 65536
fold_small step h [] r small = small
fold_small step h (x ∷ xs) r small = fold_small step h xs (step r x) (h r x)

fold_len_vec :
    {T : Type 0} (bytes : T → List ℕ) (step : ℕ → T → ℕ)
    → ((r : ℕ) (x : T) → step r x ≡ u16 (r + length (bytes x)))
    → (xs : List T) → foldl step 2 xs ≡ u16 (length (bytes_vec bytes xs))
fold_len_vec bytes step h xs = omega (
  arith,
  fold_len bytes step h xs 2,
  fold_small step (λ r x. omega (arith, h r x)) xs 2,
  length-bytes_vec bytes xs,
)

pub str_archive_len_lem : (s : Str) → str_archive_len s ≡ u16 (length (bytes_str s))
unfolding str_archive_len
str_archive_len_lem s = omega (arith, length-bytes_str s)

pub str_arr_archive_len_lem :
    (arr : List Str) → str_arr_archive_len arr ≡ u16 (length (bytes_vec bytes_str arr))
unfolding str_arr_archive_len
str_arr_archive_len_lem arr =
    fold_len_vec bytes_str (λ r v. u16 (r + (length v + 2)))
      (λ r x. omega (arith, length-bytes_str x)) arr

module _ (bytes : ℕ → List ℕ) (size : ℕ) (h : (d : ℕ) → length (bytes d) ≡ size) where
  pub length-bytes_all_nums : (arr : List ℕ) → length (bytes_all bytes arr) ≡ size * length arr
  unfolding bytes_all
  length-bytes_all_nums [] = omega arith
  length-bytes_all_nums (d ∷ arr) =
      omega (arith, h d, length-append (bytes d) (bytes_all bytes arr), length-bytes_all_nums arr)

  pub num_vec_calc_len_lem :
      (m : NumVecMsg) → num_vec_calc_len size m ≡ u16 (length (bytes_num_vec bytes m))
  unfolding num_vec_calc_len bytes_num_vec num_arr_archive_len
  num_vec_calc_len_lem m = omega (
    arith,
    str_archive_len_lem m.client_ctx,
    length-bytes_all_nums m.nums,
    length-bytes_vec bytes m.nums,
    length-append (bytes_str m.client_ctx) (bytes_vec bytes m.nums),
  )

pub text_calc_len_lem : (m : TextMsg) → text_calc_len m ≡ u16 (length (bytes_text m))
unfolding text_calc_len bytes_text
text_calc_len_lem m = str_archive_len_lem m.m_text

pub hb_calc_len_lem : (m : HbMsg) → hb_calc_len m ≡ u16 (length (bytes_hb m))
unfolding hb_calc_len bytes_hb
hb_calc_len_lem m = omega (arith, length-le_bytes 4 (htonl m.counter))

pub subscribe_calc_len_lem :
    (m : SubscribeMsg) → subscribe_calc_len m ≡ u16 (length (bytes_subscribe m))
unfolding subscribe_calc_len bytes_subscribe
subscribe_calc_len_lem m = str_arr_archive_len_lem m.symbols

pub login_calc_len_lem : (m : LoginMsg) → login_calc_len m ≡ u16 (length (bytes_login m))
unfolding login_calc_len bytes_login
login_calc_len_lem m =
    let params = bytes_vec bytes_str m.params in
    let token = bytes_str m.token ++ params in
    let user = bytes_str m.user ++ token in
    omega (
      arith,
      str_archive_len_lem m.user,
      str_archive_len_lem m.token,
      str_arr_archive_len_lem m.params,
      length-le_bytes 2 (htons m.version),
      length-append (bytes_u16 m.version) user,
      length-append (bytes_str m.user) token,
      length-append (bytes_str m.token) params,
    )

pub login_reply_calc_len_lem :
    (m : LoginReplyMsg) → login_reply_calc_len m ≡ u16 (length (bytes_login_reply m))
unfolding login_reply_calc_len bytes_login_reply
login_reply_calc_len_lem m =
    let params = bytes_vec bytes_str m.params in
    let desc = bytes_str m.reply_desc ++ params in
    let code = bytes_u16 m.reply_code ++ desc in
    omega (
      arith,
      str_archive_len_lem m.reply_desc,
      str_arr_archive_len_lem m.params,
      length-le_bytes 2 (htons m.version),
      length-le_bytes 2 (htons m.reply_code),
      length-append (bytes_u16 m.version) code,
      length-append (bytes_u16 m.reply_code) desc,
      length-append (bytes_str m.reply_desc) params,
    )

length-bytes_str_data : (s : StrData) → length (bytes_str_data s) ≡ 4 + length s.val
unfolding bytes_str_data
length-bytes_str_data s = omega (
  arith,
  length-append (bytes_u16 s.idx) (bytes_str s.val),
  length-le_bytes 2 (htons s.idx),
  length-bytes_str s.val,
)

pub menu_calc_len_lem : (m : MenuMsg) → menu_calc_len m ≡ u16 (length (bytes_menu m))
unfolding menu_calc_len bytes_menu str_archive_len
menu_calc_len_lem m =
    fold_len_vec bytes_str_data (λ rv s. u16 (u16 (rv + str_archive_len s.val) + 2))
      (λ r x. omega (arith, length-bytes_str_data x)) m.menu

pub command_calc_len_lem : (m : CommandMsg) → command_calc_len m ≡ u16 (length (bytes_command m))
unfolding command_calc_len bytes_command
command_calc_len_lem m =
    let params = bytes_vec bytes_str m.parameters in
    let ctx = bytes_str m.client_ctx ++ params in
    omega (
      arith,
      str_archive_len_lem m.client_ctx,
      str_arr_archive_len_lem m.parameters,
      length-le_bytes 1 (m.cmd % 256),
      length-append (bytes_u8 (m.cmd % 256)) ctx,
      length-append (bytes_str m.client_ctx) params,
    )
