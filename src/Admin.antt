-- ===== src/Admin.antt =====
-- AdminServerConnection of src/admin_connection.cpp and AdminClientConnection::on_menu_msg of
-- src/admin_client.cpp. What is logged is not modelled.
pub mod Echo
use data_spinner.Base.{
  ℕ, zero, suc, ◌+◌, ◌-◌, ◌*◌, ◌%◌, ◌^◌, ◌==◌, Bool, true, false, Option, none, some, List, [], ◌∷◌,
  ltb, if◌then◌else◌,
}
use data_spinner.Wire.{u32}
use data_spinner.Records.{
  Str, u16, SubscribeMsg, TextMsg, MenuMsg, CommandMsg, NumVecMsg, add_menu_option, add_num,
  add_symbols, new_command, add_command_parameters, cmd_none,
}
use data_spinner.Delta.{MdDelta}
use data_spinner.Builder.{Publisher}
use data_spinner.Generator.{send_generated_delta, send_generated_subtype_delta}
use data_spinner.Message.{
  Message, text_msg, delta_msg, menu_msg, subscribe_msg, command_msg, intvec_msg, bytevec_msg,
  doublevec_msg,
}
use data_spinner.Queue.{SendResult}
use data_spinner.Connection.{Call}
use data_spinner.Ref.{MdRef}
use data_spinner.Text.{
  codes, join, getline, split, parse_command, ℤ, pos, negsuc, signed, erase_front,
}
use data_spinner.Session.{Peer, close_peer}
use data_spinner.Snapshot.{
  MdRefTable, Doubles, Line, send_next, send_on, send_regenerated_snapshot, ◌>>=◌,
}

abbrev pub cmd_subscribe : ℕ
cmd_subscribe = 115

abbrev pub cmd_req_updates : ℕ
cmd_req_updates = 117

abbrev pub cmd_echo_text : ℕ
cmd_echo_text = 116

abbrev pub cmd_send_intvec : ℕ
cmd_send_intvec = 110

abbrev pub cmd_send_bytevec : ℕ
cmd_send_bytevec = 98

abbrev pub cmd_send_doublevec : ℕ
cmd_send_doublevec = 108

abbrev pub cmd_quit : ℕ
cmd_quit = 113

-- The menu that the constructor makes.
abbrev pub server_menu : MenuMsg
server_menu = add_menu_option cmd_quit (codes "Close connection") (
    add_menu_option cmd_send_doublevec (codes "Send doublevec (<size>)") (
      add_menu_option cmd_send_bytevec (codes "Send bytevec (<size>)") (
        add_menu_option cmd_send_intvec (codes "Send intvec (<size>)") (
          add_menu_option cmd_req_updates
            (codes "Request delta-updates for TEST symbol (u 10 i) (u 5 l)")
            (add_menu_option cmd_subscribe
              (codes "Send subscription for symbols (space separate symbols)")
              (add_menu_option cmd_echo_text (codes "Echo back text") (record { menu = [] })))))))

pub record AdminServerConnection : Type 0 where
  pub line : Line
  pub menu : MenuMsg
  pub snapshot : MdRefTable

-- `size_t num = atoi(text)`: 0 where no number stands; a number that fits no int is undefined there, and 0
-- here.
unfoldable pub atoi : Str → ℕ
atoi s = elim (signed (erase_front s)) [
  | none ↦ 0
  | some (pos n) ↦ n
  | some (negsuc n) ↦ 2 ^ 64 - 1 - n
]

-- `for (n = 1; n <= num; ++n) if (!m.add_num(value n)) break;` for that many rounds.
unfoldable pub add_nums : (ℕ → ℕ) → ℕ → ℕ → NumVecMsg → NumVecMsg
add_nums value zero n m = m
add_nums value (suc rounds) n m =
    let r = add_num (value n) m in
    let rest = add_nums value rounds (n + 1) r.0 in if r.1 then rest else r.0

-- `char upd_type`
unfoldable pub upd_type : List Str → ℕ
upd_type [] = 105
upd_type ([] ∷ ps) = 105
upd_type ((c ∷ s) ∷ ps) = c

-- The command of the first word, with the other words; `cmd_none` asks again.
abbrev pub first_command : List Str → ℕ × List Str
first_command [] = (cmd_none, [])
first_command (word ∷ words) =
    let cmd = parse_command word in if cmd == cmd_none then (cmd_none, []) else (cmd, words)

-- What on_menu_msg makes of a line that was typed: the command and its parameters.
unfoldable pub typed_command : Str → ℕ × List Str
typed_command val = first_command (split val 32)

-- The lines that are typed until one of them is a command, and the lines behind it; `none` when the input
-- ends before, where the loop goes on for ever.
unfoldable pub ask_command : List Str → Option (ℕ × List Str × List Str)
ask_command [] = none
ask_command (val ∷ vals) =
    let c = typed_command val in
    let rest = ask_command vals in if c.0 == cmd_none then rest else some (c.0, c.1, vals)

-- `param_str`; join is not called without parameters.
unfoldable pub param_str : List Str → Str
param_str params = elim (join params 32) [ none ↦ [] | some s ↦ s ]

module _ (answer : ℕ → ℕ → SendResult) (fuel : ℕ) (calls : ℕ → Call) where
  -- DeltaPublisher: a delta goes to the connection; `none` once the fuel of a send ran out.
  unfoldable pub admin_publisher : Publisher (Option Line)
  admin_publisher = record {
    publish = λ d o. elim (o >>= send_next answer fuel calls (delta_msg d)) [
      | none ↦ (false, none)
      | some (ok, l) ↦ (ok, some l)
    ];
  }

  unfoldable pub sendmenu : AdminServerConnection → Option AdminServerConnection
  sendmenu a = do
    l ← send_on answer fuel calls (menu_msg a.menu) a.line
    some (record a { line = l })

  -- `times i` and `hundredths n` are the doubles i * 100.1 and n * 100.01 by their bits; `garbage` and
  -- `blank` are the new delta and the new reference as the memory is.
  module _ (dbl : Doubles) (times hundredths : ℕ → ℕ) (now : ℕ) (garbage : MdDelta)
      (blank : MdRef) where
    -- The part of on_subscribe_msg under `sym.size() > 0`.
    unfoldable pub send_subscribed : List Str → AdminServerConnection → Option AdminServerConnection
    send_subscribed sym a = do
      (t, l₁) ← send_regenerated_snapshot answer fuel calls dbl blank sym a.snapshot a.line
      l₂ ← send_on answer fuel calls (text_msg (record { m_text = codes "Snapshot sent" })) l₁
      l₃ ← send_generated_delta admin_publisher times now garbage sym 20 (some l₂)
      l₄ ← send_on answer fuel calls (text_msg (record { m_text = codes "Delta sent" })) l₃
      some (record a { line = l₄; snapshot = t })

    -- void on_subscribe_msg(const SubscribeMsg& m)
    unfoldable pub on_subscribe_msg :
        SubscribeMsg → AdminServerConnection → Option AdminServerConnection
    on_subscribe_msg m a = do
      a₁ ← elim (m.symbols) [ [] ↦ some a | s ∷ ss ↦ send_subscribed m.symbols a ]
      sendmenu a₁

    unfoldable pub send_updates : List Str → Line → Option Line
    send_updates [] l = some l
    send_updates (p ∷ ps) l =
        let num = if ltb (atoi p) 1 then 1 else atoi p in
        send_generated_subtype_delta admin_publisher times now garbage (codes "TEST" ∷ []) (u16 num)
          (upd_type ps) (some l)

    -- The three commands that answer with a vector.
    unfoldable pub send_nums : (NumVecMsg → Message) → (ℕ → ℕ) → Str → List Str → Line → Option Line
    send_nums message value ctx [] l = some l
    send_nums message value ctx (p ∷ ps) l =
        send_on answer fuel calls
          (message (add_nums value (atoi p) 1 (record { client_ctx = ctx; nums = [] }))) l

    -- The `switch (c)`.
    unfoldable pub answer_command : CommandMsg → Line → Option Line
    answer_command c l =
        if c.cmd == cmd_echo_text
        then send_on answer fuel calls (text_msg (record { m_text = param_str c.parameters })) l
        else if c.cmd == cmd_req_updates
        then send_updates c.parameters l
        else if c.cmd == cmd_send_intvec
        then send_nums intvec_msg u32 c.client_ctx c.parameters l
        else if c.cmd == cmd_send_bytevec
        then send_nums bytevec_msg (λ n. n % 256) c.client_ctx c.parameters l
        else if c.cmd == cmd_send_doublevec
        then send_nums doublevec_msg hundredths c.client_ctx c.parameters l
        else some l

    -- void on_command_msg(const CommandMsg& cmd)
    unfoldable pub on_command_msg :
        CommandMsg → AdminServerConnection → Option AdminServerConnection
    on_command_msg c a = do l ← answer_command c a.line; sendmenu (record a { line = l })

  -- What AdminClientConnection::on_menu_msg does with the command that was typed.
  unfoldable pub send_typed : Str → ℕ → List Str → Line → Option Line
  send_typed client_context cmd params l =
      if cmd == cmd_quit
      then some (record l { peer = close_peer l.peer })
      else if cmd == cmd_subscribe
      then send_on answer fuel calls (subscribe_msg (add_symbols params (record { symbols = [] })))
          l
      else send_on answer fuel calls
          (command_msg (add_command_parameters params (new_command cmd client_context)).0) l

  -- void on_menu_msg(const MenuMsg& m), with the lines that will be typed, and those that are left then.
  unfoldable pub on_menu_msg : Str → List Str → Line → Option (List Str × Line)
  on_menu_msg client_context vals l = do
    (cmd, params, rest) ← ask_command vals
    l₁ ← send_typed client_context cmd params l
    some (rest, l₁)
