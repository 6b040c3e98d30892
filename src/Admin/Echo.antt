-- ===== src/Admin/Echo.antt =====
-- The echo command, from the line typed at AdminClientConnection (src/admin_client.cpp) to the answer of
-- AdminServerConnection (src/admin_connection.cpp).
use data_spinner.Base.{List}
use data_spinner.Records.{Str, CommandMsg}
use data_spinner.Admin.{cmd_echo_text}

-- The command with those parameters.
abbrev pub echo_command : Str → List Str → CommandMsg
echo_command ctx params = record { cmd = cmd_echo_text; client_ctx = ctx; parameters = params }
