-- ===== src/Tests/WebTests/Calls.antt =====
-- Calls of src/claude_pool/client.py at a daemon on 127.0.0.1:8756.
use claude_code_cli_local_ga.Prelude.{◌≡◌, refl, some}
use claude_code_cli_local_ga.Config.{is_loopback_host}
use claude_code_cli_local_ga.Server.Routes.{dispatch, cancels_job}
use claude_code_cli_local_ga.Client.Requests.{base_url_of}
use claude_code_cli_local_ga.Client.Requests.Web.{consists}
use claude_code_cli_local_ga.Client.Requests.Reached.{
  asks_cancel, sent, received, IsLocal, request_of, calls_reach,
}
use claude_code_cli_local_ga.Tests.WebTests.{web, web-IsWeb}
use claude_code_cli_local_ga.Tests.HttpTests.{ip, digits, repr, no_number, shown}
use claude_code_cli_local_ga.Tests.AppTests.{app, moment}

local : IsLocal ip digits "127.0.0.1" "8756"
unfolding is_loopback_host consists
local = record {
  loopback = refl;
  host_name = refl;
  plain = refl;
  port_number = refl;
  port_digits = refl;
}

calls_reach_example :
    received no_number "1.0" shown shown ip digits repr web
      (sent (base_url_of "127.0.0.1" "8756") (asks_cancel "a"))
      moment
      app
    ≡ some (
        dispatch no_number "1.0" shown shown cancels_job
          (request_of "127.0.0.1" "8756" (asks_cancel "a"))
          moment
          app)
unfolding consists
calls_reach_example =
    calls_reach no_number "1.0" shown shown ip digits repr web web-IsWeb "127.0.0.1" "8756" local
      moment app (asks_cancel "a") (refl, refl)
