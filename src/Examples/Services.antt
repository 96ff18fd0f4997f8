-- ===== src/Examples/Services.antt =====
-- A server with one acceptor, and a client with two connections, that start and stop.
use soupbintcp.Common.{ℕ, ◌≡◌, refl, Bool, false, ◌==◌, some, List, [], ◌∷◌}
use soupbintcp.Error.{success, system}
use soupbintcp.Server.Listening
use soupbintcp.Server.Listening.{Answers}
use soupbintcp.Server.Listening.Starting.{IsStarted, start-IsStarted}
use soupbintcp.Server.Service.{new_server, new_acceptor}
use soupbintcp.Server.Service.Stopping.{
  acceptors_run, IsObedient, Request, acceptor_request, start_request, stop_request, task_run,
  serve_all, serve_all-IsObedient,
}
use soupbintcp.Client.Reconnect
use soupbintcp.Client.Service.{Client, run_task, stop_task}
use soupbintcp.Client.Service.Stopping.{IsQuiet, stop_task-IsQuiet}
use soupbintcp.Examples.Logins.{idle}
use soupbintcp.Examples.Logins as LoginRuns
use soupbintcp.Examples.Clients.{client, asio}

abbrev same : ℕ → ℕ → Bool
same a b = a == b

-- The port of the endpoint is in use.
abbrev busy : ℕ → Answers ℕ
busy endpoint = record {
  open_error = success;
  reuse_address_error = success;
  no_delay_error = success;
  bind_error = system 98;
  listen_error = success;
  local_endpoint = endpoint;
}

abbrev one_acceptor : Listening.Acceptor ℕ
one_acceptor = new_acceptor idle [] 80 (some 0)

start-IsStarted_example : IsStarted (busy 80) one_acceptor (Listening.start (busy 80) one_acceptor)
start-IsStarted_example = start-IsStarted (busy 80) one_acceptor

abbrev requests : List (Request ℕ)
requests =
    acceptor_request idle 80 (some 0)
    ∷ start_request
    ∷ task_run busy
    ∷ acceptors_run (Listening.accept_success LoginRuns.asio 7)
    ∷ stop_request
    ∷ task_run busy
    ∷ []

serve_all-IsObedient_example : IsObedient (serve_all same new_server requests)
unfolding new_server
serve_all-IsObedient_example =
    serve_all-IsObedient same new_server requests (record { down = λ e. tt })

abbrev running : Client ℕ
running = record {
  world = client;
  handler = some 0;
  handler_at = λ i. some 0;
  endpoint_at = λ i. i;
  posted = [];
}

stop_task-IsQuiet_example :
    ((run_task asio running stop_task).world.started ≡ false)
    × IsQuiet ((run_task asio running stop_task).world.connection_at 1)
    × (Reconnect.connect asio (run_task asio running stop_task).world 1
        ≡ (run_task asio running stop_task).world)
stop_task-IsQuiet_example = stop_task-IsQuiet asio running 1 refl refl
