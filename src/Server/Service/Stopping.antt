-- ===== src/Server/Service/Stopping.antt =====
-- What a server that is not started has left running.
use soupbintcp.Common.{
  if◌then◌else◌, ℕ, ◌≡◌, refl, true, false, Bool, Bool-cases, ◌==◌, ==_iff, inl, inr, Option, List,
  [], ◌∷◌, map, All, All-append, Bytes, arith,
}
use soupbintcp.ConnectionState
use soupbintcp.ConnectionState.{disconnected}
use soupbintcp.SocketAcceptor
use soupbintcp.Server.World
use soupbintcp.Server.World.{TcpConnection}
use soupbintcp.Server.Link
use soupbintcp.Server.Acceptor
use soupbintcp.Server.Acceptor.{close_each}
use soupbintcp.Server.Run.{is_listed}
use soupbintcp.Server.Run.Ports.{close_each-IsQuiet}
use soupbintcp.Server.Listening
use soupbintcp.Server.Listening.{Answers}
use soupbintcp.Server.Service.{
  Server, Task, start_task, end_session_task, stop_task, with_session, set_session, new_acceptor,
  add_acceptor, post, start, end_session, stop, run_task, run_first, run_posted, is_endpoint_used,
}

close-disconnected :
    (w : World.World) (i k : ℕ)
    → k ≡ i
    → ((Link.close w i).connection_at k).state.state ≡ disconnected
unfolding Link.close Link.disconnect Link.disconnected ConnectionState.disconnect
close-disconnected w i k e = ground arith

close_each-disconnected :
    (w : World.World) (connections : List ℕ) (k : ℕ)
    → is_listed k connections ≡ true
    → ((close_each w connections).connection_at k).state.state ≡ disconnected
unfolding close_each
close_each-disconnected w [] k listed = ground arith
close_each-disconnected w (i ∷ connections) k listed = elim (Bool-cases (k == i)) [
  | inl e ↦
      ((close_each-IsQuiet (Link.close w i) connections).goes k).gone
        (close-disconnected w i k ((==_iff k i).0 e))
  | inr e ↦ close_each-disconnected (Link.close w i) connections k (rw e at listed)
]

-- The functions of the server that the user calls, the run of the first posted task, and whatever the
-- acceptors do while the server is started.
pub data Request (E : Type 0) : Type 0 where
  session_request : Bytes → Request E
  acceptor_request : World.World → E → Option ℕ → Request E
  start_request end_session_request stop_request : Request E
  task_run : (E → Answers E) → Request E
  acceptors_run : (Listening.Acceptor E → Listening.Acceptor E) → Request E

module _ {E : Type 0} where
  -- An acceptor that does not listen, and the connections of which are disconnected.
  pub record IsDown (a : Listening.Acceptor E) : Type 0 where
    pub shut : a.acceptor.is_open ≡ false
    pub gone :
        (i : ℕ)
        → is_listed i a.world.connections ≡ true
        → (a.world.connection_at i).state.state ≡ disconnected

  pub record IsObedient (s : Server E) : Type 0 where
    pub down : s.started ≡ false → All IsDown s.acceptors

  stop-IsDown : (a : Listening.Acceptor E) → IsDown (Listening.stop a)
  unfolding Listening.stop SocketAcceptor.close Acceptor.stop
  stop-IsDown a = record {
    shut = ground arith;
    gone = λ i listed.
        close_each-disconnected a.world a.world.connections i
          (rw (close_each-IsQuiet a.world a.world.connections).same_list at listed);
  }

  stopped_each :
      (acceptors : List (Listening.Acceptor E)) → All IsDown (map Listening.stop acceptors)
  stopped_each [] = tt
  stopped_each (a ∷ acceptors) = (stop-IsDown a, stopped_each acceptors)

  with_session-IsDown :
      (session : Bytes) (acceptors : List (Listening.Acceptor E))
      → All IsDown acceptors
      → All IsDown (map (with_session session) acceptors)
  unfolding with_session
  with_session-IsDown session [] h = tt
  with_session-IsDown session (a ∷ acceptors) h =
      (record { shut = h.0.shut; gone = h.0.gone }, with_session-IsDown session acceptors h.1)

  unfoldable pub serve : (E → E → Bool) → Server E → Request E → Server E
  serve same s (session_request session) = (set_session s session).0
  serve same s (acceptor_request blank endpoint handler) =
      (add_acceptor same blank s endpoint handler).0
  serve same s start_request = (start s).0
  serve same s end_session_request = end_session s
  serve same s stop_request = stop s
  serve same s (task_run asio) = run_posted asio s
  serve same s (acceptors_run run) =
      if s.started then record s { acceptors = map run s.acceptors } else s

  unfoldable pub serve_all : (E → E → Bool) → Server E → List (Request E) → Server E
  serve_all same s [] = s
  serve_all same s (r ∷ requests) = serve_all same (serve same s r) requests

  run_task-IsObedient :
      (asio : E → Answers E) (s : Server E) (task : Task)
      → IsObedient s
      → IsObedient (run_task asio s task)
  unfolding run_task
  run_task-IsObedient asio s start_task h = record { down = λ e. absurd (ground arith) }
  run_task-IsObedient asio s end_session_task h = record {
    down = λ e. elim (Bool-cases s.started) [
      | inl on ↦ absurd (ground (arith, on, e))
      | inr off ↦ rw (off, run_task) (h.down off)
    ];
  }
  run_task-IsObedient asio s stop_task h = record {
    down = λ e. elim (Bool-cases s.started) [
      | inl on ↦ rw (on, run_task) (stopped_each s.acceptors)
      | inr off ↦ rw (off, run_task) (h.down off)
    ];
  }

  run_first-IsObedient :
      (asio : E → Answers E) (s : Server E) (tasks : List Task)
      → IsObedient s
      → IsObedient (run_first asio s tasks)
  unfolding run_first
  run_first-IsObedient asio s [] h = h
  run_first-IsObedient asio s (task ∷ tasks) h =
      run_task-IsObedient asio (record s { posted = tasks }) task (record { down = h.down })

  serve-IsObedient :
      (same : E → E → Bool) (s : Server E) (r : Request E)
      → IsObedient s
      → IsObedient (serve same s r)
  unfolding serve set_session add_acceptor new_acceptor SocketAcceptor.new_socket_acceptor start
      end_session stop post run_posted
  serve-IsObedient same s (session_request session) h = record {
    down = λ e.
        let moved = with_session-IsDown session s.acceptors in let before = h.down in ground arith;
  }
  serve-IsObedient same s (acceptor_request blank endpoint handler) h = record {
    down = λ e.
        let made : IsDown (new_acceptor blank s.session endpoint handler) = record {
          shut = refl;
          gone = λ i listed. absurd (ground arith);
        } in
        let off : s.started ≡ false = ground arith in
        elim (Bool-cases (is_endpoint_used same endpoint s.acceptors)) [
          | inl used ↦ rw (used, serve, add_acceptor) (h.down off)
          | inr free ↦
              rw (free, serve, add_acceptor)
                (All-append IsDown s.acceptors _ (h.down off) (made, tt))
        ];
  }
  serve-IsObedient same s start_request h = record {
    down = λ e. let before = h.down in ground arith;
  }
  serve-IsObedient same s end_session_request h = record { down = h.down }
  serve-IsObedient same s stop_request h = record { down = h.down }
  serve-IsObedient same s (task_run asio) h = run_first-IsObedient asio s s.posted h
  serve-IsObedient same s (acceptors_run run) h = record {
    down = λ e. elim (Bool-cases s.started) [
      | inl on ↦ absurd (ground (arith, on, e))
      | inr off ↦ rw (off, serve) (h.down off)
    ];
  }

  -- Over any sequence of `set_session`, `add_acceptor`, `start`, `end_session` and `stop` and of
  -- runs of the first posted function, with whatever Asio answers and whatever the acceptors do
  -- while the server is started, if at first either the server is started, or no acceptor is open
  -- and all their connections are disconnected, then this holds afterwards too.
  pub serve_all-IsObedient :
      (same : E → E → Bool) (s : Server E) (requests : List (Request E))
      → IsObedient s
      → IsObedient (serve_all same s requests)
  unfolding serve_all
  serve_all-IsObedient same s [] h = h
  serve_all-IsObedient same s (r ∷ requests) h =
      serve_all-IsObedient same (serve same s r) requests (serve-IsObedient same s r h)
