-- ===== src/Client/Service/Stopping.antt =====
-- What a client that has been stopped leaves of its connections.
use soupbintcp.Common.{
  ℕ, ◌≡◌, refl, ◌∙◌, true, false, ◌||◌, Bool, Bool-cases, ◌==◌, ==_iff, inl, inr, List, [], ◌∷◌,
  arith,
}
use soupbintcp.ConnectionState
use soupbintcp.ConnectionState.{disconnected}
use soupbintcp.ReconnectTimer
use soupbintcp.Client.World
use soupbintcp.Client.World.{Asio, Connection}
use soupbintcp.Client.Link
use soupbintcp.Client.Reconnect
use soupbintcp.Client.Service.{Client, close_all, run_task, stop_task}

abbrev pub is_listed : ℕ → List ℕ → Bool
is_listed i [] = false
is_listed i (j ∷ list) = i == j || is_listed i list

-- A connection that is disconnected, if it is one at all, and does not wait to come back.
pub record IsQuiet (c : Connection) : Type 0 where
  pub gone : c.connected ≡ true → c.link.state.state ≡ disconnected
  pub waiting_no_more : c.reconnect_timer.started ≡ false

close-IsQuiet :
    (w : World.World) (i k : ℕ) → k ≡ i → IsQuiet ((Reconnect.close w i).connection_at k)
unfolding Reconnect.close Link.close Link.disconnect Link.disconnected ConnectionState.disconnect
    ReconnectTimer.stop
close-IsQuiet w i k e = record { gone = λ e'. ground arith; waiting_no_more = ground arith }

-- Another connection is left alone.
close-other :
    (w : World.World) (i k : ℕ)
    → (k == i) ≡ false
    → (Reconnect.close w i).connection_at k ≡ w.connection_at k
unfolding Reconnect.close Link.close Link.disconnect
close-other w i k e = ground arith

close-keeps :
    (w : World.World) (i k : ℕ)
    → IsQuiet (w.connection_at k)
    → IsQuiet ((Reconnect.close w i).connection_at k)
close-keeps w i k h = elim (Bool-cases (k == i)) [
  | inl e ↦ close-IsQuiet w i k ((==_iff k i).0 e)
  | inr e ↦ rw (close-other w i k e) h
]

close_all-keeps :
    (w : World.World) (connections : List ℕ) (k : ℕ)
    → IsQuiet (w.connection_at k)
    → IsQuiet ((close_all w connections).connection_at k)
unfolding close_all
close_all-keeps w [] k h = h
close_all-keeps w (i ∷ connections) k h =
    close_all-keeps (Reconnect.close w i) connections k (close-keeps w i k h)

close_all-IsQuiet :
    (w : World.World) (connections : List ℕ) (k : ℕ)
    → is_listed k connections ≡ true
    → IsQuiet ((close_all w connections).connection_at k)
unfolding close_all
close_all-IsQuiet w [] k listed = absurd (ground arith)
close_all-IsQuiet w (i ∷ connections) k listed = elim (Bool-cases (k == i)) [
  | inl e ↦
      close_all-keeps (Reconnect.close w i) connections k (close-IsQuiet w i k ((==_iff k i).0 e))
  | inr e ↦ close_all-IsQuiet (Reconnect.close w i) connections k (rw e at listed)
]

close_all-started :
    (w : World.World) (connections : List ℕ) → (close_all w connections).started ≡ w.started
unfolding close_all Reconnect.close Link.close Link.disconnect
close_all-started w [] = refl
close_all-started w (i ∷ connections) =
    close_all-started (Reconnect.close w i) connections ∙ ground arith

-- A connection of a client that is not started, does not wait and is none does not begin.
resting :
    (asio : Asio) (w : World.World) (i : ℕ) → w.started ≡ false → Reconnect.connect asio w i ≡ w
unfolding Reconnect.connect
resting asio w i off = ground (arith, off)

-- Where a client is started, the function that `stop` posts leaves it stopped, and of a
-- connection of its list it leaves a link that is disconnected, if there is one, and a reconnect
-- timer that is not started; `connect` of that connection then changes nothing.
pub stop_task-IsQuiet :
    {E : Type 0} (asio : Asio) (c : Client E) (i : ℕ)
    → c.world.started ≡ true
    → is_listed i c.world.connections ≡ true
    → ((run_task asio c stop_task).world.started ≡ false)
      × IsQuiet ((run_task asio c stop_task).world.connection_at i)
      × (Reconnect.connect asio (run_task asio c stop_task).world i
          ≡ (run_task asio c stop_task).world)
unfolding run_task
stop_task-IsQuiet asio c i on listed =
    let w : World.World = record c.world { started = false } in
    let off : (close_all w c.world.connections).started ≡ false =
      close_all-started w c.world.connections in
    rw on (off, close_all-IsQuiet w c.world.connections i listed, resting asio _ i off)
