-- ===== src/Flusher/Examples.antt =====
-- The theorems about `shutdown` at a concrete run.
use smol_db.Common.{refl, [], ◌∷◌}
use smol_db.Wal.Manager.{WalManager}
use smol_db.Pool.Log.{wal_manager}
use smol_db.Pool.Sample.{full_pool}
use smol_db.Flusher.{System, message, start_flusher, serve, drain, signal, joined}
use smol_db.Flusher.Runs.{served, waiting, Turns, here, then_turn, Shutdown}
use smol_db.Flusher.Shutdown.{Ends, shutdown-Ends}

abbrev started : System WalManager
unfolding start_flusher
started = start_flusher full_pool

-- the signal has come, and the thread has left its loop
abbrev left : System WalManager
left = serve message (4096 ∷ []) (signal started)

left-Turns : Turns (signal started) left
unfolding start_flusher signal
left-Turns = then_turn here (served (signal started) message (4096 ∷ []) refl (waiting refl))

abbrev stopped : System WalManager
stopped = joined (drain (4096 ∷ []) left)

shutdown-Ends_example : Ends left
shutdown-Ends_example = shutdown-Ends started left (4096 ∷ []) left-Turns
