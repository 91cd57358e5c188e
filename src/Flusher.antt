-- ===== src/Flusher.antt =====
-- flusher.rs: `BackgroundFlusher`. Its thread and the callers share the pool behind a mutex, so that
-- a run of the system is a sequence of calls and of steps of the thread.
pub mod Runs
pub mod Shutdown
mod Examples
use smol_db.Common.{Bool, true, false, if◌then◌else◌, List}
use smol_db.Error.Outcome.{ok, err, panic, Run}
use smol_db.Error.Method.{Method, put_back}
use smol_db.Page.{PageId}
use smol_db.Pool.{BufferPool, WalFlusher, flush_all_pages}

-- what `recv_timeout` returns
pub data Received : Type 0 where
  message disconnected timeout : Received

-- where the thread is: in its loop, behind it, or at its end
pub data Thread : Type 0 where
  looping draining ended : Thread

-- The pool, the channel (a message waits), the two fields of `BackgroundFlusher` (still there), and
-- the thread.
pub record System (W : Type 0) : Type 0 where
  pub pool : BufferPool W
  pub sent : Bool
  pub shutdown_tx : Bool
  pub handle : Bool
  pub thread : Thread

module _ {W : Type 0} where
  unfoldable pub start_flusher : BufferPool W → System W
  start_flusher pool = record {
    pool = pool;
    sent = false;
    shutdown_tx = true;
    handle = true;
    thread = looping;
  }

  -- the first half of `shutdown`: the sender sends, and is dropped
  unfoldable pub signal : System W → System W
  signal s = if s.shutdown_tx then record s { sent = true; shutdown_tx = false } else s

  -- `handle.take()` and the return of `join`
  unfoldable pub joined : System W → System W
  joined s = record s { handle = false }

  -- Where the thread goes behind a flush: an error is printed, a panic unwinds the thread to its end.
  unfoldable pub behind : Thread → Run (System W) Unit → System W
  behind thread (ok done, s) = record s { thread = thread }
  behind thread (err e, s) = record s { thread = thread }
  behind thread (panic, s) = record s { thread = ended }

module _ {W : Type 0} ⦃flusher : WalFlusher W⦄ where
  -- `flush_all_pages` on the pool behind the mutex
  unfoldable pub flush_shared : List PageId → Method (System W) Unit
  flush_shared order s = put_back (λ p. record s { pool = p }) (flush_all_pages order s.pool)

  -- a round of the loop
  unfoldable pub serve : Received → List PageId → System W → System W
  serve message order s = record s { sent = false; thread = draining }
  serve disconnected order s = record s { thread = draining }
  serve timeout order s = behind looping (flush_shared order s)

  -- the final flush, behind the loop
  unfoldable pub drain : List PageId → System W → System W
  drain order s = behind ended (flush_shared order s)
