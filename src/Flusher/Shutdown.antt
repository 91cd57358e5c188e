-- ===== src/Flusher/Shutdown.antt =====
-- `shutdown` (flusher.rs), while callers and the thread take turns.
use smol_db.Common.{◌≡◌, refl, sym, ap, ◌∙◌, ◌⊎◌, inl, inr, Bool, true, false, Bool-cases, List}
use smol_db.Page.{PageId}
use smol_db.Pool.{WalFlusher, flush_all_pages}
use smol_db.Flusher.{
  message, disconnected, timeout, Thread, looping, draining, ended, System, signal, serve, drain,
}
use smol_db.Flusher.Runs.{
  waiting, hung_up, late, Turn, called, served, drained, Turns, here, then_turn, Calls, drain_lem,
}

module _ {W : Type 0} ⦃flusher : WalFlusher W⦄ where
  -- From `s`, turns lead to a system whose thread is behind its loop. It flushes every page of the pool
  -- that it finds there, and what follows in `u` are calls of callers alone.
  abbrev pub Flushed : System W → System W → Type 0
  Flushed s u =
      (m : System W) × (order : List PageId) × Turns s m
      × (m.thread ≡ draining)
      × Calls (flush_all_pages order m.pool).1 u.pool

  -- where the thread is, once the sender is gone
  abbrev Phase : System W → System W → Type 0
  Phase s u = (u.thread ≡ looping) ⊎ (u.thread ≡ draining) ⊎ ((u.thread ≡ ended) × Flushed s u)

  -- the sender and the handle stay as they are while turns are taken
  abbrev Waits : System W → System W → Type 0
  Waits s u = (u.shutdown_tx ≡ false) × Phase s u

  -- the sender is gone behind the signal, and the rest is as before
  pub signal_lem :
      (s : System W)
      → ((signal s).shutdown_tx ≡ false)
        × ((signal s).thread ≡ s.thread)
        × ((signal s).handle ≡ s.handle)
  unfolding signal
  signal_lem s = elim (Bool-cases s.shutdown_tx) [
    | inl there ↦ rw there (refl, refl, refl)
    | inr gone ↦ rw gone (refl, refl, refl)
  ]

  -- what a call of `shutdown` has come to
  abbrev pub Shut : System W → System W → Type 0
  Shut s u =
      Flushed (signal s) u × (u.thread ≡ ended) × (u.shutdown_tx ≡ false) × (u.handle ≡ false)

  Turn-gone : {t u : System W} → Turn t u → t.shutdown_tx ≡ false → u.shutdown_tx ≡ false
  unfolding serve
  Turn-gone (called t p call) gone = gone
  Turn-gone (served t message order at arrives) gone = gone
  Turn-gone (served t disconnected order at arrives) gone = gone
  Turn-gone (served t timeout order at (late calm there)) gone = cc (sym there ∙ gone)
  Turn-gone (drained t order at) gone =
      ap (λ (x : System W). x.shutdown_tx) (drain_lem order t) ∙ gone

  Turns-gone : {s u : System W} → Turns s u → s.shutdown_tx ≡ false → u.shutdown_tx ≡ false
  Turns-gone here gone = gone
  Turns-gone (then_turn turns turn) gone = Turn-gone turn (Turns-gone turns gone)

  -- the end of the thread is some turns away
  abbrev pub Ends : System W → Type 0
  Ends t = (u : System W) × Turns t u × (u.thread ≡ ended)

  drain-Ends : (order : List PageId) (t m : System W) → Turns t m → m.thread ≡ draining → Ends t
  drain-Ends order t m turns at = (
    drain order m,
    then_turn turns (drained m order at),
    ap (λ (x : System W). x.thread) (drain_lem order m),
  )

  Thread-Ends :
      (order : List PageId) (t : System W) (x : Thread) (b : Bool)
      → t.shutdown_tx ≡ false
      → t.thread ≡ x
      → t.sent ≡ b
      → Ends t
  unfolding serve
  Thread-Ends order t looping true gone at sent =
      drain-Ends order t (serve message order t)
        (then_turn here (served t message order at (waiting sent))) refl
  Thread-Ends order t looping false gone at sent =
      drain-Ends order t (serve disconnected order t)
        (then_turn here (served t disconnected order at (hung_up sent gone))) refl
  Thread-Ends order t draining b gone at sent = drain-Ends order t t here at
  Thread-Ends order t ended b gone at sent = (t, here, at)

  -- `shutdown` is never stuck: whatever turns callers and the thread have taken behind its signal, there
  -- are turns that end the thread, so that `join` can return.
  pub shutdown-Ends : (s t : System W) → List PageId → Turns (signal s) t → Ends t
  shutdown-Ends s t order turns =
      Thread-Ends order t t.thread t.sent (Turns-gone turns (signal_lem s).0) refl refl
