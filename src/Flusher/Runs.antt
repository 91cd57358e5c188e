-- ===== src/Flusher/Runs.antt =====
-- The runs of the system of flusher.rs, in which callers and the thread take turns in any order, also
-- while `shutdown` waits for the thread.
use smol_db.Common.{◌≡◌, refl, sym, subst, ◌∙◌, inl, inr, true, false, Bool-cases, List}
use smol_db.Error.Outcome.{Outcome, ok, err, panic}
use smol_db.Page.{PageId}
use smol_db.Pool.{BufferPool, WalFlusher, flush_all_pages}
use smol_db.Pool.State.{Pooled}
use smol_db.Pool.Pinned.{Called, flushed_all, Called-Pooled}
use smol_db.Flusher.{
  Received, message, disconnected, timeout, looping, draining, ended, System, start_flusher, signal,
  joined, behind, flush_shared, serve, drain,
}

module _ {W : Type 0} ⦃flusher : WalFlusher W⦄ where
  -- what `recv_timeout` can return: a message that waits, that the sender is gone, or, where there is
  -- a sender and no message, that the time is over
  pub data Arrives (s : System W) : Received → Type 0 where
    waiting : s.sent ≡ true → Arrives s message
    hung_up : s.sent ≡ false → s.shutdown_tx ≡ false → Arrives s disconnected
    late : s.sent ≡ false → s.shutdown_tx ≡ true → Arrives s timeout

  -- one turn: of a caller, or of the thread
  pub data Turn : System W → System W → Type 0 where
    called : (s : System W) (p : BufferPool W) → Called s.pool p → Turn s (record s { pool = p })
    served :
        (s : System W) (received : Received) (order : List PageId)
        → s.thread ≡ looping
        → Arrives s received
        → Turn s (serve received order s)
    drained : (s : System W) (order : List PageId) → s.thread ≡ draining → Turn s (drain order s)

  pub data Turns (s : System W) : System W → Type 0 where
    here : Turns s s
    then_turn : {t u : System W} → Turns s t → Turn t u → Turns s u

  -- A call of `shutdown`: where the handle is there, callers and thread take turns behind the signal
  -- until the thread has ended, and `join` returns.
  pub data Shutdown (s : System W) : System W → Type 0 where
    waited :
        {t : System W}
        → (signal s).handle ≡ true
        → Turns (signal s) t
        → t.thread ≡ ended
        → Shutdown s (joined t)
    nothing_left : (signal s).handle ≡ false → Shutdown s (signal s)

  -- the systems that turns and calls of `shutdown` lead to, from the start of the thread on a pool
  -- with its invariant
  pub data Ran : System W → Type 0 where
    begun : (p : BufferPool W) → Pooled p → Ran (start_flusher p)
    turned : {s t : System W} → Ran s → Turn s t → Ran t
    shut : {s t : System W} → Ran s → Shutdown s t → Ran t

  -- calls of callers, one behind the other
  pub data Calls (p : BufferPool W) : BufferPool W → Type 0 where
    none_yet : Calls p p
    then_call : {q r : BufferPool W} → Calls p q → Called q r → Calls p r

  -- the pool has its invariant; the thread has ended once it was joined
  pub record IsSound (s : System W) : Type 0 where
    pub pooled : Pooled s.pool
    pub over : s.handle ≡ false → s.thread ≡ ended

  behind-looping :
      (o : Outcome Unit) (s : System W)
      → Pooled s.pool
      → (s.handle ≡ false → s.thread ≡ ended)
      → s.thread ≡ looping
      → IsSound (behind looping (o, s))
  unfolding behind
  behind-looping (ok done) s pooled over at = record {
    pooled = pooled;
    over = λ h. cc (sym at ∙ over h);
  }
  behind-looping (err e) s pooled over at = record {
    pooled = pooled;
    over = λ h. cc (sym at ∙ over h);
  }
  behind-looping panic s pooled over at = record { pooled = pooled; over = λ h. refl }

  behind-ended :
      (o : Outcome Unit) (s : System W) → behind ended (o, s) ≡ record s { thread = ended }
  unfolding behind
  behind-ended (ok done) s = refl
  behind-ended (err e) s = refl
  behind-ended panic s = refl

  pub drain_lem :
      (order : List PageId) (s : System W)
      → drain order s ≡ record s { pool = (flush_all_pages order s.pool).1; thread = ended }
  unfolding drain flush_shared
  drain_lem order s =
      behind-ended (flush_all_pages order s.pool).0
        (record s { pool = (flush_all_pages order s.pool).1 })

  serve-IsSound :
      (s : System W) (received : Received) (order : List PageId)
      → s.thread ≡ looping
      → IsSound s
      → IsSound (serve received order s)
  unfolding serve flush_shared
  serve-IsSound s message order at is = record {
    pooled = is.pooled;
    over = λ h. cc (sym at ∙ is.over h);
  }
  serve-IsSound s disconnected order at is = record {
    pooled = is.pooled;
    over = λ h. cc (sym at ∙ is.over h);
  }
  serve-IsSound s timeout order at is =
      behind-looping (flush_all_pages order s.pool).0
        (record s { pool = (flush_all_pages order s.pool).1 })
        (Called-Pooled (flushed_all order s.pool) is.pooled) is.over at

  Turn-IsSound : {s t : System W} → Turn s t → IsSound s → IsSound t
  Turn-IsSound (called s p call) is = record {
    pooled = Called-Pooled call is.pooled;
    over = is.over;
  }
  Turn-IsSound (served s received order at arrives) is = serve-IsSound s received order at is
  Turn-IsSound (drained s order at) is =
      subst IsSound (sym (drain_lem order s))
        (record { pooled = Called-Pooled (flushed_all order s.pool) is.pooled; over = λ h. refl })

  Turns-IsSound : {s t : System W} → Turns s t → IsSound s → IsSound t
  Turns-IsSound here is = is
  Turns-IsSound (then_turn turns turn) is = Turn-IsSound turn (Turns-IsSound turns is)

  signal-IsSound : (s : System W) → IsSound s → IsSound (signal s)
  unfolding signal
  signal-IsSound s is = elim (Bool-cases s.shutdown_tx) [
    | inl there ↦ rw (signal, there) (record { pooled = is.pooled; over = is.over })
    | inr gone ↦ rw (signal, gone) (record { pooled = is.pooled; over = is.over })
  ]

  Shutdown-IsSound : {s t : System W} → Shutdown s t → IsSound s → IsSound t
  unfolding joined
  Shutdown-IsSound {s = s} (waited there turns at) is = record {
    pooled = (Turns-IsSound turns (signal-IsSound s is)).pooled;
    over = λ h. at;
  }
  Shutdown-IsSound {s = s} (nothing_left off) is = signal-IsSound s is

  pub Ran-IsSound : {s : System W} → Ran s → IsSound s
  unfolding start_flusher
  Ran-IsSound (begun p h) = record { pooled = h; over = λ e. cc e }
  Ran-IsSound (turned run turn) = Turn-IsSound turn (Ran-IsSound run)
  Ran-IsSound (shut run call) = Shutdown-IsSound call (Ran-IsSound run)
