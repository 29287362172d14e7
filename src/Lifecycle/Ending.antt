-- ===== src/Lifecycle/Ending.antt =====
-- A process that was told to stop closes once and ends (backend/src/shared/lifecycle.js).
use hook_tracker.Prelude.{
  ℕ, ◌+◌, ◌≡◌, refl, Bool, true, false, Option, none, some, ◌==◌, leb, is_some, arith, Bool-cases,
  inl, inr, if◌then◌else◌,
}
use hook_tracker.Lifecycle.{Shutdown, on_start, on_signal, after_close, timer_fires, on_timer}

-- What can happen while the process lives: signals, the end of a call of `close`, the timer.
pub data Step (grace_ms : ℕ) : Shutdown → Shutdown → Type 0 where
  signalled :
      (now : ℕ) (s : Shutdown) → s.exit_code ≡ none → Step grace_ms s (on_signal grace_ms now s)
  closing_ends :
      (throws : Bool) (s : Shutdown)
      → s.exit_code ≡ none
      → leb 1 s.closes ≡ true
      → Step grace_ms s (after_close throws s)
  time_passes : (now : ℕ) (s : Shutdown) → s.exit_code ≡ none → Step grace_ms s (on_timer now s)

pub data Steps (grace_ms : ℕ) (start : Shutdown) : Shutdown → Type 0 where
  here : Steps grace_ms start start
  next : {s t : Shutdown} → Steps grace_ms start s → Step grace_ms s t → Steps grace_ms start t

-- The process has ended, or its timer is due at the time.
abbrev ends_at : ℕ → Option ℕ → Option ℕ → Bool
ends_at deadline timer (some code) = true
ends_at deadline none none = false
ends_at deadline (some due) none = due == deadline

record IsEnding (deadline : ℕ) (s : Shutdown) : Type 0 where
  flagged : s.shutting_down ≡ true
  once : s.closes ≡ 1
  ends : ends_at deadline s.timer s.exit_code ≡ true

signal-IsEnding : (grace_ms now : ℕ) → IsEnding (now + grace_ms) (on_signal grace_ms now on_start)
unfolding on_signal
signal-IsEnding grace_ms now = record { flagged = refl; once = refl; ends = ground arith }

kept-IsEnding :
    (deadline : ℕ) (flag : Bool) (s t : Shutdown)
    → flag ≡ true
    → IsEnding deadline s
    → IsEnding deadline (if flag then s else t)
kept-IsEnding deadline true s t e h = h
kept-IsEnding deadline false s t e h = cc

signal_again-IsEnding :
    (deadline grace_ms now : ℕ) (s : Shutdown)
    → IsEnding deadline s
    → IsEnding deadline (on_signal grace_ms now s)
unfolding on_signal
signal_again-IsEnding deadline grace_ms now s h =
    kept-IsEnding deadline s.shutting_down s _ h.flagged h

timer_fires-IsEnding :
    (deadline now : ℕ) (timer : Option ℕ) (s : Shutdown)
    → IsEnding deadline s
    → IsEnding deadline (timer_fires now timer s)
timer_fires-IsEnding deadline now none s h = h
timer_fires-IsEnding deadline now (some due) s h = elim (Bool-cases (leb due now)) [
  | inl over ↦ rw over (record { flagged = h.flagged; once = h.once; ends = refl })
  | inr waiting ↦ rw waiting h
]

Steps-IsEnding :
    (grace_ms now : ℕ) {s : Shutdown}
    → Steps grace_ms (on_signal grace_ms now on_start) s
    → IsEnding (now + grace_ms) s
unfolding after_close on_timer
Steps-IsEnding grace_ms now here = signal-IsEnding grace_ms now
Steps-IsEnding grace_ms now (next steps (signalled later s alive)) =
    signal_again-IsEnding _ grace_ms later s (Steps-IsEnding grace_ms now steps)
Steps-IsEnding grace_ms now (next steps (closing_ends throws s alive called)) =
    let h = Steps-IsEnding grace_ms now steps in
    record { flagged = h.flagged; once = h.once; ends = refl }
Steps-IsEnding grace_ms now (next steps (time_passes later s alive)) =
    timer_fires-IsEnding _ later s.timer s (Steps-IsEnding grace_ms now steps)

timer_fires_ends :
    (deadline later : ℕ) (timer code : Option ℕ) (s : Shutdown)
    → s.exit_code ≡ code
    → ends_at deadline timer code ≡ true
    → leb deadline later ≡ true
    → is_some ((timer_fires later timer s).exit_code) ≡ true
timer_fires_ends deadline later none none s e h late = cc
timer_fires_ends deadline later none (some code) s e h late = rw e refl
timer_fires_ends deadline later (some due) none s e h late = elim (Bool-cases (leb due later)) [
  | inl over ↦ rw over refl
  | inr waiting ↦ ground arith
]
timer_fires_ends deadline later (some due) (some code) s e h late =
    elim (Bool-cases (leb due later)) [
      | inl over ↦ rw over refl
      | inr waiting ↦ rw waiting (rw e refl)
    ]

-- After the first signal, whatever signals come, whether and when `close` ends, and whenever the
-- event loop looks at the timer: `close` has been called once, and once the grace period is over
-- the timer finds the process ended or ends it.
pub shutdown_ends :
    (grace_ms now later : ℕ) {s : Shutdown}
    → Steps grace_ms (on_signal grace_ms now on_start) s
    → leb (now + grace_ms) later ≡ true
    → (s.closes ≡ 1) × (is_some ((on_timer later s).exit_code) ≡ true)
unfolding on_timer
shutdown_ends grace_ms now later {s} steps late =
    let h = Steps-IsEnding grace_ms now steps in
    (h.once, timer_fires_ends _ later s.timer s.exit_code s refl h.ends late)
