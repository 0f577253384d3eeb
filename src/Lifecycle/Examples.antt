-- ===== src/Lifecycle/Examples.antt =====
-- The theorems on the managers at concrete runs.
use gomedia.Common.{◌≡◌, ◌≢◌, refl}
use gomedia.Lifecycle.{
  Manager, panics, new_manager, Kind, async, failsafe, fine, panicked, Op, enter_start, leave_start,
  enter_close, pass_once, step, start_enter, started, start_leave, close_enter, close_passed,
  close_once, close_stop,
}
use gomedia.Lifecycle.Spec.{running, early, no_stop, managed, manage, live, step-live}
use gomedia.Lifecycle.Release.{
  Reaches, here, next, or_new, IsOrderly, is_panic, panics_in, Reaches-IsOrderly, Reaches-released,
  panics_in-released,
}

abbrev after : Kind → Op → Manager → Manager
after kind op m = or_new (step kind op m)

-- Start, and Close while the loop runs.
abbrev closed_in_loop : Manager
closed_in_loop =
    after async enter_close (after async (leave_start fine) (after async enter_start new_manager))

closing : Reaches async new_manager closed_in_loop
unfolding new_manager step start_enter start_leave started close_enter close_stop
closing = next enter_close (next (leave_start fine) (next enter_start here refl) refl) refl

step-live_example :
    step failsafe enter_close (manage (running (early no_stop)))
    ≡ managed (live failsafe enter_close (running (early no_stop)))
step-live_example = step-live failsafe enter_close (running (early no_stop))

Reaches-IsOrderly_example :
    IsOrderly closed_in_loop × ((op : Op) → step async op closed_in_loop ≢ panics)
Reaches-IsOrderly_example = Reaches-IsOrderly async closed_in_loop closing

Reaches-released_example : (m' : Manager) × Reaches async closed_in_loop m' × (m'.released ≡ 1)
unfolding new_manager step start_enter start_leave started close_enter close_stop panics_in is_panic
    closing
Reaches-released_example = Reaches-released async closed_in_loop closing refl refl

-- The start function of a failsafe manager panics, and Close is called.
abbrev lost : Manager
lost = after failsafe (leave_start panicked) (after failsafe enter_start new_manager)

abbrev lost_waiting : Manager
lost_waiting = after failsafe pass_once (after failsafe enter_close lost)

panics_in-released_example : lost_waiting.released ≡ 0
unfolding new_manager step start_enter start_leave started close_enter close_stop close_once
    close_passed panics_in is_panic
panics_in-released_example =
    panics_in-released failsafe lost lost_waiting
      (next (leave_start panicked) (next enter_start here refl) refl) refl
      (next pass_once (next enter_close here refl) refl)
