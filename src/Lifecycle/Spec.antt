-- ===== src/Lifecycle/Spec.antt =====
-- What a manager promises: a life that goes forward only, and how the managers keep to it.
use gomedia.Common.{Bool, true, false, ◌≡◌, refl, Option, none, some}
use gomedia.Lifecycle.{
  fresh, busy, spent, Closing, uncalled, stopping, waiting, finished, Manager, Result, blocked,
  goes, close_done, close_stop, Kind, async, failsafe, StartEnd, fine, error, panicked, start_enter,
  started, start_leave, loop_ends, close_enter, close_passed, close_once, close_done_waited,
  close_leave, Op, enter_start, leave_start, end_loop, enter_close, pass_once, leave_close, step,
}

-- Whether a stop was asked for, and how far Close is before the instance is released.
pub data Stop : Type 0 where
  no_stop : Stop
  asked : Stop

pub data Wait : Type 0 where
  early : Stop → Wait
  late : Wait

-- An instance is idle, starting, running, at rest after its loop, or released. `stuck` is what a
-- panic of the start function leaves: nobody runs and nobody will say that the loop has ended.
pub data Life : Type 0 where
  idle : Stop → Life
  starting : Stop → Life
  running : Wait → Life
  at_rest : Wait → Life
  over : Life
  stuck : Wait → Life

unfoldable pub stop_next : Stop → Option Stop
stop_next no_stop = some asked
stop_next asked = none

unfoldable pub map_life : {A : Type 0} → (A → Life) → Option A → Option Life
map_life f none = none
map_life f (some a) = some (f a)

unfoldable pub ask : Wait → Option Wait
ask (early no_stop) = some (early asked)
ask (early asked) = none
ask late = none

unfoldable pub pass : Wait → Option Wait
pass (early no_stop) = none
pass (early asked) = some late
pass late = none

unfoldable pub after_start : Kind → StartEnd → Stop → Life
after_start kind fine s = running (early s)
after_start async error s = at_rest (early s)
after_start failsafe error s = running (early s)
after_start kind panicked s = stuck (early s)

unfoldable pub rest_over : Wait → Option Life
rest_over (early s) = none
rest_over late = some over

unfoldable pub idle_passed : Stop → Option Life
idle_passed no_stop = none
idle_passed asked = some (at_rest late)

-- The specification: what each step may do to a life, `none` where it has to wait.
unfoldable pub live : Kind → Op → Life → Option Life
live kind enter_start (idle s) = some (starting s)
live kind enter_start _ = none
live kind (leave_start answer) (starting s) = some (after_start kind answer s)
live kind (leave_start answer) _ = none
live kind end_loop (running w) = some (at_rest w)
live kind end_loop _ = none
live kind enter_close (idle s) = map_life idle (stop_next s)
live kind enter_close (starting s) = map_life starting (stop_next s)
live kind enter_close (running w) = map_life running (ask w)
live kind enter_close (at_rest w) = map_life at_rest (ask w)
live kind enter_close over = none
live kind enter_close (stuck w) = map_life stuck (ask w)
live kind pass_once (idle s) = idle_passed s
live kind pass_once (starting s) = none
live kind pass_once (running w) = map_life running (pass w)
live kind pass_once (at_rest w) = map_life at_rest (pass w)
live kind pass_once over = none
live kind pass_once (stuck w) = map_life stuck (pass w)
live kind leave_close (at_rest w) = rest_over w
live kind leave_close _ = none

-- The manager that implements a life.
unfoldable pub closing_of : Stop → Closing
closing_of no_stop = uncalled
closing_of asked = stopping

unfoldable pub closing_at : Wait → Closing
closing_at (early s) = closing_of s
closing_at late = waiting

unfoldable pub is_asked : Stop → Bool
is_asked no_stop = false
is_asked asked = true

unfoldable pub is_stopped : Wait → Bool
is_stopped (early s) = is_asked s
is_stopped late = true

unfoldable pub manage : Life → Manager
manage (idle s) = record {
  start_once = fresh;
  closing = closing_of s;
  stop_closed = is_asked s;
  done_closed = false;
  in_loop = false;
  released = 0;
}
manage (starting s) = record {
  start_once = busy;
  closing = closing_of s;
  stop_closed = is_asked s;
  done_closed = false;
  in_loop = false;
  released = 0;
}
manage (running w) = record {
  start_once = spent;
  closing = closing_at w;
  stop_closed = is_stopped w;
  done_closed = false;
  in_loop = true;
  released = 0;
}
manage (at_rest w) = record {
  start_once = spent;
  closing = closing_at w;
  stop_closed = is_stopped w;
  done_closed = true;
  in_loop = false;
  released = 0;
}
manage over = record {
  start_once = spent;
  closing = finished;
  stop_closed = true;
  done_closed = true;
  in_loop = false;
  released = 1;
}
manage (stuck w) = record {
  start_once = spent;
  closing = closing_at w;
  stop_closed = is_stopped w;
  done_closed = false;
  in_loop = false;
  released = 0;
}

unfoldable pub managed : Option Life → Result
managed none = blocked
managed (some l) = goes (manage l)

start-managed :
    (kind : Kind) (l : Life) → step kind enter_start (manage l) ≡ managed (live kind enter_start l)
unfolding step live manage managed start_enter
start-managed kind (idle s) = refl
start-managed kind (starting s) = refl
start-managed kind (running w) = refl
start-managed kind (at_rest w) = refl
start-managed kind over = refl
start-managed kind (stuck w) = refl

leave-managed :
    (kind : Kind) (answer : StartEnd) (l : Life)
    → step kind (leave_start answer) (manage l) ≡ managed (live kind (leave_start answer) l)
unfolding step live manage managed start_leave started after_start close_done closing_at is_stopped
leave-managed kind answer (idle s) = refl
leave-managed kind fine (starting s) = refl
leave-managed async error (starting s) = refl
leave-managed failsafe error (starting s) = refl
leave-managed kind panicked (starting s) = refl
leave-managed kind answer (running w) = refl
leave-managed kind answer (at_rest w) = refl
leave-managed kind answer over = refl
leave-managed kind answer (stuck w) = refl

loop-managed :
    (kind : Kind) (l : Life) → step kind end_loop (manage l) ≡ managed (live kind end_loop l)
unfolding step live manage managed loop_ends close_done
loop-managed kind (idle s) = refl
loop-managed kind (starting s) = refl
loop-managed kind (running w) = refl
loop-managed kind (at_rest w) = refl
loop-managed kind over = refl
loop-managed kind (stuck w) = refl

enter-managed :
    (kind : Kind) (l : Life) → step kind enter_close (manage l) ≡ managed (live kind enter_close l)
unfolding step live manage managed close_enter close_stop stop_next map_life ask closing_of
    closing_at is_asked is_stopped
enter-managed kind (idle no_stop) = refl
enter-managed kind (idle asked) = refl
enter-managed kind (starting no_stop) = refl
enter-managed kind (starting asked) = refl
enter-managed kind (running (early no_stop)) = refl
enter-managed kind (running (early asked)) = refl
enter-managed kind (running late) = refl
enter-managed kind (at_rest (early no_stop)) = refl
enter-managed kind (at_rest (early asked)) = refl
enter-managed kind (at_rest late) = refl
enter-managed kind over = refl
enter-managed kind (stuck (early no_stop)) = refl
enter-managed kind (stuck (early asked)) = refl
enter-managed kind (stuck late) = refl

pass-managed :
    (kind : Kind) (l : Life) → step kind pass_once (manage l) ≡ managed (live kind pass_once l)
unfolding step live manage managed close_once close_passed close_done map_life pass idle_passed
    closing_of closing_at is_asked is_stopped
pass-managed kind (idle no_stop) = refl
pass-managed kind (idle asked) = refl
pass-managed kind (starting no_stop) = refl
pass-managed kind (starting asked) = refl
pass-managed kind (running (early no_stop)) = refl
pass-managed kind (running (early asked)) = refl
pass-managed kind (running late) = refl
pass-managed kind (at_rest (early no_stop)) = refl
pass-managed kind (at_rest (early asked)) = refl
pass-managed kind (at_rest late) = refl
pass-managed kind over = refl
pass-managed kind (stuck (early no_stop)) = refl
pass-managed kind (stuck (early asked)) = refl
pass-managed kind (stuck late) = refl

close-managed :
    (kind : Kind) (l : Life) → step kind leave_close (manage l) ≡ managed (live kind leave_close l)
unfolding step live manage managed close_leave close_done_waited rest_over closing_of closing_at
    is_asked is_stopped
close-managed kind (idle no_stop) = refl
close-managed kind (idle asked) = refl
close-managed kind (starting no_stop) = refl
close-managed kind (starting asked) = refl
close-managed kind (running (early no_stop)) = refl
close-managed kind (running (early asked)) = refl
close-managed kind (running late) = refl
close-managed kind (at_rest (early no_stop)) = refl
close-managed kind (at_rest (early asked)) = refl
close-managed kind (at_rest late) = refl
close-managed kind over = refl
close-managed kind (stuck (early no_stop)) = refl
close-managed kind (stuck (early asked)) = refl
close-managed kind (stuck late) = refl

-- Both managers implement the specification: each step of one, from the state that stands for a
-- life, waits exactly where the specification waits and otherwise leaves the state that stands for
-- the next life. In particular no step closes a channel a second time.
pub step-live :
    (kind : Kind) (op : Op) (l : Life) → step kind op (manage l) ≡ managed (live kind op l)
step-live kind enter_start l = start-managed kind l
step-live kind (leave_start answer) l = leave-managed kind answer l
step-live kind end_loop l = loop-managed kind l
step-live kind enter_close l = enter-managed kind l
step-live kind pass_once l = pass-managed kind l
step-live kind leave_close l = close-managed kind l
