-- ===== src/Lifecycle.antt =====
-- utils/lifecycle: the managers of async.go and async_failsafe.go, whose Start, Close and main loop
-- run in different goroutines. A step is what one of them does up to the next point where another
-- may run; sync.Once runs its function for the first caller and holds the others until it is done.
pub mod Spec
pub mod Release
mod Examples
use gomedia.Common.{ℕ, suc, Bool, true, false}

pub data Once : Type 0 where
  fresh : Once
  busy : Once
  spent : Once

-- How far Close is: not called, in front of startOnce, in front of the wait, or through.
pub data Closing : Type 0 where
  uncalled : Closing
  stopping : Closing
  waiting : Closing
  finished : Closing

-- asyncLifecycleManager and failsafeAsyncLifecycleManager. `in_loop` is whether the goroutine of
-- process runs, `released` how often Release of the instance was called.
pub record Manager : Type 0 where
  pub start_once : Once
  pub closing : Closing
  pub stop_closed : Bool
  pub done_closed : Bool
  pub in_loop : Bool
  pub released : ℕ

-- NewAsyncManager, NewFailSafeAsyncManager
unfoldable pub new_manager : Manager
new_manager = record {
  start_once = fresh;
  closing = uncalled;
  stop_closed = false;
  done_closed = false;
  in_loop = false;
  released = 0;
}

-- A step that cannot be taken yet, or at all, is blocked; closing a closed channel panics.
pub data Result : Type 0 where
  blocked : Result
  panics : Result
  goes : Manager → Result

unfoldable pub close_done : Manager → Result
close_done m = elim m.done_closed [ true ↦ panics | false ↦ goes (record m { done_closed = true }) ]

unfoldable pub close_stop : Manager → Result
close_stop m = elim m.stop_closed [ true ↦ panics | false ↦ goes (record m { stop_closed = true }) ]

pub data Kind : Type 0 where
  async : Kind
  failsafe : Kind

-- How the function that Start is given ends. A panic of it leaves Start; in the failsafe manager
-- it is recovered there, and sync.Once takes the function for run in both.
pub data StartEnd : Type 0 where
  fine : StartEnd
  error : StartEnd
  panicked : StartEnd

-- Start enters startOnce. In the asynchronous manager it has looked at stopChan before, and returned
-- if that was closed; a Start that found it open may get here when Close has begun meanwhile.
unfoldable pub start_enter : Manager → Result
start_enter m = elim m.start_once [
  | fresh ↦ goes (record m { start_once = busy })
  | busy ↦ blocked
  | spent ↦ blocked
]

unfoldable pub started : Kind → StartEnd → Manager → Result
started kind fine m = goes (record m { start_once = spent; in_loop = true })
started async error m = close_done (record m { start_once = spent })
started failsafe error m = goes (record m { start_once = spent; in_loop = true })
started kind panicked m = goes (record m { start_once = spent })

unfoldable pub start_leave : Kind → StartEnd → Manager → Result
start_leave kind answer m = elim m.start_once [
  | fresh ↦ blocked
  | busy ↦ started kind answer m
  | spent ↦ blocked
]

-- The loop of process ends, after any number of calls of Step.
unfoldable pub loop_ends : Manager → Result
loop_ends m = elim m.in_loop [ true ↦ close_done (record m { in_loop = false }) | false ↦ blocked ]

-- Close, in three steps.
unfoldable pub close_enter : Manager → Result
close_enter m = elim m.closing [
  | uncalled ↦ close_stop (record m { closing = stopping })
  | stopping ↦ blocked
  | waiting ↦ blocked
  | finished ↦ blocked
]

unfoldable pub close_passed : Manager → Result
close_passed m = elim m.start_once [
  | fresh ↦ close_done (record m { start_once = spent; closing = waiting })
  | busy ↦ blocked
  | spent ↦ goes (record m { closing = waiting })
]

unfoldable pub close_once : Manager → Result
close_once m = elim m.closing [
  | uncalled ↦ blocked
  | stopping ↦ close_passed m
  | waiting ↦ blocked
  | finished ↦ blocked
]

unfoldable pub close_done_waited : Manager → Result
close_done_waited m = elim m.done_closed [
  | true ↦ goes (record m { closing = finished; released = suc m.released })
  | false ↦ blocked
]

unfoldable pub close_leave : Manager → Result
close_leave m = elim m.closing [
  | uncalled ↦ blocked
  | stopping ↦ blocked
  | waiting ↦ close_done_waited m
  | finished ↦ blocked
]

pub data Op : Type 0 where
  enter_start : Op
  leave_start : StartEnd → Op
  end_loop : Op
  enter_close : Op
  pass_once : Op
  leave_close : Op

unfoldable pub step : Kind → Op → Manager → Result
step kind enter_start m = start_enter m
step kind (leave_start answer) m = start_leave kind answer m
step kind end_loop m = loop_ends m
step kind enter_close m = close_enter m
step kind pass_once m = close_once m
step kind leave_close m = close_leave m
