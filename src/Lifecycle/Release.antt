-- ===== src/Lifecycle/Release.antt =====
-- The runs of a manager: what holds in every state that it can reach, and where Close gets through.
use gomedia.Common.{
  ◌≤◌, ◌≡◌, ◌≢◌, refl, sym, ap, ◌∙◌, ◌⊎◌, inl, inr, arith, Bool, true, false, ◌||◌, Option, none,
  some,
}
use mathlib.Core.Option.{some-injective}
use gomedia.Lifecycle.{
  finished, Manager, Result, blocked, panics, goes, Kind, async, failsafe, StartEnd, fine, error,
  panicked, Op, enter_start, leave_start, end_loop, enter_close, pass_once, leave_close, step,
  new_manager,
}
use gomedia.Lifecycle.Spec.{
  Stop, no_stop, asked, Wait, early, late, Life, idle, starting, running, at_rest, over, stuck, ask,
  pass, stop_next, map_life, after_start, rest_over, idle_passed, live, closing_of, is_asked,
  is_stopped, manage, managed, step-live,
}

pub data Reaches (kind : Kind) (m : Manager) : Manager → Type 0 where
  here : Reaches kind m m
  next : {a b : Manager} (op : Op) → Reaches kind m a → step kind op a ≡ goes b → Reaches kind m b

abbrev pub or_new : Result → Manager
or_new blocked = new_manager
or_new panics = new_manager
or_new (goes m) = m

-- A step from a state that stands for a life is one of the specification.
step-lives :
    (kind : Kind) (op : Op) (l : Life) (m : Manager)
    → step kind op (manage l) ≡ goes m
    → (l' : Life) × (live kind op l ≡ some l') × (m ≡ manage l')
step-lives kind op l m e = go (live kind op l) refl (sym (step-live kind op l) ∙ e)
  where
    go :
        (o : Option Life)
        → live kind op l ≡ o
        → managed o ≡ goes m
        → (l' : Life) × (live kind op l ≡ some l') × (m ≡ manage l')
    go none found e = absurd (unfold managed in cc)
    go (some l') found e = (l', found, ap or_new (sym (opened l' e)))
      where
        opened : (l' : Life) → managed (some l') ≡ goes m → goes (manage l') ≡ goes m
        opened l' e = unfold managed in e

new-idle : new_manager ≡ manage (idle no_stop)
unfolding new_manager manage closing_of is_asked
new-idle = refl

pub Reaches-Life :
    (kind : Kind) (m : Manager) → Reaches kind new_manager m → (l : Life) × (m ≡ manage l)
Reaches-Life kind m here = (idle no_stop, new-idle)
Reaches-Life kind m (next {a} {b} op run e) =
    let (l, same) = Reaches-Life kind a run in
    let (l', _, same') = step-lives kind op l b (rw same at e) in (l', same')

-- What a life says of the calls of Release.
abbrev pub IsOrderly : Manager → Type 0
IsOrderly m =
    (m.released ≤ 1)
    × (m.released ≢ 0
        → (m.done_closed ≡ true)
          × (m.in_loop ≡ false)
          × (m.stop_closed ≡ true)
          × (m.closing ≡ finished))

manage-IsOrderly : (l : Life) → IsOrderly (manage l)
unfolding manage
manage-IsOrderly (idle s) = (omega arith, λ h. absurd (h refl))
manage-IsOrderly (starting s) = (omega arith, λ h. absurd (h refl))
manage-IsOrderly (running w) = (omega arith, λ h. absurd (h refl))
manage-IsOrderly (at_rest w) = (omega arith, λ h. absurd (h refl))
manage-IsOrderly over = (omega arith, λ h. (refl, refl, refl, refl))
manage-IsOrderly (stuck w) = (omega arith, λ h. absurd (h refl))

managed-fine : (o : Option Life) → managed o ≢ panics
unfolding managed
managed-fine none e = absurd cc
managed-fine (some l) e = absurd cc

-- Whatever Start, Close and the loop do and in whichever order, no channel is closed twice, the
-- instance is released once at most, and only after its loop has ended and a stop was signalled.
pub Reaches-IsOrderly :
    (kind : Kind) (m : Manager)
    → Reaches kind new_manager m
    → IsOrderly m × ((op : Op) → step kind op m ≢ panics)
Reaches-IsOrderly kind m run =
    let (l, same) = Reaches-Life kind m run in
    rw same (manage-IsOrderly l, λ op e. managed-fine _ (sym (step-live kind op l) ∙ e))

-- Whether the start function has panicked in a run.
unfoldable pub is_panic : Op → Bool
is_panic enter_start = false
is_panic (leave_start fine) = false
is_panic (leave_start error) = false
is_panic (leave_start panicked) = true
is_panic end_loop = false
is_panic enter_close = false
is_panic pass_once = false
is_panic leave_close = false

unfoldable pub panics_in : {kind : Kind} {m m' : Manager} → Reaches kind m m' → Bool
panics_in here = false
panics_in (next op run e) = is_panic op || panics_in run

unfoldable is_stuck : Life → Bool
is_stuck (idle s) = false
is_stuck (starting s) = false
is_stuck (running w) = false
is_stuck (at_rest w) = false
is_stuck over = false
is_stuck (stuck w) = true

-- A next life is stuck by a panic only, and then for good.
abbrev IsStuckIf : Bool → Option Life → Type 0
IsStuckIf b none = Unit
IsStuckIf b (some l) = is_stuck l ≡ b

map_life-IsStuckIf :
    {A : Type 0} (b : Bool) (f : A → Life)
    → ((a : A) → is_stuck (f a) ≡ b)
    → (o : Option A) → IsStuckIf b (map_life f o)
unfolding map_life
map_life-IsStuckIf b f same none = tt
map_life-IsStuckIf b f same (some a) = same a

rest_over-IsStuckIf : (w : Wait) → IsStuckIf false (rest_over w)
unfolding rest_over is_stuck
rest_over-IsStuckIf (early s) = tt
rest_over-IsStuckIf late = refl

idle_passed-IsStuckIf : (s : Stop) → IsStuckIf false (idle_passed s)
unfolding idle_passed is_stuck
idle_passed-IsStuckIf no_stop = tt
idle_passed-IsStuckIf asked = refl

after_start-is_stuck :
    (kind : Kind) (answer : StartEnd) (s : Stop)
    → is_stuck (after_start kind answer s) ≡ is_panic (leave_start answer) || false
unfolding after_start is_stuck is_panic
after_start-is_stuck kind fine s = refl
after_start-is_stuck async error s = refl
after_start-is_stuck failsafe error s = refl
after_start-is_stuck kind panicked s = refl

live-IsStuckIf :
    (kind : Kind) (op : Op) (l : Life) → IsStuckIf (is_panic op || is_stuck l) (live kind op l)
unfolding live is_panic is_stuck
live-IsStuckIf kind enter_start (idle s) = refl
live-IsStuckIf kind enter_start (starting s) = tt
live-IsStuckIf kind enter_start (running w) = tt
live-IsStuckIf kind enter_start (at_rest w) = tt
live-IsStuckIf kind enter_start over = tt
live-IsStuckIf kind enter_start (stuck w) = tt
live-IsStuckIf kind (leave_start answer) (idle s) = tt
live-IsStuckIf kind (leave_start answer) (starting s) =
    (unfold is_stuck is_panic in after_start-is_stuck kind answer s)
live-IsStuckIf kind (leave_start answer) (running w) = tt
live-IsStuckIf kind (leave_start answer) (at_rest w) = tt
live-IsStuckIf kind (leave_start answer) over = tt
live-IsStuckIf kind (leave_start answer) (stuck w) = tt
live-IsStuckIf kind end_loop (idle s) = tt
live-IsStuckIf kind end_loop (starting s) = tt
live-IsStuckIf kind end_loop (running w) = refl
live-IsStuckIf kind end_loop (at_rest w) = tt
live-IsStuckIf kind end_loop over = tt
live-IsStuckIf kind end_loop (stuck w) = tt
live-IsStuckIf kind enter_close (idle s) = map_life-IsStuckIf false idle (λ _. refl) (stop_next s)
live-IsStuckIf kind enter_close (starting s) =
    map_life-IsStuckIf false starting (λ _. refl) (stop_next s)
live-IsStuckIf kind enter_close (running w) = map_life-IsStuckIf false running (λ _. refl) (ask w)
live-IsStuckIf kind enter_close (at_rest w) = map_life-IsStuckIf false at_rest (λ _. refl) (ask w)
live-IsStuckIf kind enter_close over = tt
live-IsStuckIf kind enter_close (stuck w) = map_life-IsStuckIf true stuck (λ _. refl) (ask w)
live-IsStuckIf kind pass_once (idle s) = idle_passed-IsStuckIf s
live-IsStuckIf kind pass_once (starting s) = tt
live-IsStuckIf kind pass_once (running w) = map_life-IsStuckIf false running (λ _. refl) (pass w)
live-IsStuckIf kind pass_once (at_rest w) = map_life-IsStuckIf false at_rest (λ _. refl) (pass w)
live-IsStuckIf kind pass_once over = tt
live-IsStuckIf kind pass_once (stuck w) = map_life-IsStuckIf true stuck (λ _. refl) (pass w)
live-IsStuckIf kind leave_close (idle s) = tt
live-IsStuckIf kind leave_close (starting s) = tt
live-IsStuckIf kind leave_close (running w) = tt
live-IsStuckIf kind leave_close (at_rest w) = rest_over-IsStuckIf w
live-IsStuckIf kind leave_close over = tt
live-IsStuckIf kind leave_close (stuck w) = tt

Reaches-is_stuck :
    (kind : Kind) (m : Manager) (run : Reaches kind new_manager m)
    → (l : Life) × (m ≡ manage l) × (is_stuck l ≡ panics_in run)
unfolding panics_in
Reaches-is_stuck kind m here = (idle no_stop, new-idle, (unfold is_stuck in refl))
Reaches-is_stuck kind m (next {a} {b} op run e) =
    let (l, same, by_panic) = Reaches-is_stuck kind a run in
    let (l', found, same') = step-lives kind op l b (rw same at e) in
    let next_stuck = (rw found at (live-IsStuckIf kind op l)) in
    (l', same', next_stuck ∙ ap (λ t. is_panic op || t) by_panic)

module _ (kind : Kind) where
  goes-on :
      (op : Op) (l l' : Life)
      → live kind op l ≡ some l'
      → step kind op (manage l) ≡ goes (manage l')
  goes-on op l l' e = step-live kind op l ∙ (rw e (unfold managed in refl))

  reach-trans : {a b c : Manager} → Reaches kind a b → Reaches kind b c → Reaches kind a c
  reach-trans run here = run
  reach-trans run (next op run' e) = next op (reach-trans run run') e

  one_step :
      (op : Op) (l l' : Life) → live kind op l ≡ some l' → Reaches kind (manage l) (manage l')
  one_step op l l' e = next op here (goes-on op l l' e)

  rested : Reaches kind (manage (at_rest late)) (manage over)
  rested = one_step leave_close (at_rest late) over (unfold live rest_over in refl)

  at_rest_through : Reaches kind (manage (at_rest (early asked))) (manage over)
  at_rest_through =
      reach-trans
        (one_step pass_once (at_rest (early asked)) (at_rest late)
          (unfold live map_life pass in refl))
        rested

  running_through : Reaches kind (manage (running (early asked))) (manage over)
  running_through =
      reach-trans
        (one_step end_loop (running (early asked)) (at_rest (early asked)) (unfold live in refl))
        at_rest_through

  life_through :
      (l : Life)
      → (manage l).stop_closed ≡ true
      → (is_stuck l ≡ true) ⊎ Reaches kind (manage l) (manage over)
  life_through (idle no_stop) e = absurd (unfold manage is_asked in cc)
  life_through (idle asked) e = inr (
      reach-trans (one_step pass_once (idle asked) (at_rest late) (unfold live idle_passed in refl))
        rested)
  life_through (starting no_stop) e = absurd (unfold manage is_asked in cc)
  life_through (starting asked) e = inr (
      reach-trans
        (one_step (leave_start fine) (starting asked) (running (early asked))
          (unfold live after_start in refl))
        running_through)
  life_through (running (early no_stop)) e = absurd (unfold manage is_stopped is_asked in cc)
  life_through (running (early asked)) e = inr running_through
  life_through (running late) e =
      inr
        (reach-trans (one_step end_loop (running late) (at_rest late) (unfold live in refl)) rested)
  life_through (at_rest (early no_stop)) e = absurd (unfold manage is_stopped is_asked in cc)
  life_through (at_rest (early asked)) e = inr at_rest_through
  life_through (at_rest late) e = inr rested
  life_through over e = inr here
  life_through (stuck w) e = inl (unfold is_stuck in refl)

  -- Once Close has signalled the stop, and the start function has not panicked, the manager can
  -- still come to the end, where the instance is released once.
  pub Reaches-released :
      (m : Manager) (run : Reaches kind new_manager m)
      → panics_in run ≡ false
      → m.stop_closed ≡ true
      → (m' : Manager) × Reaches kind m m' × (m'.released ≡ 1)
  Reaches-released m run calm stopped =
      let (l, same, by_panic) = Reaches-is_stuck kind m run in
      rw same (elim (life_through l (rw same at stopped)) [
        | inl lost ↦ absurd (let both = sym lost ∙ by_panic ∙ calm in cc)
        | inr through ↦ (manage over, through, (unfold manage in refl))
      ])

  stuck_life : (l : Life) → is_stuck l ≡ true → (w : Wait) × (l ≡ stuck w)
  unfolding is_stuck
  stuck_life (idle s) e = absurd cc
  stuck_life (starting s) e = absurd cc
  stuck_life (running w) e = absurd cc
  stuck_life (at_rest w) e = absurd cc
  stuck_life over e = absurd cc
  stuck_life (stuck w) e = (w, refl)

  of_map : (o : Option Wait) (l : Life) → map_life stuck o ≡ some l → (w' : Wait) × (l ≡ stuck w')
  of_map none l e = absurd (unfold map_life in cc)
  of_map (some w') l e = (w', some-injective _ _ (unfold map_life in sym e))

  stuck_next :
      (op : Op) (w : Wait) (l : Life)
      → live kind op (stuck w) ≡ some l
      → (w' : Wait) × (l ≡ stuck w')
  unfolding live
  stuck_next enter_start w l e = absurd cc
  stuck_next (leave_start answer) w l e = absurd cc
  stuck_next end_loop w l e = absurd cc
  stuck_next enter_close w l e = of_map (ask w) l e
  stuck_next pass_once w l e = of_map (pass w) l e
  stuck_next leave_close w l e = absurd cc

  stuck_stays :
      (m m' : Manager) (w : Wait)
      → m ≡ manage (stuck w)
      → Reaches kind m m'
      → (w' : Wait) × (m' ≡ manage (stuck w'))
  stuck_stays m m' w same here = (w, same)
  stuck_stays m m' w same (next {a} {b} op run e) =
      let (w1, same1) = stuck_stays m a w same run in
      let (l, found, same2) = step-lives kind op (stuck w1) b (rw same1 at e) in
      let (w2, same3) = stuck_next op w1 l found in (w2, same2 ∙ ap manage same3)

  -- After a run in which the start function has panicked, no further run ever releases the
  -- instance: Close waits for good.
  pub panics_in-released :
      (m m' : Manager) (run : Reaches kind new_manager m)
      → panics_in run ≡ true
      → Reaches kind m m'
      → m'.released ≡ 0
  panics_in-released m m' run panic later =
      let (l, same, by_panic) = Reaches-is_stuck kind m run in
      let (w, at_stuck) = stuck_life l (by_panic ∙ panic) in
      let (w', same') = stuck_stays m m' w (same ∙ ap manage at_stuck) later in
      rw same' (unfold manage in refl)
