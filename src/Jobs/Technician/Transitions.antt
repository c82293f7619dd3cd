-- ===== src/Jobs/Technician/Transitions.antt =====
-- The order in which a technician moves a job, and what it leaves out.
use signmons_calldesk_backen.Base.{
  ℕ, ◌<◌, Bool, true, false, not, Option, none, some, ◌≡◌, ◌↔◌, refl, arith, any, Instant, some_inj,
  if◌then◌else◌, HttpError,
}
use signmons_calldesk_backen.Data.Enums.{JobStatus, TechnicianJobStatus, job_status_eq}
use signmons_calldesk_backen.Data.Rows.{Job}
use signmons_calldesk_backen.Jobs.Lifecycle.{complete as complete_row}
use signmons_calldesk_backen.Jobs.Technician.{
  TechnicianJobAction, accept, decline, on_my_way, complete, cannot_take, action_eq, is_at,
  transitions, target_status, current_technician_status, apply_action, is_there, is_available,
  reading, refused, there_before, available,
}

-- The moves, drawn as a graph: an action leads from a status to another, or takes the job away.
pub data Moves
    : TechnicianJobStatus → TechnicianJobAction → Option TechnicianJobStatus → Type 0 where
  take : Moves TechnicianJobStatus.assigned accept (some TechnicianJobStatus.accepted)
  turn_down : Moves TechnicianJobStatus.assigned decline none
  pass_on : Moves TechnicianJobStatus.assigned cannot_take none
  set_out : Moves TechnicianJobStatus.accepted on_my_way (some TechnicianJobStatus.en_route)
  begin :
      Moves TechnicianJobStatus.accepted TechnicianJobAction.in_progress
        (some TechnicianJobStatus.in_progress)
  withdraw : Moves TechnicianJobStatus.accepted decline none
  drop_out : Moves TechnicianJobStatus.accepted cannot_take none
  arrive :
      Moves TechnicianJobStatus.en_route TechnicianJobAction.in_progress
        (some TechnicianJobStatus.in_progress)
  turn_back : Moves TechnicianJobStatus.en_route cannot_take none
  finish : Moves TechnicianJobStatus.in_progress complete (some TechnicianJobStatus.completed)

-- How far a technician is with a job.
abbrev pub progress : TechnicianJobStatus → ℕ
progress TechnicianJobStatus.assigned = 0
progress TechnicianJobStatus.accepted = 1
progress TechnicianJobStatus.en_route = 2
progress TechnicianJobStatus.in_progress = 3
progress TechnicianJobStatus.completed = 4

listed-Moves :
    (current : TechnicianJobStatus) (action : TechnicianJobAction)
    → any (action_eq action) (transitions current) ≡ true
    → Moves current action (target_status action)
unfolding transitions target_status
listed-Moves TechnicianJobStatus.assigned accept h = take
listed-Moves TechnicianJobStatus.assigned decline h = turn_down
listed-Moves TechnicianJobStatus.assigned on_my_way h = ground arith
listed-Moves TechnicianJobStatus.assigned TechnicianJobAction.in_progress h = ground arith
listed-Moves TechnicianJobStatus.assigned complete h = ground arith
listed-Moves TechnicianJobStatus.assigned cannot_take h = pass_on
listed-Moves TechnicianJobStatus.accepted accept h = ground arith
listed-Moves TechnicianJobStatus.accepted decline h = withdraw
listed-Moves TechnicianJobStatus.accepted on_my_way h = set_out
listed-Moves TechnicianJobStatus.accepted TechnicianJobAction.in_progress h = begin
listed-Moves TechnicianJobStatus.accepted complete h = ground arith
listed-Moves TechnicianJobStatus.accepted cannot_take h = drop_out
listed-Moves TechnicianJobStatus.en_route accept h = ground arith
listed-Moves TechnicianJobStatus.en_route decline h = ground arith
listed-Moves TechnicianJobStatus.en_route on_my_way h = ground arith
listed-Moves TechnicianJobStatus.en_route TechnicianJobAction.in_progress h = arrive
listed-Moves TechnicianJobStatus.en_route complete h = ground arith
listed-Moves TechnicianJobStatus.en_route cannot_take h = turn_back
listed-Moves TechnicianJobStatus.in_progress accept h = ground arith
listed-Moves TechnicianJobStatus.in_progress decline h = ground arith
listed-Moves TechnicianJobStatus.in_progress on_my_way h = ground arith
listed-Moves TechnicianJobStatus.in_progress TechnicianJobAction.in_progress h = ground arith
listed-Moves TechnicianJobStatus.in_progress complete h = finish
listed-Moves TechnicianJobStatus.in_progress cannot_take h = ground arith
listed-Moves TechnicianJobStatus.completed accept h = ground arith
listed-Moves TechnicianJobStatus.completed decline h = ground arith
listed-Moves TechnicianJobStatus.completed on_my_way h = ground arith
listed-Moves TechnicianJobStatus.completed TechnicianJobAction.in_progress h = ground arith
listed-Moves TechnicianJobStatus.completed complete h = ground arith
listed-Moves TechnicianJobStatus.completed cannot_take h = ground arith

Moves-listed :
    (current : TechnicianJobStatus) (action : TechnicianJobAction)
    (target : Option TechnicianJobStatus)
    → Moves current action target
    → any (action_eq action) (transitions current) ≡ true
unfolding transitions
Moves-listed _ _ _ take = refl
Moves-listed _ _ _ turn_down = refl
Moves-listed _ _ _ pass_on = refl
Moves-listed _ _ _ set_out = refl
Moves-listed _ _ _ begin = refl
Moves-listed _ _ _ withdraw = refl
Moves-listed _ _ _ drop_out = refl
Moves-listed _ _ _ arrive = refl
Moves-listed _ _ _ turn_back = refl
Moves-listed _ _ _ finish = refl

is_available-Moves :
    (j : Job) (action : TechnicianJobAction)
    → is_available j action ≡ true
    → Moves (current_technician_status j) action (target_status action)
unfolding is_available
is_available-Moves j action h = listed-Moves (current_technician_status j) action h

Moves-is_available :
    (j : Job) (action : TechnicianJobAction) {target : Option TechnicianJobStatus}
    → Moves (current_technician_status j) action target
    → is_available j action ≡ true
unfolding is_available
Moves-is_available j action {target} m = Moves-listed (current_technician_status j) action target m

Moves-leaves :
    (current : TechnicianJobStatus) (action : TechnicianJobAction)
    (target : Option TechnicianJobStatus)
    → Moves current action target
    → is_at current target ≡ false
Moves-leaves _ _ _ take = refl
Moves-leaves _ _ _ turn_down = refl
Moves-leaves _ _ _ pass_on = refl
Moves-leaves _ _ _ set_out = refl
Moves-leaves _ _ _ begin = refl
Moves-leaves _ _ _ withdraw = refl
Moves-leaves _ _ _ drop_out = refl
Moves-leaves _ _ _ arrive = refl
Moves-leaves _ _ _ turn_back = refl
Moves-leaves _ _ _ finish = refl

Moves-is_there :
    (j : Job) (action : TechnicianJobAction)
    → Moves (current_technician_status j) action (target_status action)
    → is_there j action ≡ false
unfolding is_there
Moves-is_there j action m =
    Moves-leaves (current_technician_status j) action (target_status action) m

Moves-progress :
    (current : TechnicianJobStatus) (action : TechnicianJobAction)
    (target : Option TechnicianJobStatus)
    → Moves current action target
    → {status : TechnicianJobStatus} → target ≡ some status
    → progress current < progress status
Moves-progress _ _ _ take h = rw (← some_inj h) (ground arith)
Moves-progress _ _ _ turn_down h = ground arith
Moves-progress _ _ _ pass_on h = ground arith
Moves-progress _ _ _ set_out h = rw (← some_inj h) (ground arith)
Moves-progress _ _ _ begin h = rw (← some_inj h) (ground arith)
Moves-progress _ _ _ withdraw h = ground arith
Moves-progress _ _ _ drop_out h = ground arith
Moves-progress _ _ _ arrive h = rw (← some_inj h) (ground arith)
Moves-progress _ _ _ turn_back h = ground arith
Moves-progress _ _ _ finish h = rw (← some_inj h) (ground arith)

-- An action goes through on the job that was read exactly where the job is not cancelled and the graph
-- of the moves has the action at the technician's status, with the status that the action writes.
pub reading-available_iff :
    (j : Job) (action : TechnicianJobAction)
    → (reading action (some j) ≡ available j) ↔ (
        (job_status_eq j.status JobStatus.cancelled ≡ false)
        × Moves (current_technician_status j) action (target_status action))
unfolding reading
reading-available_iff j action = (
  λ h.
      let (open_job, listed) =
        forth (job_status_eq j.status JobStatus.cancelled) (is_there j action)
          (is_available j action) _ _ h in
      (open_job, is_available-Moves j action listed),
  λ (open_job, m). rw (open_job, Moves-is_there j action m, Moves-is_available j action m) refl,
)
  where
    forth :
        (c t l : Bool) (e f : HttpError)
        → (if c
            then refused e
            else if t
            then there_before j
            else if not l
            then refused f
            else available j)
          ≡ available j
        → (c ≡ false) × (l ≡ true)
    forth true t l e f h = ground arith
    forth false true l e f h = ground arith
    forth false false true e f h = (refl, refl)
    forth false false false e f h = ground arith

apply_action-technician_status :
    (now : Instant) (action : TechnicianJobAction) (read j : Job)
    → (apply_action now action read j).technician_status ≡ target_status action
unfolding apply_action target_status
apply_action-technician_status now accept read j = refl
apply_action-technician_status now decline read j = refl
apply_action-technician_status now on_my_way read j = refl
apply_action-technician_status now TechnicianJobAction.in_progress read j = refl
apply_action-technician_status now complete read j = refl
apply_action-technician_status now cannot_take read j = refl

-- An action that goes through brings the technician further, or takes the job away from the technician.
pub reading-progress :
    (now : Instant) (action : TechnicianJobAction) (j k : Job) {status : TechnicianJobStatus}
    → reading action (some j) ≡ available j
    → (apply_action now action j k).technician_status ≡ some status
    → progress (current_technician_status j) < progress status
reading-progress now action j k {status} through written =
    Moves-progress (current_technician_status j) action (target_status action)
      ((reading-available_iff j action).0 through).1
      (rw (apply_action-technician_status now action j k) at written)

-- Where the office has completed a job that its technician had accepted, the technician may still start
-- it, and the job is in progress again.
pub reading_complete :
    (now later : Instant) (j : Job)
    → j.technician_status ≡ some TechnicianJobStatus.accepted
    → (reading TechnicianJobAction.in_progress (some (complete_row now j))
        ≡ available (complete_row now j))
      × ((apply_action later TechnicianJobAction.in_progress
            (complete_row now j)
            (complete_row now j)).status
          ≡ JobStatus.in_progress)
unfolding reading complete_row apply_action is_there is_available current_technician_status
    transitions target_status
reading_complete now later j h = (rw h refl, refl)
