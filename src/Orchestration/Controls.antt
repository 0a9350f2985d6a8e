-- ===== src/Orchestration/Controls.antt =====
-- internal/videopipeline/orchestration/shot_workflow.go and workflow.go: the loop that executes the provider
-- activity of a shot under pause and resume (race version 1), with applyControl and waitForResume. A
-- workflow is a sequence of inputs that Temporal brings; what the loop waits for is its phase, and an
-- input that the phase does not wait for changes nothing.
pub mod Paused
pub mod Cancelled
mod Examples
use ai_video_series_workflow.Common.{
  ℕ, suc, Bool, true, false, not, ◌&&◌, ◌||◌, List, [], ◌∷◌, if◌then◌else◌, Text, text_eq, codes,
  is_empty,
}

pub record WorkflowControl : Type 0 where
  pub command_id : Text
  pub action : Text
  pub actor_id : Text
  pub reason_code : Text

abbrev pub pause : Text
pause = codes "PAUSE"

abbrev pub resume : Text
resume = codes "RESUME"

-- The fields of `WorkflowStatus` that the loop reads and changes.
pub record Status : Type 0 where
  pub state : Text
  pub paused : Bool

-- `applyControl`.
unfoldable pub apply_control : Status → WorkflowControl → Status
apply_control s c =
    if is_empty c.command_id || is_empty c.actor_id
    then s
    else if text_eq c.action pause
    then record s { paused = true }
    else if text_eq c.action resume
    then record s { paused = false }
    else s

-- How the activity ends: with a result, with a CanceledError, or with another error.
pub data Ending : Type 0 where
  completed canceled failed : Ending

-- Where the loop waits. The drains are the first loop of `waitForResume`, the holds its second, with
-- the state to restore; those after the activity have its end, and whether a pause was observed.
pub data Phase : Type 0 where
  draining : Phase
  holding : Text → Phase
  executing : Bool → Phase
  drained : Bool → Ending → Phase
  held : Text → Ending → Phase
  returned : Ending → Phase

-- `starts` counts the calls of ExecuteActivity.
pub record Loop : Type 0 where
  pub status : Status
  pub cancelled : Bool
  pub starts : ℕ
  pub phase : Phase

-- What Temporal brings: a control signal, an empty channel, the end of the activity, or the cancellation
-- of the workflow's context.
pub data Input : Type 0 where
  command : WorkflowControl → Input
  idle : Input
  finished : Ending → Input
  done : Input

-- The call of `ExecuteActivity`.
abbrev pub start_activity : Loop → Loop
start_activity l = record l { starts = suc l.starts; phase = executing false }

abbrev pub is_failed : Ending → Bool
is_failed failed = true
is_failed _ = false

-- The end of a round, once `waitForResume` has returned.
abbrev pub end_round : Loop → Bool → Ending → Loop
end_round l observed ending =
    if observed && not (is_failed ending)
    then record l { phase = draining }
    else record l { phase = returned ending }

abbrev pub hold_state : Status → Status
hold_state s = record s { state = codes "PAUSED" }

-- A signal in the second loop of `waitForResume`: `leave` is what follows it.
abbrev pub on_hold : Loop → Status → Text → Phase → (Loop → Loop) → Loop
on_hold l s previous phase leave =
    if l.cancelled
    then leave (record l { status = s })
    else if s.paused
    then record l { status = s; phase = phase }
    else leave (record l { status = record s { state = previous } })

-- The loop after an input.
unfoldable pub step : Loop → Phase → Input → Loop
unfolding apply_control
step l draining (command c) = record l { status = apply_control l.status c; phase = draining }
step l draining idle =
    if l.status.paused
    then record l { status = hold_state l.status; phase = holding l.status.state }
    else start_activity l
step l (holding previous) (command c) =
    on_hold l (apply_control l.status c) previous (holding previous) start_activity
step l (holding previous) done = start_activity (record l { cancelled = true })
step l (executing observed) (command c) =
    let s = apply_control l.status c in
    record l { status = s; phase = executing (observed || s.paused) }
step l (executing observed) (finished ending) = record l {
  phase = drained (observed || l.status.paused) ending;
}
step l (drained observed ending) (command c) = record l {
  status = apply_control l.status c;
  phase = drained (observed || text_eq c.action pause) ending;
}
step l (drained observed ending) idle =
    if l.status.paused
    then record l { status = hold_state l.status; phase = held l.status.state ending }
    else end_round l observed ending
step l (held previous ending) (command c) =
    on_hold l (apply_control l.status c) previous (held previous ending)
      λ l'. end_round l' true ending
step l (held previous ending) done = end_round (record l { cancelled = true }) true ending
step l phase done = record l { cancelled = true; phase = phase }
step l phase input = record l { phase = phase }

unfoldable pub after : Loop → List Input → Loop
after l [] = l
after l (i ∷ inputs) = after (step l l.phase i) inputs

-- The loop before its first round, in a workflow that is not paused.
abbrev pub begun : Text → Loop
begun state = record {
  status = record { state = state; paused = false };
  cancelled = false;
  starts = 0;
  phase = draining;
}
