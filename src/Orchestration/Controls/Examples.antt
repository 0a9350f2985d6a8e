-- ===== src/Orchestration/Controls/Examples.antt =====
-- Runs of the loop of executeProviderWithControls.
use ai_video_series_workflow.Common.{◌≡◌, refl, suc, ◌≤◌, true, false, List, [], ◌∷◌, Text, codes}
use ai_video_series_workflow.Orchestration.Controls.{
  pause, resume, Ending, completed, canceled, returned, Loop, Input, command, idle, finished, done,
  step, after, begun,
}
use ai_video_series_workflow.Orchestration.Controls.Paused.{pauses, starts_bounded}
use ai_video_series_workflow.Orchestration.Controls.Cancelled.{
  goes_on, until_start, cancelled-never_returns,
}

abbrev running : Text
running = codes "RUNNING"

abbrev control : Text → Input
control action = command (record {
  command_id = codes "command-1";
  action = action;
  actor_id = codes "producer-1";
  reason_code = codes "REVIEW";
})

-- A pause that races with the result of the activity, a resume, and a second result.
abbrev raced : List Input
raced =
    idle
    ∷ finished completed
    ∷ control pause
    ∷ idle
    ∷ control resume
    ∷ idle
    ∷ finished completed
    ∷ idle
    ∷ []

raced-starts : (after (begun running) raced).starts ≡ 2
unfolding after step ai_video_series_workflow.Common.text_eq
raced-starts = refl

raced-returned : (after (begun running) raced).phase ≡ returned completed
unfolding after step ai_video_series_workflow.Common.text_eq
raced-returned = refl

starts_bounded_example :
    ((after (begun running) raced).starts ≤ suc (pauses raced))
    × ((e : Ending)
        → (after (begun running) raced).phase ≡ returned e
        → (after (begun running) raced).status.paused ≡ false)
starts_bounded_example = starts_bounded running raced refl

-- Paused before the first round.
abbrev waiting : Loop
waiting = after (begun running) (control pause ∷ idle ∷ [])

waiting-goes_on : goes_on waiting.phase ≡ true
unfolding after step ai_video_series_workflow.Common.text_eq goes_on
waiting-goes_on = refl

-- Two rounds of a cancelled workflow.
abbrev rounds : List Input
rounds = finished canceled ∷ idle ∷ done ∷ idle ∷ done ∷ finished canceled ∷ idle ∷ done ∷ []

waiting-paused : waiting.status.paused ≡ true
unfolding after step ai_video_series_workflow.Common.text_eq
waiting-paused = refl

cancelled-never_returns_example :
    let m = after (step waiting waiting.phase done) rounds in
    ((e : Ending) → ¬ (m.phase ≡ returned e))
    × ((after m (until_start m.phase)).starts ≡ suc m.starts)
cancelled-never_returns_example =
    cancelled-never_returns waiting rounds waiting-paused waiting-goes_on refl

rounds-starts : (after (step waiting waiting.phase done) rounds).starts ≡ 2
unfolding after step ai_video_series_workflow.Common.text_eq
rounds-starts = refl
