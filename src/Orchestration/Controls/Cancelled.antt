-- ===== src/Orchestration/Controls/Cancelled.antt =====
-- A workflow that is cancelled while it is paused.
use ai_video_series_workflow.Common.{
  ◌≡◌, refl, sym, ap, ap₂, ◌∙◌, ℕ, suc, Bool, true, false, not, List, [], ◌∷◌, if◌then◌else◌,
  if_cases, Text, text_eq, arith, all,
}
use ai_video_series_workflow.Orchestration.Controls.{
  WorkflowControl, resume, Status, apply_control, Ending, completed, canceled, failed, Phase,
  draining, holding, executing, drained, held, returned, Loop, Input, command, idle, finished, done,
  is_failed, end_round, step, after,
}

-- No signal resumes, and the activity does not fail: on a cancelled context it ends with a CanceledError.
abbrev pub is_lost : Input → Bool
is_lost (command c) = not (text_eq c.action resume)
is_lost (finished e) = not (is_failed e)
is_lost _ = true

-- Every phase but the last, and but the waits after an activity that failed.
unfoldable pub goes_on : Phase → Bool
goes_on (drained observed e) = not (is_failed e)
goes_on (held previous e) = not (is_failed e)
goes_on (returned e) = false
goes_on _ = true

-- What comes in a phase of a cancelled workflow without signals, up to the next call of
-- ExecuteActivity: the activity ends with a CanceledError, the channel is empty, and ctx.Done() is ready.
unfoldable pub until_start : Phase → List Input
until_start draining = idle ∷ done ∷ []
until_start (holding previous) = done ∷ []
until_start (executing observed) = finished canceled ∷ idle ∷ done ∷ idle ∷ done ∷ []
until_start (drained observed e) = idle ∷ done ∷ idle ∷ done ∷ []
until_start (held previous e) = done ∷ idle ∷ done ∷ []
until_start (returned e) = []

record IsLost (l : Loop) : Type 0 where
  cancelled : l.cancelled ≡ true
  paused : l.status.paused ≡ true
  round : goes_on l.phase ≡ true

apply_control-paused :
    (s : Status) (c : WorkflowControl)
    → not (text_eq c.action resume) ≡ true
    → s.paused ≡ true
    → (apply_control s c).paused ≡ true
unfolding apply_control
apply_control-paused s c n h = ground (arith, n, h)

branch-IsLost : (t : Bool) {x : Loop} (y : Loop) → t ≡ true → IsLost x → IsLost (if t then x else y)
branch-IsLost t y is lost = if_cases IsLost t (λ _. lost) λ isnt. absurd (clash isnt)
  where
    clash : t ≡ false → ⊥
    clash isnt = cc

end_round-IsLost :
    (l : Loop) (e : Ending)
    → l.cancelled ≡ true
    → l.status.paused ≡ true
    → not (is_failed e) ≡ true
    → IsLost (end_round l true e)
unfolding goes_on
end_round-IsLost l e cancelled paused is =
    branch-IsLost (not (is_failed e)) _ is
      (record { cancelled = cancelled; paused = paused; round = refl })

-- The cancellation itself.
cancel-IsLost :
    (l : Loop)
    → l.status.paused ≡ true
    → (phase : Phase) → goes_on phase ≡ true
    → IsLost (step l phase done)
unfolding step goes_on
cancel-IsLost l paused draining r = record { cancelled = refl; paused = paused; round = refl }
cancel-IsLost l paused (holding previous) r = record {
  cancelled = refl;
  paused = paused;
  round = refl;
}
cancel-IsLost l paused (executing observed) r = record {
  cancelled = refl;
  paused = paused;
  round = refl;
}
cancel-IsLost l paused (drained observed e) r = record {
  cancelled = refl;
  paused = paused;
  round = r;
}
cancel-IsLost l paused (held previous e) r =
    end_round-IsLost (record l { cancelled = true }) e refl paused r
cancel-IsLost l paused (returned e) r = cc

module _ (l : Loop) (cancelled : l.cancelled ≡ true) (paused : l.status.paused ≡ true) where
  step-IsLost :
      (phase : Phase) (i : Input)
      → is_lost i ≡ true
      → goes_on phase ≡ true
      → IsLost (step l phase i)
  unfolding step goes_on
  step-IsLost draining (command c) n r = record {
    cancelled = cancelled;
    paused = apply_control-paused l.status c n paused;
    round = refl;
  }
  step-IsLost draining idle n r =
      branch-IsLost l.status.paused _ paused
        (record { cancelled = cancelled; paused = paused; round = refl })
  step-IsLost draining (finished e) n r = record {
    cancelled = cancelled;
    paused = paused;
    round = refl;
  }
  step-IsLost (holding previous) (command c) n r = branch-IsLost l.cancelled _ cancelled (record {
    cancelled = cancelled;
    paused = apply_control-paused l.status c n paused;
    round = refl;
  })
  step-IsLost (holding previous) idle n r = record {
    cancelled = cancelled;
    paused = paused;
    round = refl;
  }
  step-IsLost (holding previous) (finished e) n r = record {
    cancelled = cancelled;
    paused = paused;
    round = refl;
  }
  step-IsLost (executing observed) (command c) n r = record {
    cancelled = cancelled;
    paused = apply_control-paused l.status c n paused;
    round = refl;
  }
  step-IsLost (executing observed) idle n r = record {
    cancelled = cancelled;
    paused = paused;
    round = refl;
  }
  step-IsLost (executing observed) (finished e) n r = record {
    cancelled = cancelled;
    paused = paused;
    round = ground (arith, n, paused);
  }
  step-IsLost (drained observed e) (command c) n r = record {
    cancelled = cancelled;
    paused = apply_control-paused l.status c n paused;
    round = ground (arith, r);
  }
  step-IsLost (drained observed e) idle n r =
      branch-IsLost l.status.paused _ paused
        (record { cancelled = cancelled; paused = paused; round = ground (arith, r) })
  step-IsLost (drained observed e) (finished e') n r = record {
    cancelled = cancelled;
    paused = paused;
    round = r;
  }
  step-IsLost (held previous e) (command c) n r = branch-IsLost l.cancelled _ cancelled (
      end_round-IsLost (record l { status = apply_control l.status c }) e cancelled
        (apply_control-paused l.status c n paused) r)
  step-IsLost (held previous e) idle n r = record {
    cancelled = cancelled;
    paused = paused;
    round = r;
  }
  step-IsLost (held previous e) (finished e') n r = record {
    cancelled = cancelled;
    paused = paused;
    round = r;
  }
  step-IsLost phase done n r = cancel-IsLost l paused phase r
  step-IsLost (returned e) i n r = cc

after-IsLost :
    (l : Loop) (inputs : List Input)
    → all is_lost inputs ≡ true
    → IsLost l
    → IsLost (after l inputs)
unfolding after
after-IsLost l [] n lost = lost
after-IsLost l (i ∷ inputs) n lost =
    after-IsLost (step l l.phase i) inputs (ground (arith, n))
      (step-IsLost l lost.cancelled lost.paused l.phase i (ground (arith, n)) lost.round)

goes_on-not_returned : (phase : Phase) (e : Ending) → goes_on phase ≡ true → ¬ (phase ≡ returned e)
unfolding goes_on
goes_on-not_returned phase e r is = absurd (clash (sym (ap goes_on is) ∙ r))
  where
    clash : false ≡ true → ⊥
    clash c = cc

abbrev lost_loop : Text → ℕ → Phase → Loop
lost_loop state starts phase = record {
  status = record { state = state; paused = true };
  cancelled = true;
  starts = starts;
  phase = phase;
}

starts_again :
    (state : Text) (starts : ℕ) (phase : Phase)
    → goes_on phase ≡ true
    → (after (lost_loop state starts phase) (until_start phase)).starts ≡ suc starts
unfolding after step goes_on until_start
starts_again state starts draining r = refl
starts_again state starts (holding previous) r = refl
starts_again state starts (executing observed) r = refl
starts_again state starts (drained observed completed) r = refl
starts_again state starts (drained observed canceled) r = refl
starts_again state starts (drained observed failed) r = cc
starts_again state starts (held previous completed) r = refl
starts_again state starts (held previous canceled) r = refl
starts_again state starts (held previous failed) r = cc
starts_again state starts (returned e) r = cc

lost-starts : (l : Loop) → IsLost l → (after l (until_start l.phase)).starts ≡ suc l.starts
lost-starts l lost =
    ap (λ m. (after m (until_start m.phase)).starts) (sym same)
    ∙ starts_again l.status.state l.starts l.phase lost.round
  where
    same : lost_loop l.status.state l.starts l.phase ≡ l
    same =
        ap₂ (λ p c. record l { status = record l.status { paused = p }; cancelled = c })
          (sym lost.paused) (sym lost.cancelled)

-- Once a workflow whose status is paused is cancelled, in any phase but a wait after an activity that
-- failed, executeProviderWithControls goes on for ever: whatever comes, while no signal resumes and the
-- activity does not fail, it has not returned, and if then no signal comes at all and the activity ends
-- with a CanceledError, it starts the activity again.
pub cancelled-never_returns :
    (l : Loop) (inputs : List Input)
    → l.status.paused ≡ true
    → goes_on l.phase ≡ true
    → all is_lost inputs ≡ true
    → let m = after (step l l.phase done) inputs in
      ((e : Ending) → ¬ (m.phase ≡ returned e))
      × ((after m (until_start m.phase)).starts ≡ suc m.starts)
cancelled-never_returns l inputs paused waits lost =
    (λ e. goes_on-not_returned m.phase e last.round, lost-starts m last)
  where
    m : Loop
    m = after (step l l.phase done) inputs

    last : IsLost m
    last = after-IsLost (step l l.phase done) inputs lost (cancel-IsLost l paused l.phase waits)
