-- ===== src/Orchestration/Controls/Paused.antt =====
-- What pausing does to the executions of the provider activity.
use ai_video_series_workflow.Common.{
  ◌≡◌, refl, ℕ, suc, ◌+◌, ◌≤◌, Bool, true, false, not, ◌&&◌, ◌||◌, List, [], ◌∷◌, if◌then◌else◌,
  if_cases, Text, text_eq, arith, all,
}
use ai_video_series_workflow.Orchestration.Controls.{
  WorkflowControl, pause, Status, apply_control, Ending, Phase, draining, holding, executing,
  drained, held, returned, start_activity, Loop, Input, command, idle, finished, done, is_failed,
  end_round, on_hold, step, after, begun,
}

abbrev pub is_pause : Input → ℕ
is_pause (command c) = if text_eq c.action pause then 1 else 0
is_pause _ = 0

-- The PAUSE signals among the inputs.
unfoldable pub pauses : List Input → ℕ
pauses [] = 0
pauses (i ∷ inputs) = is_pause i + pauses inputs

abbrev pub is_not_done : Input → Bool
is_not_done done = false
is_not_done _ = true

-- After `k` signals to pause, in a workflow that is not cancelled.
unfoldable pub Bound : ℕ → Loop → Phase → Type 0
Bound k l draining = l.starts ≤ k
Bound k l (holding previous) = l.starts ≤ k
Bound k l (executing observed) =
    (l.starts ≤ suc k) × ((observed || l.status.paused) ≡ true → l.starts ≤ k)
Bound k l (drained observed ending) =
    (l.starts ≤ suc k)
    × (observed ≡ true → l.starts ≤ k)
    × (l.status.paused ≡ true → observed ≡ true)
Bound k l (held previous ending) = l.starts ≤ k
Bound k l (returned ending) = (l.starts ≤ suc k) × (l.status.paused ≡ false)

-- The loop has not been cancelled, and is in bound.
pub record IsBounded (k : ℕ) (l : Loop) : Type 0 where
  pub alive : l.cancelled ≡ false
  pub bound : Bound k l l.phase

-- Only a signal to pause makes the status paused.
apply_control-paused :
    (s : Status) (c : WorkflowControl)
    → (apply_control s c).paused ≡ true
    → (s.paused || text_eq c.action pause) ≡ true
unfolding apply_control
apply_control-paused s c h = ground (arith, h)

module _ (k k' : ℕ) (l : Loop) (a : l.cancelled ≡ false) where
  hold-IsBounded :
      (s : Status) (previous : Text) (phase : Phase) (leave : Loop → Loop)
      → Bound k' (record l { status = s; phase = phase }) phase
      → (s.paused ≡ false
          → IsBounded k' (leave (record l { status = record s { state = previous } })))
      → IsBounded k' (on_hold l s previous phase leave)
  hold-IsBounded s previous phase leave stays leaves =
      if_cases (IsBounded k') l.cancelled (λ c. absurd (clash c))
        λ _. if_cases (IsBounded k') s.paused (λ _. record { alive = a; bound = stays }) leaves
    where
      clash : l.cancelled ≡ true → ⊥
      clash c = cc

  end_round-IsBounded :
      (m : Loop) (observed : Bool) (e : Ending)
      → m.cancelled ≡ false
      → m.starts ≤ suc k'
      → (observed ≡ true → m.starts ≤ k')
      → m.status.paused ≡ false
      → IsBounded k' (end_round m observed e)
  unfolding Bound
  end_round-IsBounded m observed e alive most fewer resumed =
      if_cases (IsBounded k') (observed && not (is_failed e))
        (λ b. record { alive = alive; bound = fewer (ground (arith, b)) })
        λ b. record { alive = alive; bound = (most, resumed) }

  step-IsBounded :
      (phase : Phase) (i : Input)
      → is_not_done i ≡ true
      → is_pause i + k ≤ k'
      → Bound k l phase
      → IsBounded k' (step l phase i)
  unfolding step Bound
  step-IsBounded draining (command c) n up h = record { alive = a; bound = ground (arith, h, up) }
  step-IsBounded draining idle n up h =
      if_cases (IsBounded k') l.status.paused
        (λ _. record { alive = a; bound = omega (arith, h, up) })
        λ b. record { alive = a; bound = (omega (arith, h, up), λ p. absurd (clash b p)) }
    where
      clash : l.status.paused ≡ false → l.status.paused ≡ true → ⊥
      clash b p = cc
  step-IsBounded draining (finished e) n up h = record { alive = a; bound = omega (arith, h, up) }
  step-IsBounded (holding previous) (command c) n up h =
      hold-IsBounded (apply_control l.status c) previous (holding previous) start_activity
        (ground (arith, h, up))
        λ b. record { alive = a; bound = (ground (arith, h, up), λ p. ground (arith, b, p)) }
  step-IsBounded (holding previous) idle n up h = record { alive = a; bound = omega (arith, h, up) }
  step-IsBounded (holding previous) (finished e) n up h = record {
    alive = a;
    bound = omega (arith, h, up);
  }
  step-IsBounded (executing observed) (command c) n up (most, fewer) = record {
    alive = a;
    bound = (
      ground (arith, most, up),
      λ p. ground (arith, p, fewer, up, apply_control-paused l.status c),
    );
  }
  step-IsBounded (executing observed) idle n up (most, fewer) = record {
    alive = a;
    bound = (omega (arith, most, up), λ p. omega (arith, fewer p, up));
  }
  step-IsBounded (executing observed) (finished e) n up (most, fewer) = record {
    alive = a;
    bound = (omega (arith, most, up), λ p. omega (arith, fewer p, up), λ p. ground (arith, p));
  }
  step-IsBounded (drained observed e) (command c) n up (most, fewer, seen) = record {
    alive = a;
    bound = (
      ground (arith, most, up),
      λ p. ground (arith, p, fewer, most, up),
      λ p. ground (arith, p, seen, apply_control-paused l.status c),
    );
  }
  step-IsBounded (drained observed e) idle n up (most, fewer, seen) =
      if_cases (IsBounded k') l.status.paused
        (λ b. record { alive = a; bound = omega (arith, fewer (seen b), up) })
        λ b.
          end_round-IsBounded l observed e a (omega (arith, most, up))
            (λ p. omega (arith, fewer p, up)) b
  step-IsBounded (drained observed e) (finished e') n up (most, fewer, seen) = record {
    alive = a;
    bound = (omega (arith, most, up), λ p. omega (arith, fewer p, up), seen);
  }
  step-IsBounded (held previous e) (command c) n up h =
      hold-IsBounded (apply_control l.status c) previous (held previous e) (λ m. end_round m true e)
        (ground (arith, h, up))
        λ b.
          end_round-IsBounded
            (record l { status = record (apply_control l.status c) { state = previous } }) true e a
            (ground (arith, h, up)) (λ p. ground (arith, h, up)) b
  step-IsBounded (held previous e) idle n up h = record { alive = a; bound = omega (arith, h, up) }
  step-IsBounded (held previous e) (finished e') n up h = record {
    alive = a;
    bound = omega (arith, h, up);
  }
  step-IsBounded (returned e) (command c) n up (most, resumed) = record {
    alive = a;
    bound = (ground (arith, most, up), resumed);
  }
  step-IsBounded (returned e) idle n up (most, resumed) = record {
    alive = a;
    bound = (omega (arith, most, up), resumed);
  }
  step-IsBounded (returned e) (finished e') n up (most, resumed) = record {
    alive = a;
    bound = (omega (arith, most, up), resumed);
  }
  step-IsBounded phase done n up h = cc

after-IsBounded :
    (k k' : ℕ) (l : Loop) (inputs : List Input)
    → all is_not_done inputs ≡ true
    → pauses inputs + k ≡ k'
    → IsBounded k l
    → IsBounded k' (after l inputs)
unfolding after pauses
after-IsBounded k k' l [] n up h = let same : k' ≡ k = omega (arith, up) in rw same h
after-IsBounded k k' l (i ∷ inputs) n up h =
    after-IsBounded (is_pause i + k) k' (step l l.phase i) inputs (ground (arith, n))
      (omega (arith, up))
      (step-IsBounded k (is_pause i + k) l h.alive l.phase i (ground (arith, n)) (omega arith)
        h.bound)

phase-starts : (k : ℕ) (l : Loop) (phase : Phase) → Bound k l phase → l.starts ≤ suc k
unfolding Bound
phase-starts k l draining h = omega (arith, h)
phase-starts k l (holding previous) h = omega (arith, h)
phase-starts k l (executing observed) (most, fewer) = most
phase-starts k l (drained observed e) (most, fewer, seen) = most
phase-starts k l (held previous e) h = omega (arith, h)
phase-starts k l (returned e) (most, resumed) = most

returned-resumed :
    (k : ℕ) (l : Loop) (phase : Phase) (e : Ending)
    → Bound k l phase
    → phase ≡ returned e
    → l.status.paused ≡ false
unfolding Bound
returned-resumed k l draining e h is = absurd (by_clash is)
  where
    by_clash : draining ≡ returned e → ⊥
    by_clash is = cc
returned-resumed k l (returned e') e (most, resumed) is = resumed
returned-resumed k l phase e h is = cc

begun-IsBounded :
    (state : Text) (inputs : List Input)
    → all is_not_done inputs ≡ true
    → IsBounded (pauses inputs) (after (begun state) inputs)
unfolding Bound
begun-IsBounded state inputs alive =
    after-IsBounded 0 (pauses inputs) (begun state) inputs alive (omega arith)
      (record { alive = refl; bound = omega arith })

-- Whatever Temporal brings to a workflow that is not cancelled, the provider activity is started at most
-- once more than signals to pause came, and when executeProviderWithControls returns, the status is not
-- paused.
pub starts_bounded :
    (state : Text) (inputs : List Input)
    → all is_not_done inputs ≡ true
    → ((after (begun state) inputs).starts ≤ suc (pauses inputs))
      × ((e : Ending)
          → (after (begun state) inputs).phase ≡ returned e
          → (after (begun state) inputs).status.paused ≡ false)
starts_bounded state inputs alive = (
  phase-starts (pauses inputs) l l.phase bounded,
  λ e. returned-resumed (pauses inputs) l l.phase e bounded,
)
  where
    l : Loop
    l = after (begun state) inputs

    bounded : Bound (pauses inputs) l l.phase
    bounded = (begun-IsBounded state inputs alive).bound
