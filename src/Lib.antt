-- ===== src/Lib.antt =====
-- ai_video_series_workflow: the rules of the video series workflow that decide about money, state and
-- identity. Each part of the Go program below is a module of pure functions that follow the source,
-- and the modules beneath it prove theorems on them. Paths are from the root of the repository.
--
-- The parts and how they meet. A generation job crosses the provider-neutral boundary of
-- internal/providercontract: the control plane authorizes it, its budget is admitted by the policy and
-- bound to a reservation, the runner of internal/videopipeline/production checks its approvals, submits
-- it to a provider, polls it, commits its assets and stores its manifest, the run ledger records what
-- came of it, and the publication lock freezes it. Subtitles and the speech evaluation judge
-- the finished episode.
--
-- Provider.Budget        internal/providercontract/budget.go: validate is BudgetEnvelope.Validate,
--                        evaluate is BudgetPolicy.Evaluate, rounded_cost is roundedCost.
-- Provider.Errors        errors.go there: map_http_error and map_context_error.
-- Provider.Contract      contract.go there: the data of a request and a job, and validate_request.
-- Provider.Dispatch      dispatch.go there: validate_job, validate_model, bind_budget_reservation and
--                        validate_for. The section parameter `digest` is SHA-256 of canonical JSON.
-- Provider.Fake          fake.go there: submit, poll, cancel and apply_callback as functions on the
--                        state FakeProvider of Provider.FakeState, and Call and run for sequences of
--                        calls. Step is the abstract step relation on the state.
-- Production.Revision    internal/videopipeline/production/revision.go and canonical.go: create,
--                        create_next, rollback, get, latest and history of the append-only store, on
--                        the state of Production.RevisionState. The
--                        section parameter `c`, a Codec, is encoding/json and crypto/sha256.
-- Production.Graph       revision.go there: add and impacted of the graph of dependencies.
-- Production.Ledger      generation.go there: begin, complete and get_run of the run ledger.
-- Production.Refs        revision.go and generation.go there: exact references, the approvals of the
--                        gates, the authorization, and the committer of artifacts.
-- Production.Prompt      prompt.go there: the integrity of a prompt snapshot, the request built from it,
--                        its verification against a source, and the registry; Diff there is DiffPrompts. A PromptCodec stands for
--                        the hashes of the JSON of its structs and for the copy that goes through JSON.
-- Provider.Manifest      internal/providercontract/manifest.go: new_generation_manifest and
--                        validate_manifest; Production.Manifests is the store of generation.go.
-- Production.Preflight   generation.go there: the input of a run, preflight, and the record Environment of
--                        what GenerationRunner is given: provider, committer, prompt source, clock,
--                        wait and digests, each a function on the state `World` of what is outside.
-- Production.Loops       Execute there, first part: submit_loop and poll_loop, with the attempt records.
-- Production.Conclude    Execute there, second part: the checks of the result, the commits, the manifest and
--                        the final record; fail is GenerationRunner.fail. Production.Run has their data.
-- Production.Execute     Execute there as a whole, on the runner's ledger, manifests and world; the
--                        provider of Provider.Fake is the environment of its examples.
-- Production.Publication  PublicationLocker.Lock there.
-- Orchestration.Controls  internal/videopipeline/orchestration: executeProviderWithControls of shot_workflow.go in
--                        race version 1, with waitForResume and applyControl of workflow.go, as a
--                        step on the phase the loop waits in and an input that Temporal brings.
-- Controlplane.Policy    internal/videopipeline/controlplane/policy.go: authorize, approval_action and
--                        the validation of references. `to_upper` is strings.ToUpper, `parses` is
--                        uuid.Parse.
-- Postproduction.Subtitle  internal/videopipeline/postproduction/subtitle.go: revisions of subtitles,
--                        their validation and edit, and their rendering as SRT.
-- Cer                    internal/videopipeline/cerevaluation/evaluator.go: levenshtein_operations, with
--                        its table and its trace; Evaluation has the input, the pass over the
--                        operations and the gate; Unihan is unihan.go there, the parsing of the readings.
--                        Parameters stand for opencc and NFKC, for the Unicode tables, for SHA-256 and for
--                        the embedded file.
-- Common                 strings as lists of code points, maps as association lists, results, integers.
--
-- Conventions. A mutex that is held for a whole method makes the method one function on the state. An
-- int64 is an integer; where the source guards against overflow the guard is modelled, and where it may
-- wrap around (the number of a subtitle revision) the wrap is written out. An instant is a natural
-- number. The text of an error is a constructor. An index out of range or a nil pointer is a value of
-- its own (`none` of trace, `nil_dereference`).
--
-- Bounds. No definition runs on fuel but `digits`, the decimal digits of a number, which is given one
-- more step than the number and needs no more than its digits, and the loop of Impacted, which is given
-- a round for the start and one for each dependency; everything else is structural. The loops
-- of Execute recur on the rounds that the source's own bounds leave them, MaxAttempts and MaxPolls.
--
-- Not modelled: HTTP handlers, PostgreSQL, the rest of the Temporal workflows, ffmpeg, the provider adapters, the stage 1
-- packages, file storage, commands, the web page and the database schema; of the modelled files,
-- ParseRetryAfter, Discover and Estimate of the fake provider, the compiler and the history of prompts, WriteGenerationManifest, and the JSON evidence hash of the evaluation.
pub mod Common
pub mod Provider
pub mod Cer
pub mod Production
pub mod Postproduction
pub mod Controlplane
pub mod Orchestration
