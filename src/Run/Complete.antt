-- ===== src/Run/Complete.antt =====
-- The bundle that a run of crates/benchplane-core/src/run.rs leaves in its place, and the checks of
-- crates/benchplane-core/src/evidence.rs that its run, attempt and journal pass.
use benchplane.Base.{
  ℕ, ◌≡◌, refl, subst, String, true, Option, none, some, List, [], ◌∷◌, map, All, ok, arith,
}
use mathlib.Core.Option
use benchplane.Schema.Experiment.{ResolvedExperiment}
use benchplane.Schema.Evidence.{
  RunState, AttemptStatus, LifecycleEvent, AttemptProvenance, RunRecord, AttemptRecord,
  ProcessResources, NvidiaGpuProvenance, FailureRecord, run_state_eq, is_terminal,
}
use benchplane.Schema.Measurement.{RunSummary, ValidityResult, MeasurementRecord}
use benchplane.Schema.Equality.{str_eq_refl}
use benchplane.Execution.{ExecutionOutput}
use benchplane.Evidence.Entries.{
  expected_attempt_status, attempt_status_eq, check_run, check_attempt, check_event,
}
use benchplane.Lifecycle.{new}
use benchplane.Run.{manifest_of}
use benchplane.Run.State.{State, Line, whole, torn}
use benchplane.Run.Persist.{with_status, with_attempt_status}
use benchplane.Run.Sequence.{allocated, resources_of}
use benchplane.Run.Success.{wrote, moved, attempted, event_of}
use benchplane.Run.Stages.{initialized, prepared, collected, finalized, published}
use benchplane.Run.Finished.{executed}

-- the states that a run goes through, by the last one
abbrev pub path_to : RunState → List RunState
path_to RunState.succeeded =
    RunState.created ∷ RunState.preparing ∷ RunState.running ∷ RunState.collecting
    ∷ RunState.finalizing ∷ RunState.succeeded ∷ []
path_to terminal =
    RunState.created ∷ RunState.preparing ∷ RunState.running ∷ RunState.finalizing ∷ terminal ∷ []

pub record IsPublished (run_id : String) (bytes : List ℕ) (plan : ResolvedExperiment)
    (output : ExecutionOutput) (q : AttemptProvenance) (v : ValidityResult) (z : RunSummary)
    (t : State) : Type 0 where
  pub placed : t.staging.published ≡ true
  pub checksums : t.staging.checksums ≡ true
  pub experiment : t.staging.experiment ≡ some (whole bytes)
  pub resolved : t.staging.plan ≡ some plan
  pub provenance : t.staging.provenance ≡ some q
  pub resources : t.staging.resources ≡ Option.map (resources_of run_id) output.resources
  pub measurements : t.staging.measurements ≡ some (map whole output.measurements)
  pub validity : t.staging.validity ≡ some v
  pub summary : t.staging.summary ≡ some z
  pub manifest : t.staging.manifest ≡ some (manifest_of plan output v run_id)
  pub run :
      (r : RunRecord) × (t.staging.run ≡ some r)
      × (check_run r (manifest_of plan output v run_id) ≡ ok tt)
      × (r.failure ≡ output.failure)
  pub attempt :
      (a : AttemptRecord) × (t.staging.attempt ≡ some a)
      × (check_attempt a (manifest_of plan output v run_id) ≡ some (ok tt))
      × (a.failure ≡ output.failure)
  pub events :
      (es : List LifecycleEvent) × (t.staging.events ≡ some (map whole es))
      × (map (λ e. e.to_state) es ≡ path_to output.terminal_state)
      × All (λ e. check_event (manifest_of plan output v run_id) (ok e) ≡ ok tt) es

abbrev line_value : {A : Type 0} → Line A → A
line_value (whole a) = a
line_value (torn a) = a

abbrev wholes : Option (List (Line LifecycleEvent)) → List LifecycleEvent
wholes none = []
wholes (some lines) = map line_value lines

-- a terminal state with the attempt's status
pub data IsEnd : RunState → AttemptStatus → Type 0 where
  succeeded : IsEnd RunState.succeeded AttemptStatus.succeeded
  failed : IsEnd RunState.failed AttemptStatus.failed
  interrupted : IsEnd RunState.interrupted AttemptStatus.interrupted

pub end_of :
    (terminal : RunState) (status : AttemptStatus)
    → expected_attempt_status terminal ≡ some status
    → IsEnd terminal status
unfolding expected_attempt_status
end_of RunState.succeeded status h = subst (IsEnd RunState.succeeded) (ground arith) succeeded
end_of RunState.failed status h = subst (IsEnd RunState.failed) (ground arith) failed
end_of RunState.interrupted status h = subst (IsEnd RunState.interrupted) (ground arith) interrupted
end_of RunState.created status h = cc
end_of RunState.preparing status h = cc
end_of RunState.running status h = cc
end_of RunState.collecting status h = cc
end_of RunState.finalizing status h = cc

module _ (clock : ℕ → String) (run_id created_at : String) (bytes : List ℕ)
    (plan : ResolvedExperiment) where
  -- the state in which the execution starts
  abbrev pub before : AttemptProvenance → State
  before p =
      prepared clock p
        (initialized bytes plan (new run_id created_at 1).1 (allocated run_id created_at plan))

  -- the state that a run publishes
  unfoldable pub finished :
      AttemptProvenance
      → ExecutionOutput
      → AttemptProvenance
      → AttemptStatus
      → String
      → ℕ
      → ValidityResult
      → RunSummary
      → State
  finished p output q status time n v z = published (
      finalized clock run_id plan output v z (
        collected clock (run_state_eq output.terminal_state RunState.succeeded)
          (executed run_id output q status time n (before p))))

  pub finished-IsPublished :
      (p q : AttemptProvenance) (time : String) (n : ℕ) (v : ValidityResult) (z : RunSummary)
      (ms : List MeasurementRecord) (r : Option ProcessResources) (gpu : Option NvidiaGpuProvenance)
      (problem : Option FailureRecord) (terminal : RunState) (status : AttemptStatus)
      → IsEnd terminal status
      → let output : ExecutionOutput = record {
        measurements = ms;
        resources = r;
        nvidia_gpu = gpu;
        terminal_state = terminal;
        failure = problem;
      } in
        IsPublished run_id bytes plan output q v z (finished p output q status time n v z)
  unfolding finished wrote moved attempted event_of allocated new run_state_eq with_status
      with_attempt_status is_terminal check_run check_attempt manifest_of expected_attempt_status
      attempt_status_eq
  finished-IsPublished p q time n v z ms r gpu problem _ _ succeeded =
      let id = str_eq_refl run_id in
      let output : ExecutionOutput = record {
        measurements = ms;
        resources = r;
        nvidia_gpu = gpu;
        terminal_state = RunState.succeeded;
        failure = problem;
      } in
      let t : State = finished p output q AttemptStatus.succeeded time n v z in
      record {
        placed = refl;
        checksums = refl;
        experiment = refl;
        resolved = refl;
        provenance = refl;
        resources = refl;
        measurements = refl;
        validity = refl;
        summary = refl;
        manifest = refl;
        run = (
          _,
          refl,
          ground (
            arith,
            id,
            str_eq_refl plan.experiment_digest,
            str_eq_refl plan.resolved_plan_digest,
          ),
          refl,
        );
        attempt = (_, refl, ground (arith, id), refl);
        events = (wholes t.staging.events, refl, refl, ground (arith, id));
      }
  finished-IsPublished p q time n v z ms r gpu problem _ _ failed =
      let id = str_eq_refl run_id in
      let output : ExecutionOutput = record {
        measurements = ms;
        resources = r;
        nvidia_gpu = gpu;
        terminal_state = RunState.failed;
        failure = problem;
      } in
      let t : State = finished p output q AttemptStatus.failed time n v z in
      record {
        placed = refl;
        checksums = refl;
        experiment = refl;
        resolved = refl;
        provenance = refl;
        resources = refl;
        measurements = refl;
        validity = refl;
        summary = refl;
        manifest = refl;
        run = (
          _,
          refl,
          ground (
            arith,
            id,
            str_eq_refl plan.experiment_digest,
            str_eq_refl plan.resolved_plan_digest,
          ),
          refl,
        );
        attempt = (_, refl, ground (arith, id), refl);
        events = (wholes t.staging.events, refl, refl, ground (arith, id));
      }
  finished-IsPublished p q time n v z ms r gpu problem _ _ interrupted =
      let id = str_eq_refl run_id in
      let output : ExecutionOutput = record {
        measurements = ms;
        resources = r;
        nvidia_gpu = gpu;
        terminal_state = RunState.interrupted;
        failure = problem;
      } in
      let t : State = finished p output q AttemptStatus.interrupted time n v z in
      record {
        placed = refl;
        checksums = refl;
        experiment = refl;
        resolved = refl;
        provenance = refl;
        resources = refl;
        measurements = refl;
        validity = refl;
        summary = refl;
        manifest = refl;
        run = (
          _,
          refl,
          ground (
            arith,
            id,
            str_eq_refl plan.experiment_digest,
            str_eq_refl plan.resolved_plan_digest,
          ),
          refl,
        );
        attempt = (_, refl, ground (arith, id), refl);
        events = (wholes t.staging.events, refl, refl, ground (arith, id));
      }
