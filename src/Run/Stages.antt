-- ===== src/Run/Stages.antt =====
-- The state behind each part of a run of crates/benchplane-core/src/run.rs that succeeds.
use benchplane.Base.{
  sym, subst, ◌∙◌, ℕ, ◌≡◌, refl, ap, inl, inr, Bool-cases, String, Bool, true, false, Option, none,
  some, List, [], ◌∷◌, ok,
}
use benchplane.Schema.Experiment.{ResolvedExperiment}
use benchplane.Schema.Evidence.{
  RunState, AttemptStatus, LifecycleEvent, AttemptProvenance, NvidiaGpuProvenance, ProcessResources,
  run_state_eq, is_terminal,
}
use benchplane.Schema.Measurement.{ValidityResult, RunSummary, MeasurementRecord}
use benchplane.Lifecycle.{Lifecycle, is_valid_transition}
use benchplane.Execution.{ExecutionOutput, evaluate_validity, summarize}
use benchplane.Provenance.Capture.{Environment, capture, attach_nvidia}
use benchplane.Evidence.Entries.{expected_attempt_status}
use benchplane.Run.{manifest_of}
use benchplane.Run.State.{RunError, State, whole, appended}
use benchplane.Run.Sequence.{
  success, resources_of, initialize, prepare, record_provenance, record_resources,
  record_measurements, collect, record_execution, finalize,
}
use benchplane.Run.Success.{
  Refused, Gets, bind-Gets, at-Gets, or_panic-Gets, wrote, snapped, moved, attempted, write-Reaches,
  write_experiment-Reaches, persist_run_transition-Reaches, persist_attempt_status-Reaches,
  append_event-Reaches, append_measurement-Reaches, write_snapshots-Reaches,
}

abbrev pub initialized : List ℕ → ResolvedExperiment → LifecycleEvent → State → State
initialized bytes plan event s =
    let s1 = wrote (λ f. record f { attempts = true }) s in
    let s2 = wrote (λ f. record f { experiment = some (whole bytes) }) s1 in
    let s3 = wrote (λ f. record f { plan = some plan }) s2 in
    let s4 = wrote (λ f. record f { events = some [] }) s3 in
    let s5 = wrote (λ f. record f { events = appended f.events (whole event) }) s4 in
    snapped (wrote (λ f. record f { measurements = some [] }) s5)

abbrev pub provenance_recorded : Option NvidiaGpuProvenance → AttemptProvenance → State → State
provenance_recorded none p s = s
provenance_recorded (some nvidia) p s = wrote (λ f. record f { provenance = some p }) s

abbrev pub resources_recorded : String → Option ProcessResources → State → State
resources_recorded run_id none s = s
resources_recorded run_id (some r) s =
    wrote (λ f. record f { resources = some (resources_of run_id r) }) s

abbrev pub measurement_appended : MeasurementRecord → State → State
measurement_appended m s =
    wrote (λ f. record f { measurements = appended f.measurements (whole m) }) s

abbrev pub measurements_recorded : List MeasurementRecord → State → State
measurements_recorded [] s = s
measurements_recorded (m ∷ rest) s = measurements_recorded rest (measurement_appended m s)

-- what attaching the GPU of an output to a provenance gives
abbrev pub IsAttached : AttemptProvenance → Option NvidiaGpuProvenance → AttemptProvenance → Type 0
IsAttached p none q = q ≡ p
IsAttached p (some nvidia) q = attach_nvidia p nvidia ≡ ok q

abbrev pub published : State → State
published s =
    let s1 = wrote (λ f. f) s in
    let s2 = wrote (λ f. record f { checksums = true }) s1 in
    let s3 = wrote (λ f. f) s2 in
    let s4 = wrote (λ f. f) s3 in
    let s5 = wrote (λ f. f) s4 in wrote (λ f. record f { published = true }) s5

module _ (clock : ℕ → String) where
  abbrev pub prepared : AttemptProvenance → State → State
  prepared p s =
      let s1 = moved clock RunState.preparing none s in
      let s2 = attempted clock AttemptStatus.preparing none s1 in
      let s3 = wrote (λ f. record f { provenance = some p }) s2 in
      let s4 = moved clock RunState.running none s3 in attempted clock AttemptStatus.running none s4

  abbrev pub collected : Bool → State → State
  collected true s = moved clock RunState.collecting none s
  collected false s = s

  abbrev pub execution_recorded :
      String → ExecutionOutput → AttemptProvenance → AttemptStatus → State → State
  execution_recorded run_id output q status s =
      let s1 = provenance_recorded output.nvidia_gpu q s in
      let s2 = attempted clock status output.failure s1 in
      let s3 = resources_recorded run_id output.resources s2 in
      let s4 = wrote (λ f. f) s3 in
      let s5 = measurements_recorded output.measurements s4 in
      collected (run_state_eq output.terminal_state RunState.succeeded) s5

  abbrev pub finalized :
      String → ResolvedExperiment → ExecutionOutput → ValidityResult → RunSummary → State → State
  finalized run_id plan output v z s =
      let s1 = moved clock RunState.finalizing none s in
      let s2 = moved clock output.terminal_state output.failure s1 in
      let s3 = wrote (λ f. record f { validity = some v }) s2 in
      let s4 = wrote (λ f. record f { summary = some z }) s3 in
      wrote (λ f. record f { manifest = some (manifest_of plan output v run_id) }) s4

  from_created :
      (s : State)
      → s.lifecycle.state ≡ RunState.created
      → is_valid_transition s.lifecycle.state RunState.preparing ≡ true
  unfolding is_valid_transition
  from_created s h = subst (λ x. is_valid_transition x RunState.preparing ≡ true) (sym h) refl

  from_preparing :
      (p : AttemptProvenance) (s : State)
      → let s1 = moved clock RunState.preparing none s in
        let s2 = attempted clock AttemptStatus.preparing none s1 in
        let s3 = wrote (λ f. record f { provenance = some p }) s2 in
        is_valid_transition s3.lifecycle.state RunState.running ≡ true
  unfolding is_valid_transition moved attempted wrote
  from_preparing p s = refl

  to_collecting :
      (s : State)
      → s.lifecycle.state ≡ RunState.running
      → is_valid_transition s.lifecycle.state RunState.collecting ≡ true
  unfolding is_valid_transition
  to_collecting s h = subst (λ x. is_valid_transition x RunState.collecting ≡ true) (sym h) refl

  to_terminal :
      (s : State) (terminal : RunState)
      → is_terminal terminal ≡ true
      → is_valid_transition (moved clock RunState.finalizing none s).lifecycle.state terminal ≡ true
  unfolding is_valid_transition moved is_terminal
  to_terminal s RunState.succeeded h = refl
  to_terminal s RunState.failed h = refl
  to_terminal s RunState.interrupted h = refl
  to_terminal s RunState.created h = cc
  to_terminal s RunState.preparing h = cc
  to_terminal s RunState.running h = cc
  to_terminal s RunState.collecting h = cc
  to_terminal s RunState.finalizing h = cc

  measurements_keep :
      (ms : List MeasurementRecord) (s : State)
      → (measurements_recorded ms s).lifecycle ≡ s.lifecycle
  unfolding wrote
  measurements_keep [] s = refl
  measurements_keep (m ∷ rest) s = measurements_keep rest (measurement_appended m s)

  provenance_keeps :
      (gpu : Option NvidiaGpuProvenance) (q : AttemptProvenance) (s : State)
      → (provenance_recorded gpu q s).lifecycle ≡ s.lifecycle
  unfolding wrote
  provenance_keeps none q s = refl
  provenance_keeps (some nvidia) q s = refl

  resources_keep :
      (run_id : String) (r : Option ProcessResources) (s : State)
      → (resources_recorded run_id r s).lifecycle ≡ s.lifecycle
  unfolding wrote
  resources_keep run_id none s = refl
  resources_keep run_id (some r) s = refl

  recorded_keeps :
      (run_id : String) (output : ExecutionOutput) (q : AttemptProvenance) (status : AttemptStatus)
      (s : State)
      → s.lifecycle.state ≡ RunState.running
      → let s1 = provenance_recorded output.nvidia_gpu q s in
        let s2 = attempted clock status output.failure s1 in
        let s3 = resources_recorded run_id output.resources s2 in
        let s4 = wrote (λ f. f) s3 in
        (measurements_recorded output.measurements s4).lifecycle.state ≡ RunState.running
  unfolding wrote attempted
  recorded_keeps run_id output q status s running =
      let s1 : State = provenance_recorded output.nvidia_gpu q s in
      let s2 : State = attempted clock status output.failure s1 in
      let s3 : State = resources_recorded run_id output.resources s2 in
      let s4 : State = wrote (λ f. f) s3 in
      ap (λ (l : Lifecycle). l.state)
        (measurements_keep output.measurements s4
          ∙ resources_keep run_id output.resources s2
          ∙ provenance_keeps output.nvidia_gpu q s)
      ∙ running

  collected_lem :
      (b : Bool) (s : State)
      → s.lifecycle.state ≡ RunState.running
      → is_valid_transition (collected b s).lifecycle.state RunState.finalizing ≡ true
  unfolding is_valid_transition moved
  collected_lem true s h = refl
  collected_lem false s h =
      subst (λ x. is_valid_transition x RunState.finalizing ≡ true) (sym h) refl

  -- From a running run, recording its execution leads to where it may be finalized.
  pub execution_recorded-ends :
      (run_id : String) (output : ExecutionOutput) (q : AttemptProvenance) (status : AttemptStatus)
      (s : State)
      → s.lifecycle.state ≡ RunState.running
      → is_valid_transition
          (execution_recorded run_id output q status s).lifecycle.state
          RunState.finalizing
        ≡ true
  execution_recorded-ends run_id output q status s running =
      collected_lem (run_state_eq output.terminal_state RunState.succeeded) _
        (recorded_keeps run_id output q status s running)

  module _ (answers : ℕ → Option RunError) where
    pub initialize-Gets :
        (bytes : List ℕ) (plan : ResolvedExperiment) (event : LifecycleEvent) (s : State)
        → Gets
            (Refused answers)
            (initialize clock answers bytes plan event s)
            tt
            (initialized bytes plan event s)
    unfolding initialize
    initialize-Gets bytes plan event s =
        let s1 : State = wrote (λ f. record f { attempts = true }) s in
        let s2 : State = wrote (λ f. record f { experiment = some (whole bytes) }) s1 in
        let s3 : State = wrote (λ f. record f { plan = some plan }) s2 in
        let s4 : State = wrote (λ f. record f { events = some [] }) s3 in
        let s5 : State = wrote (λ f. record f { events = appended f.events (whole event) }) s4 in
        let s6 : State = wrote (λ f. record f { measurements = some [] }) s5 in
        bind-Gets _ _ s s1 _ tt _ (at-Gets answers _ _ s s1 tt (write-Reaches clock answers _ s)) (
          bind-Gets _ _ s1 s2 _ tt _
            (at-Gets answers _ _ s1 s2 tt (write_experiment-Reaches clock answers bytes s1))
            (bind-Gets _ _ s2 s3 _ tt _
              (at-Gets answers _ _ s2 s3 tt (write-Reaches clock answers _ s2))
              (bind-Gets _ _ s3 s4 _ tt _
                (at-Gets answers _ _ s3 s4 tt (write-Reaches clock answers _ s3))
                (bind-Gets _ _ s4 s5 _ tt _
                  (at-Gets answers _ _ s4 s5 tt (append_event-Reaches clock answers _ s4))
                  (bind-Gets _ _ s5 s6 _ tt _
                    (at-Gets answers _ _ s5 s6 tt (write-Reaches clock answers _ s5))
                    (at-Gets answers _ _ s6 (snapped s6) tt
                      (write_snapshots-Reaches clock answers s6)))))))

    pub prepare-Gets :
        (env : Environment) (run_id : String) (plan : ResolvedExperiment) (p : AttemptProvenance)
        (s : State)
        → s.lifecycle.state ≡ RunState.created
        → capture env run_id plan ≡ some p
        → Gets (Refused answers) (prepare clock answers env run_id plan s) p (prepared p s)
    unfolding prepare
    prepare-Gets env run_id plan p s begun captured =
        let s1 : State = moved clock RunState.preparing none s in
        let s2 : State = attempted clock AttemptStatus.preparing none s1 in
        let s3 : State = wrote (λ f. record f { provenance = some p }) s2 in
        let s4 : State = moved clock RunState.running none s3 in
        let s5 : State = attempted clock AttemptStatus.running none s4 in
        bind-Gets _ _ s s1 _ tt _
          (at-Gets answers _ _ s s1 tt
            (persist_run_transition-Reaches clock answers _ none s (from_created s begun)))
          (bind-Gets _ _ s1 s2 _ tt _
            (at-Gets answers _ _ s1 s2 tt (persist_attempt_status-Reaches clock answers _ none s1))
            (bind-Gets _ _ s2 s2 _ p _ (or_panic-Gets _ p s2 captured) (
              bind-Gets _ _ s2 s3 _ tt _
                (at-Gets answers _ _ s2 s3 tt (write-Reaches clock answers _ s2))
                (bind-Gets _ _ s3 s4 _ tt _
                  (at-Gets answers _ _ s3 s4 tt
                    (persist_run_transition-Reaches clock answers _ none s3 (from_preparing p s)))
                  (bind-Gets _ _ s4 s5 _ tt _
                    (at-Gets answers _ _ s4 s5 tt
                      (persist_attempt_status-Reaches clock answers _ none s4))
                    (inl refl))))))

    pub record_measurements-Gets :
        (ms : List MeasurementRecord) (s : State)
        → Gets
            (Refused answers)
            (record_measurements clock answers ms s)
            tt
            (measurements_recorded ms s)
    unfolding record_measurements
    record_measurements-Gets [] s = inl refl
    record_measurements-Gets (m ∷ rest) s =
        let s1 : State = measurement_appended m s in
        bind-Gets _ _ s s1 _ tt _
          (at-Gets answers _ _ s s1 tt (append_measurement-Reaches clock answers m s))
          (record_measurements-Gets rest s1)

    record_provenance-Gets :
        (p q : AttemptProvenance) (gpu : Option NvidiaGpuProvenance) (s : State)
        → IsAttached p gpu q
        → Gets
            (Refused answers)
            (record_provenance clock answers p gpu s)
            tt
            (provenance_recorded gpu q s)
    unfolding record_provenance
    record_provenance-Gets p q none s h = inl refl
    record_provenance-Gets p q (some nvidia) s h =
        bind-Gets _ _ s s _ q _ (or_panic-Gets _ q s (ap success h)) (
          at-Gets answers _ _ s (provenance_recorded (some nvidia) q s) tt
            (write-Reaches clock answers _ s))

    record_resources-Gets :
        (run_id : String) (r : Option ProcessResources) (s : State)
        → Gets
            (Refused answers)
            (record_resources clock answers run_id r s)
            tt
            (resources_recorded run_id r s)
    unfolding record_resources
    record_resources-Gets run_id none s = inl refl
    record_resources-Gets run_id (some r) s =
        at-Gets answers _ _ s (resources_recorded run_id (some r) s) tt
          (write-Reaches clock answers _ s)

    collect-Gets :
        (terminal : RunState) (s : State)
        → s.lifecycle.state ≡ RunState.running
        → Gets
            (Refused answers)
            (collect clock answers terminal s)
            tt
            (collected (run_state_eq terminal RunState.succeeded) s)
    unfolding collect
    collect-Gets terminal s running = elim (Bool-cases (run_state_eq terminal RunState.succeeded)) [
      | inl same ↦
          rw (same, collect)
            (at-Gets answers _ _ s (moved clock RunState.collecting none s) tt
              (persist_run_transition-Reaches clock answers _ none s (to_collecting s running)))
      | inr other ↦ rw (other, collect) (inl refl)
    ]

    pub record_execution-Gets :
        (run_id : String) (output : ExecutionOutput) (p q : AttemptProvenance)
        (status : AttemptStatus) (s : State)
        → s.lifecycle.state ≡ RunState.running
        → IsAttached p output.nvidia_gpu q
        → expected_attempt_status output.terminal_state ≡ some status
        → Gets
            (Refused answers)
            (record_execution clock answers run_id output p s)
            tt
            (execution_recorded run_id output q status s)
    unfolding record_execution
    record_execution-Gets run_id output p q status s running attached terminal =
        let s1 : State = provenance_recorded output.nvidia_gpu q s in
        let s2 : State = attempted clock status output.failure s1 in
        let s3 : State = resources_recorded run_id output.resources s2 in
        let s4 : State = wrote (λ f. f) s3 in
        let s5 : State = measurements_recorded output.measurements s4 in
        bind-Gets _ _ s s1 _ tt _ (record_provenance-Gets p q output.nvidia_gpu s attached) (
          bind-Gets _ _ s1 s1 _ status _ (or_panic-Gets _ status s1 terminal) (
            bind-Gets _ _ s1 s2 _ tt _
              (at-Gets answers _ _ s1 s2 tt
                (persist_attempt_status-Reaches clock answers status output.failure s1))
              (bind-Gets _ _ s2 s3 _ tt _ (record_resources-Gets run_id output.resources s2) (
                bind-Gets _ _ s3 s4 _ tt _
                  (at-Gets answers _ _ s3 s4 tt (write-Reaches clock answers _ s3))
                  (bind-Gets _ _ s4 s5 _ tt _ (record_measurements-Gets output.measurements s4) (
                    collect-Gets output.terminal_state s5
                      (recorded_keeps run_id output q status s running)))))))

    pub finalize-Gets :
        (run_id : String) (plan : ResolvedExperiment) (output : ExecutionOutput)
        (v : ValidityResult) (z : RunSummary) (s : State)
        → is_valid_transition s.lifecycle.state RunState.finalizing ≡ true
        → is_terminal output.terminal_state ≡ true
        → evaluate_validity plan output run_id ≡ some v
        → summarize plan output v run_id ≡ some z
        → Gets
            (Refused answers)
            (finalize clock answers run_id plan output s)
            (v, z)
            (finalized run_id plan output v z s)
    unfolding finalize
    finalize-Gets run_id plan output v z s ended terminal evaluated summarized =
        let s1 : State = moved clock RunState.finalizing none s in
        let s2 : State = moved clock output.terminal_state output.failure s1 in
        let s3 : State = wrote (λ f. record f { validity = some v }) s2 in
        let s4 : State = wrote (λ f. record f { summary = some z }) s3 in
        let s5 : State =
          wrote (λ f. record f { manifest = some (manifest_of plan output v run_id) }) s4 in
        bind-Gets _ _ s s _ v _ (or_panic-Gets _ v s evaluated) (
          bind-Gets _ _ s s _ z _ (or_panic-Gets _ z s summarized) (
            bind-Gets _ _ s s1 _ tt _
              (at-Gets answers _ _ s s1 tt
                (persist_run_transition-Reaches clock answers _ none s ended))
              (bind-Gets _ _ s1 s2 _ tt _
                (at-Gets answers _ _ s1 s2 tt (
                  persist_run_transition-Reaches clock answers output.terminal_state output.failure
                    s1 (to_terminal s output.terminal_state terminal)))
                (bind-Gets _ _ s2 s3 _ tt _
                  (at-Gets answers _ _ s2 s3 tt (write-Reaches clock answers _ s2))
                  (bind-Gets _ _ s3 s4 _ tt _
                    (at-Gets answers _ _ s3 s4 tt (write-Reaches clock answers _ s3))
                    (bind-Gets _ _ s4 s5 _ tt _
                      (at-Gets answers _ _ s4 s5 tt (write-Reaches clock answers _ s4))
                      (inl refl)))))))
