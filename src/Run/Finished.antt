-- ===== src/Run/Finished.antt =====
-- What a run of crates/benchplane-core/src/run.rs has published when it gives a result.
use benchplane.Base.{
  ◌⊎◌, ℕ, ◌+◌, ◌≡◌, refl, ap, ◌∙◌, inl, inr, String, Bool, true, false, Option, none, some, List,
  [], ◌∷◌, ◌++◌, map, length, arith,
}
use mathlib.Core.Option
use mathlib.Core.List.{append_assoc, append-nil}
use benchplane.Schema.Evidence.{
  RunState, AttemptStatus, AttemptProvenance, NvidiaGpuProvenance, ProcessResources, run_state_eq,
}
use benchplane.Schema.Measurement.{MeasurementRecord}
use benchplane.Execution.{ExecutionOutput}
use benchplane.Run.State.{Action, RunError, publication_conflict, State, Line, whole}
use benchplane.Run.Sequence.{at, conflict, resources_of, publish}
use benchplane.Run.Persist.{with_attempt_status}
use benchplane.Run.Success.{
  Refused, Reaches, Gets-weaken, Gets, bind-Gets, at-Gets, wrote, attempted, write-Reaches,
}
use benchplane.Run.Stages.{
  provenance_recorded, resources_recorded, measurements_recorded, measurement_appended, collected,
  execution_recorded, published, IsAttached,
}

-- what may cause the failure of a run
abbrev pub Cause : (ℕ → Option RunError) → Bool → String → RunError → Type 0
Cause answers exists final_path e =
    Refused answers e ⊎ ((exists ≡ true) × (e ≡ publication_conflict final_path))

no_conflict :
    (answers : ℕ → Option RunError) (exists : Bool) (final_path : String) (s : State)
    → Gets (Cause answers exists final_path) (conflict exists final_path s) tt s
no_conflict answers true final_path s =
    inr ("publishing", publication_conflict final_path, inr (refl, refl), refl)
no_conflict answers false final_path s = inl refl

step-Gets :
    {A : Type 0} (answers : ℕ → Option RunError) (exists : Bool) (final_path : String)
    (m : Action RunError A) (phase : String) (s t : State) (a : A)
    → Reaches answers (m s) a t
    → Gets (Cause answers exists final_path) (at m phase s) a t
step-Gets answers exists final_path m phase s t a h =
    Gets-weaken _ a t (λ e refused. inl refused) (at-Gets answers m phase s t a h)

pub publish-Gets :
    (clock : ℕ → String) (answers : ℕ → Option RunError) (exists : Bool) (final_path : String)
    (s : State)
    → Gets
        (Cause answers exists final_path)
        (publish clock answers exists final_path s)
        tt
        (published s)
unfolding publish
publish-Gets clock answers exists final_path s =
    let s1 : State = wrote (λ f. f) s in
    let s2 : State = wrote (λ f. record f { checksums = true }) s1 in
    let s3 : State = wrote (λ f. f) s2 in
    let s4 : State = wrote (λ f. f) s3 in
    let s5 : State = wrote (λ f. f) s4 in
    let s6 : State = wrote (λ f. record f { published = true }) s5 in
    bind-Gets _ _ s s1 _ tt _
      (step-Gets answers exists final_path _ _ s s1 tt (write-Reaches clock answers _ s))
      (bind-Gets _ _ s1 s2 _ tt _
        (step-Gets answers exists final_path _ _ s1 s2 tt (write-Reaches clock answers _ s1))
        (bind-Gets _ _ s2 s3 _ tt _
          (step-Gets answers exists final_path _ _ s2 s3 tt (write-Reaches clock answers _ s2))
          (bind-Gets _ _ s3 s4 _ tt _
            (step-Gets answers exists final_path _ _ s3 s4 tt (write-Reaches clock answers _ s3))
            (bind-Gets _ _ s4 s4 _ tt _ (no_conflict answers exists final_path s4) (
              bind-Gets _ _ s4 s5 _ tt _
                (step-Gets answers exists final_path _ _ s4 s5 tt
                  (write-Reaches clock answers _ s4))
                (step-Gets answers exists final_path _ _ s5 s6 tt
                  (write-Reaches clock answers _ s5)))))))

-- The loop over the measurements appends them in their order and changes nothing else.
measurements_recorded_lem :
    (ms : List MeasurementRecord) (ls : List (Line MeasurementRecord)) (s : State)
    → s.staging.measurements ≡ some ls
    → measurements_recorded ms s ≡ record s {
      staging = record s.staging { measurements = some (ls ++ map whole ms) };
      calls = s.calls + length ms;
    }
unfolding wrote
measurements_recorded_lem [] ls s h = ground (arith, append-nil ls)
measurements_recorded_lem (m ∷ rest) ls s h =
    measurements_recorded_lem rest (ls ++ whole m ∷ []) (measurement_appended m s) (ground arith)
    ∙ ground (arith, append_assoc ls (whole m ∷ []) (map whole rest))

-- the state in which an execution has been recorded, up to the step to `collecting`
abbrev pub executed :
    String → ExecutionOutput → AttemptProvenance → AttemptStatus → String → ℕ → State → State
executed run_id output q status time calls s =
    let a = with_attempt_status s.attempt_record status time output.failure in
    record s {
      attempt_record = a;
      staging = record s.staging {
        attempt = some a;
        provenance = some q;
        resources = Option.map (resources_of run_id) output.resources;
        measurements = some (map whole output.measurements);
      };
      calls = calls;
    }

provenance_recorded_lem :
    (gpu : Option NvidiaGpuProvenance) (p q : AttemptProvenance) (s : State)
    → s.staging.provenance ≡ some p
    → IsAttached p gpu q
    → (n : ℕ) × (provenance_recorded gpu q s
        ≡ record s { staging = record s.staging { provenance = some q }; calls = n })
unfolding wrote
provenance_recorded_lem none p q s h attached = (s.calls, ground arith)
provenance_recorded_lem (some nvidia) p q s h attached = (s.calls + 1, refl)

resources_recorded_lem :
    (run_id : String) (r : Option ProcessResources) (s : State)
    → s.staging.resources ≡ none
    → (n : ℕ) × (resources_recorded run_id r s ≡ record s {
      staging = record s.staging { resources = Option.map (resources_of run_id) r };
      calls = n;
    })
unfolding wrote
resources_recorded_lem run_id none s h = (s.calls, ground arith)
resources_recorded_lem run_id (some r) s h = (s.calls + 1, refl)

module _ (clock : ℕ → String) where
  pub execution_recorded_lem :
      (run_id : String) (output : ExecutionOutput) (p q : AttemptProvenance)
      (status : AttemptStatus) (s : State)
      → s.staging.provenance ≡ some p
      → s.staging.resources ≡ none
      → s.staging.measurements ≡ some []
      → IsAttached p output.nvidia_gpu q
      → (time : String) × (n : ℕ) × (execution_recorded clock run_id output q status s
          ≡ collected clock
              (run_state_eq output.terminal_state RunState.succeeded)
              (executed run_id output q status time n s))
  unfolding wrote attempted
  execution_recorded_lem run_id output p q status s hp hr hm attached =
      let (n1, e1) = provenance_recorded_lem output.nvidia_gpu p q s hp attached in
      let s2 : State =
        attempted clock status output.failure
          (record s { staging = record s.staging { provenance = some q }; calls = n1 }) in
      let (n3, e3) = resources_recorded_lem run_id output.resources s2 hr in
      let s4 : State =
        wrote (λ f. f)
          (record s2 {
            staging = record s2.staging {
              resources = Option.map (resources_of run_id) output.resources;
            };
            calls = n3;
          }) in
      let e5 = measurements_recorded_lem output.measurements [] s4 hm in
      let succeeded = run_state_eq output.terminal_state RunState.succeeded in
      (
        clock n1,
        s4.calls + length output.measurements,
        ap (collected clock succeeded) (
            ap
              (λ s1. measurements_recorded output.measurements (
                wrote (λ f. f)
                  (resources_recorded run_id output.resources
                    (attempted clock status output.failure s1))))
              e1
            ∙ ap (λ s3. measurements_recorded output.measurements (wrote (λ f. f) s3)) e3
            ∙ e5),
      )
