-- ===== src/Resolution/Digests.antt =====
-- A plan that `resolve_experiment` of crates/benchplane-core/src/resolution.rs makes, against the
-- verifier's check of a plan in crates/benchplane-core/src/evidence.rs.
use Prim.Native.String.{◌++◌}
use benchplane.Base.{
  ℕ, ◌≡◌, ◌↔◌, sym, ap, subst, String, true, List, Result, ok, arith, eq_iff, Result-cases, inl,
  inr,
}
use benchplane.Schema.Float64.{Float64, is_finite}
use benchplane.Schema.Equality.{plan_eq, plan_eq_refl}
use benchplane.Schema.Experiment.{Experiment, ResolvedExperiment, ProviderSpec}
use benchplane.Schema.Measurement.{EvidenceManifest}
use benchplane.Schema.Validate.{validate}
use benchplane.Schema.Validate.Accepted.{ProviderIsAccepted, validate_iff}
use benchplane.Resolution.{ResolvedPlanContent, content_of, plan_of, resolve_experiment}
use benchplane.Evidence.Consistency.{Decoders, validate_resolved_plan}

ProviderIsAccepted-finite :
    (p : ProviderSpec) (budget : Float64) → ProviderIsAccepted p budget → is_finite budget ≡ true
ProviderIsAccepted-finite ProviderSpec.local_fake budget h = h.0
ProviderIsAccepted-finite ProviderSpec.local budget h = h.0
ProviderIsAccepted-finite (ProviderSpec.aws region capacity types) budget h = h.0

pub validate_finite :
    (e : Experiment) → validate e ≡ ok tt → is_finite e.spec.budget.maximum_cost_usd ≡ true
validate_finite e h =
    ProviderIsAccepted-finite e.spec.provider e.spec.budget.maximum_cost_usd
      ((validate_iff e).0 h).provider

module _ (encode : Experiment → Result (List ℕ) String)
    (encode_content : ResolvedPlanContent → Result (List ℕ) String) (sha256 : List ℕ → String) where
  -- what a plan that resolution has made is
  pub resolve_experiment_lem :
      (e : Experiment) (plan : ResolvedExperiment)
      → resolve_experiment encode encode_content sha256 e ≡ ok plan
      → (validate e ≡ ok tt) × (plan ≡ plan_of e plan.experiment_digest plan.resolved_plan_digest)
  unfolding resolve_experiment
  resolve_experiment_lem e plan h = elim (Result-cases (validate e)) [
    | inr (errors, rejected) ↦ absurd (ground arith)
    | inl (u, accepted) ↦ elim (Result-cases (encode e)) [
      | inr (error, stopped) ↦ absurd (ground arith)
      | inl (bytes, encoded) ↦
          elim (Result-cases (encode_content (content_of e ("sha256:" ++ sha256 bytes)))) [
            | inr (error, stopped) ↦ absurd (ground arith)
            | inl (content, done) ↦ (accepted, ground arith)
          ]
    ]
  ]

  -- What resolution makes of an experiment passes the verifier's check of a plan exactly under a
  -- manifest that carries both its digests.
  pub resolved_plan_iff :
      (decode : Decoders) (e : Experiment) (plan : ResolvedExperiment) (manifest : EvidenceManifest)
      → resolve_experiment encode encode_content sha256 e ≡ ok plan
      → (validate_resolved_plan decode encode encode_content sha256 plan manifest ≡ ok tt) ↔ (
          (plan.experiment_digest ≡ manifest.experiment_digest)
          × (plan.resolved_plan_digest ≡ manifest.resolved_plan_digest))
  unfolding validate_resolved_plan
  resolved_plan_iff decode e plan manifest h =
      let (accepted, made) = resolve_experiment_lem e plan h in
      let same : plan.experiment ≡ e = ap (λ p. p.experiment) made in
      let again : resolve_experiment encode encode_content sha256 plan.experiment ≡ ok plan =
        subst (λ x. resolve_experiment encode encode_content sha256 x ≡ ok plan) (sym same) h in
      let reflexive : plan_eq plan plan ≡ true = plan_eq_refl plan (
        subst (λ x. is_finite x.spec.budget.maximum_cost_usd ≡ true) (sym same)
          (validate_finite e accepted)) in
      ground (
        arith,
        eq_iff plan.experiment_digest manifest.experiment_digest,
        eq_iff plan.resolved_plan_digest manifest.resolved_plan_digest,
      )
