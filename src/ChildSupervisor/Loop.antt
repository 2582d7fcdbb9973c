-- ===== src/ChildSupervisor/Loop.antt =====
-- The whole loop of `supervise` (crates/benchplane-core/src/child_supervisor.rs): what it
-- completes with, and that it ends.
use benchplane.Base.{
  ℕ, ◌+◌, ◌≤◌, ◌≡◌, ◌≢◌, refl, subst, String, true, none, some, List, [], ◌∷◌, length, Result, ok,
  Result-cases, Option-cases, Bool-cases, ◌⊎◌, inl, inr, arith, any,
}
use benchplane.Schema.Measurement.{MeasurementRecord}
use benchplane.ChildSupervisor.Protocol.{ChildProtocol, CompletedChild}
use benchplane.ChildSupervisor.Supervise.{Supervision, Round, begun, round, completed, supervise}
use benchplane.ChildSupervisor.Invariant.{ValidatedFrom, IsSupervised, round-IsSupervised}

module _ (decode : List ℕ → Result MeasurementRecord String)
    (validate : MeasurementRecord → ℕ → Result (Unit {0}) String) (protocol : ChildProtocol) where
  begun-IsSupervised : IsSupervised decode validate protocol begun
  begun-IsSupervised = record {
    validated = tt;
    metadata_bound = omega arith;
    total_bound = omega arith;
    metadata_first = inl refl;
  }

  completed-lists :
      (s : Supervision) (c : CompletedChild)
      → completed decode validate protocol s ≡ some c
      → (s.metadata ≡ c.metadata) × (s.measurements ≡ c.measurements)
  unfolding completed
  completed-lists s c e = elim (Option-cases s.exit_status) [
    | inl running ↦ absurd (ground arith)
    | inr (reaped, exited) ↦ ground arith
  ]

  supervise-keeps :
      (s : Supervision) (rounds : List Round) (c : CompletedChild)
      → IsSupervised decode validate protocol s
      → supervise decode validate protocol s rounds ≡ some (ok c)
      → (t : Supervision) × IsSupervised decode validate protocol t
        × (completed decode validate protocol t ≡ some c)
  unfolding supervise
  supervise-keeps s [] c h e = (s, h, ground arith)
  supervise-keeps s (r ∷ rounds) c h e =
      elim (Option-cases (completed decode validate protocol s)) [
        | inr (d, over) ↦ (s, h, ground arith)
        | inl running ↦ elim (Result-cases (round decode validate protocol s r)) [
          | inr (f, refused) ↦ absurd (ground arith)
          | inl (s', gone_on) ↦
              supervise-keeps s' rounds c
                (round-IsSupervised decode validate protocol s s' r h gone_on) (ground arith)
        ]
      ]

  -- Whatever the helper writes and whenever it exits, in every order of the rounds: of a child
  -- that completes, each measurement has passed the adapter's check at its position, there are at
  -- most as many metadata lines and lines in all as the protocol expects, and no measurement
  -- unless all the metadata is there.
  pub supervise_sound :
      (rounds : List Round) (c : CompletedChild)
      → supervise decode validate protocol begun rounds ≡ some (ok c)
      → ValidatedFrom validate 0 c.measurements
        × (length c.metadata ≤ protocol.expected_metadata_records)
        × (length c.metadata + length c.measurements
            ≤ protocol.expected_metadata_records + protocol.expected_records)
        × ((c.measurements ≡ []) ⊎ (length c.metadata ≡ protocol.expected_metadata_records))
  supervise_sound rounds c e =
      let (t, h, over) = supervise-keeps begun rounds c begun-IsSupervised e in
      let (same, same') = completed-lists t c over in
      (subst (ValidatedFrom validate 0) same' h.validated, ground arith, ground arith, ground arith)

  -- Over rounds of which one is behind the deadline, the loop ends, whatever state it is in.
  pub supervise-ends :
      (s : Supervision) (rounds : List Round)
      → any (λ r. r.late) rounds ≡ true
      → supervise decode validate protocol s rounds ≢ none
  unfolding supervise round
  supervise-ends s [] h e = absurd (ground arith)
  supervise-ends s (r ∷ rounds) h e = elim (Option-cases (completed decode validate protocol s)) [
    | inr (d, over) ↦ absurd (ground arith)
    | inl running ↦ elim (Bool-cases r.late) [
      | inl late ↦ absurd (ground arith)
      | inr early ↦ elim (Result-cases (round decode validate protocol s r)) [
        | inr (f, refused) ↦ absurd (ground arith)
        | inl (s', gone_on) ↦ supervise-ends s' rounds (ground arith) (ground arith)
      ]
    ]
  ]
