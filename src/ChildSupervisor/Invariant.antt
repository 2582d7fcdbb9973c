-- ===== src/ChildSupervisor/Invariant.antt =====
-- What holds of the variables of `supervise` (crates/benchplane-core/src/child_supervisor.rs)
-- after every round.
use benchplane.Base.{
  ℕ, ◌+◌, ◌≤◌, ◌<◌, ◌≡◌, sym, subst, String, Bool, true, false, Option, List, [], ◌∷◌, ◌++◌, length,
  length-append, Result, ok, err, Result-cases, Bool-cases, ◌⊎◌, inl, inr, arith, ltb,
}
use benchplane.Schema.Measurement.{MeasurementRecord}
use benchplane.ChildSupervisor.Protocol.{ChildProtocol, StdoutEvent, ReapedChild}
use benchplane.ChildSupervisor.Supervise.{
  Supervision, Round, Received, event, timeout, disconnected, take_record, take_line, receive,
  wait_for_exit, round,
}

module _ (validate : MeasurementRecord → ℕ → Result (Unit {0}) String) where
  -- Each record has been validated at its position.
  abbrev pub ValidatedFrom : ℕ → List MeasurementRecord → Type 0
  ValidatedFrom position [] = Unit
  ValidatedFrom position (r ∷ rs) = (validate r position ≡ ok tt) × ValidatedFrom (position + 1) rs

  ValidatedFrom-snoc :
      (position : ℕ) (rs : List MeasurementRecord) (r : MeasurementRecord)
      → ValidatedFrom position rs
      → validate r (position + length rs) ≡ ok tt
      → ValidatedFrom position (rs ++ r ∷ [])
  ValidatedFrom-snoc position [] r h valid = ground arith
  ValidatedFrom-snoc position (q ∷ rs) r h valid =
      (h.0, ValidatedFrom-snoc (position + 1) rs r h.1 (ground arith))

module _ (decode : List ℕ → Result MeasurementRecord String)
    (validate : MeasurementRecord → ℕ → Result (Unit {0}) String) (protocol : ChildProtocol) where
  pub record IsSupervised (s : Supervision) : Type 0 where
    pub validated : ValidatedFrom validate 0 s.measurements
    pub metadata_bound : length s.metadata ≤ protocol.expected_metadata_records
    pub total_bound :
        length s.metadata + length s.measurements
        ≤ protocol.expected_metadata_records + protocol.expected_records
    pub metadata_first :
        (s.measurements ≡ []) ⊎ (length s.metadata ≡ protocol.expected_metadata_records)

  HasRoom : Supervision → Type 0
  HasRoom s =
      length s.metadata + length s.measurements
      < protocol.expected_metadata_records + protocol.expected_records

  -- what a round that does not fail does to the two lists
  data Extends (s s' : Supervision) : Type 0 where
    nothing_new : s'.metadata ≡ s.metadata → s'.measurements ≡ s.measurements → Extends s s'
    metadata_line :
        (l : List ℕ)
        → HasRoom s
        → length s.metadata < protocol.expected_metadata_records
        → s'.metadata ≡ s.metadata ++ l ∷ []
        → s'.measurements ≡ s.measurements
        → Extends s s'
    measurement :
        (r : MeasurementRecord)
        → HasRoom s
        → protocol.expected_metadata_records ≤ length s.metadata
        → validate r (length s.measurements) ≡ ok tt
        → s'.metadata ≡ s.metadata
        → s'.measurements ≡ s.measurements ++ r ∷ []
        → Extends s s'

  Extends-IsSupervised : (s s' : Supervision) → IsSupervised s → Extends s s' → IsSupervised s'
  unfolding HasRoom
  Extends-IsSupervised s s' h (nothing_new same same') = record {
    validated = subst (ValidatedFrom validate 0) (sym same') h.validated;
    metadata_bound = ground arith;
    total_bound = ground arith;
    metadata_first = ground arith;
  }
  Extends-IsSupervised s s' h (metadata_line l room before new same) =
      let longer = length-append s.metadata (l ∷ []) in
      record {
        validated = subst (ValidatedFrom validate 0) (sym same) h.validated;
        metadata_bound = ground (arith, longer);
        total_bound = ground (arith, longer);
        metadata_first = ground (arith, longer);
      }
  Extends-IsSupervised s s' h (measurement r room full valid same new) =
      let longer = length-append s.measurements (r ∷ []) in
      record {
        validated =
            subst (ValidatedFrom validate 0) (sym new)
              (ValidatedFrom-snoc validate 0 s.measurements r h.validated (ground arith));
        metadata_bound = ground (arith, longer);
        total_bound = ground (arith, longer);
        metadata_first = inr (ground arith);
      }

  take_line-Extends :
      (s s' : Supervision) (more : Bool) (l : List ℕ)
      → take_line decode validate protocol s l ≡ ok (s', more)
      → Extends s s'
  unfolding take_line take_record HasRoom
  take_line-Extends s s' more l e =
      elim (Bool-cases (ltb (length s.metadata) protocol.expected_metadata_records)) [
        | inl before ↦ metadata_line l (ground arith) (ground arith) (ground arith) (ground arith)
        | inr after ↦ elim (Result-cases (decode l)) [
          | inr (x, undecoded) ↦ absurd (ground arith)
          | inl (r, decoded) ↦ elim (Result-cases (validate r (length s.measurements))) [
            | inr (x, invalid) ↦ absurd (ground arith)
            | inl (_, valid) ↦
                measurement r (ground arith) (ground arith) (ground arith) (ground arith)
                  (ground arith)
          ]
        ]
      ]

  receive-Extends :
      (s s' : Supervision) (more : Bool) (received : Received)
      → receive decode validate protocol s received ≡ ok (s', more)
      → Extends s s'
  unfolding receive
  receive-Extends s s' more (event (StdoutEvent.line l)) e = take_line-Extends s s' more l e
  receive-Extends s s' more (event (StdoutEvent.error message)) e = absurd (ground arith)
  receive-Extends s s' more (event StdoutEvent.done) e = nothing_new (ground arith) (ground arith)
  receive-Extends s s' more timeout e = nothing_new (ground arith) (ground arith)
  receive-Extends s s' more disconnected e = nothing_new (ground arith) (ground arith)

  -- the end of a round leaves the two lists alone
  wait_for_exit-lists :
      (s s' : Supervision) (more : Bool) (waited : Result (Option ReapedChild) String)
      → wait_for_exit decode validate protocol (s, more) waited ≡ ok s'
      → (s'.metadata ≡ s.metadata) × (s'.measurements ≡ s.measurements)
  unfolding wait_for_exit
  wait_for_exit-lists s s' false waited e = ground arith
  wait_for_exit-lists s s' true (ok status) e = ground arith
  wait_for_exit-lists s s' true (err error) e = ground arith

  pub round-IsSupervised :
      (s s' : Supervision) (r : Round)
      → IsSupervised s
      → round decode validate protocol s r ≡ ok s'
      → IsSupervised s'
  unfolding round
  round-IsSupervised s s' r h e =
      elim (Result-cases (receive decode validate protocol s r.received)) [
        | inr (f, refused) ↦ absurd (ground arith)
        | inl ((t, more), received) ↦
            let lists = wait_for_exit-lists t s' more r.waited (ground arith) in
            Extends-IsSupervised t s'
              (Extends-IsSupervised s t h (receive-Extends s t more r.received received))
              (nothing_new lists.0 lists.1)
      ]
