-- ===== src/Lib.antt =====
-- Benchplane: a verification library of the Rust crates `benchplane-schema` and `benchplane-core`.
--
-- Benchplane takes an experiment document, runs it with one of three runtimes (a deterministic
-- local fake, a CPU probe helper, a llama.cpp helper), and publishes an evidence bundle that it,
-- or anyone else, can verify offline. The parts and how they interact:
--
-- - crates/benchplane-schema/src/experiment.rs: the document and `Experiment::validate`. Schema/Experiment
--   has the types, constants and defaults, Schema/Validate the validation, Schema/Float64 and
--   Schema/Text what it uses of `f64` and `str`.
-- - crates/benchplane-schema/src/evidence.rs: the records of a bundle and of a comparison.
--   Schema/Evidence, Schema/Measurement.
-- - crates/benchplane-core/src/lifecycle.rs: the state of a run and its journal. Lifecycle; a `&mut self`
--   method returns its result and the new record.
-- - crates/benchplane-core/src/execution.rs: the output of a runtime, its validity and its statistics.
--   Execution and Execution/Stats.
-- - crates/benchplane-core/src/local_fake.rs: the deterministic runtime. LocalFake.
-- - crates/benchplane-core/src/child_supervisor.rs: the supervision of a helper process.
--   ChildSupervisor/Protocol has the records and failures, ChildSupervisor/Supervise the loop,
--   ChildSupervisor/Stdout the reader thread, ChildSupervisor/Resources the resource conversion, and
--   ChildSupervisor `execute`. What the clock, the channel and the operating system answer in a
--   round of the loop is a `Round`; a run of the loop is a list of them, so every interleaving of
--   the helper, the reader and the supervisor is one.
-- - crates/benchplane-core/src/cpu_probe.rs, llama_cpp.rs: the adapters of the helpers. CpuProbe,
--   CpuProbe/Execute, LlamaCpp, LlamaCpp/Metadata.
-- - crates/benchplane-core/src/resolution.rs: Resolution makes the plan of an experiment with its
--   digests. Schema/Equality has the derived equality of the documents.
-- - crates/benchplane-core/src/evidence.rs: the verification of a bundle, Evidence/Bundle.
--   Evidence/Inventory is the pass over SHA256SUMS, with Evidence/Paths for the names and
--   Evidence/Files for the hashing of a file; Evidence/Manifest checks the manifest and the required
--   payloads, Evidence/Entries the run, the attempt and the events, Evidence/Consistency all records
--   against the manifest and one another. Their results are an `Outcome` (Evidence/Outcome): a
--   result, or a panic. Of the records,
--   Evidence/Provenance checks provenance and resources, Evidence/Records one measurement,
--   Evidence/Measurements their file, Evidence/Reports the validity result and the summary, and
--   Evidence/Means computes the bounds of rounded means.
--   The measurements are read before they are checked, so where reading fails another error may be
--   reported than the code's.
-- - crates/benchplane-core/src/run.rs, provenance.rs: Run has the choice of the execution and the
--   manifest. Run/State is the state of a run: its variables, the files of its staging directory and
--   the number of calls so far; the clock and the operating system are functions of that number, so
--   each call may fail. Run/Persist has the persisted transitions and the failure path, Run/Sequence
--   the steps of a run in their order. Provenance has the test of a driver's version,
--   Provenance/Capture what is captured of a runtime.
-- - crates/benchplane-core/src/comparison.rs: Comparison/Bundles compares two verified bundles;
--   Comparison/Contract has their eligibility and their contracts, Comparison/Environment the
--   environment, Comparison and Comparison/Metrics the deltas.
--
-- Base passes on the libraries' names and has what the modules share. Examples applies the
-- theorems at concrete inputs.
--
-- Numbers are natural numbers; a field's Rust type is in a comment beside it. The checked
-- operations compare the exact result with the modulus of their type, casts wrap by `%`, and
-- `saturating_sub` is the subtraction of natural numbers. A panic is `none`. No function runs on
-- fuel but the printing of numbers (Base/Display), whose fuel, the number's successor, exceeds the
-- number of its digits. The supervision has no bound of its own: it is a recursion over the
-- rounds, and gives `none` while they leave it running.
--
-- Parameters stand for what is not in the repository: the JSON and YAML decoders and encoders,
-- SHA-256 (the digest of a file, of a plan, of a local fake's message), the parser of UUIDs, the
-- answers of the file system, the lossy text of a helper's stderr.
--
-- Not modelled: serde's decoding of documents; the walk through a bundle's directories
-- (`gather_directory`), whose names are given, and the opening of its root and of SHA256SUMS; the
-- writing of SHA256SUMS (`write_checksum_file`), a call of a run; the creation of the output
-- directories before a run is allocated; reading the platform's provenance from /proc and /etc;
-- `llama_cpp::execute` as a whole, whose supervision and conversion of the output are modelled
-- apart; the command line; the CPU probe's and the llama.cpp helper's programs (of the latter only
-- two rounding functions, without the width of their integers and the clamp of a first token's
-- time); and the packaging. The output of the execution is an argument of a run.
pub mod Base
pub mod Schema
pub mod Lifecycle
pub mod Execution
pub mod LocalFake
pub mod Evidence
pub mod ChildSupervisor
pub mod CpuProbe
pub mod LlamaCpp
pub mod Provenance
pub mod Run
pub mod Resolution
pub mod Examples
pub mod Comparison
