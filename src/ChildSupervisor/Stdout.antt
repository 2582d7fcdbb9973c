-- ===== src/ChildSupervisor/Stdout.antt =====
-- `read_stdout` of crates/benchplane-core/src/child_supervisor.rs: the reader thread cuts the
-- helper's output into lines. What each `read` gives is its input; the receiver stays open.
use benchplane.Base.{
  ℕ, ◌+◌, ◌≤◌, ◌<◌, ◌≡◌, ◌≢◌, refl, sym, ap, ◌∙◌, String, Option, none, some, List, [], ◌∷◌, ◌++◌,
  map, concat, length, length-append, All, ltb, leb, ◌==◌, if◌then◌else◌, Result, ok, err, format,
  decimal, arith,
}
use mathlib.Core.List.{append_assoc, append-nil}
use benchplane.Execution.{is_empty}
use benchplane.ChildSupervisor.Protocol.{ChildProtocol, StdoutEvent, line, error, done}

module _ (protocol : ChildProtocol) where
  -- The loop over the bytes of a buffer: what is sent, and the line that is begun, or `none`
  -- where the thread returns.
  unfoldable pub scan : List ℕ → List ℕ → List StdoutEvent × Option (List ℕ)
  scan begun [] = ([], some begun)
  scan begun (b ∷ bytes) =
      let (events, last) = scan [] bytes in
      let later = scan (begun ++ b ∷ []) bytes in
      if b == 10
      then (line begun ∷ events, last)
      else if leb protocol.max_record_bytes (length (begun ++ b ∷ []))
      then (
        error (
              format (
                "output line exceeded the "
                ∷ decimal protocol.max_record_bytes
                ∷ " byte limit"
                ∷ []))
            ∷ [],
        none,
      )
      else later

  -- after the last buffer
  unfoldable pub finish : List ℕ → List StdoutEvent
  finish begun = if is_empty begun then done ∷ [] else line begun ∷ done ∷ []

  -- `total.saturating_add(count)` is exact: it stays near the bound that ends the loop.
  unfoldable pub read_stdout : List ℕ → ℕ → List (Result (List ℕ) String) → List StdoutEvent
  read_stdout begun total [] = finish begun
  read_stdout begun total (err e ∷ reads) = error (format ("could not read output: " ∷ e ∷ [])) ∷ []
  read_stdout begun total (ok [] ∷ reads) = finish begun
  read_stdout begun total (ok (b ∷ chunk) ∷ reads) =
      let (events, last) = scan begun (b ∷ chunk) in
      let rest : List StdoutEvent = elim last [
        | none ↦ []
        | some l ↦ read_stdout l (total + length (b ∷ chunk)) reads
      ] in
      if ltb protocol.max_stdout_bytes (total + length (b ∷ chunk))
      then error
          (format ("output exceeded the " ∷ decimal protocol.max_stdout_bytes ∷ " byte limit" ∷ []))
        ∷ []
      else events ++ rest

  -- the output as one piece
  abbrev close : List StdoutEvent × Option (List ℕ) → List StdoutEvent
  close (events, none) = events
  close (events, some l) = events ++ finish l

  -- more bytes behind those that are scanned
  abbrev resume : List StdoutEvent × Option (List ℕ) → List ℕ → List StdoutEvent × Option (List ℕ)
  resume (events, none) bytes = (events, none)
  resume (events, some l) bytes = let (more, last) = scan l bytes in (events ++ more, last)

  resume-cons :
      (e : StdoutEvent) (events : List StdoutEvent) (last : Option (List ℕ)) (ys : List ℕ)
      → resume (e ∷ events, last) ys
        ≡ (e ∷ (resume (events, last) ys).0, (resume (events, last) ys).1)
  resume-cons e events none ys = refl
  resume-cons e events (some l) ys = refl

  scan-append : (begun xs ys : List ℕ) → scan begun (xs ++ ys) ≡ resume (scan begun xs) ys
  unfolding scan
  scan-append begun [] ys = ground arith
  scan-append begun (b ∷ xs) ys = ground (
    arith,
    scan-append [] xs ys,
    scan-append (begun ++ b ∷ []) xs ys,
    resume-cons (line begun) (scan [] xs).0 (scan [] xs).1 ys,
  )

  close-append :
      (events : List StdoutEvent) (more : List StdoutEvent × Option (List ℕ))
      → close (events ++ more.0, more.1) ≡ events ++ close more
  close-append events (more, none) = refl
  close-append events (more, some l) = append_assoc events more (finish l)

  -- one piece behind another, where the rest is read as `rest` says
  close-resume :
      (scanned : List StdoutEvent × Option (List ℕ)) (ys : List ℕ)
      (rest : List ℕ → List StdoutEvent)
      → ((l : List ℕ) → rest l ≡ close (scan l ys))
      → scanned.0 ++ (elim scanned.1 as (λ x. List StdoutEvent) [ none ↦ [] | some l ↦ rest l ])
        ≡ close (resume scanned ys)
  close-resume (events, none) ys rest h = append-nil events
  close-resume (events, some l) ys rest h =
      ap (λ t. events ++ t) (h l) ∙ sym (close-append events (scan l ys))

  -- chunks of which none is empty, an empty one being the end of the output
  abbrev pub Nonempty : List (List ℕ) → Type 0
  Nonempty = All (λ c. c ≢ [])

  read_stdout-close :
      (begun : List ℕ) (total : ℕ) (chunks : List (List ℕ))
      → Nonempty chunks
      → total + length (concat chunks) ≤ protocol.max_stdout_bytes
      → read_stdout begun total (map (λ c. ok c) chunks) ≡ close (scan begun (concat chunks))
  unfolding read_stdout
  read_stdout-close begun total [] h fits = unfold scan in refl
  read_stdout-close begun total ([] ∷ chunks) h fits = absurd (h.0 refl)
  read_stdout-close begun total ((b ∷ chunk) ∷ chunks) h fits =
      let piece = b ∷ chunk in
      let size = length-append piece (concat chunks) in
      let fits' : total + length piece ≤ protocol.max_stdout_bytes = omega (arith, size) in
      let later =
        close-resume (scan begun piece) (concat chunks)
          (λ l. read_stdout l (total + length piece) (map (λ c. ok c) chunks))
          (λ l. read_stdout-close l (total + length piece) chunks h.1 (omega (arith, size))) in
      ground (arith, fits', later, scan-append begun piece (concat chunks))

  -- a text that fits a record and holds no newline
  abbrev pub IsLine : List ℕ → Type 0
  IsLine t = All (λ b. b ≢ 10) t × (length t < protocol.max_record_bytes)

  scan-line :
      (begun t rest : List ℕ)
      → All (λ b. b ≢ 10) t
      → length begun + length t < protocol.max_record_bytes
      → scan begun (t ++ 10 ∷ rest) ≡ (line (begun ++ t) ∷ (scan [] rest).0, (scan [] rest).1)
  unfolding scan
  scan-line begun [] rest h fits = ground (arith, append-nil begun)
  scan-line begun (b ∷ t) rest h fits = ground (
    arith,
    length-append begun (b ∷ []),
    append_assoc begun (b ∷ []) t,
    scan-line (begun ++ b ∷ []) t rest h.1 (omega (arith, length-append begun (b ∷ []))),
  )

  scan-lines :
      (texts : List (List ℕ))
      → All IsLine texts
      → scan [] (concat (map (λ t. t ++ 10 ∷ []) texts)) ≡ (map (λ t. line t) texts, some [])
  scan-lines [] h = unfold scan in refl
  scan-lines (t ∷ texts) h =
      let rest = concat (map (λ t. t ++ 10 ∷ []) texts) in
      ground (
        arith,
        append_assoc t (10 ∷ []) rest,
        scan-line [] t rest h.0.0 (omega (arith, h.0.1)),
        scan-lines texts h.1,
      )

  -- However the operating system cuts the output into buffers, none of them empty: an output
  -- within the limit that consists of lines, each shorter than the record limit, gives these
  -- lines in order, then the end.
  pub read_stdout-lines :
      (texts chunks : List (List ℕ))
      → All IsLine texts
      → Nonempty chunks
      → concat chunks ≡ concat (map (λ t. t ++ 10 ∷ []) texts)
      → length (concat chunks) ≤ protocol.max_stdout_bytes
      → read_stdout [] 0 (map (λ c. ok c) chunks) ≡ map (λ t. line t) texts ++ done ∷ []
  unfolding finish
  read_stdout-lines texts chunks h nonempty same fits =
      ground (arith, read_stdout-close [] 0 chunks nonempty (omega arith), scan-lines texts h)
