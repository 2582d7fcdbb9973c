-- ===== src/LocalFake/Framing.antt =====
-- The hashed message of crates/benchplane-core/src/local_fake.rs: each component behind its
-- length, so that different components never give the same message.
use benchplane.Base.{
  ℕ, ◌<◌, ◌≡◌, refl, List, [], ◌∷◌, ◌++◌, length, append_inj, All, to_be_bytes, from_be_bytes,
  u64_mod, arith, ap, sym, ◌∙◌,
}
use benchplane.Base.Bytes.{length-to_be_bytes, from_be_bytes-to_be_bytes}

-- what the loop over the components feeds to the hasher
unfoldable pub frame : List (List ℕ) → List ℕ
frame [] = []
frame (c ∷ cs) = to_be_bytes 8 (length c) ++ (c ++ frame cs)

abbrev pub FitsU64 : List (List ℕ) → Type 0
FitsU64 cs = All (λ c. length c < u64_mod) cs

-- Two lists of as many components, each shorter than 2^64 bytes, with one message are the same.
pub frame-injective :
    (cs ds : List (List ℕ))
    → length cs ≡ length ds
    → FitsU64 cs
    → FitsU64 ds
    → frame cs ≡ frame ds
    → cs ≡ ds
unfolding frame
frame-injective [] [] n h k e = refl
frame-injective [] (d ∷ ds) n h k e = absurd (omega arith)
frame-injective (c ∷ cs) [] n h k e = absurd (omega arith)
frame-injective (c ∷ cs) (d ∷ ds) n h k e =
    let w = λ (m : ℕ). length-to_be_bytes 8 m in
    let head =
      append_inj (to_be_bytes 8 (length c)) (to_be_bytes 8 (length d)) (c ++ frame cs)
        (d ++ frame ds) (w (length c) ∙ sym (w (length d))) e in
    let same : length c ≡ length d =
      sym (from_be_bytes-to_be_bytes 8 (length c) h.0)
      ∙ ap (from_be_bytes 0) head.0
      ∙ from_be_bytes-to_be_bytes 8 (length d) k.0 in
    let body = append_inj c d (frame cs) (frame ds) same head.1 in
    cc (body.0, frame-injective cs ds (omega arith) h.1 k.1 body.1)
