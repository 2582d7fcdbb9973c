-- ===== src/LocalFake/Message.antt =====
-- The message that crates/benchplane-core/src/local_fake.rs hashes for a metric determines its
-- components.
use benchplane.Base.{
  ℕ, ◌<◌, ◌^◌, ◌≡◌, refl, sym, ap, ◌∙◌, String, List, to_be_bytes, from_be_bytes, as_bytes, u64_mod,
  u32_mod, arith,
}
use benchplane.Base.Bytes.{from_be_bytes-to_be_bytes}
use benchplane.LocalFake.{components}
use benchplane.LocalFake.Framing.{frame, FitsU64, frame-injective}

-- what one message is made of
pub record Key : Type 0 where
  pub plan_digest : String
  pub seed : ℕ
  pub phase : String
  pub repetition_index : ℕ
  pub sample_index : ℕ
  pub metric_tag : String

abbrev pub components_of : Key → List (List ℕ)
components_of k =
    components k.plan_digest k.seed k.phase k.repetition_index k.sample_index k.metric_tag

-- the numbers are of their Rust types, and the texts shorter than 2^64 bytes
pub record IsKey (k : Key) : Type 0 where
  pub seed_fits : k.seed < u64_mod
  pub repetition_fits : k.repetition_index < u32_mod
  pub sample_fits : k.sample_index < u32_mod
  pub texts_fit : FitsU64 (components_of k)

word_inj :
    (width a b : ℕ)
    → a < 256 ^ width
    → b < 256 ^ width
    → to_be_bytes width a ≡ to_be_bytes width b
    → a ≡ b
word_inj width a b ha hb e =
    sym (from_be_bytes-to_be_bytes width a ha)
    ∙ ap (from_be_bytes 0) e
    ∙ from_be_bytes-to_be_bytes width b hb

-- Two keys with one message, their numbers of 64 and 32 bits and their texts shorter than 2^64
-- bytes, have the same numbers, and texts of the same bytes.
pub message-injective :
    (k l : Key)
    → IsKey k
    → IsKey l
    → frame (components_of k) ≡ frame (components_of l)
    → (k.seed ≡ l.seed)
      × (k.repetition_index ≡ l.repetition_index)
      × (k.sample_index ≡ l.sample_index)
      × (as_bytes k.plan_digest ≡ as_bytes l.plan_digest)
      × (as_bytes k.phase ≡ as_bytes l.phase)
      × (as_bytes k.metric_tag ≡ as_bytes l.metric_tag)
unfolding components
message-injective k l hk hl e =
    let same =
      frame-injective (components_of k) (components_of l) refl hk.texts_fit hl.texts_fit e in
    (
      word_inj 8 k.seed l.seed hk.seed_fits hl.seed_fits (ground arith),
      word_inj 4 k.repetition_index l.repetition_index hk.repetition_fits hl.repetition_fits
          (ground arith),
      word_inj 4 k.sample_index l.sample_index hk.sample_fits hl.sample_fits (ground arith),
      ground arith,
      ground arith,
      ground arith,
    )
