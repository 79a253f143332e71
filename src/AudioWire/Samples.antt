-- ===== src/AudioWire/Samples.antt =====
-- The sample codec of crates/tactus-wire/src/audio.rs: big-endian `i16`s.
use link_wire_rs.Common.{
  ℕ, ◌*◌, ◌≡◌, refl, ◌∙◌, List, [], ◌∷◌, ◌++◌, length, length-append, arith, All,
}
use link_wire_rs.Common.Bytes.{
  to_be_bytes, from_be_bytes, length-to_be_bytes, from-to_be_bytes, as_signed, as_unsigned, half_16,
  as_signed-as_unsigned, as_unsigned-lt, InSigned,
}
use link_wire_rs.Common.Int.{ℤ}

-- `AudioBuffer::samples`: `chunks_exact(2)` leaves an odd last byte out.
unfoldable pub samples : List ℕ → List ℤ
samples [] = []
samples (a ∷ []) = []
samples (a ∷ b ∷ bs) = as_signed half_16 (from_be_bytes (a ∷ b ∷ [])) ∷ samples bs

unfoldable pub encode_samples : List ℤ → List ℕ
encode_samples [] = []
encode_samples (s ∷ ss) = to_be_bytes 2 (as_unsigned half_16 s) ++ encode_samples ss

pub length-encode_samples : (ss : List ℤ) → length (encode_samples ss) ≡ 2 * length ss
unfolding encode_samples
length-encode_samples [] = omega arith
length-encode_samples (s ∷ ss) = omega (
  arith,
  length-append (to_be_bytes 2 (as_unsigned half_16 s)) (encode_samples ss),
  length-to_be_bytes 2 (as_unsigned half_16 s),
  length-encode_samples ss,
)

samples-pair :
    (pair bs : List ℕ)
    → length pair ≡ 2
    → samples (pair ++ bs) ≡ as_signed half_16 (from_be_bytes pair) ∷ samples bs
unfolding samples
samples-pair [] bs h = absurd (omega arith)
samples-pair (a ∷ []) bs h = absurd (omega arith)
samples-pair (a ∷ b ∷ []) bs h = refl
samples-pair (a ∷ b ∷ c ∷ cs) bs h = absurd (omega arith)

-- Samples that fit an `i16` survive the encoding.
pub samples-encode_samples :
    (ss : List ℤ) → All (InSigned half_16) ss → samples (encode_samples ss) ≡ ss
unfolding encode_samples
samples-encode_samples [] h = unfold samples in refl
samples-encode_samples (s ∷ ss) (hs, h) =
    samples-pair (to_be_bytes 2 (as_unsigned half_16 s)) (encode_samples ss)
      (length-to_be_bytes 2 (as_unsigned half_16 s))
    ∙ rw (
      from-to_be_bytes 2 (as_unsigned half_16 s) (as_unsigned-lt half_16 s (omega arith)),
      as_signed-as_unsigned half_16 s hs,
      samples-encode_samples ss h,
    )
