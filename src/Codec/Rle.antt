-- ===== src/Codec/Rle.antt =====
-- `_rle_encode`, `_rle_decode`, `_adaptive_block` and `_decode_adaptive_block` of
-- core/dataset_compression.py.
use neuralese.Prelude.{
  ℕ, ◌+◌, ◌*◌, ◌/◌, ◌%◌, ◌≤◌, ◌<◌, ◌≡◌, refl, ap, ◌∙◌, inl, inr, not, ◌&&◌, List, [], ◌∷◌, ◌++◌,
  arith, ltb, eqb, if◌then◌else◌, Bool-cases, length, replicate, replicate-append, All, Result, ok,
  err,
}
use neuralese.Codec.Types.{
  CodecError, block_is_empty, unsupported_mode, rle_malformed, rle_count_not_positive,
}
use mathlib.Core.List.{append_assoc, append-nil}

-- `((count >> 8) & 0xFF, count & 0xFF, last)`
abbrev pub run : ℕ → ℕ → List ℕ
run count last = count / 256 % 256 ∷ count % 256 ∷ last ∷ []

-- The loop over `raw[1:]`. What the source appends to `result` before it goes on stands in front.
unfoldable pub rle_loop : ℕ → ℕ → List ℕ → List ℕ
rle_loop last count [] = run count last
rle_loop last count (value ∷ rest) =
    let more = rle_loop last (count + 1) rest in
    let next = run count last ++ rle_loop value 1 rest in
    if eqb value last && ltb count 65535 then more else next

unfoldable pub rle_encode : List ℕ → List ℕ
rle_encode [] = []
rle_encode (last ∷ rest) = rle_loop last 1 rest

-- The loop over `payload` in steps of three, once its length is known to be a multiple of three.
unfoldable pub rle_runs : List ℕ → List ℕ → Result CodecError (List ℕ)
rle_runs raw (hi ∷ lo ∷ value ∷ rest) =
    let more = rle_runs (raw ++ replicate (hi * 256 + lo) value) rest in
    if eqb (hi * 256 + lo) 0 then err rle_count_not_positive else more
rle_runs raw _ = ok raw

unfoldable pub rle_decode : List ℕ → Result CodecError (List ℕ)
rle_decode payload =
    if not (eqb (length payload % 3) 0) then err rle_malformed else rle_runs [] payload

unfoldable pub adaptive_block : List ℕ → List ℕ
adaptive_block raw =
    let encoded = rle_encode raw in
    if ltb (1 + length encoded) (1 + length raw) then 1 ∷ encoded else 0 ∷ raw

unfoldable pub decode_adaptive_block : List ℕ → Result CodecError (List ℕ)
decode_adaptive_block [] = err block_is_empty
decode_adaptive_block (mode ∷ payload) =
    if eqb mode 0
    then ok payload
    else if eqb mode 1
    then rle_decode payload
    else err unsupported_mode

run_count : (count : ℕ) → count ≤ 65535 → count / 256 % 256 * 256 + count % 256 ≡ count
run_count count q = omega arith

runs-run :
    (out : List ℕ) (last count : ℕ) (rest : List ℕ)
    → 0 < count
    → count ≤ 65535
    → rle_runs out (run count last ++ rest) ≡ rle_runs (out ++ replicate count last) rest
unfolding rle_runs
runs-run out last count rest p q = rw (run_count count q) (ground arith)

-- The encoder's loop keeps its count between 1 and 65,535, so each run fits in its two bytes.
runs-loop :
    (rest out : List ℕ) (last count : ℕ)
    → 0 < count
    → count ≤ 65535
    → rle_runs out (rle_loop last count rest) ≡ ok (out ++ (replicate count last ++ rest))
unfolding rle_loop
runs-loop [] out last count p q =
    rw append-nil (runs-run out last count [] p q ∙ unfold rle_runs in refl)
runs-loop (value ∷ rest) out last count p q =
    elim (Bool-cases (eqb value last && ltb count 65535)) [
      | inl same ↦
          let e : value ≡ last = ground arith in
          rw (same, e, ← replicate-append)
            (runs-loop rest out last (count + 1) (omega arith) (ground arith))
      | inr other ↦ rw other (
          runs-run out last count (rle_loop value 1 rest) p q
          ∙ (runs-loop rest (out ++ replicate count last) value 1 (omega arith) (omega arith)
              ∙ ap ok (append_assoc out (replicate count last) (value ∷ rest))))
    ]

length-rle_loop : (last count : ℕ) (rest : List ℕ) → length (rle_loop last count rest) % 3 ≡ 0
unfolding rle_loop
length-rle_loop last count [] = refl
length-rle_loop last count (value ∷ rest) =
    ground (arith, length-rle_loop last (count + 1) rest, length-rle_loop value 1 rest)

-- Decoding the run-length code of any byte string gives the string back.
pub rle_decode-rle_encode : (raw : List ℕ) → rle_decode (rle_encode raw) ≡ ok raw
unfolding rle_decode rle_encode
rle_decode-rle_encode [] = unfold rle_runs in refl
rle_decode-rle_encode (last ∷ rest) =
    rw (length-rle_loop last 1 rest) (runs-loop rest [] last 1 (omega arith) (omega arith))

-- Decoding a block that the encoder chose, run-length coded or plain, gives its bytes back.
pub decode_adaptive_block-adaptive_block :
    (raw : List ℕ) → decode_adaptive_block (adaptive_block raw) ≡ ok raw
unfolding decode_adaptive_block adaptive_block
decode_adaptive_block-adaptive_block raw = ground (arith, rle_decode-rle_encode raw)

-- The adaptive block is never more than the mode byte longer than the bytes it holds.
pub length-adaptive_block-le : (raw : List ℕ) → length (adaptive_block raw) ≤ 1 + length raw
unfolding adaptive_block
length-adaptive_block-le raw = ground arith

abbrev pub IsByte : ℕ → Type 0
IsByte b = b < 256

rle_loop-IsByte :
    (last count : ℕ) (rest : List ℕ)
    → IsByte last
    → All IsByte rest
    → All IsByte (rle_loop last count rest)
unfolding rle_loop
rle_loop-IsByte last count [] h k = omega arith
rle_loop-IsByte last count (value ∷ rest) h k =
    ground
      (arith, rle_loop-IsByte last (count + 1) rest h k.1, rle_loop-IsByte value 1 rest k.0 k.1)

rle_encode-IsByte : (raw : List ℕ) → All IsByte raw → All IsByte (rle_encode raw)
unfolding rle_encode
rle_encode-IsByte [] h = tt
rle_encode-IsByte (last ∷ rest) h = rle_loop-IsByte last 1 rest h.0 h.1

pub adaptive_block-IsByte : (raw : List ℕ) → All IsByte raw → All IsByte (adaptive_block raw)
unfolding adaptive_block
adaptive_block-IsByte raw h = ground (arith, rle_encode-IsByte raw h)
