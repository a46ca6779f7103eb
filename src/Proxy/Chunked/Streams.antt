-- ===== src/Proxy/Chunked/Streams.antt =====
-- The reading of a request's body: it ends on every stream, and it decodes the chunked encoding.
use stir_main.Base.{
  ℕ, zero, suc, ◌≤◌, ◌<◌, ◌≡◌, refl, ◌≢◌, Option, none, some, List, [], ◌∷◌, take, drop, length,
  length-drop, arith,
}
use stir_main.Base.Int.{ℤ, pos, negsuc}
use stir_main.Proxy.Chunked.{
  Read, got, value_error, out_of_rounds, read_line, read_bytes, strip_bytes, skip_trailers,
  chunk_size, with_chunk, after_chunk, by_size, no_chunk, read_chunks, read_chunked,
  before_semicolon,
}
use stir_main.Proxy.Number.{parse_int}

length-read_line : (s : List ℕ) → length (read_line s).1 ≤ length s
unfolding read_line
length-read_line [] = omega arith
length-read_line (b ∷ bs) = ground (arith, length-read_line bs)

read_line_shorter : (b : ℕ) (bs : List ℕ) → length (read_line (b ∷ bs)).1 < suc (length bs)
unfolding read_line
read_line_shorter b bs = ground (arith, length-read_line bs)

read_line_nil : read_line [] ≡ ([], [])
unfolding read_line
read_line_nil = refl

strip_nil : strip_bytes [] ≡ []
unfolding strip_bytes
strip_nil = refl

chunk_size_nil : chunk_size [] ≡ none
unfolding chunk_size before_semicolon strip_bytes parse_int
chunk_size_nil = refl

skip_trailers_ends :
    (rounds : ℕ) (s : List ℕ) → length s < rounds → skip_trailers rounds s ≢ out_of_rounds
unfolding skip_trailers
skip_trailers_ends zero s few h = absurd (omega arith)
skip_trailers_ends (suc rounds) [] few h = ground (arith, read_line_nil, strip_nil)
skip_trailers_ends (suc rounds) (b ∷ bs) few h =
    ground (arith, read_line_shorter b bs, skip_trailers_ends rounds (read_line (b ∷ bs)).1)

with_chunk_ends :
    (chunk : List ℕ) (r : Read (List ℕ × List ℕ))
    → r ≢ out_of_rounds
    → with_chunk chunk r ≢ out_of_rounds
with_chunk_ends chunk (got (body, rest)) ends h = cc
with_chunk_ends chunk value_error ends h = cc
with_chunk_ends chunk out_of_rounds ends h = ends refl

no_chunk_ends : (r : Read (List ℕ)) → r ≢ out_of_rounds → no_chunk r ≢ out_of_rounds
no_chunk_ends (got rest) ends h = cc
no_chunk_ends value_error ends h = cc
no_chunk_ends out_of_rounds ends h = ends refl

-- `go` ends on every stream that is no longer than `n`.
abbrev EndsTo : ℕ → (List ℕ → Read (List ℕ × List ℕ)) → Type 0
EndsTo n go = (s : List ℕ) → length s ≤ n → go s ≢ out_of_rounds

module _ (go : List ℕ → Read (List ℕ × List ℕ)) (rest : List ℕ)
    (ends : EndsTo (length rest) go) where
  after_chunk_ends : (n : ℤ) → after_chunk go (read_bytes n rest) ≢ out_of_rounds
  unfolding after_chunk read_bytes
  after_chunk_ends (pos n) =
      with_chunk_ends (take n rest) _ (
        ends (drop 2 (drop n rest))
          (omega (arith, length-drop 2 (drop n rest), length-drop n rest)))
  after_chunk_ends (negsuc zero) = with_chunk_ends rest _ (ends [] (omega arith))
  after_chunk_ends (negsuc (suc n)) = λ h. cc

  by_size_ends : (size : Option ℤ) → by_size go rest size ≢ out_of_rounds
  unfolding by_size
  by_size_ends none = λ h. cc
  by_size_ends (some (pos zero)) =
      no_chunk_ends _ (skip_trailers_ends (suc (length rest)) rest (omega arith))
  by_size_ends (some (pos (suc n))) = after_chunk_ends (pos (suc n))
  by_size_ends (some (negsuc n)) = after_chunk_ends (negsuc n)

read_chunks_ends :
    (rounds : ℕ) (s : List ℕ) → length s < rounds → read_chunks rounds s ≢ out_of_rounds
unfolding read_chunks
read_chunks_ends zero s few = absurd (omega arith)
read_chunks_ends (suc rounds) [] few =
    rw (read_line_nil, chunk_size_nil) (unfold by_size in λ h. cc)
read_chunks_ends (suc rounds) (b ∷ bs) few =
    by_size_ends (read_chunks rounds) (read_line (b ∷ bs)).1
      (λ s short. read_chunks_ends rounds s (omega (arith, read_line_shorter b bs)))
      (chunk_size (read_line (b ∷ bs)).0)

-- The chunked reading ends on every stream.
pub read_chunked_ends : (s : List ℕ) → read_chunked s ≢ out_of_rounds
unfolding read_chunked
read_chunked_ends s = read_chunks_ends (suc (length s)) s (omega arith)
