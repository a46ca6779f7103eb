-- ===== src/Proxy/Chunked.antt =====
-- `Handler.forward` of scripts/audit_ostris_fault_proxy.py: the body of a request, with a length or
-- in chunks, read from the connection. A stream is the bytes still to come until the peer closes it.
pub mod Streams
pub mod Sizes
pub mod Grammar
use stir_main.Base.{
  ℕ, zero, suc, leb, ◌==◌, Bool, ◌&&◌, ◌||◌, Option, none, some, List, [], ◌∷◌, ◌++◌, take, drop,
  length, if◌then◌else◌,
}
use stir_main.Base.Int.{ℤ, pos, negsuc}
use stir_main.Proxy.Number.{parse_int}

-- `bytes.strip` takes these off.
abbrev pub is_blank : ℕ → Bool
is_blank b = leb 9 b && leb b 13 || b == 32

unfoldable pub skip_blanks : List ℕ → List ℕ
skip_blanks [] = []
skip_blanks (b ∷ bs) = let rest = skip_blanks bs in if is_blank b then rest else b ∷ bs

trim : ℕ → List ℕ → List ℕ
trim b [] = if is_blank b then [] else b ∷ []
trim b (c ∷ bs) = b ∷ c ∷ bs

trim_end : List ℕ → List ℕ
unfolding trim
trim_end [] = []
trim_end (b ∷ bs) = trim b (trim_end bs)

unfoldable pub strip_bytes : List ℕ → List ℕ
unfolding skip_blanks trim_end
strip_bytes bs = skip_blanks (trim_end bs)

-- `rfile.readline()`: a line with its line feed, or what is left; and the stream after it.
unfoldable pub read_line : List ℕ → List ℕ × List ℕ
read_line [] = ([], [])
read_line (b ∷ bs) =
    let (line, rest) = read_line bs in if b == 10 then (b ∷ [], bs) else (b ∷ line, rest)

-- `line.split(b";", 1)[0]`.
unfoldable pub before_semicolon : List ℕ → List ℕ
before_semicolon [] = []
before_semicolon (b ∷ bs) = let rest = before_semicolon bs in if b == 59 then [] else b ∷ rest

-- How a loop over the stream ends. `value_error` leaves the handler; `out_of_rounds` stands for a
-- loop that has not ended when its rounds are up.
pub data Read {ℓ} (A : Type ℓ) : Type ℓ where
  got : A → Read A
  value_error : Read A
  out_of_rounds : Read A

-- `rfile.read(n)`: `read(-1)` reads to the end, and a smaller number is refused.
unfoldable pub read_bytes : ℤ → List ℕ → Read (List ℕ × List ℕ)
read_bytes (pos n) s = got (take n s, drop n s)
read_bytes (negsuc zero) s = got (s, [])
read_bytes (negsuc (suc _)) s = value_error

abbrev is_nil : List ℕ → Bool
is_nil [] = Bool.true
is_nil (_ ∷ _) = Bool.false

-- `while rfile.readline().strip(): pass`, the lines after the last chunk.
skip_trailers : ℕ → List ℕ → Read (List ℕ)
skip_trailers zero s = out_of_rounds
skip_trailers (suc rounds) s =
    let (line, rest) = read_line s in
    elim (is_nil (strip_bytes line)) [
      | Bool.true ↦ got rest
      | Bool.false ↦ skip_trailers rounds rest
    ]

-- The size of the next chunk, from its first line.
unfoldable pub chunk_size : List ℕ → Option ℤ
chunk_size line = parse_int 16 (strip_bytes (before_semicolon line))

abbrev with_chunk : List ℕ → Read (List ℕ × List ℕ) → Read (List ℕ × List ℕ)
with_chunk chunk (got (body, rest)) = got (chunk ++ body, rest)
with_chunk chunk other = other

abbrev no_chunk : Read (List ℕ) → Read (List ℕ × List ℕ)
no_chunk (got rest) = got ([], rest)
no_chunk value_error = value_error
no_chunk out_of_rounds = out_of_rounds

-- After a chunk two bytes are passed over, whatever they are; `go` is the next round.
after_chunk : (List ℕ → Read (List ℕ × List ℕ)) → Read (List ℕ × List ℕ) → Read (List ℕ × List ℕ)
after_chunk go (got (chunk, after)) = with_chunk chunk (go (drop 2 after))
after_chunk go value_error = value_error
after_chunk go out_of_rounds = out_of_rounds

by_size : (List ℕ → Read (List ℕ × List ℕ)) → List ℕ → Option ℤ → Read (List ℕ × List ℕ)
by_size go rest none = value_error
by_size go rest (some (pos zero)) = no_chunk (skip_trailers (suc (length rest)) rest)
by_size go rest (some size) = after_chunk go (read_bytes size rest)

-- The `while True` loop.
read_chunks : ℕ → List ℕ → Read (List ℕ × List ℕ)
read_chunks zero s = out_of_rounds
read_chunks (suc rounds) s =
    let (line, rest) = read_line s in by_size (read_chunks rounds) rest (chunk_size line)

-- Every round reads a byte at least, so the length of the stream is rounds enough.
unfoldable pub read_chunked : List ℕ → Read (List ℕ × List ℕ)
unfolding read_chunks skip_trailers after_chunk by_size
read_chunked s = read_chunks (suc (length s)) s
