-- ===== src/Proxy/Chunked/Grammar.antt =====
-- The chunked encoding as a grammar, and the reading of what it describes.
use stir_main.Base.{
  ℕ, zero, suc, ◌<◌, ◌==◌, ◌≡◌, refl, ap, false, List, [], ◌∷◌, ◌++◌, All, take, drop, length,
  length-append, arith,
}
use stir_main.Proxy.Chunked.Sizes.{
  SizeLine, EmptyLine, nothing, only_return, FieldLine, chunk_size-SizeLine, strip_bytes-EmptyLine,
  strip_bytes-FieldLine,
}
use stir_main.Proxy.Chunked.{
  got, read_line, read_bytes, skip_trailers, after_chunk, by_size, read_chunks, read_chunked,
}

abbrev pub HasNoFeed : List ℕ → Type 0
HasNoFeed = All (λ b. (b == 10) ≡ false)

-- The lines after the last chunk: fields of a trailer, then an empty line.
pub data Trailers (rest : List ℕ) : List ℕ → Type 0 where
  blank : (l : List ℕ) → EmptyLine l → Trailers rest (l ++ 10 ∷ rest)
  trailer :
      (l : List ℕ) {s : List ℕ}
      → HasNoFeed l
      → FieldLine l
      → Trailers rest s
      → Trailers rest (l ++ 10 ∷ s)

-- `Encodes rest body s`: the stream `s` is the encoding of `body` followed by `rest`. A chunk is a
-- line that gives its size, as many bytes, and two more.
pub data Encodes (rest : List ℕ) : List ℕ → List ℕ → Type 0 where
  last :
      (l : List ℕ) {s : List ℕ}
      → HasNoFeed l
      → SizeLine 0 l
      → Trailers rest s
      → Encodes rest [] (l ++ 10 ∷ s)
  chunk :
      (l : List ℕ) (n x y : ℕ) (part : List ℕ) {body s : List ℕ}
      → HasNoFeed l
      → SizeLine (suc n) l
      → length part ≡ suc n
      → Encodes rest body s
      → Encodes rest (part ++ body) (l ++ 10 ∷ (part ++ x ∷ y ∷ s))

EmptyLine-HasNoFeed : {l : List ℕ} → EmptyLine l → HasNoFeed l
EmptyLine-HasNoFeed nothing = tt
EmptyLine-HasNoFeed only_return = (refl, tt)

read_line-line : (l s : List ℕ) → HasNoFeed l → read_line (l ++ 10 ∷ s) ≡ (l ++ 10 ∷ [], s)
unfolding read_line
read_line-line [] s h = refl
read_line-line (b ∷ l) s (plain, h) = rw (read_line-line l s h, plain) refl

take-append : (part s : List ℕ) (n : ℕ) → length part ≡ n → take n (part ++ s) ≡ part
take-append [] s zero e = refl
take-append [] s (suc n) e = absurd (omega arith)
take-append (b ∷ part) s zero e = absurd (omega arith)
take-append (b ∷ part) s (suc n) e = ap (λ r. b ∷ r) (take-append part s n (omega arith))

drop-append : (part s : List ℕ) (n : ℕ) → length part ≡ n → drop n (part ++ s) ≡ s
drop-append [] s zero e = refl
drop-append [] s (suc n) e = absurd (omega arith)
drop-append (b ∷ part) s zero e = absurd (omega arith)
drop-append (b ∷ part) s (suc n) e = drop-append part s n (omega arith)

module _ {rest : List ℕ} where
  skip_trailers-Trailers :
      {s : List ℕ} (rounds : ℕ)
      → Trailers rest s
      → length s < rounds
      → skip_trailers rounds s ≡ got rest
  unfolding skip_trailers
  skip_trailers-Trailers zero t few = absurd (omega arith)
  skip_trailers-Trailers (suc rounds) (blank l empty) few =
      ground (arith, read_line-line l rest (EmptyLine-HasNoFeed empty), strip_bytes-EmptyLine empty)
  skip_trailers-Trailers (suc rounds) (trailer l {s} plain filled t) few =
      let ih = skip_trailers-Trailers rounds t (omega (arith, length-append l (10 ∷ s))) in
      ground (arith, read_line-line l s plain, strip_bytes-FieldLine filled, ih)

  read_chunks-Encodes :
      {body s : List ℕ} (rounds : ℕ)
      → Encodes rest body s
      → length s < rounds
      → read_chunks rounds s ≡ got (body, rest)
  unfolding read_chunks by_size after_chunk read_bytes
  read_chunks-Encodes zero e few = absurd (omega arith)
  read_chunks-Encodes (suc rounds) (last l {s} plain sized t) few =
      rw
        (
          read_line-line l s plain,
          chunk_size-SizeLine sized,
          skip_trailers-Trailers (suc (length s)) t (omega arith),
        )
        refl
  read_chunks-Encodes (suc rounds) (chunk l n x y part {body} {s} plain sized long e) few =
      rw
        (
          read_line-line l (part ++ x ∷ y ∷ s) plain,
          chunk_size-SizeLine sized,
          take-append part (x ∷ y ∷ s) (suc n) long,
          drop-append part (x ∷ y ∷ s) (suc n) long,
          read_chunks-Encodes rounds e (
              omega (
                arith,
                length-append l (10 ∷ (part ++ x ∷ y ∷ s)),
                length-append part (x ∷ y ∷ s),
              )),
        )
        refl

-- Whatever the grammar describes is read as the body that it encodes, up to where it ends.
pub read_chunked-Encodes :
    {rest body s : List ℕ} → Encodes rest body s → read_chunked s ≡ got (body, rest)
unfolding read_chunked
read_chunked-Encodes {s} e = read_chunks-Encodes (suc (length s)) e (omega arith)
