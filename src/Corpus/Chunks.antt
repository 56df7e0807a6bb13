-- ===== src/Corpus/Chunks.antt =====
-- src/corpus.rs `ingest_chunk_bounds`: the chunks of a parallel ingest of files.
use readcon_db.Base.{
  ℕ, zero, suc, ◌+◌, ◌-◌, ◌/◌, ◌<◌, ◌≤◌, ◌≡◌, refl, inl, inr, List, [], ◌∷◌, ltb, ◌==◌,
  if◌then◌else◌, arith, Bool-cases, min, max,
}

-- The loop `while i < n`. Each round takes a file at least, so the number of files is fuel enough.
unfoldable pub chunk_loop : ℕ → ℕ → ℕ → ℕ → List (ℕ × ℕ)
chunk_loop zero i chunk n = []
chunk_loop (suc fuel) i chunk n =
    let rest = chunk_loop fuel (min (i + chunk) n) chunk n in
    if ltb i n then (i, min (i + chunk) n) ∷ rest else []

unfoldable pub ingest_chunk_bounds : ℕ → List (ℕ × ℕ)
ingest_chunk_bounds n = if n == 0 then [] else chunk_loop n 0 (max (n / 8) 1) n

-- Chunks that begin at `i`, follow each other without a gap, end at `n`, and have `chunk` files
-- each but for the last.
abbrev pub Tiles : ℕ → ℕ → ℕ → List (ℕ × ℕ) → Type 0
Tiles i chunk n [] = i ≡ n
Tiles i chunk n ((a, b) ∷ rest) = (a ≡ i) × (a < b) × (b ≡ min (a + chunk) n) × Tiles b chunk n rest

chunk_loop-Tiles :
    (fuel i chunk n : ℕ)
    → i ≤ n
    → 1 ≤ chunk
    → n - i ≤ fuel
    → Tiles i chunk n (chunk_loop fuel i chunk n)
unfolding chunk_loop
chunk_loop-Tiles zero i chunk n h one f = omega arith
chunk_loop-Tiles (suc fuel) i chunk n h one f = elim (Bool-cases (ltb i n)) [
  | inr t ↦ rw t (ground arith)
  | inl t ↦
      let ih =
        chunk_loop-Tiles fuel (min (i + chunk) n) chunk n (ground arith) one (ground arith) in
      rw t (refl, ground arith, refl, ih)
]

-- The chunks of any number of files are not empty, tile the files from the first to the last, and
-- all have an eighth of the files, or one file, but for the last.
pub ingest_chunk_bounds-Tiles : (n : ℕ) → Tiles 0 (max (n / 8) 1) n (ingest_chunk_bounds n)
unfolding ingest_chunk_bounds
ingest_chunk_bounds-Tiles n = elim (Bool-cases (n == 0)) [
  | inl z ↦ rw z (ground arith)
  | inr z ↦ rw z (chunk_loop-Tiles n 0 (max (n / 8) 1) n (omega arith) (ground arith) (omega arith))
]
