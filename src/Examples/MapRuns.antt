-- ===== src/Examples/MapRuns.antt =====
-- Runs of the write transaction and of the chunks of src/corpus.rs.
use readcon_db.Base.{
  ℕ, Bool, true, ◌*◌, ◌/◌, ◌^◌, ◌≤◌, ◌≡◌, ◌≢◌, refl, leb, if◌then◌else◌, arith, max,
}
use readcon_db.Error.{Error, Result, ok, err, io}
use readcon_db.Corpus.MapSize.{
  failed, classify, attempt, with_write, retry, grow_before, grow_after_map_full, grown_size,
  resized, align_map,
}
use readcon_db.Corpus.MapSize.Committed.{Done, with_write_committed}
use readcon_db.Corpus.MapSize.Commits.{with_write_commits}
use readcon_db.Corpus.Chunks.{ingest_chunk_bounds, ingest_chunk_bounds-Tiles, Tiles}

-- A transaction that needs three mebibytes: its body fills a smaller map.
abbrev three_mib : ℕ
three_mib = 3 * 2 ^ 20

abbrev resize : ℕ → Result (Unit {0})
resize want = if leb want (2 ^ 40) then ok tt else err io

abbrev is_full : Error → Bool
is_full e = true

abbrev succeeds : ℕ → Result (Unit {0})
succeeds m = ok tt

body : ℕ → Result ℕ
body m = if leb three_mib m then ok 7 else err io

big_enough :
    (m : ℕ)
    → three_mib ≤ m
    → (value : ℕ) × Done resize is_full succeeds body succeeds (λ m. 0) 0 m value
unfolding body
big_enough m h = (7, (refl, ground arith, refl))

only_full :
    (m : ℕ) (e : Error) → attempt resize is_full succeeds body succeeds (λ m. 0) 0 m ≢ failed e
unfolding attempt body classify
only_full m e h = ground arith

resizable : (n : ℕ) → n ≤ 2 ^ 40 → resize n ≡ ok tt
resizable n h = ground arith

with_write_commits_example :
    (value m : ℕ) × (with_write resize is_full succeeds body succeeds (λ m. 0) 0 (2 ^ 20)
      ≡ (ok value, m))
with_write_commits_example =
    with_write_commits resize is_full succeeds body succeeds (λ m. 0) 0 three_mib (2 ^ 40)
      big_enough only_full resizable (omega arith) (λ m. omega arith) (omega arith) (2 ^ 20)
      (omega arith) (omega arith)

-- Two growths.
run : with_write resize is_full succeeds body succeeds (λ m. 0) 0 (2 ^ 20) ≡ (ok 7, 4 * 2 ^ 20)
unfolding body attempt classify with_write retry grow_before grow_after_map_full grown_size resized
    align_map
run = refl

with_write_committed_example :
    Done resize is_full succeeds body succeeds (λ m. 0) 0 (4 * 2 ^ 20) 7 × (2 ^ 20 ≤ 4 * 2 ^ 20)
with_write_committed_example =
    with_write_committed resize is_full succeeds body succeeds (λ m. 0) 0 (2 ^ 20) (4 * 2 ^ 20) 7
      (omega arith) run

ingest_chunk_bounds-Tiles_example : Tiles 0 (max (19 / 8) 1) 19 (ingest_chunk_bounds 19)
ingest_chunk_bounds-Tiles_example = ingest_chunk_bounds-Tiles 19
