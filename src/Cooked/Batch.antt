-- ===== src/Cooked/Batch.antt =====
-- The RCSB envelope of src/cooked_soa.rs: `encode_batch` and `decode_batch`.
use readcon_db.Base.{
  ℕ, zero, suc, ◌-◌, ◌^◌, ◌≡◌, refl, List, [], ◌∷◌, ◌++◌, ltb, leb, ◌==◌, if◌then◌else◌, arith,
  length, take, drop, slice, length-append, take-append, drop-append,
}
use mathlib.Core.List.{append_assoc}
use readcon_db.Base.Bytes.{
  Bytes, IsU32, to_le_bytes, from_le_bytes, from_le_bytes-to_le_bytes, bytes_eq,
}
use readcon_db.Error.{Result, ok, err, message, ◌>>=◌, ◌>>◌, guard}

-- b"RCSB"
abbrev pub batch_magic : Bytes
batch_magic = b'R' ∷ b'C' ∷ b'S' ∷ b'B' ∷ []

abbrev pub batch_version : ℕ
batch_version = 1

unfoldable pub push_blobs : List Bytes → Result Bytes
push_blobs [] = ok []
push_blobs (b ∷ blobs) =
    let rest = push_blobs blobs in
    if ltb (2 ^ 32 - 1) (length b)
    then err (message "RCSO blob exceeds u32 length")
    else do more ← rest; ok (to_le_bytes 4 (length b) ++ (b ++ more))

unfoldable pub encode_batch : List Bytes → Result Bytes
encode_batch blobs =
    if ltb (2 ^ 32 - 1) (length blobs) then err (message "too many frames in pack batch") else do
      body ← push_blobs blobs
      ok (batch_magic ++ (to_le_bytes 4 batch_version ++ (to_le_bytes 4 (length blobs) ++ body)))

-- The loop of `decode_batch`, over what is left of the bytes.
unfoldable pub read_blobs : ℕ → Bytes → Result (List Bytes)
read_blobs zero bytes = ok []
read_blobs (suc n) bytes = do
  guard (leb 4 (length bytes)) (message "RCSB truncated length")
  let ln = from_le_bytes (take 4 bytes)
  let rest = drop 4 bytes
  guard (leb ln (length rest)) (message "RCSB truncated blob")
  more ← read_blobs n (drop ln rest)
  ok (take ln rest ∷ more)

unfoldable pub decode_batch : Bytes → Result (List Bytes)
decode_batch bytes = do
  guard (leb 12 (length bytes)) (message "RCSB truncated header")
  guard (bytes_eq (slice 0 4 bytes) batch_magic) (message "RCSB bad magic")
  guard (from_le_bytes (slice 4 8 bytes) == batch_version) (message "RCSB unsupported version")
  let n = from_le_bytes (slice 8 12 bytes)
  read_blobs n (drop 12 bytes)

read_blobs_one :
    (n : ℕ) (b rest : Bytes) {more : List Bytes}
    → IsU32 (length b)
    → read_blobs n rest ≡ ok more
    → read_blobs (suc n) (to_le_bytes 4 (length b) ++ (b ++ rest)) ≡ ok (b ∷ more)
unfolding read_blobs to_le_bytes
read_blobs_one n b rest h e = ground (
  arith,
  from_le_bytes-to_le_bytes 4 (length b) h,
  take-append b rest (length b) refl,
  drop-append b rest (length b) refl,
  length-append b rest,
)

read_blobs-push_blobs :
    (blobs : List Bytes) (body extra : Bytes)
    → push_blobs blobs ≡ ok body
    → read_blobs (length blobs) (body ++ extra) ≡ ok blobs
unfolding push_blobs
read_blobs-push_blobs [] body extra e = unfold read_blobs in refl
read_blobs-push_blobs (b ∷ blobs) body extra e =
    go (push_blobs blobs) refl (λ more h. read_blobs-push_blobs blobs more extra h)
  where
    go :
        (r : Result Bytes)
        → push_blobs blobs ≡ r
        → ((more : Bytes)
            → push_blobs blobs ≡ ok more
            → read_blobs (length blobs) (more ++ extra) ≡ ok blobs)
        → read_blobs (suc (length blobs)) (body ++ extra) ≡ ok (b ∷ blobs)
    go (err x) q ih = absurd (ground arith)
    go (ok more) q ih =
        let small : IsU32 (length b) = ground arith in
        let w : body ≡ to_le_bytes 4 (length b) ++ (b ++ more) = ground arith in
        let at : body ++ extra ≡ to_le_bytes 4 (length b) ++ (b ++ (more ++ extra)) =
          rw
            (
              w,
              append_assoc (to_le_bytes 4 (length b)) (b ++ more) extra,
              append_assoc b more extra,
            )
            refl in
        rw at (read_blobs_one (length blobs) b (more ++ extra) small (ih more q))

-- `decode_batch` reads back the blobs that `encode_batch` was given, in order, whatever follows them.
pub decode_batch-encode_batch :
    (blobs : List Bytes) (v extra : Bytes)
    → encode_batch blobs ≡ ok v
    → decode_batch (v ++ extra) ≡ ok blobs
unfolding encode_batch decode_batch
decode_batch-encode_batch blobs v extra e = go (push_blobs blobs) refl
  where
    go : (r : Result Bytes) → push_blobs blobs ≡ r → decode_batch (v ++ extra) ≡ ok blobs
    go (err x) q = absurd (ground arith)
    go (ok body) q =
        let small : IsU32 (length blobs) = ground arith in
        let w : v
            ≡ batch_magic
              ++ (to_le_bytes 4 batch_version ++ (to_le_bytes 4 (length blobs) ++ body)) =
          ground arith in
        rw w (
          unfold to_le_bytes bytes_eq from_le_bytes in
          ground (
            arith,
            read_blobs-push_blobs blobs body extra q,
            from_le_bytes-to_le_bytes 4 (length blobs) small,
          ))
