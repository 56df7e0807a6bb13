-- ===== src/Wire/Records.antt =====
-- A record is read back field by field, whatever follows it, and has the bytes that were planned.
use readcon_db.Base.{
  ℕ, ◌+◌, ◌≡◌, refl, Bool, [], ◌++◌, if◌then◌else◌, arith, length, length-append, take-append,
  drop-append,
}
use mathlib.Core.List.{append_assoc}
use readcon_db.Base.Bytes.{Bytes, IsU64, to_le_bytes, length-to_le_bytes, from_le_bytes-to_le_bytes}
use readcon_db.Error.{Result, ok, ◌>>=◌}
use readcon_db.Wire.{push_record, read_u64, read_bytes, record_bytes}

-- The bytes of one record.
record_of : ℕ → Bytes → Bytes → Bytes
record_of frame enc stored =
    to_le_bytes 8 frame
    ++ (to_le_bytes 8 (length enc) ++ (enc ++ (to_le_bytes 8 (length stored) ++ stored)))

push_record-append :
    (out : Bytes) (frame : ℕ) (enc stored : Bytes)
    → push_record out frame enc stored ≡ out ++ record_of frame enc stored
unfolding push_record record_of
push_record-append out frame enc stored = simp append_assoc

length-record_of :
    (frame : ℕ) (enc stored : Bytes)
    → length (record_of frame enc stored) ≡ 24 + length enc + length stored
unfolding record_of
length-record_of frame enc stored = omega (
  arith,
  length-append (to_le_bytes 8 frame)
      (to_le_bytes 8 (length enc) ++ (enc ++ (to_le_bytes 8 (length stored) ++ stored))),
  length-append (to_le_bytes 8 (length enc)) (enc ++ (to_le_bytes 8 (length stored) ++ stored)),
  length-append enc (to_le_bytes 8 (length stored) ++ stored),
  length-append (to_le_bytes 8 (length stored)) stored,
  length-to_le_bytes 8 frame,
  length-to_le_bytes 8 (length enc),
  length-to_le_bytes 8 (length stored),
)

read_u64-to_le_bytes :
    (n : ℕ) (rest : Bytes) → IsU64 n → read_u64 (to_le_bytes 8 n ++ rest) ≡ ok (n, rest)
unfolding read_u64
read_u64-to_le_bytes n rest h = ground (
  arith,
  take-append (to_le_bytes 8 n) rest 8 (length-to_le_bytes 8 n),
  drop-append (to_le_bytes 8 n) rest 8 (length-to_le_bytes 8 n),
  from_le_bytes-to_le_bytes 8 n (omega arith),
  length-append (to_le_bytes 8 n) rest,
  length-to_le_bytes 8 n,
)

read_bytes-append :
    (b rest : Bytes)
    → IsU64 (length b)
    → read_bytes (to_le_bytes 8 (length b) ++ (b ++ rest)) ≡ ok (b, rest)
unfolding read_bytes
read_bytes-append b rest h = ground (
  arith,
  read_u64-to_le_bytes (length b) (b ++ rest) h,
  take-append b rest (length b) refl,
  drop-append b rest (length b) refl,
  length-append b rest,
)

-- The reads that `decode_batch` of src/mpi_ingest.rs makes for one record.
pub read_record : Bytes → Result (ℕ × Bytes × Bytes × Bytes)
read_record buf = do
  (frame, r1) ← read_u64 buf
  (enc, r2) ← read_bytes r1
  (stored, r3) ← read_bytes r2
  ok (frame, enc, stored, r3)

-- The three reads give back what `push_record` appended, and leave what follows.
pub read_record-push_record :
    (frame : ℕ) (enc stored rest : Bytes)
    → IsU64 frame
    → IsU64 (length enc)
    → IsU64 (length stored)
    → read_record (push_record [] frame enc stored ++ rest) ≡ ok (frame, enc, stored, rest)
unfolding read_record
read_record-push_record frame enc stored rest hf he hs =
    rw (push_record-append [] frame enc stored, shape)
      (ground (
        arith,
        read_u64-to_le_bytes frame
            (to_le_bytes 8 (length enc)
              ++ (enc ++ (to_le_bytes 8 (length stored) ++ (stored ++ rest))))
            hf,
        read_bytes-append enc (to_le_bytes 8 (length stored) ++ (stored ++ rest)) he,
        read_bytes-append stored rest hs,
      ))
  where
    shape :
        record_of frame enc stored ++ rest
        ≡ to_le_bytes 8 frame
          ++ (to_le_bytes 8 (length enc)
              ++ (enc ++ (to_le_bytes 8 (length stored) ++ (stored ++ rest))))
    shape = unfold record_of in simp append_assoc

-- A record takes `record_bytes` bytes more in the message, the stored bytes counted only if sent.
pub length-push_record :
    (out : Bytes) (frame : ℕ) (enc stored : Bytes) (send : Bool)
    → length (push_record out frame enc (if send then stored else []))
      ≡ length out + record_bytes (length enc) (length stored) send
length-push_record out frame enc stored send = rw push_record-append (
    omega (
      arith,
      length-append out (record_of frame enc sent),
      length-record_of frame enc sent,
      sent_length send,
    ))
  where
    sent : Bytes
    sent = if send then stored else []

    sent_length :
        (b : Bool)
        → record_bytes (length enc) (length stored) b
          ≡ 24 + length enc + length (if b then stored else [])
    sent_length b = unfold record_bytes in ground arith
