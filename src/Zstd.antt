-- ===== src/Zstd.antt =====
-- The zstd crate, as src/frame_codec.rs uses it: `none` is an error of the library. What the code
-- relies on is that a frame decompresses to what was compressed, and that a frame is not empty
-- (it begins with a magic number of four bytes).
use readcon_db.Base.{ℕ, ◌≤◌, ◌≡◌, Option, some, length}
use readcon_db.Base.Bytes.{Bytes}

pub record Zstd : Type 0 where
  pub encode_all : Bytes → ℕ → Option Bytes
  pub decode_all : Bytes → Option Bytes
  pub decode-encode :
      (plain : Bytes) (level : ℕ) (frame : Bytes)
      → encode_all plain level ≡ some frame
      → decode_all frame ≡ some plain
  pub frame_length :
      (plain : Bytes) (level : ℕ) (frame : Bytes)
      → encode_all plain level ≡ some frame
      → 4 ≤ length frame
