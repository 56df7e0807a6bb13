-- ===== src/Codec/Redirect.antt =====
-- A redirect names the head of its group and its slot.
use readcon_db.Base.{ℕ, ◌≤◌, ◌≡◌, refl, true, arith, length, slice}
use readcon_db.Base.Bytes.{IsU32, to_le_bytes, from_le_bytes-to_le_bytes, starts_with-append}
use readcon_db.Error.{ok}
use readcon_db.Codec.{redir_tag, redir_len, is_redirect, encode_redirect, parse_redirect}

redirect_slices :
    (head slot : ℕ)
    → (slice 2 6 (encode_redirect head slot) ≡ to_le_bytes 4 head)
      × (slice 6 10 (encode_redirect head slot) ≡ to_le_bytes 4 slot)
unfolding encode_redirect to_le_bytes
redirect_slices head slot = (refl, refl)

pub length-encode_redirect : (head slot : ℕ) → length (encode_redirect head slot) ≡ redir_len
unfolding encode_redirect to_le_bytes
length-encode_redirect head slot = refl

pub encode_redirect-tag : (head slot : ℕ) → is_redirect (encode_redirect head slot) ≡ true
unfolding encode_redirect is_redirect
encode_redirect-tag head slot = starts_with-append redir_tag _

-- A slot other than 0 is read back with its head.
pub parse_redirect-encode_redirect :
    (head slot : ℕ)
    → IsU32 head
    → IsU32 slot
    → 1 ≤ slot
    → parse_redirect (encode_redirect head slot) ≡ ok (head, slot)
unfolding parse_redirect
parse_redirect-encode_redirect head slot hh hs h =
    let (a, b) = redirect_slices head slot in
    rw
      (
        length-encode_redirect head slot,
        a,
        b,
        from_le_bytes-to_le_bytes 4 head (omega arith),
        from_le_bytes-to_le_bytes 4 slot (omega arith),
      )
      (ground arith)
