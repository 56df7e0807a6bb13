-- ===== src/Corpus/Read.antt =====
-- The reads of src/corpus.rs: the text of a frame, its hash, and the frame of a hash. zstd and
-- xxh3-128 are the section's parameters.
use readcon_db.Base.{
  ℕ, ◌≡◌, inl, inr, Bool, false, Option, none, some, List, [], ◌∷◌, if◌then◌else◌, arith,
}
use readcon_db.Base.Bytes.{Bytes}
use readcon_db.Error.{Result, ok, message, missing_frame, ◌>>=◌, ok_or}
use readcon_db.Zstd.{Zstd}
use readcon_db.Heed.{Heed}
use readcon_db.Keys.{
  FrameKey, to_bytes, from_bytes, ContentHash, frame_key_eq, content_hash_from_bytes,
  hash_frame_bytes,
}
use readcon_db.Codec.{decode_frame}
use readcon_db.Corpus.{ConCorpus}
use readcon_db.Corpus.HashIndex.{IsKey-from_bytes}
use readcon_db.Corpus.Rewrite.{HashesAgree}

module _ (db : Heed) (z : Zstd) (xxh3_128 : Bytes → ℕ) where
  open db use {Table, get}

  unfoldable pub stored_in : ConCorpus db → FrameKey → Result Bytes
  stored_in c key = ok_or (get c.frames (to_bytes key)) (missing_frame key.traj_id key.frame_idx)

  unfoldable pub get_frame_text_txn : ConCorpus db → FrameKey → Result Bytes
  unfolding stored_in
  get_frame_text_txn c key = do
    stored ← stored_in c key
    decode_frame z stored (λ head. stored_in c (record { traj_id = key.traj_id; frame_idx = head }))

  unfoldable pub find_by_hash : ConCorpus db → ContentHash → Option FrameKey
  find_by_hash c hash = elim (get c.frame_by_hash hash) [ none ↦ none | some b ↦ from_bytes b ]

  -- A frame with no row in `hash_by_frame` is hashed anew.
  unfoldable pub frame_hash : ConCorpus db → FrameKey → Result ContentHash
  frame_hash c key = elim (get c.hash_by_frame (to_bytes key)) [
    | some b ↦ ok_or (content_hash_from_bytes b) (message "bad hash")
    | none ↦ do text ← get_frame_text_txn c key; ok (hash_frame_bytes xxh3_128 text)
  ]

  -- The test `self.find_by_hash(h)? == Some(k)`.
  unfoldable pub is_first : Option FrameKey → FrameKey → Bool
  is_first none k = false
  is_first (some fk) k = frame_key_eq fk k

  -- The loop of `unique_frame_keys` over the selected keys.
  unfoldable pub unique_frame_keys : ConCorpus db → List FrameKey → Result (List FrameKey)
  unique_frame_keys c [] = ok []
  unique_frame_keys c (k ∷ keys) = do
    h ← frame_hash c k
    uniq ← unique_frame_keys c keys
    ok (if is_first (find_by_hash c h) k then k ∷ uniq else uniq)

  -- Where the hash tables agree, the hash of any frame with a row finds a frame, and that frame
  -- has this hash.
  pub find_by_hash-frame_hash :
      (c : ConCorpus db) (key : FrameKey) (row : Bytes)
      → HashesAgree db c []
      → get c.hash_by_frame (to_bytes key) ≡ some row
      → (fk : FrameKey) × (frame_hash c key ≡ ok row)
        × (find_by_hash c row ≡ some fk)
        × (frame_hash c fk ≡ ok row)
  unfolding frame_hash find_by_hash content_hash_from_bytes
  find_by_hash-frame_hash c key row a e =
      let (b, p) = a.known (to_bytes key) row e in
      let k = a.posting_key row b p in
      let h16 = a.row_hash (to_bytes key) row e in
      let same : get c.hash_by_frame (to_bytes k.fk) ≡ some row = elim (a.posted row b p) [
        | inl r ↦ rw (← k.at) r
        | inr (i, gone) ↦ absurd i
      ] in
      (
        k.fk,
        ground (arith, e, h16),
        ground (arith, p, IsKey-from_bytes b k),
        ground (arith, same, h16),
      )
