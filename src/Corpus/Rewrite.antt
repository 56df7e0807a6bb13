-- ===== src/Corpus/Rewrite.antt =====
-- The writes of a corpus keep the two hash tables in agreement.
use readcon_db.Base.{
  ◌≡◌, ◌≢◌, ◌∙◌, ◌⊎◌, inl, inr, true, Option, none, some, List, [], ◌∷◌, arith, Bool-cases, length,
}
use readcon_db.Base.Bytes.{Bytes, bytes_eq, bytes_eq_iff}
use readcon_db.Heed.{Heed, In}
use readcon_db.Heed.Tables.{
  put_other, delete_cases, delete_self, delete_other, In-append_left, In-append_last,
}
use readcon_db.Keys.{FrameKey, to_bytes, frame_key_eq}
use readcon_db.Keys.Layout.{IsFrameKey, from_bytes-to_bytes}
use readcon_db.Corpus.{
  PreparedIndexPuts, names_frame, ConCorpus, then_some, put_index_puts, delete_index_puts,
  repoint_one, repoint_all, repoint_frame_by_hash, put_all, delete_all, push_stale, rewrite_frames,
}
use readcon_db.Corpus.HashIndex.{Agree, put-Agree}
use readcon_db.Corpus.Repoint.{repoint_one-Agree}

-- Frames with keys that differ from that of `p`, and pairwise.
abbrev pub Apart : PreparedIndexPuts → List PreparedIndexPuts → Type 0
Apart p [] = Unit
Apart p (q ∷ ps) = (to_bytes p.fk ≢ to_bytes q.fk) × Apart p ps

abbrev pub Distinct : List PreparedIndexPuts → Type 0
Distinct [] = Unit
Distinct (p ∷ ps) = Apart p ps × Distinct ps

abbrev pub IsPrepared : PreparedIndexPuts → Type 0
IsPrepared p = IsFrameKey p.fk × (length p.hash ≡ 16)

frame_key_eq_refl : (fk : FrameKey) → frame_key_eq fk fk ≡ true
unfolding frame_key_eq
frame_key_eq_refl fk = ground arith

module _ (db : Heed) where
  open db use {Table, get, put, delete}

  -- The hash tables of `c` agree, but for the postings of `stale`.
  abbrev pub HashesAgree : ConCorpus db → List Bytes → Type 0
  HashesAgree c stale = Agree db c.hash_by_frame c.frame_by_hash stale

  -- Each frame has the row that `p` describes.
  abbrev pub Rows : Table → List PreparedIndexPuts → Type 0
  Rows hbf [] = Unit
  Rows hbf (p ∷ ps) = IsFrameKey p.fk × (get hbf (to_bytes p.fk) ≡ some p.hash) × Rows hbf ps

  -- No frame has a row.
  abbrev pub Fresh : Table → List PreparedIndexPuts → Type 0
  Fresh hbf [] = Unit
  Fresh hbf (p ∷ ps) = IsPrepared p × (get hbf (to_bytes p.fk) ≡ none) × Fresh hbf ps

  In-push_stale :
      (h : Bytes) (o : Option Bytes) (stale : List Bytes)
      → In h stale
      → In h (push_stale db o stale)
  unfolding push_stale
  In-push_stale h none stale i = i
  In-push_stale h (some x) stale i = In-append_left h stale _ i

  posted_hash :
      (fbh : Table) (fk : FrameKey) (hash : Bytes) (stale : List Bytes)
      → IsFrameKey fk
      → get fbh hash ≡ some (to_bytes fk)
      → In hash (push_stale db (then_some (names_frame (get fbh hash) fk) hash) stale)
  unfolding push_stale names_frame
  posted_hash fbh fk hash stale fits e =
      rw (e, names_frame, from_bytes-to_bytes fk fits, frame_key_eq_refl fk)
        (In-append_last hash stale)

  delete-Agree :
      (hbf fbh : Table) (fk : FrameKey) (hash : Bytes) (stale : List Bytes)
      → Agree db hbf fbh stale
      → IsFrameKey fk
      → get hbf (to_bytes fk) ≡ some hash
      → Agree db
          (delete hbf (to_bytes fk))
          fbh
          (push_stale db (then_some (names_frame (get fbh hash) fk) hash) stale)
  delete-Agree hbf fbh fk hash stale a fits row = record {
    row_key = λ k h e. a.row_key k h (delete_cases db hbf (to_bytes fk) k h e).1;
    row_hash = λ k h e. a.row_hash k h (delete_cases db hbf (to_bytes fk) k h e).1;
    known = λ k h e. a.known k h (delete_cases db hbf (to_bytes fk) k h e).1;
    posting_key = a.posting_key;
    posted = λ h b e. elim (Bool-cases (bytes_eq (to_bytes fk) b)) [
      | inl w ↦ here h b e ((bytes_eq_iff (to_bytes fk) b).0 w)
      | inr w ↦ there h b e (λ u. ground (arith, bytes_eq_iff (to_bytes fk) b))
    ];
  }
    where
      stale' : List Bytes
      stale' = push_stale db (then_some (names_frame (get fbh hash) fk) hash) stale

      Posted : Bytes → Bytes → Type 0
      Posted h b =
          (get (delete hbf (to_bytes fk)) b ≡ some h)
          ⊎ (In h stale' × (get (delete hbf (to_bytes fk)) b ≡ none))

      here : (h b : Bytes) → get fbh h ≡ some b → to_bytes fk ≡ b → Posted h b
      here h b e w = elim (a.posted h b e) [
        | inl r ↦
            let same : hash ≡ h = cc (row, r, w) in
            let post : get fbh hash ≡ some (to_bytes fk) = cc (e, same, w) in
            inr (
              rw (← same) (posted_hash fbh fk hash stale fits post),
              rw (← w) (delete_self db hbf (to_bytes fk)),
            )
        | inr (i, gone) ↦ cc (row, gone, w)
      ]

      there : (h b : Bytes) → get fbh h ≡ some b → to_bytes fk ≢ b → Posted h b
      there h b e n = elim (a.posted h b e) [
        | inl r ↦ inl (delete_other db hbf (to_bytes fk) b n ∙ r)
        | inr (i, gone) ↦
            inr (In-push_stale h _ stale i, delete_other db hbf (to_bytes fk) b n ∙ gone)
      ]

  Rows-delete :
      (hbf : Table) (p : PreparedIndexPuts) (ps : List PreparedIndexPuts)
      → Apart p ps
      → Rows hbf ps
      → Rows (delete hbf (to_bytes p.fk)) ps
  Rows-delete hbf p [] n r = tt
  Rows-delete hbf p (q ∷ ps) n r = (
    r.0,
    delete_other db hbf (to_bytes p.fk) (to_bytes q.fk) n.0 ∙ r.1,
    Rows-delete hbf p ps n.1 r.2,
  )

  pub Fresh-put :
      (hbf : Table) (p : PreparedIndexPuts) (ps : List PreparedIndexPuts)
      → Apart p ps
      → Fresh hbf ps
      → Fresh (put hbf (to_bytes p.fk) p.hash) ps
  Fresh-put hbf p [] n r = tt
  Fresh-put hbf p (q ∷ ps) n r = (
    r.0,
    put_other db hbf (to_bytes p.fk) p.hash (to_bytes q.fk) n.0 ∙ r.1,
    Fresh-put hbf p ps n.1 r.2,
  )

  -- Writing new frames, with distinct keys that have no row yet, keeps the hash tables in
  -- agreement.
  pub put_all-HashesAgree :
      (c : ConCorpus db) (ps : List PreparedIndexPuts)
      → HashesAgree c []
      → Fresh c.hash_by_frame ps
      → Distinct ps
      → HashesAgree (put_all db c ps) []
  unfolding put_all put_index_puts
  put_all-HashesAgree c [] a f d = a
  put_all-HashesAgree c (p ∷ ps) a f d =
      put_all-HashesAgree (put_index_puts db c p) ps
        (put-Agree db c.hash_by_frame c.frame_by_hash p.fk p.hash a f.0.0 f.0.1 f.1)
        (Fresh-put c.hash_by_frame p ps d.0 f.2) d.1

  delete_all-HashesAgree :
      (c : ConCorpus db) (ps : List PreparedIndexPuts) (stale : List Bytes)
      → HashesAgree c stale
      → Rows c.hash_by_frame ps
      → Distinct ps
      → HashesAgree (delete_all db c ps stale).0 (delete_all db c ps stale).1
  unfolding delete_all delete_index_puts
  delete_all-HashesAgree c [] stale a r d = a
  delete_all-HashesAgree c (p ∷ ps) stale a r d =
      delete_all-HashesAgree (delete_index_puts db c p).0 ps _
        (delete-Agree c.hash_by_frame c.frame_by_hash p.fk p.hash stale a r.0 r.1)
        (Rows-delete c.hash_by_frame p ps d.0 r.2) d.1

  repoint_all-Agree :
      (hbf fbh : Table) (stale : List Bytes)
      → Agree db hbf fbh stale
      → Agree db hbf (repoint_all db hbf fbh stale) []
  unfolding repoint_all
  repoint_all-Agree hbf fbh [] a = a
  repoint_all-Agree hbf fbh (digest ∷ stale) a =
      repoint_all-Agree hbf (repoint_one db hbf fbh digest) stale
        (repoint_one-Agree db hbf fbh digest stale a)

  -- A key of one of the frames.
  abbrev pub InKeys : Bytes → List PreparedIndexPuts → Type 0
  InKeys k [] = ⊥
  InKeys k (p ∷ ps) = (to_bytes p.fk ≡ k) ⊎ InKeys k ps

  -- Each new frame takes the place of an old one, or has a key that was not in use.
  abbrev pub Replaces : Table → List PreparedIndexPuts → List PreparedIndexPuts → Type 0
  Replaces hbf old_puts [] = Unit
  Replaces hbf old_puts (p ∷ ps) =
      IsPrepared p
      × ((get hbf (to_bytes p.fk) ≡ none) ⊎ InKeys (to_bytes p.fk) old_puts)
      × Replaces hbf old_puts ps

  delete_all_row :
      (c : ConCorpus db) (ps : List PreparedIndexPuts) (stale : List Bytes) (k : Bytes)
      → (get c.hash_by_frame k ≡ none) ⊎ InKeys k ps
      → get (delete_all db c ps stale).0.hash_by_frame k ≡ none
  unfolding delete_all delete_index_puts
  delete_all_row c [] stale k (inl e) = e
  delete_all_row c [] stale k (inr i) = absurd i
  delete_all_row c (p ∷ ps) stale k h = delete_all_row (delete_index_puts db c p).0 ps _ k (next h)
    where
      gone : to_bytes p.fk ≡ k → get (delete c.hash_by_frame (to_bytes p.fk)) k ≡ none
      gone w = rw (← w) (delete_self db c.hash_by_frame (to_bytes p.fk))

      next :
          (get c.hash_by_frame k ≡ none) ⊎ InKeys k (p ∷ ps)
          → (get (delete c.hash_by_frame (to_bytes p.fk)) k ≡ none) ⊎ InKeys k ps
      next (inr (inr i)) = inr i
      next (inr (inl w)) = inl (gone w)
      next (inl e) = elim (Bool-cases (bytes_eq (to_bytes p.fk) k)) [
        | inl w ↦ inl (gone ((bytes_eq_iff (to_bytes p.fk) k).0 w))
        | inr w ↦ inl (
            delete_other db c.hash_by_frame (to_bytes p.fk) k
              (λ u. ground (arith, bytes_eq_iff (to_bytes p.fk) k))
            ∙ e)
      ]

  Replaces-Fresh :
      (c : ConCorpus db) (old_puts ps : List PreparedIndexPuts)
      → Replaces c.hash_by_frame old_puts ps
      → Fresh (delete_all db c old_puts []).0.hash_by_frame ps
  Replaces-Fresh c old_puts [] r = tt
  Replaces-Fresh c old_puts (p ∷ ps) r =
      (r.0, delete_all_row c old_puts [] (to_bytes p.fk) r.1, Replaces-Fresh c old_puts ps r.2)

  -- The transaction of `set_trajectory_units` keeps the hash tables in agreement: when the old
  -- rows are there, and each new frame replaces an old one or is new, every hash of a frame is
  -- posted, and every posting names a frame with that hash.
  pub rewrite_frames-HashesAgree :
      (c : ConCorpus db) (old_puts prepared : List PreparedIndexPuts)
      → HashesAgree c []
      → Rows c.hash_by_frame old_puts
      → Distinct old_puts
      → Replaces c.hash_by_frame old_puts prepared
      → Distinct prepared
      → HashesAgree (rewrite_frames db c old_puts prepared) []
  unfolding rewrite_frames repoint_frame_by_hash
  rewrite_frames-HashesAgree c old_puts prepared a r d f d' =
      let (c', stale) = delete_all db c old_puts [] in
      put_all-HashesAgree (repoint_frame_by_hash db c' stale) prepared
        (repoint_all-Agree c'.hash_by_frame c'.frame_by_hash stale
          (delete_all-HashesAgree c old_puts [] a r d))
        (Replaces-Fresh c old_puts prepared f) d'
