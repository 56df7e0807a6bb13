-- ===== src/Corpus/Repoint.antt =====
-- Deletes leave postings behind, and `repoint_frame_by_hash` mends them.
use readcon_db.Base.{
  ◌≡◌, ◌≢◌, refl, sym, ap, ◌∙◌, ◌⊎◌, inl, inr, true, false, ◌&&◌, Option, none, some, List, [], ◌∷◌,
  ◌==◌, arith, Bool-cases, &&_split, length,
}
use readcon_db.Base.Bytes.{Bytes, bytes_eq, bytes_eq_iff}
use mathlib.Core.Path.{subst}
use readcon_db.Heed.{Heed, Entry, In}
use readcon_db.Heed.Tables.{put_cases, put_self, put_other, delete_cases, delete_other}
use readcon_db.Keys.{FrameKey, to_bytes, from_bytes}
use readcon_db.Corpus.{survivor, repoint_one}
use readcon_db.Corpus.HashIndex.{IsKey, IsKey-from_bytes, Agree}

module _ (db : Heed) where
  open db use {Table, get, put, delete, iter, in-iter, get-in}

  survivor_sound :
      (rows : List Entry) (digest : Bytes) (fk : FrameKey)
      → survivor db rows digest ≡ some fk
      → (key : Bytes) × (from_bytes key ≡ some fk) × In (key, digest) rows
  unfolding survivor
  survivor_sound [] digest fk e = absurd (ground arith)
  survivor_sound ((key, hash) ∷ rows) digest fk e =
      go (Bool-cases (length hash == 16 && bytes_eq hash digest)) (from_bytes key) refl
        (λ q. survivor_sound rows digest fk q)
    where
      rest :
          (key' : Bytes) × (from_bytes key' ≡ some fk) × In (key', digest) rows
          → (key' : Bytes) × (from_bytes key' ≡ some fk) × In (key', digest) ((key, hash) ∷ rows)
      rest (k, f, i) = (k, f, inr i)

      go :
          (length hash == 16 && bytes_eq hash digest ≡ true)
            ⊎ (length hash == 16 && bytes_eq hash digest ≡ false)
          → (o : Option FrameKey) → from_bytes key ≡ o
          → (survivor db rows digest ≡ some fk
              → (key' : Bytes) × (from_bytes key' ≡ some fk) × In (key', digest) rows)
          → (key' : Bytes) × (from_bytes key' ≡ some fk) × In (key', digest) ((key, hash) ∷ rows)
      go (inr t) o f ih = rest (ih (rw t at e))
      go (inl t) none f ih = rest (ih (rw (t, f) at e))
      go (inl t) (some fk') f ih =
          let same =
            (bytes_eq_iff hash digest).0
              (&&_split (length hash == 16) (bytes_eq hash digest) t).1 in
          let w : some fk' ≡ some fk = rw (t, f) at e in (key, f ∙ w, inl (rw same refl))

  survivor_complete :
      (rows : List Entry) (digest key : Bytes)
      → length digest ≡ 16
      → IsKey key
      → In (key, digest) rows
      → survivor db rows digest ≢ none
  unfolding survivor
  survivor_complete [] digest key h k i = absurd i
  survivor_complete ((key', hash) ∷ rows) digest key h k (inl w) =
      let hk : key ≡ key' = ap (λ (e : Entry). e.0) w in
      let hd : digest ≡ hash = ap (λ (e : Entry). e.1) w in
      let f : from_bytes key' ≡ some k.fk = rw (← hk) (IsKey-from_bytes key k) in
      let q : bytes_eq hash digest ≡ true = (bytes_eq_iff hash digest).1 (sym hd) in
      λ e. ground (arith, f, q, ap length hd)
  survivor_complete ((key', hash) ∷ rows) digest key h k (inr i) =
      let ih = survivor_complete rows digest key h k i in λ e. ground (arith, ih)

  module _ (hbf fbh : Table) (digest : Bytes) (stale : List Bytes)
      (a : Agree db hbf fbh (digest ∷ stale)) where
    -- What `repoint_one` does: nothing where the posting is sound, else a put or a delete.
    abbrev Cases : Type 0
    Cases =
        ((repoint_one db hbf fbh digest ≡ fbh)
          × ((b : Bytes) → get fbh digest ≡ some b → (r : Bytes) × (get hbf b ≡ some r)))
        ⊎ ((other : FrameKey) × (survivor db (iter hbf) digest ≡ some other)
            × (repoint_one db hbf fbh digest ≡ put fbh digest (to_bytes other)))
        ⊎ ((survivor db (iter hbf) digest ≡ none)
            × (repoint_one db hbf fbh digest ≡ delete fbh digest))

    repoint_one_cases : Cases
    unfolding repoint_one
    repoint_one_cases = go (get fbh digest) refl
      where
        gone :
            (b : Bytes)
            → get fbh digest ≡ some b
            → (k : IsKey b) → get hbf (to_bytes k.fk) ≡ none
            → (o : Option FrameKey) → survivor db (iter hbf) digest ≡ o
            → Cases
        gone b e k r none q = inr (inr (q, ground (arith, IsKey-from_bytes b k)))
        gone b e k r (some other) q = inr (inl (other, q, ground (arith, IsKey-from_bytes b k)))

        row :
            (b : Bytes)
            → get fbh digest ≡ some b
            → (k : IsKey b) → (o : Option Bytes) → get hbf (to_bytes k.fk) ≡ o
            → Cases
        row b e k none q = gone b e k q (survivor db (iter hbf) digest) refl
        row b e k (some r) q = inl (
          ground (arith, IsKey-from_bytes b k),
          λ c w. let same : b ≡ c = cc (e, w) in (r, rw (← same, k.at) q),
        )

        go : (o : Option Bytes) → get fbh digest ≡ o → Cases
        go none e = inl (ground arith, λ b w. cc (e, w))
        go (some b) e = row b e (a.posting_key digest b e) _ refl

    keep :
        (h b : Bytes)
        → h ≢ digest
        → get fbh h ≡ some b
        → (get hbf b ≡ some h) ⊎ (In h stale × (get hbf b ≡ none))
    keep h b n e = elim (a.posted h b e) [
      | inl r ↦ inl r
      | inr (inl w, gone) ↦ absurd (n w)
      | inr (inr i, gone) ↦ inr (i, gone)
    ]

    sound-Agree :
        ((b : Bytes) → get fbh digest ≡ some b → (r : Bytes) × (get hbf b ≡ some r))
        → Agree db hbf fbh stale
    sound-Agree there = record {
      row_key = a.row_key;
      row_hash = a.row_hash;
      known = a.known;
      posting_key = a.posting_key;
      posted = λ h b e. elim (a.posted h b e) [
        | inl r ↦ inl r
        | inr (inl w, gone) ↦ let (r, q) = there b (rw (← w) e) in cc (gone, q)
        | inr (inr i, gone) ↦ inr (i, gone)
      ];
    }

    moved-Agree :
        (other : FrameKey)
        → survivor db (iter hbf) digest ≡ some other
        → Agree db hbf (put fbh digest (to_bytes other)) stale
    moved-Agree other q =
        let (key, f, i) = survivor_sound (iter hbf) digest other q in
        let row : get hbf key ≡ some digest = get-in hbf key digest i in
        let k = a.row_key key digest row in
        let fk : some k.fk ≡ some other = sym (IsKey-from_bytes key k) ∙ f in
        let at : key ≡ to_bytes other = k.at ∙ ap to_bytes (cc fk) in
        record {
          row_key = a.row_key;
          row_hash = a.row_hash;
          known = λ r h e. elim (Bool-cases (bytes_eq digest h)) [
            | inl w ↦ (
              to_bytes other,
              rw (← (bytes_eq_iff digest h).0 w) (put_self db fbh digest (to_bytes other)),
            )
            | inr w ↦
                let (b, e') = a.known r h e in
                (
                  b,
                  put_other db fbh digest (to_bytes other) h
                        (λ u. ground (arith, bytes_eq_iff digest h))
                      ∙ e',
                )
          ];
          posting_key = λ h b e. elim (put_cases db fbh digest (to_bytes other) h b e) [
            | inl (w, v) ↦ subst IsKey (at ∙ v) k
            | inr (n, old) ↦ a.posting_key h b old
          ];
          posted = λ h b e. elim (put_cases db fbh digest (to_bytes other) h b e) [
            | inl (w, v) ↦ inl (rw (← v, ← w, ← at) row)
            | inr (n, old) ↦ keep h b (λ u. n (sym u)) old
          ];
        }

    dropped-Agree : survivor db (iter hbf) digest ≡ none → Agree db hbf (delete fbh digest) stale
    dropped-Agree q = record {
      row_key = a.row_key;
      row_hash = a.row_hash;
      known = λ r h e.
          let n : digest ≢ h = λ w.
            survivor_complete (iter hbf) digest r (rw w (a.row_hash r h e)) (a.row_key r h e)
              (in-iter hbf r digest (rw w e)) q in
          let (b, e') = a.known r h e in (b, delete_other db fbh digest h n ∙ e');
      posting_key = λ h b e. a.posting_key h b (delete_cases db fbh digest h b e).1;
      posted =
          λ h b e. let (n, old) = delete_cases db fbh digest h b e in keep h b (λ u. n (sym u)) old;
    }

    -- One posting is mended.
    pub repoint_one-Agree : Agree db hbf (repoint_one db hbf fbh digest) stale
    repoint_one-Agree = elim repoint_one_cases [
      | inl (w, there) ↦ rw w (sound-Agree there)
      | inr (inl (other, q, w)) ↦ rw w (moved-Agree other q)
      | inr (inr (q, w)) ↦ rw w (dropped-Agree q)
    ]
