-- ===== src/Corpus/HashIndex.antt =====
-- The two hash tables agree: `frame_by_hash` names, for each hash that a frame has, a frame that
-- has it.
use readcon_db.Base.{◌≡◌, refl, ◌∙◌, ◌⊎◌, inl, inr, Option, none, some, List, [], length}
use readcon_db.Base.Bytes.{Bytes}
use mathlib.Core.Path.{subst}
use readcon_db.Heed.{Heed, In}
use readcon_db.Heed.Tables.{put_cases, put_self, put_other}
use readcon_db.Keys.{FrameKey, to_bytes, from_bytes}
use readcon_db.Keys.Layout.{IsFrameKey, from_bytes-to_bytes}
use readcon_db.Corpus.{post_hash}

-- A byte string that is a frame key.
pub record IsKey (b : Bytes) : Type 0 where
  pub fk : FrameKey
  pub fits : IsFrameKey fk
  pub at : b ≡ to_bytes fk

pub IsKey-from_bytes : (b : Bytes) (k : IsKey b) → from_bytes b ≡ some k.fk
IsKey-from_bytes b k = rw k.at (from_bytes-to_bytes k.fk k.fits)

pub to_bytes-IsKey : (fk : FrameKey) → IsFrameKey fk → IsKey (to_bytes fk)
to_bytes-IsKey fk h = record { fk = fk; fits = h; at = refl }

module _ (db : Heed) where
  open db use {Table, get, put, delete, iter, get-put, get-delete, in-iter, get-in}

  -- `hbf` is `hash_by_frame` and `fbh` is `frame_by_hash`. A posting may name a frame that is
  -- gone only while its hash is in `stale`.
  pub record Agree (hbf fbh : Table) (stale : List Bytes) : Type 0 where
    pub row_key : (k h : Bytes) → get hbf k ≡ some h → IsKey k
    pub row_hash : (k h : Bytes) → get hbf k ≡ some h → length h ≡ 16
    pub known : (k h : Bytes) → get hbf k ≡ some h → (b : Bytes) × (get fbh h ≡ some b)
    pub posting_key : (h b : Bytes) → get fbh h ≡ some b → IsKey b
    pub posted :
        (h b : Bytes)
        → get fbh h ≡ some b
        → (get hbf b ≡ some h) ⊎ (In h stale × (get hbf b ≡ none))

  post_hash_cases :
      (fbh : Table) (hash b : Bytes)
      → ((get fbh hash ≡ none) × (post_hash db fbh hash b ≡ put fbh hash b))
        ⊎ (o : Bytes) × (get fbh hash ≡ some o) × (post_hash db fbh hash b ≡ fbh)
  unfolding post_hash
  post_hash_cases fbh hash b = go (get fbh hash) refl
    where
      go :
          (o : Option Bytes)
          → get fbh hash ≡ o
          → ((get fbh hash ≡ none) × (post_hash db fbh hash b ≡ put fbh hash b))
            ⊎ (o : Bytes) × (get fbh hash ≡ some o) × (post_hash db fbh hash b ≡ fbh)
      go none e = inl (e, rw (e, post_hash) refl)
      go (some o) e = inr (o, e, rw (e, post_hash) refl)

  -- The rows of `hash_by_frame` once a fresh frame has its row.
  module _ (hbf fbh : Table) (fk : FrameKey) (hash : Bytes) (a : Agree hbf fbh [])
      (fits : IsFrameKey fk) (h16 : length hash ≡ 16) (fresh : get hbf (to_bytes fk) ≡ none) where
    put_row-IsKey : (k h : Bytes) → get (put hbf (to_bytes fk) hash) k ≡ some h → IsKey k
    put_row-IsKey k h e = elim (put_cases db hbf (to_bytes fk) hash k h e) [
      | inl (w, v) ↦ subst IsKey w (to_bytes-IsKey fk fits)
      | inr (n, old) ↦ a.row_key k h old
    ]

    put_row_hash : (k h : Bytes) → get (put hbf (to_bytes fk) hash) k ≡ some h → length h ≡ 16
    put_row_hash k h e = elim (put_cases db hbf (to_bytes fk) hash k h e) [
      | inl (w, v) ↦ rw (← v) h16
      | inr (n, old) ↦ a.row_hash k h old
    ]

    -- A posting that was there names a frame that was there.
    old_posted : (h b : Bytes) → get fbh h ≡ some b → get (put hbf (to_bytes fk) hash) b ≡ some h
    old_posted h b e = elim (a.posted h b e) [
      | inr (i, gone) ↦ absurd i
      | inl row ↦ put_other db hbf (to_bytes fk) hash b (λ w. cc (fresh, row, w)) ∙ row
    ]

    put_old-Agree : (o : Bytes) → get fbh hash ≡ some o → Agree (put hbf (to_bytes fk) hash) fbh []
    put_old-Agree o e = record {
      row_key = put_row-IsKey;
      row_hash = put_row_hash;
      known = λ k h r. elim (put_cases db hbf (to_bytes fk) hash k h r) [
        | inl (w, v) ↦ (o, rw (← v) e)
        | inr (n, old) ↦ a.known k h old
      ];
      posting_key = a.posting_key;
      posted = λ h b r. inl (old_posted h b r);
    }

    put_new-Agree :
        get fbh hash ≡ none → Agree (put hbf (to_bytes fk) hash) (put fbh hash (to_bytes fk)) []
    put_new-Agree e = record {
      row_key = put_row-IsKey;
      row_hash = put_row_hash;
      known = λ k h r. elim (put_cases db hbf (to_bytes fk) hash k h r) [
        | inl (w, v) ↦ (to_bytes fk, rw (← v) (put_self db fbh hash (to_bytes fk)))
        | inr (n, old) ↦
            let (b, q) = a.known k h old in
            (b, put_other db fbh hash (to_bytes fk) h (λ w. cc (e, q, w)) ∙ q)
      ];
      posting_key = λ h b r. elim (put_cases db fbh hash (to_bytes fk) h b r) [
        | inl (w, v) ↦ subst IsKey v (to_bytes-IsKey fk fits)
        | inr (n, old) ↦ a.posting_key h b old
      ];
      posted = λ h b r. elim (put_cases db fbh hash (to_bytes fk) h b r) [
        | inl (w, v) ↦ inl (rw (← v, ← w) (put_self db hbf (to_bytes fk) hash))
        | inr (n, old) ↦ inl (old_posted h b old)
      ];
    }

    pub put-Agree : Agree (put hbf (to_bytes fk) hash) (post_hash db fbh hash (to_bytes fk)) []
    put-Agree = elim (post_hash_cases fbh hash (to_bytes fk)) [
      | inl (e, w) ↦ rw w (put_new-Agree e)
      | inr (o, e, w) ↦ rw w (put_old-Agree o e)
    ]
