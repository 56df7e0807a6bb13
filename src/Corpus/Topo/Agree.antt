-- ===== src/Corpus/Topo/Agree.antt =====
-- The two tables of the topology agree, whatever src/corpus.rs writes to them.
use readcon_db.Base.{
  ◌-◌, ◌≡◌, ◌≢◌, refl, sym, ap, ◌∙◌, inl, inr, Option, none, some, List, [], ◌∷◌, ◌++◌, arith,
  length, take, All, if◌then◌else◌, length-append, take-append,
}
use mathlib.Core.Path.{subst}
use readcon_db.Heed.{Heed}
use readcon_db.Heed.Tables.{put_cases, put_self, put_other, delete_cases, delete_other}
use readcon_db.Keys.{FrameKey, to_bytes, topo_key}
use readcon_db.Keys.Layout.{
  IsFrameKey, to_bytes_injective, length-to_bytes, last_twelve, last_twelve-append,
}
use readcon_db.Base.Bytes.{Bytes, bytes_eq}
use readcon_db.Base.Utf8.{is_utf8}
use readcon_db.Error.{ok, utf8, guard, >>=-eq-ok, ok_eq}
use readcon_db.Corpus.Topo.{delete_old, put_topo_entry, put_topo_entries}

-- A topology key ends with the twelve bytes of its frame.
topo_key_injective :
    (h j : Bytes) (a b : FrameKey)
    → IsFrameKey a
    → IsFrameKey b
    → topo_key h a ≡ topo_key j b
    → (h ≡ j) × (a ≡ b)
unfolding topo_key
topo_key_injective h j a b ha hb e = (
  sym (init-append h)
      ∙ ap init (sym (front-append _ a) ∙ ap front e ∙ front-append _ b)
      ∙ init-append j,
  to_bytes_injective a b ha hb (
      sym (last_twelve-append (h ++ (0xff ∷ [])) a)
      ∙ ap last_twelve e
      ∙ last_twelve-append (j ++ (0xff ∷ [])) b),
)
  where
    front : Bytes → Bytes
    front k = take (length k - 12) k

    front-append : (f : Bytes) (x : FrameKey) → front (f ++ to_bytes x) ≡ f
    front-append f x =
        take-append f (to_bytes x) _
          (omega (arith, length-append f (to_bytes x), length-to_bytes x))

    init : Bytes → Bytes
    init k = take (length k - 1) k

    init-append : (f : Bytes) → init (f ++ (0xff ∷ [])) ≡ f
    init-append f = take-append f (0xff ∷ []) _ (omega (arith, length-append f (0xff ∷ [])))

-- What a key of `topo_by_frame` holds after the entries: the last of its own, or what it held.
unfoldable pub latest : List (FrameKey × Bytes) → Bytes → Option Bytes → Option Bytes
latest [] k old = old
latest ((fk, hex) ∷ pending) k old =
    latest pending k (if bytes_eq (to_bytes fk) k then some hex else old)

module _ (db : Heed) where
  open db use {Table, get, put, delete, get-put}

  -- `idx_topo` and `topo_by_frame` say the same.
  pub record TopoAgree (idx by : Table) : Type 0 where
    pub posted :
        (k v : Bytes)
        → get idx k ≡ some v
        → (fk : FrameKey) × (hex : Bytes) × IsFrameKey fk
          × (k ≡ topo_key hex fk)
          × (get by (to_bytes fk) ≡ some hex)
    pub known :
        (fk : FrameKey) (hex : Bytes)
        → IsFrameKey fk
        → get by (to_bytes fk) ≡ some hex
        → (v : Bytes) × (get idx (topo_key hex fk) ≡ some v)

  module _ (idx by : Table) (fk : FrameKey) (hex : Bytes) (fits : IsFrameKey fk)
      (a : TopoAgree idx by) where
    -- `rest` has the postings of `idx` that are not of `fk`.
    Removed : Table → Type 0
    Removed rest =
        ((k v : Bytes)
          → get rest k ≡ some v
          → (get idx k ≡ some v)
            × ((h : Bytes) → get by (to_bytes fk) ≡ some h → k ≢ topo_key h fk))
        × ((k v : Bytes)
            → get idx k ≡ some v
            → ((h : Bytes) → k ≢ topo_key h fk)
            → get rest k ≡ some v)

    delete_old-Removed :
        (o : Option Bytes) (rest : Table)
        → get by (to_bytes fk) ≡ o
        → delete_old db idx fk o ≡ ok rest
        → Removed rest
    unfolding delete_old Removed
    delete_old-Removed none rest at e =
        subst Removed (ok_eq e) (λ k v h. (h, λ j w. cc (at, w)), λ k v h n. h)
    delete_old-Removed (some old) rest at e =
        let (t, u, e1) = >>=-eq-ok (guard (is_utf8 old) utf8) _ e in
        subst Removed (ok_eq e1) (
          λ k v h.
              let (n, g) = delete_cases db idx (topo_key old fk) k v h in
              (g, λ j w q. n (ap (λ x. topo_key x fk) (some_eq old j (sym at ∙ w)) ∙ sym q)),
          λ k v h n. delete_other db idx (topo_key old fk) k (λ q. n old (sym q)) ∙ h,
        )
      where
        some_eq : (x y : Bytes) → some x ≡ some y → x ≡ y
        some_eq x y q = cc q

    moved-TopoAgree :
        (rest : Table)
        → Removed rest
        → TopoAgree (put rest (topo_key hex fk) []) (put by (to_bytes fk) hex)
    unfolding Removed
    moved-TopoAgree rest (gone, stays) = record {
      posted = λ k v e. elim (put_cases db rest (topo_key hex fk) [] k v e) [
        | inl (same, w) ↦ (fk, hex, fits, sym same, put_self db by (to_bytes fk) hex)
        | inr (n, old) ↦
            let (there, apart) = gone k v old in
            let (gk, h, fit, at, row) = a.posted k v there in
            let other : to_bytes fk ≢ to_bytes gk = λ q.
              apart h (ap (get by) q ∙ row)
                (at ∙ ap (topo_key h) (to_bytes_injective gk fk fit fits (sym q))) in
            (gk, h, fit, at, put_other db by (to_bytes fk) hex (to_bytes gk) other ∙ row)
      ];
      known = λ gk h fit e. elim (put_cases db by (to_bytes fk) hex (to_bytes gk) h e) [
        | inl (same, w) ↦ (
          [],
          ap (get (put rest (topo_key hex fk) [])) (
                ap (λ x. topo_key x gk) (sym w)
                ∙ ap (topo_key hex) (to_bytes_injective gk fk fit fits (sym same)))
              ∙ put_self db rest (topo_key hex fk) [],
        )
        | inr (n, old) ↦
            let (v, row) = a.known gk h fit old in
            let apart : (j : Bytes) → topo_key h gk ≢ topo_key j fk =
              λ j q. n (ap to_bytes (sym (topo_key_injective h j gk fk fit fits q).1)) in
            (
              v,
              put_other db rest (topo_key hex fk) [] (topo_key h gk) (λ q. apart hex (sym q))
                  ∙ stays (topo_key h gk) v row apart,
            )
      ];
    }

  -- Annotating frames keeps the two tables of the topology in agreement, and each frame has the
  -- last key that was given for it, or the key it had when none was given.
  pub put_topo_entries-TopoAgree :
      (idx by idx' by' : Table) (pending : List (FrameKey × Bytes))
      → TopoAgree idx by
      → All (λ p. IsFrameKey p.0) pending
      → put_topo_entries db idx by pending ≡ ok (idx', by')
      → TopoAgree idx' by' × ((k : Bytes) → get by' k ≡ latest pending k (get by k))
  unfolding put_topo_entries put_topo_entry latest
  put_topo_entries-TopoAgree idx by idx' by' [] a fits e =
      subst (λ (q : Table × Table). TopoAgree q.0 q.1 × ((k : Bytes) → get q.1 k ≡ get by k))
        (ok_eq e) (a, λ k. refl)
  put_topo_entries-TopoAgree idx by idx' by' ((fk, hex) ∷ pending) a fits e =
      let (next, q, e1) = >>=-eq-ok (put_topo_entry db idx by fk hex) _ e in
      let (rest, d, e2) = >>=-eq-ok (delete_old db idx fk (get by (to_bytes fk))) _ q in
      let moved =
        moved-TopoAgree idx by fk hex fits.0 a rest
          (delete_old-Removed idx by fk hex fits.0 a (get by (to_bytes fk)) rest refl d) in
      let row : (k : Bytes)
          → get next.1 k ≡ (if bytes_eq (to_bytes fk) k then some hex else get by k) =
        λ k.
          ap (λ (r : Table × Table). get r.1 k) (sym (ok_eq e2)) ∙ get-put by (to_bytes fk) hex k in
      let (agree, last) =
        put_topo_entries-TopoAgree next.0 next.1 idx' by' pending
          (subst (λ (r : Table × Table). TopoAgree r.0 r.1) (ok_eq e2) moved) fits.1 e1 in
      (agree, λ k. last k ∙ ap (latest pending k) (row k))
