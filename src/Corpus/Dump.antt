-- ===== src/Corpus/Dump.antt =====
-- src/corpus.rs `canonical_dump`: the bytes whose digest compares two corpora.
pub mod Injective
use readcon_db.Base.{
  ℕ, zero, suc, ◌+◌, ◌-◌, ◌*◌, ◌/◌, ◌%◌, ◌^◌, ◌<◌, ◌≤◌, ◌≡◌, ◌≢◌, refl, sym, ap, ◌∙◌, ◌↔◌, ◌⊎◌, inl,
  inr, Bool, true, false, not, ◌&&◌, ◌||◌, Option, none, some, List, [], ◌∷◌, ◌++◌, map, ltb, leb,
  ◌==◌, if◌then◌else◌, arith, Bool-cases, &&_split, lt→ltb, ltb→lt, leb→le, ==_iff, length, take,
  drop, slice, get_elem?, All, All-append, length-append, take-append, drop-append, take_all,
  length-take, length-drop, take-drop, get_elem?-append, slice-append, slice-append_end, usize_max,
  saturating_add, saturating_mul, min, max,
}
use mathlib.Core.List.{append-nil, append_assoc}
use readcon_db.Base.Bytes.{
  Bytes, IsByte, IsU32, IsU64, to_le_bytes, from_le_bytes, to_be_bytes, from_be_bytes,
  length-to_le_bytes, from_le_bytes-to_le_bytes, length-to_be_bytes, from_be_bytes-to_be_bytes,
  to_be_bytes-IsByte, starts_with, starts_with-append, bytes_eq, bytes_eq_iff,
}
use readcon_db.Base.Utf8.{is_utf8, is_utf8-IsTextByte, IsTextByte}
use readcon_db.Base.Order.{bytes_ltb, bytes_ltb-to_be_bytes}
use readcon_db.Error.{
  Error, Result, ok, err, message, parse, missing_frame, traj_exists, heed, io, utf8, json, nul,
  ◌>>=◌, ◌>>◌, guard, ok_or, >>=-eq-ok, ok_eq,
}
use readcon_db.Heed.{Heed, Entry}
use readcon_db.Corpus.{ConCorpus}

abbrev pub Name : Type 0
Name = Bytes

-- The names of the tables.
abbrev pub n_frames : Name
n_frames = b'f' ∷ b'r' ∷ b'a' ∷ b'm' ∷ b'e' ∷ b's' ∷ []

abbrev pub n_traj_meta : Name
n_traj_meta = b't' ∷ b'r' ∷ b'a' ∷ b'j' ∷ b'_' ∷ b'm' ∷ b'e' ∷ b't' ∷ b'a' ∷ []

abbrev pub n_idx_natoms : Name
n_idx_natoms = b'i' ∷ b'd' ∷ b'x' ∷ b'_' ∷ b'n' ∷ b'a' ∷ b't' ∷ b'o' ∷ b'm' ∷ b's' ∷ []

abbrev pub n_idx_symbol : Name
n_idx_symbol = b'i' ∷ b'd' ∷ b'x' ∷ b'_' ∷ b's' ∷ b'y' ∷ b'm' ∷ b'b' ∷ b'o' ∷ b'l' ∷ []

abbrev pub n_idx_energy : Name
n_idx_energy = b'i' ∷ b'd' ∷ b'x' ∷ b'_' ∷ b'e' ∷ b'n' ∷ b'e' ∷ b'r' ∷ b'g' ∷ b'y' ∷ []

abbrev pub n_idx_flags : Name
n_idx_flags = b'i' ∷ b'd' ∷ b'x' ∷ b'_' ∷ b'f' ∷ b'l' ∷ b'a' ∷ b'g' ∷ b's' ∷ []

abbrev pub n_idx_elem_count : Name
n_idx_elem_count =
    b'i' ∷ b'd' ∷ b'x' ∷ b'_' ∷ b'e' ∷ b'l' ∷ b'e' ∷ b'm' ∷ b'_' ∷ b'c' ∷ b'o' ∷ b'u' ∷ b'n' ∷ b't'
    ∷ []

abbrev pub n_idx_formula : Name
n_idx_formula = b'i' ∷ b'd' ∷ b'x' ∷ b'_' ∷ b'f' ∷ b'o' ∷ b'r' ∷ b'm' ∷ b'u' ∷ b'l' ∷ b'a' ∷ []

abbrev pub n_idx_fmax : Name
n_idx_fmax = b'i' ∷ b'd' ∷ b'x' ∷ b'_' ∷ b'f' ∷ b'm' ∷ b'a' ∷ b'x' ∷ []

abbrev pub n_idx_mass : Name
n_idx_mass = b'i' ∷ b'd' ∷ b'x' ∷ b'_' ∷ b'm' ∷ b'a' ∷ b's' ∷ b's' ∷ []

abbrev pub n_idx_volume : Name
n_idx_volume = b'i' ∷ b'd' ∷ b'x' ∷ b'_' ∷ b'v' ∷ b'o' ∷ b'l' ∷ b'u' ∷ b'm' ∷ b'e' ∷ []

abbrev pub n_idx_pbc : Name
n_idx_pbc = b'i' ∷ b'd' ∷ b'x' ∷ b'_' ∷ b'p' ∷ b'b' ∷ b'c' ∷ []

abbrev pub n_idx_meta : Name
n_idx_meta = b'i' ∷ b'd' ∷ b'x' ∷ b'_' ∷ b'm' ∷ b'e' ∷ b't' ∷ b'a' ∷ []

abbrev pub n_frame_by_hash : Name
n_frame_by_hash =
    b'f' ∷ b'r' ∷ b'a' ∷ b'm' ∷ b'e' ∷ b'_' ∷ b'b' ∷ b'y' ∷ b'_' ∷ b'h' ∷ b'a' ∷ b's' ∷ b'h' ∷ []

abbrev pub n_hash_by_frame : Name
n_hash_by_frame =
    b'h' ∷ b'a' ∷ b's' ∷ b'h' ∷ b'_' ∷ b'b' ∷ b'y' ∷ b'_' ∷ b'f' ∷ b'r' ∷ b'a' ∷ b'm' ∷ b'e' ∷ []

abbrev pub n_frames_soa : Name
n_frames_soa = b'f' ∷ b'r' ∷ b'a' ∷ b'm' ∷ b'e' ∷ b's' ∷ b'_' ∷ b's' ∷ b'o' ∷ b'a' ∷ []

abbrev pub n_idx_topo : Name
n_idx_topo = b'i' ∷ b'd' ∷ b'x' ∷ b'_' ∷ b't' ∷ b'o' ∷ b'p' ∷ b'o' ∷ []

abbrev pub n_topo_by_frame : Name
n_topo_by_frame =
    b't' ∷ b'o' ∷ b'p' ∷ b'o' ∷ b'_' ∷ b'b' ∷ b'y' ∷ b'_' ∷ b'f' ∷ b'r' ∷ b'a' ∷ b'm' ∷ b'e' ∷ []

-- A table under its name, as its rows in key order.
abbrev pub Named : Type 0
Named = Name × List Entry

unfoldable pub dump_part : Bytes → Bytes
dump_part part = to_le_bytes 8 (length part) ++ part

unfoldable pub dump_rows : List Entry → Bytes
dump_rows [] = []
dump_rows ((k, v) ∷ rows) = dump_part k ++ (dump_part v ++ dump_rows rows)

unfoldable pub dump_tables : List Named → Bytes
dump_tables [] = []
dump_tables ((name, rows) ∷ tables) = dump_part name ++ (dump_rows rows ++ dump_tables tables)

module _ (db : Heed) where
  open db use {Table, iter}

  -- `if let Some(d) = table { tables.push((name, d)) }`
  unfoldable pub push_table : Name → Option Table → List Named
  push_table name none = []
  push_table name (some t) = (name, iter t) ∷ []

  unfoldable pub tables : ConCorpus db → List Named
  tables c =
      (n_frames, iter c.frames)
      ∷ (n_traj_meta, iter c.traj_meta)
      ∷ (n_idx_natoms, iter c.idx_natoms)
      ∷ (n_idx_symbol, iter c.idx_symbol)
      ∷ (n_idx_energy, iter c.idx_energy)
      ∷ (n_idx_flags, iter c.idx_flags)
      ∷ (n_idx_elem_count, iter c.idx_elem_count)
      ∷ (n_idx_formula, iter c.idx_formula)
      ∷ (n_idx_fmax, iter c.idx_fmax)
      ∷ (n_idx_mass, iter c.idx_mass)
      ∷ (n_idx_volume, iter c.idx_volume)
      ∷ (n_idx_pbc, iter c.idx_pbc)
      ∷ (n_idx_meta, iter c.idx_meta)
      ∷ (n_frame_by_hash, iter c.frame_by_hash)
      ∷ (n_hash_by_frame, iter c.hash_by_frame)
      ∷ (n_frames_soa, iter c.frames_soa)
      ∷ (push_table n_idx_topo c.idx_topo ++ push_table n_topo_by_frame c.topo_by_frame)

  unfoldable pub canonical_dump : ConCorpus db → Bytes
  canonical_dump c = dump_tables (tables c)
