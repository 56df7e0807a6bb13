-- ===== src/Lib.antt =====
-- readcon-db stores CON trajectories, the texts of atomic configurations, in LMDB tables with
-- secondary indexes. This library models its core in Rust and proves what makes it correct.
--
-- The parts and how they interact:
--   * Keys (src/keys.rs): the byte layouts of frame keys and index keys, written so that the byte
--     order of LMDB is the order that the scans need. Keys/Float has `f64` as its bit pattern.
--   * Codec (src/frame_codec.rs): the values of the table `frames`. A text is stored as it is or
--     compressed; an aligned run of frames may share one compressed value, to which the others
--     redirect. `store_frame`, `load_frame`, `pack_aligned`, `decode_frame` keep their names.
--   * Cooked (src/cooked_soa.rs): RCSO payloads of numbers, and the RCSB envelope of many payloads.
--   * Corpus (src/corpus.rs): the tables as a record, and the writes of a transaction. A frame's
--     rows are put and deleted together (`put_index_puts`, `delete_index_puts`); two tables map
--     hashes to frames and back, and `repoint_frame_by_hash` mends them. Corpus/Build derives the
--     rows (`build_index_puts`), Corpus/Ingest has `group_prepared` between the codec and the puts,
--     Corpus/Read the reads, Corpus/MapSize the transaction that grows the LMDB map and starts over
--     (`with_write`), Corpus/Chunks the chunks of a parallel ingest. Corpus/Commit has the metadata of
--     a trajectory and the transactions that append to it (`commit_prepared`,
--     `extend_trajectory_frames`, `IngestSession`); Corpus/Commit/Steps has the first
--     two of them as steps of the corpus;
--     Corpus/EncodedKeys the keys that ranks send each other (`encode_frame_keys`, `put_encoded`),
--     Corpus/Dump `canonical_dump`, and Corpus/Repack the rewriting of a trajectory's values in the
--     current codec (`repack_traj`). Corpus/Reindex has `reindex`, which makes the indexes from the
--     frames anew, and Corpus/Topo the topology keys of frames (`put_topo_entry`);
--     Corpus/Annotate is `annotate_topology`, with the engine's answers as a parameter.
--   * Shard (src/shard.rs): a corpus of several environments. Trajectories are routed to shards, a
--     selection asks each shard and merges the answers, `drain_to` copies shards and rolls back.
--     Shard/Join has `join_to_single_env` with the preview that looks for a trajectory of two shards;
--     `append_trajectory_str`, which parses the texts, is its parameter.
--   * Select (src/select.rs), Scan and Query (src/corpus.rs, `select`): a selection is a record of
--     conditions; each condition scans an index, and the answer is the intersection of the sets.
--     Query/Spec says what a selection asks, row by row, and Query/Answer that the code answers it.
--   * Wire (src/mpi_wire.rs, and of src/mpi_ingest.rs the blocks, the batches and the records): the
--     messages of a parallel ingest.
--   * MpiIngest (src/mpi_ingest.rs): the rows that a writing rank holds until their aligned group is
--     complete (`Held`, `pack_held`, `drain_ready`), for the buffer of one environment.
--   * Topology (src/topology.rs): the parameters of a topology and the normal form of its key.
--   * Error (src/error.rs): errors as values of a result type; the texts are the fixed parts.
--   * Base: numbers, lists, bytes, UTF-8 and the order of byte strings. A byte string is a list of
--     ℕ, a machine integer is a ℕ with its width written out, and `usize` has 64 bits.
--   * Examples: concrete tables and a concrete coder, and runs of the theorems on them.
--
-- What stands outside the repository is a parameter: zstd (Zstd.antt, with the law that a frame
-- decompresses to what was compressed), LMDB (Heed.antt, an ordered table inside one transaction),
-- xxh3-128 (a function), serde_json on the metadata of a trajectory (`Json`), the answers of the
-- file system to a drain (`Os`), what a resize of the LMDB map and the steps of a
-- transaction answer, and the scalars of a frame (`FrameIndexProjection`, of readcon-core). An error of LMDB aborts the whole transaction: Corpus/MapSize alone has it.
--
-- Loops are structural where the code walks a list. Those with fuel are given enough: the outer
-- loop of `pack_aligned` takes a frame each round and has the number of frames; `decode_group`
-- takes four bytes each round and has the length of its payload; the MPI loop takes a frame each
-- round, and a batch is cut 64 times at most; `drain_ready` takes a row each round and has the length
-- of the buffer; `with_write` makes the eight attempts of the code.
--
-- Not modelled: the bindings (src/ffi.rs, src/python.rs), the command line, archives, exports, the
-- text of the metadata's JSON, the splitting of a corpus into shards, units (src/units_canon.rs), the
-- MPI collectives, and the external topology engine: they are input and output, glue, or
-- floating-point arithmetic of another crate.
pub mod Base
pub mod Error
pub mod Zstd
pub mod Heed
pub mod Keys
pub mod Codec
pub mod Cooked
pub mod Wire
pub mod Select
pub mod Corpus
pub mod Topology
pub mod Scan
pub mod Shard
pub mod MpiIngest
pub mod Query
pub mod Examples
