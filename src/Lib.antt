-- ===== src/Lib.antt =====
-- freqanalysis: frequency analysis against encrypted deduplication, and defenses.
--
-- The programs work on traces: text files with a title and one chunk on each line, a fingerprint of
-- six bytes in hexadecimal and a size. A counting program turns a trace into LevelDB stores, an
-- attack compares the stores of a known trace with those of an encrypted one, and a defense turns a
-- trace into an encrypted trace in the same format, with a ground truth for the evaluation.
--
-- Which file models what (paths from the repository's root):
--   Trace     the text of traces: `fgets`, `strtok`, `strtol`, `atoi` as far as the programs use them
--             (Text), the loop body that every `read_hashes` begins with (Read), and the `printf`
--             lines of the defenses (Print); RoundTrip reads what Print writes
--   Bytes     fingerprints and `memcmp` (Keys), eight-byte counters (Words), "%lu" (Decimal)
--   LevelDb   the calls of LevelDB: a record of operations, with the laws of a store without errors
--   PriorityQueue  std::priority_queue, a list with a function that takes the top
--   Attack    BasicCount: attack/basic/basic_count.cc; BasicAttack: attack/basic/basic_attack.cc;
--             LocalityCount and Neighbours: attack/locality/locality_count.cc;
--             Ranking, Inference, LocalityAttack: attack/locality/locality_attack.cc;
--             GroundTruthAttack: defense/minhash/locality_attack_e.cc; Pipeline: these programs one
--             after another, on the output of a defense too
--   Defense   Segment and Scrambling: defense/scrambling/scrambling.cc;
--             Hashing and MinHash: defense/minhash/k_minhash.cc; Combined:
--             defense/combined/combined.cc; Printable and Printed: a whole output read again
--   Prototype Bits and Container: prototype/container_manager.cc; FpIndex: prototype/fp_index.cc;
--             LruCache: prototype/lrucache.cc; BloomFilter: the functions that prototype/bloom.c adds
--             to libbloom; Deduplication: prototype/ddfs.cc, which puts them together, a second run
--             on the files that the first one left, and the count of unique chunks
--   Checks    the theorems at concrete inputs, with a store in memory and concrete queues
--   Common    shared names, Boolean tests, lists, weights that stand for multisets, and runs
-- The other copies of locality_count.cc, locality_attack.cc, locality_attack_e.cc and combined.cc
-- under defense/ and prototype/ have the same text as the one named here.
--
-- State and effects. The globals of a program are a record `State` that its functions take and
-- return; a run ends in a value, by `exit(1)`, in a failed `assert`, in undefined behaviour, or, for
-- a `while` loop that the model gives fuel, out of fuel (Common/Runs). What is printed is a list of
-- characters. A status of LevelDB other than `ok` and `IsNotFound` is the case `failed` of `Got`.
-- Machine integers are natural numbers with their wrap-around written out, but for the counters of
-- an inference (`total`, `common`, `leak`, `correct`, `involve`), `uint64_t` that count distinct
-- keys of six bytes or steps on them and cannot reach 2 ^ 64; `Correct` of the basic attack is the length
-- of its answers, which it equals in every run. Bytes are below 256 and a stored counter is eight of
-- them, low byte first. The stores of an attack have keys of six bytes and counters of eight, as the
-- counting programs write them; where a program would read behind a shorter value, the attacks and the
-- frequency counters of the model read zeros, and `first_bytes`, `read_key`, `container_line`,
-- `bloom_init_conf`, `find_record` and `update_record` are undefined. In locality_count.cc the
-- position in a value is an `int`: the model keeps its bit pattern, and a read at a negative position
-- and an overflow of `pos+FP_SIZE` are undefined.
-- `assign(last)` there reads on behind an array without a zero byte: that is undefined, except with
-- the parameter `behind`, the bytes that stand there, which do not change the result.
--
-- The files of the prototype are a function from paths to contents, and `fopen` for writing
-- succeeds; the linked list and the hash chains of its cache are lists of nodes with addresses.
--
-- Fuel. `drain` and `drain_pairs` get the size of a queue, the search of a record the length of the
-- value, `buffers` the length of the file; each round takes an item. Only the main loop of the
-- inference has fuel as an argument: a round takes one pair from the inferred set and a ciphertext
-- enters it at most once, so the fingerprints that the neighbour stores name (the universe), `INIT`
-- and the ciphertexts that leaked are enough, and a theorem says so.
--
-- What is a parameter. LevelDB (util/leveldb is a copy of another project), MD5 (OpenSSL), `rand`
-- as the stream of its results, the choice of the top among equal items of a priority queue, the
-- Bloom filter (libbloom), and `LEAK_RATE`, a double of which the programs use only whether it is 0
-- and whether a draw is below it. The laws of stores without errors and of priority queues
-- (`IsSound`, `IsListed` for an iterator, `IsPriorityQueue`), the length of a digest (`IsDigest`) and
-- the equal size of all Bloom filters (`IsFilter`) that have no false negatives (`IsBloom`) are
-- hypotheses where a theorem needs them. `atoi` and `strtol` are modelled with their saturation.
--
-- Not modelled: the printed percentages (floating-point numbers) and the labels around the printed
-- numbers of the attacks, opening and closing of files and stores beyond whether it succeeds, the
-- destructor and the unused members of the cache, the scripts and makefiles, and the copies of other
-- projects (util/leveldb, util/fs-hasher, and MurmurHash2.c, murmurhash2.h and libbloom in
-- prototype/).
pub mod Common
pub mod Bytes
pub mod Trace
pub mod LevelDb
pub mod PriorityQueue
pub mod Defense
pub mod Attack
pub mod Prototype
mod Checks
