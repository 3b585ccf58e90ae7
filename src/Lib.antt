-- ===== src/Lib.antt =====
-- The data generator of the star schema benchmark, modules/benchmetrics/files/ssb/ssb-gen/ssb-dbgen,
-- as its makefile builds it: WORKLOAD=SSBM, without SUPPORT_64BITS. In what follows, files are those of
-- that directory.
--
-- The program fills tables of a warehouse with random rows. Every column draws from a stream of its own,
-- a seed in the array Seed of rnd.h, which the generator of rnd.c steps. At the end of a row each stream
-- of the row's table is put on a boundary, so that a row uses a fixed number of steps whatever it drew.
-- This lets a parallel child jump over the rows of its siblings with a few multiplications, in
-- speed_seed.c, and go on as a serial run would. build.c turns the draws into rows, driver.c runs the
-- rows of a table and cuts a table into chunks.
--
-- The parts, by file:
--   Common: Boolean tests, lists, integers and remainders on the native numbers.
--   Rng: NextRand (rnd.c). Rng/Cycle is about its products, range and injectivity.
--   Skip: NthElement with RND_seed and RND_ModMult (speed_seed.c), for 64 and for 32 bits.
--   Double: the IEEE 754 doubles that UnifInt and main compute with, as a mantissa and an exponent; only
--     numbers that are not negative occur. Double/Error bounds the error of a rounding.
--   Seeds: the array Seed, UnifInt, dss_random, row_start and row_stop (rnd.c, rnd.h). A write to a
--     counter behind the end of the array is kept aside in the field stray. Seeds/Live is about streams
--     whose seeds all lie between 1 and 2^31 - 2, which is called live.
--   Advance: the sd_ functions (speed_seed.c).
--   Chunk: set_state (bm_utils.c), partial and the row counts of main (driver.c).
--   Text: C strings as lists of character codes, and the conversions %d and %0nd.
--   Calendar: julian, unjulian, mk_ascdate (bm_utils.c) and mk_time (build.c).
--   Bcd: the packed decimal numbers of bcd2.c.
--   Dist: distributions and the draws of strings (bm_utils.c). A generator is a function on the streams;
--     it is none where the source reads behind the end of an array.
--   DistFile: read_dist (bm_utils.c) over the text of dists.dss, and load_dists (driver.c). The target is
--     kept as it is filled, with the elements of its array that are not written; DistFile/Written has
--     the files that the theorems are about, and DistFile/Weights hands what is read to Dist.
--   Permute: permute and permute_dist (permute.c), agg_str (bm_utils.c).
--   Build: mk_cust, mk_supp, mk_part, mk_order, mk_date and their helpers (build.c).
--   Table: gen_tbl with the segments of an update (driver.c), for tables and the entries of zeros in tdefs. Table/Runs and Table/Agree are about a
--     table whose rows have one generator: that its loop runs, and that two runs agree.
--   Load: the customers of a parallel child against those of a serial run; it composes Build, Table,
--     Chunk and Seeds.
--   Print: dbg_print and the pr_ functions as the text that they write (print.c). Print/Split,
--     Print/Decimal and Print/Read read such a text.
--   Drange: pr_drange, the delete files of an update (print.c).
--   Verify: the checksums of the vrf_ functions (print.c).
--   Options: process_options (driver.c), with the ends that it comes to.
--   Main: the loops of main over tables and updates, as the lists of calls that they make (driver.c).
--   Pload: one call of pload as a step relation of the parent and its children (driver.c). Children that
--     an earlier call left behind show in its waits only.
--
-- The query generator fills templates of queries with random parameters:
--   Qgen/Strip: strip_comments (qgen.c), with its static in_comment as a part of the line.
--   Qgen/Varsub: varsub (varsub.c), with the table of Qgen/Defaults. Its draws by UnifInt do not count
--     the use of their stream; Qgen/Varsub/Returns has the rules for generators that make them.
--   Qgen/Qsub: qsub (qgen.c), built for DB2 as the makefile has it; what varsub prints is a function.
--   Qgen/Sequence: the seeds and the order of the queries in main (qgen.c), with the table of permute.h in
--     Qgen/Permutation.
--
-- Generators compose by the rules of Dist/Runs, for what one run returns and how many draws it makes, and
-- of Dist/Agree, for two runs from states that share some of their streams.
--
-- Numbers are the native numbers; where the source has a signed value that does occur negative (the
-- shift of row_stop, the table NONE) it is an integer. A long has 64 bits and an int 32. Where the source
-- leaves the ints, converts to one what it does not hold, divides by zero, or copies a priority or a ship
-- mode over the end of its field, DistFile, Qgen/Qsub, Drange, Main and Build/Orders stop with none or an
-- outcome of its own. The other definitions do not stop there; the theorems on them state the ranges of
-- their numbers, and Rng/Cycle proves that the products of NextRand stay inside theirs.
--
-- Fuel: julian runs one more round than the offset in days, the month loop 13 rounds, which are the
-- entries of its table, the loop for customers without orders 3 rounds, and the theorems on them say that
-- this is enough. strip_comments takes two rounds for each comment and has two for each character;
-- qsub has a round for each character of a line. The loops of queries 7 and 12, which draw until a second
-- name comes, run on fuel that the caller gives, and nothing is claimed of them. The halvings of NthElement run on the count itself. bcd2_mod is on fuel that its caller
-- gives.
--
-- Parameters: localtime, atoi, atof and malloc of the C library, the options as its getopt yields them, the value
-- of L_PKEY_MAX and the factor of the part table, which take floor and log of the C library, the text
-- that printf makes of Q11_FRACTION / flt_scale, the distributions and the text of dists.dss.
--
-- Not modelled: the names and the opening of files, messages, the split of delete files into segments,
-- the direct load (load_stub.c prints messages only), signals, the text of comments (text.c), which no
-- table of the star schema has, the rows of TPC-H, and the options of the query generator.
-- The rest of the repository is Puppet, shell and Python.
pub mod Common
pub mod Rng
pub mod Skip
pub mod Double
pub mod Seeds
pub mod Advance
pub mod Chunk
pub mod Load
pub mod Print
pub mod Drange
pub mod Verify
pub mod Options
pub mod Main
pub mod Pload
pub mod Text
pub mod Calendar
pub mod Bcd
pub mod Dist
pub mod DistFile
pub mod Qgen
pub mod Permute
pub mod Build
pub mod Table
