-- ===== src/Qgen.antt =====
-- qgen.c: the query generator, which fills the templates of the queries.
pub mod Strip
pub mod Defaults
pub mod Varsub
pub mod Qsub
pub mod Permutation
pub mod Sequence
