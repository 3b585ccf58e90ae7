-- ===== src/Load.antt =====
-- A parallel load against a serial run of `main`: the rows that child s of driver.c's `pload` makes,
-- where the seeds of the table are those of a serial run that comes to the table.
pub mod Seeds
pub mod Customers
pub mod Children
pub mod Rows
mod Tests
