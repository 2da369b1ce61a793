-- ===== src/Tests.antt =====
-- Concrete runs of the model, and the theorems at inputs that meet their hypotheses. A payment of
-- 25.00 dollars from account A to account B goes all the way; amounts are written in cents, so that
-- `F` is ℤ here.
pub mod Data
mod Runs
mod Way
mod Examples
mod Whole
mod Reads
mod Workers
