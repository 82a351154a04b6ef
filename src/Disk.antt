-- ===== src/Disk.antt =====
-- The files that an archive is unpacked to, as the operating system keeps them.
pub mod Confined
pub mod Flat
use vmdockerv.Base.{Done, Error, Op, Option, Text, ℕ}

-- Directories and files. `copy path source n` is `io.Copy` of the first `n` bytes of the source to the
-- file, with the number of bytes that it wrote, and its error.
pub record Disk (World : Type 0) : Type 0 where
  pub mkdir_all : Text → Op World Done
  pub create : Text → Op World Done
  pub copy : Text → Text → ℕ → World → (ℕ × Option Error) × World
  pub close : Text → Op World Done
