-- ===== src/Converter/Tables.antt =====
-- The tables of src/core/engine/CodeTableConverter.cpp: Unicode characters and their encoded values.
use nexus_key.Base.{ℕ, List}
mod Tcvn3
mod Vni
mod Compound
mod Cp1258
pub use Tcvn3.*
pub use Vni.*
pub use Compound.*
pub use Cp1258.*

abbrev pub CodeMap : Type 0
CodeMap = List (ℕ × ℕ)
