-- ===== src/Double.antt =====
-- C++ `double` and the conversions of <chrono> as parameters: the operations that the program uses,
-- and the laws of IEEE 754 arithmetic on which the theorems rest.
mod Defs
mod Laws
mod Fixed
pub use Defs.{Doubles}
pub use Laws.{DoubleLaws, IsNonneg, std_min, std_max, seconds_between-steady}
unfoldable pub use Laws.{seconds_between}
pub use Fixed.{fixed, fixed_laws}
