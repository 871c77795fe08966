-- ===== src/Json.antt =====
-- The values that the program keeps in JSONB columns and receives from reasoners: Python's `None`,
-- `bool`, `int`, `float`, `str`, `list` and `dict` with text keys, in the order of their keys.
-- A finite float is m / 2^k. Children: Python's comparisons, `uuid.UUID(str(v))`, `int(v)`.
pub mod Compare
pub mod Convert
mod Data
pub mod Laws
unfoldable pub use Data.*
