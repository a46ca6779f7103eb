-- ===== src/Py.antt =====
-- What the end-to-end scripts do with the values of Python, as `json.loads` gives them.
pub mod Texts
pub mod Values
pub mod Equality
pub mod Numbers
pub mod Loops
pub mod Library
pub mod Emits
pub mod Splitting
unfoldable pub use Values.*
unfoldable pub use Equality.*
unfoldable pub use Numbers.*
unfoldable pub use Loops.*
unfoldable pub use Library.*
