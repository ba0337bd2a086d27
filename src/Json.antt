-- ===== src/Json.antt =====
-- The values of a JSON document as Python holds them after `json.loads`.
mod Data
mod Dict
mod Same
mod Text
unfoldable pub use Data.*
unfoldable pub use Dict.*
unfoldable pub use Same.*
unfoldable pub use Text.*
