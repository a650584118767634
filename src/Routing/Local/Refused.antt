-- ===== src/Routing/Local/Refused.antt =====
-- A SELECT with a call whose result cannot be made of the rows of the shards is sent to none of them.
-- Calls below nodes that the walks of the code do not descend into, such as casts, are not covered.
use mtdd.Js.Text.{Text}
use mtdd.Routing.Local.{Local}
