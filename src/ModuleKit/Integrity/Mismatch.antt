-- ===== src/ModuleKit/Integrity/Mismatch.antt =====
-- What the validation of a packed manifest says.
use psybot_ai.Base.Text.{Text}
use psybot_ai.Base.Json.{Json}
