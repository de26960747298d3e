-- ===== src/Worker/Wakeup/Settles.antt =====
-- A wake-up brings the oldest pending run to its end.
use langopen.Json.{Json}
use langopen.Db.{Db}
use langopen.Redis.{Redis}
