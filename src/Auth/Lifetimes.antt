-- ===== src/Auth/Lifetimes.antt =====
-- auth.service.ts: how long sessions last.
use meal_delivery.Prelude.{◌+◌, ◌*◌, ◌≤◌, Bool}
use meal_delivery.Auth.{RefreshToken, Env}
use meal_delivery.Auth.Sessions.{days_for, day_ms}

-- From its creation on, the session lasts at most for the days of a plain login, or of one that is to
-- be remembered.
abbrev pub WithinTerm : Env → RefreshToken → Type 0
WithinTerm env t = (b : Bool) × (t.expires_at ≤ t.created_at + days_for env b * day_ms)
