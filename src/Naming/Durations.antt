-- ===== src/Naming/Durations.antt =====
-- What humanMs keeps of a duration.
use velocity_engine_backend.Prelude.{
  ℕ, ◌+◌, ◌*◌, ◌/◌, ◌≡◌, if◌then◌else◌, comparable_nat, ltb, arith,
}
use velocity_engine_backend.Prelude.Int.{pos}
use velocity_engine_backend.Naming.{
  Shown, nothing, millis, seconds, minutes, minutes_seconds, hours, hours_minutes, shown,
}

-- The duration that the numbers and units stand for, in milliseconds.
abbrev pub worth : Shown → ℕ
worth nothing = 0
worth (millis n) = n
worth (seconds n) = n * 1000
worth (minutes n) = n * 60_000
worth (minutes_seconds n k) = n * 60_000 + k * 1000
worth (hours n) = n * 3_600_000
worth (hours_minutes n k) = n * 3_600_000 + k * 60_000

-- The shown duration is the duration without its part of a unit that is left off: exact below a second,
-- whole seconds below an hour, whole minutes from an hour on.
pub worth-shown :
    (ms : ℕ)
    → worth (shown (pos ms)) ≡ (
        if ltb ms 1000
        then ms
        else if ltb ms 3_600_000
        then ms / 1000 * 1000
        else ms / 60_000 * 60_000)
unfolding shown
worth-shown ms = ground arith
