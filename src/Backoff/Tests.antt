-- ===== src/Backoff/Tests.antt =====
-- The delays at concrete counts.
use enthrall.Prelude.{◌*◌, ◌/◌, ◌^◌, ◌≡◌, min, arith}
use enthrall.Backoff.{reconnect_interval_unit, next_reconnect_delay, delay_doubles}

delay_doubles_example :
    next_reconnect_delay 4 30000000
    ≡ min
        (2 ^ 3 * reconnect_interval_unit)
        (30000000 / reconnect_interval_unit * reconnect_interval_unit)
delay_doubles_example = delay_doubles 3 30000000 (omega arith)
