-- ===== src/Signals.antt =====
-- What a blocked goroutine of the package can be woken by. The select statements receive from
-- `idle.TimedOut`, where the idle timer sends the empty string or a description of the timeout,
-- and from `idle.Halt.ReqStopChan()`, which is closed when a stop is requested.
use xcryptossh.Prelude.{Bytes}

pub data Signal : Type 0 where
  received : Bytes → Signal
  stop_requested : Signal
