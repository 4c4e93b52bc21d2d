-- ===== src/Collector/Loop/Forced.antt =====
-- sgcl/priv/collector.h, `force_collect`, `live_objects` and the tests of `_main_loop`: a thread that asks
-- for a collection is woken after two whole turns, unless the collector was told to end.
use sgcl.Base.{Bool, true, false}
use sgcl.Collector.Loop.{Act, nothing, force, ask, take, stop, wait, Loop}

-- An act of another thread that asks for nothing.
unfoldable pub is_quiet : Act → Bool
is_quiet nothing = true
is_quiet take = true
is_quiet (force wait) = false
is_quiet (ask ref) = false
is_quiet stop = false
