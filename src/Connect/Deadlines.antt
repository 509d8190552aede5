-- ===== src/Connect/Deadlines.antt =====
-- The deadlines of one tunnel: tunnelDeadlines of internal/channel/server.go with refreshIdle, arm and
-- tightenLocked. The mutex makes each call one step. A deadline that is not set is `none`.
use llm_cluster_router.Prelude.{
  ℕ, ◌+◌, List, [], ◌∷◌, Option, none, some, Bool, true, false, ltb, if◌then◌else◌,
}

-- The deadlines of a connection.
pub record Deadlines : Type 0 where
  pub read : Option ℕ
  pub write : Option ℕ

pub data Side : Type 0 where
  client_side upstream_side : Side

-- `tunnelDeadlines`, with the deadlines of its two connections.
pub record TunnelDeadlines : Type 0 where
  pub client : Deadlines
  pub upstream : Deadlines
  pub idle : ℕ
  pub linger : ℕ
  pub armed : Bool
  pub linger_at : ℕ
  pub client_idle_at : Option ℕ
  pub upstream_idle_at : Option ℕ

unfoldable pub new_deadlines : ℕ → ℕ → TunnelDeadlines
new_deadlines idle linger = record {
  client = record { read = none; write = none };
  upstream = record { read = none; write = none };
  idle = idle;
  linger = linger;
  armed = false;
  linger_at = 0;
  client_idle_at = none;
  upstream_idle_at = none;
}

-- The deadline of the next read.
unfoldable pub idle_until : ℕ → TunnelDeadlines → ℕ
idle_until now d =
    if d.armed
    then if ltb d.linger_at (now + d.idle) then d.linger_at else now + d.idle
    else now + d.idle

-- `refreshIdle`.
unfoldable pub refresh_idle : ℕ → Side → TunnelDeadlines → TunnelDeadlines
unfolding idle_until
refresh_idle now client_side d = record d {
  client_idle_at = some (idle_until now d);
  client = record d.client { read = some (idle_until now d) };
}
refresh_idle now upstream_side d = record d {
  upstream_idle_at = some (idle_until now d);
  upstream = record d.upstream { read = some (idle_until now d) };
}

-- The instant that `tightenLocked` sets.
unfoldable pub tightened : ℕ → Option ℕ → ℕ
tightened linger_at none = linger_at
tightened linger_at (some t) = if ltb t linger_at then t else linger_at

-- `tightenLocked`: both deadlines of a connection.
unfoldable pub tighten : ℕ → Option ℕ → Deadlines
unfolding tightened
tighten linger_at idle_at = record {
  read = some (tightened linger_at idle_at);
  write = some (tightened linger_at idle_at);
}

-- `arm`: the first call counts.
unfoldable pub arm : ℕ → TunnelDeadlines → TunnelDeadlines
unfolding tighten
arm now d = if d.armed then d else record d {
  armed = true;
  linger_at = now + d.linger;
  client = tighten (now + d.linger) d.client_idle_at;
  upstream = tighten (now + d.linger) d.upstream_idle_at;
}

-- The calls of the two halves of a tunnel.
pub data Call : Type 0 where
  refreshes : Side → Call
  arms : Call

unfoldable pub step : TunnelDeadlines → ℕ × Call → TunnelDeadlines
unfolding refresh_idle arm
step d (now, refreshes side) = refresh_idle now side d
step d (now, arms) = arm now d

unfoldable pub run : TunnelDeadlines → List (ℕ × Call) → TunnelDeadlines
unfolding step
run d [] = d
run d (c ∷ cs) = run (step d c) cs
