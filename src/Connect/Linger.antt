-- ===== src/Connect/Linger.antt =====
-- How long a tunnel lasts once one of its halves has ended.
use llm_cluster_router.Prelude.{
  ℕ, ◌+◌, ◌≡◌, ◌≤◌, refl, sym, subst, List, [], ◌∷◌, Option, none, some, true, false, arith,
}
use llm_cluster_router.Connect.Deadlines.{
  client_side, upstream_side, TunnelDeadlines, idle_until, refresh_idle, tightened, tighten, arm,
  Call, refreshes, arms, step, run,
}

-- A deadline that is set, and not after an instant.
abbrev pub Ends : ℕ → Option ℕ → Type 0
Ends until o = (t : ℕ) × (o ≡ some t) × (t ≤ until)

-- All four deadlines of a tunnel are set, and none is after an instant.
pub record EndsBy (until : ℕ) (d : TunnelDeadlines) : Type 0 where
  pub is_armed : d.armed ≡ true
  pub lingers : d.linger_at ≡ until
  pub client_read : Ends until d.client.read
  pub client_write : Ends until d.client.write
  pub upstream_read : Ends until d.upstream.read
  pub upstream_write : Ends until d.upstream.write

tightened-le : (until : ℕ) (o : Option ℕ) → tightened until o ≤ until
unfolding tightened
tightened-le until none = omega arith
tightened-le until (some t) = ground arith

idle_until-le : (now until : ℕ) (d : TunnelDeadlines) → EndsBy until d → idle_until now d ≤ until
unfolding idle_until
idle_until-le now until d v = ground (arith, v.is_armed, v.lingers)

arm_again : (now : ℕ) (d : TunnelDeadlines) → d.armed ≡ true → arm now d ≡ d
unfolding arm
arm_again now d h = rw h refl

step-EndsBy :
    (until : ℕ) (d : TunnelDeadlines) (c : ℕ × Call) → EndsBy until d → EndsBy until (step d c)
unfolding step refresh_idle arm
step-EndsBy until d (now, refreshes client_side) v = record {
  is_armed = v.is_armed;
  lingers = v.lingers;
  client_read = (_, refl, idle_until-le now until d v);
  client_write = v.client_write;
  upstream_read = v.upstream_read;
  upstream_write = v.upstream_write;
}
step-EndsBy until d (now, refreshes upstream_side) v = record {
  is_armed = v.is_armed;
  lingers = v.lingers;
  client_read = v.client_read;
  client_write = v.client_write;
  upstream_read = (_, refl, idle_until-le now until d v);
  upstream_write = v.upstream_write;
}
step-EndsBy until d (now, arms) v = subst (EndsBy until) (sym (arm_again now d v.is_armed)) v

run-EndsBy :
    (until : ℕ) (d : TunnelDeadlines) (cs : List (ℕ × Call))
    → EndsBy until d
    → EndsBy until (run d cs)
unfolding run
run-EndsBy until d [] v = v
run-EndsBy until d (c ∷ cs) v = run-EndsBy until (step d c) cs (step-EndsBy until d c v)

arm-EndsBy : (now : ℕ) (d : TunnelDeadlines) → d.armed ≡ false → EndsBy (now + d.linger) (arm now d)
unfolding arm tighten
arm-EndsBy now d h =
    rw (arm, h)
      (record {
        is_armed = refl;
        lingers = refl;
        client_read = (_, refl, tightened-le _ d.client_idle_at);
        client_write = (_, refl, tightened-le _ d.client_idle_at);
        upstream_read = (_, refl, tightened-le _ d.upstream_idle_at);
        upstream_write = (_, refl, tightened-le _ d.upstream_idle_at);
      })

-- Once one half of a tunnel has ended, the tunnel ends within the linger: every deadline of both
-- connections is set and not after it, whatever the halves read and whenever the other half ends.
pub run_lingers :
    (now : ℕ) (d : TunnelDeadlines) (cs : List (ℕ × Call))
    → d.armed ≡ false
    → EndsBy (now + d.linger) (run d ((now, arms) ∷ cs))
unfolding run step
run_lingers now d cs h = run-EndsBy (now + d.linger) (arm now d) cs (arm-EndsBy now d h)
