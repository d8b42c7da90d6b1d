-- ===== src/Policy/Tests.antt =====
-- The engine with two policies, the first of which does not apply.
use open_fabric.Common.{ℕ, ltb, leb, true, some, [], ◌∷◌}
use open_fabric.Common.Int.{pos, pos_part}
use open_fabric.Policy.{
  Floats, Policy, Telemetry, NodeReadings, Engine, gt, cpu_percent, cluster, block, backpressure,
}

abbrev whole : Floats
whole = record {
  F = ℕ;
  lt_float = ltb;
  le_float = leb;
  of_int = pos_part;
  percentage = λ used total. used;
}

abbrev hot_cpu : Policy whole
hot_cpu = record {
  id = "p1";
  name = "hot";
  enabled = true;
  rules = record { metric = cpu_percent; scope = cluster; operator = gt; value = 90 } ∷ [];
  action = block;
  target_class = "gpu";
  message = "";
}

abbrev readings : NodeReadings whole
readings = record {
  cpu = 95;
  ram_used = 1;
  ram_total = 2;
  gpu_used = 0;
  gpu_total = 0;
  running = pos 3;
}

abbrev now_telemetry : Telemetry whole
now_telemetry = record {
  snap = record { pooled = readings; tasks_per_second = 1; tokens_per_second = 2 };
  local = readings;
}

abbrev engine : Engine whole
engine = record {
  policies = hot_cpu ∷ record hot_cpu { target_class = "all"; action = backpressure } ∷ [];
  provider = some now_telemetry;
}
