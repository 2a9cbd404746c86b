-- ===== src/Monitoring/Tests.antt =====
-- A site whose proof has run out, and a witness.
use webprobe.Base.{◌≡◌, ◌↔◌, true, some, []}
use webprobe.Base.Value.{at}
use webprobe.Security.Ownership.Tests.{proof, parse_home, names_only}
use webprobe.Monitoring.Fleet.{Site, nothing, fleet_attention}
use webprobe.Monitoring.Urgency.{fleet_attention-nothing_iff}

abbrev site : Site
site = record {
  organization_id = "o";
  id = "s";
  proof = proof;
  monitoring_schedule_enabled = true;
  monitoring_next_run_at = some (at 95);
  latest_scan = some (record {
    id = "x";
    trigger = "scheduled";
    status = "completed";
    critical_count = 1;
    high_count = 0;
    new_major_count = 0;
  });
  open_followup_count = 0;
}

fleet_attention-nothing_iff_example :
    ((fleet_attention parse_home names_only site (at 91)).urgency ≡ nothing)
    ↔ ((fleet_attention parse_home names_only site (at 91)).notes ≡ [])
fleet_attention-nothing_iff_example = fleet_attention-nothing_iff parse_home names_only site (at 91)
