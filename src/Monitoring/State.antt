-- ===== src/Monitoring/State.antt =====
-- apps/web/src/lib/monitoring-state.ts; the texts for display follow from the constructor.
use webprobe.Base.{
  String, Bool, true, false, not, ◌&&◌, ◌||◌, Option, some, if◌then◌else◌, ◌==◌, string_key,
}

-- The key with its label: `renewal_required` is the key "verification_required" with the label
-- "À revérifier".
pub data MonitoringState : Type 0 where
  active inactive verification_required renewal_required paused : MonitoringState

abbrev pub is_false : Option Bool → Bool
is_false (some false) = true
is_false _ = false

-- `is_verified` is whether `verifiedAt` is there.
pub get_monitoring_state : String → Bool → Bool → Option Bool → MonitoringState
get_monitoring_state status is_verified schedule_enabled ownership_current =
    if is_verified && status == "active" && is_false ownership_current
    then renewal_required
    else if not is_verified || status == "pending_verification"
    then verification_required
    else if status == "paused"
    then paused
    else if status == "active" && is_verified
    then (if schedule_enabled then active else inactive)
    else verification_required
