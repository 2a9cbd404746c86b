-- ===== src/Findings/Followup.antt =====
-- apps/worker/src/finding-followup-state.ts: what a scan does to the follow-up of a finding.
use webprobe.Base.{String, Bool, not, ◌&&◌, Option, none, some, if◌then◌else◌, ◌==◌, string_key}
use webprobe.Base.Value.{Value}
use webprobe.Contracts.Completeness.{can_resolve_finding}

pub data FollowupEvent : Type 0 where
  reopened suggested : FollowupEvent

pub decide_finding_followup :
    String → String → Bool → Option Value → Option Value → String × Option FollowupEvent
decide_finding_followup status code observed summary previous =
    if observed
    then (if status == "fixed"
        then ("todo", some reopened)
        else if status == "to_verify"
        then ("in_progress", some reopened)
        else (status, none))
    else if not (status == "fixed")
        && not (status == "accepted")
        && not (status == "to_verify")
        && can_resolve_finding code summary previous
    then ("to_verify", some suggested)
    else (status, none)
