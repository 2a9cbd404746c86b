-- ===== src/Monitoring/Fleet.antt =====
-- apps/web/src/lib/fleet-attention.ts: which of the sites want attention, and why.
use webprobe.Base.{
  ℕ, ◌+◌, String, Bool, true, false, not, ◌&&◌, ◌||◌, Option, none, some, List, [], ◌∷◌,
  if◌then◌else◌, ltb, ◌==◌, string_key,
}
use webprobe.Base.Text.{Text, codes, text_key}
use webprobe.Base.Value.{Date, before, not_after, is_some}
use webprobe.Security.Urls.{Url, IpLibrary}
use webprobe.Security.Ownership.{SiteOwnershipProof, has_current_site_ownership_proof}

pub record LatestScan : Type 0 where
  pub id : String
  pub trigger : String
  pub status : String
  pub critical_count : ℕ
  pub high_count : ℕ
  pub new_major_count : ℕ

-- Of a site what the function reads.
pub record Site : Type 0 where
  pub organization_id : String
  pub id : String
  pub proof : SiteOwnershipProof
  pub monitoring_schedule_enabled : Bool
  pub monitoring_next_run_at : Option Date
  pub latest_scan : Option LatestScan
  pub open_followup_count : ℕ

pub data FleetUrgency : Type 0 where
  urgent followup nothing : FleetUrgency

-- The notes, each with the number that its text shows.
pub data Note : Type 0 where
  proof_is_invalid proof_expires_first scan_is_overdue schedule_failed : Note
  new_major_findings major_findings open_followups : ℕ → Note
  no_monitoring : Note

-- The action: its label, and the page that it leads to.
pub data Page : Type 0 where
  verify_page site_page : Page
  scan_page : String → Page

pub record FleetAction : Type 0 where
  pub label : String
  pub href : Page

pub record FleetAttention : Type 0 where
  pub urgency : FleetUrgency
  pub notes : List Note
  pub action : FleetAction
  pub scan_overdue : Bool
  pub proof_invalid : Bool
  pub proof_before_next_run : Bool
  pub scheduled_failure : Bool

abbrev pub expires_before : Option Date → Option Date → Bool
expires_before (some expires) (some next) = not_after expires next
expires_before _ _ = false

abbrev pub is_before : Option Date → Date → Bool
is_before none now = false
is_before (some d) now = before d now

abbrev pub is_scheduled_failure : Option LatestScan → Bool
is_scheduled_failure none = false
is_scheduled_failure (some s) =
    s.trigger == "scheduled" && (s.status == "failed" || s.status == "cancelled")

-- `site.latestScan?.count ?? 0`
abbrev pub count_of : (LatestScan → ℕ) → Option LatestScan → ℕ
count_of field none = 0
count_of field (some s) = field s

abbrev pub note_if : Bool → Note → List Note → List Note
note_if test note rest = if test then note ∷ rest else rest

abbrev pub scan_href : Option LatestScan → Page
scan_href none = site_page
scan_href (some s) = scan_page s.id

abbrev pub go_to : String → Page → FleetAction
go_to label href = record { label = label; href = href }

abbrev pub lacks_monitoring : Site → Bool
lacks_monitoring site = site.proof.status == codes "active" && not site.monitoring_schedule_enabled

module _ (parse_url : Text → Option Url) (ip : IpLibrary) where
  abbrev pub is_proof_invalid : Site → Date → Bool
  is_proof_invalid site now =
      is_some site.proof.verified_at
      && not (has_current_site_ownership_proof parse_url ip site.proof now)

-- The notes, in the order in which they are pushed.
unfoldable pub notes_of : Site → Bool → Bool → Bool → Bool → List Note
notes_of site invalid expires overdue failed =
    let critical = count_of (λ s. s.critical_count) site.latest_scan in
    let high = count_of (λ s. s.high_count) site.latest_scan in
    let newer = count_of (λ s. s.new_major_count) site.latest_scan in
    note_if invalid proof_is_invalid (
      note_if (not invalid && expires) proof_expires_first (
        note_if overdue scan_is_overdue (
          note_if failed schedule_failed (
            note_if (ltb 0 newer) (new_major_findings newer) (
              note_if (ltb 0 (critical + high)) (major_findings (critical + high)) (
                note_if (ltb 0 site.open_followup_count) (open_followups site.open_followup_count)
                  (note_if (lacks_monitoring site) no_monitoring [])))))))

abbrev pub has_note : List Note → Bool
has_note [] = false
has_note (note ∷ rest) = true

unfoldable pub urgency_of : Site → Bool → Bool → Bool → List Note → FleetUrgency
urgency_of site invalid overdue failed notes =
    if invalid || overdue || failed || ltb 0 (count_of (λ s. s.critical_count) site.latest_scan)
    then urgent
    else if has_note notes
    then followup
    else nothing

pub action_of : Site → Bool → Bool → Bool → Bool → FleetAction
action_of site invalid expires overdue failed =
    let critical = count_of (λ s. s.critical_count) site.latest_scan in
    let high = count_of (λ s. s.high_count) site.latest_scan in
    let newer = count_of (λ s. s.new_major_count) site.latest_scan in
    if invalid
    then go_to "Renouveler la preuve DNS" verify_page
    else if overdue || failed
    then go_to "Examiner le suivi" site_page
    else if ltb 0 newer || ltb 0 (critical + high) || ltb 0 site.open_followup_count
    then go_to "Voir les constats" (scan_href site.latest_scan)
    else if expires
    then go_to "Vérifier la preuve DNS" verify_page
    else if lacks_monitoring site
    then go_to "Configurer le suivi" site_page
    else go_to "Ouvrir le site" site_page

module _ (parse_url : Text → Option Url) (ip : IpLibrary) where
  unfoldable pub fleet_attention : Site → Date → FleetAttention
  fleet_attention site now =
      let invalid = is_proof_invalid parse_url ip site now in
      let expires =
        expires_before site.proof.ownership_expires_at site.monitoring_next_run_at && not invalid in
      let overdue = site.monitoring_schedule_enabled && is_before site.monitoring_next_run_at now in
      let failed = is_scheduled_failure site.latest_scan in
      let notes = notes_of site invalid expires overdue failed in
      record {
        urgency = urgency_of site invalid overdue failed notes;
        notes = notes;
        action = action_of site invalid expires overdue failed;
        scan_overdue = overdue;
        proof_invalid = invalid;
        proof_before_next_run = expires;
        scheduled_failure = failed;
      }
