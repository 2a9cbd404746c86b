-- ===== src/Monitoring/Urgency.antt =====
-- fleet-attention.ts: the urgency and the notes say the same.
use webprobe.Base.{
  ◌+◌, ◌≡◌, ◌↔◌, refl, inl, inr, Bool, true, false, ◌||◌, Option, List, [], ◌∷◌, ltb, arith,
  Bool-cases,
}
use webprobe.Base.Text.{Text}
use webprobe.Base.Value.{Date}
use webprobe.Security.Urls.{Url, IpLibrary}
use webprobe.Monitoring.Fleet.{
  Site, nothing, Note, count_of, has_note, notes_of, urgency_of, fleet_attention,
}

-- A reason for urgency is a note.
urgent-has_note :
    (site : Site) (invalid expires overdue failed : Bool)
    → (invalid || overdue || failed || ltb 0 (count_of (λ s. s.critical_count) site.latest_scan))
      ≡ true
    → has_note (notes_of site invalid expires overdue failed) ≡ true
unfolding notes_of
urgent-has_note site true expires overdue failed h = refl
urgent-has_note site false true overdue failed h = refl
urgent-has_note site false false true failed h = refl
urgent-has_note site false false false true h = refl
urgent-has_note site false false false false h =
    let some_major : ltb 0 (
          count_of (λ s. s.critical_count) site.latest_scan
          + count_of (λ s. s.high_count) site.latest_scan)
        ≡ true =
      ground (arith, h) in
    elim (Bool-cases (ltb 0 (count_of (λ s. s.new_major_count) site.latest_scan))) [
      | inl newer ↦ rw newer refl
      | inr older ↦ rw (older, some_major) refl
    ]

none_iff :
    (site : Site) (invalid overdue failed : Bool) (notes : List Note)
    → ((invalid || overdue || failed || ltb 0 (count_of (λ s. s.critical_count) site.latest_scan))
          ≡ true
        → has_note notes ≡ true)
    → (urgency_of site invalid overdue failed notes ≡ nothing) ↔ (notes ≡ [])
unfolding urgency_of
none_iff site invalid overdue failed [] h =
    elim (Bool-cases
      (invalid || overdue || failed || ltb 0 (count_of (λ s. s.critical_count) site.latest_scan))) [
        | inl pressing ↦ ground (arith, h pressing)
        | inr calm ↦ rw calm (λ e. refl, λ e. refl)
      ]
none_iff site invalid overdue failed (note ∷ rest) h =
    elim (Bool-cases
      (invalid || overdue || failed || ltb 0 (count_of (λ s. s.critical_count) site.latest_scan))) [
        | inl pressing ↦ rw pressing (λ e. ground (arith, e), λ e. ground (arith, e))
        | inr calm ↦ rw calm (λ e. ground (arith, e), λ e. ground (arith, e))
      ]

-- A site of the fleet wants no attention exactly if there is no note on it.
pub fleet_attention-nothing_iff :
    (parse_url : Text → Option Url) (ip : IpLibrary) (site : Site) (now : Date)
    → ((fleet_attention parse_url ip site now).urgency ≡ nothing)
      ↔ ((fleet_attention parse_url ip site now).notes ≡ [])
unfolding fleet_attention
fleet_attention-nothing_iff parse_url ip site now =
    let a = fleet_attention parse_url ip site now in
    none_iff site a.proof_invalid a.scan_overdue a.scheduled_failure a.notes (
      urgent-has_note site a.proof_invalid a.proof_before_next_run a.scan_overdue
        a.scheduled_failure)
