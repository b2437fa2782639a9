-- ===== src/Sor/Detectors.antt =====
-- packages/fde-sor/src/fde_sor/detectors.py: the drift scan and what it escalates; `active_engagement_ids` of
-- registry.py. The detectors (`sor.run_all_detectors`), SNS and the clock and order of texts of the database
-- are parameters.
pub mod Escalated
use fde_agent_platform.Prelude.{
  ℕ, String, Bool, false, ◌&&◌, Option, none, some, List, [], ◌∷◌, leb, str_eq, if◌then◌else◌,
}
use fde_agent_platform.Python.Value.{Fields}
use fde_agent_platform.Sor.Hashing.{non_empty}
use fde_agent_platform.Sor.State.{SorSettings, StoredAdapter}

-- A row of `sor.drift_signal`, with the columns that the scan tests; `detail` stands for the others.
pub record DriftSignal : Type 0 where
  pub signal_id : ℕ
  pub engagement_id : String
  pub drift_kind : String
  pub severity : String
  pub state : String
  pub last_seen_at : ℕ
  pub detail : Fields

pub record DriftScanResult : Type 0 where
  pub engagement_id : String
  pub summary : Fields
  pub critical_bypasses : List DriftSignal
  pub alert_published : Bool

-- `run_all_detectors` gives a summary and the signals that it leaves, or raises. `publish` says whether SNS
-- takes the alert, which goes to a topic, for an engagement. `now` is when an engagement's scan starts.
pub record Services : Type 0 where
  pub run_all_detectors : String → ℕ → List DriftSignal → Option (Fields × List DriftSignal)
  pub publish : String → String → List DriftSignal → Bool
  pub now : String → ℕ
  pub text_le : String → String → Bool

-- The WHERE of `_CRITICAL_BYPASS_SQL`.
abbrev pub is_escalated : String → ℕ → DriftSignal → Bool
is_escalated engagement since s =
    str_eq s.engagement_id engagement
    && (str_eq s.drift_kind "control_bypass"
        && (str_eq s.severity "critical" && (str_eq s.state "open" && leb since s.last_seen_at)))

-- ORDER BY last_seen_at DESC
abbrev pub insert_signal : DriftSignal → List DriftSignal → List DriftSignal
insert_signal s [] = s ∷ []
insert_signal s (t ∷ ts) =
    let rest = insert_signal s ts in
    if leb t.last_seen_at s.last_seen_at then s ∷ t ∷ ts else t ∷ rest

unfoldable pub critical_bypasses_of : String → ℕ → List DriftSignal → List DriftSignal
critical_bypasses_of engagement since [] = []
critical_bypasses_of engagement since (s ∷ ss) =
    let rest = critical_bypasses_of engagement since ss in
    if is_escalated engagement since s then insert_signal s rest else rest

-- `if critical and settings.alert_topic_arn: try: _publish_alert(...)`
abbrev pub published : Services → String → Option String → List DriftSignal → Bool
published v engagement none critical = false
published v engagement (some topic) [] = false
published v engagement (some topic) (s ∷ ss) = v.publish topic engagement (s ∷ ss)

abbrev pub scan_result :
    Services
    → SorSettings
    → String
    → List DriftSignal
    → Option (Fields × List DriftSignal)
    → Option DriftScanResult × List DriftSignal
scan_result v settings engagement signals none = (none, signals)
scan_result v settings engagement signals (some (summary, after)) =
    let critical = critical_bypasses_of engagement (v.now engagement) after in
    (
      some (record {
        engagement_id = engagement;
        summary = summary;
        critical_bypasses = critical;
        alert_published = published v engagement (non_empty settings.alert_topic_arn) critical;
      }),
      after,
    )

-- `drift_scan_once`; `none` is an exception, which rolls the transaction back.
unfoldable pub drift_scan_once :
    Services → SorSettings → String → List DriftSignal → Option DriftScanResult × List DriftSignal
unfolding critical_bypasses_of
drift_scan_once v settings engagement signals =
    scan_result v settings engagement signals
      (v.run_all_detectors engagement (v.now engagement) signals)

abbrev pub with_result :
    Option DriftScanResult
    → List DriftScanResult × List DriftSignal
    → List DriftScanResult × List DriftSignal
with_result none out = out
with_result (some r) (rs, signals) = (r ∷ rs, signals)

-- The loop of `scan_all_engagements`.
unfoldable pub scan_engagements :
    Services
    → SorSettings
    → List String
    → List DriftSignal
    → List DriftScanResult × List DriftSignal
unfolding drift_scan_once
scan_engagements v settings [] signals = ([], signals)
scan_engagements v settings (e ∷ es) signals =
    let (r, after) = drift_scan_once v settings e signals in
    with_result r (scan_engagements v settings es after)

-- DISTINCT and ORDER BY: the engagement is put in its place unless it is there.
abbrev pub insert_engagement : (String → String → Bool) → String → List String → List String
insert_engagement le e [] = e ∷ []
insert_engagement le e (x ∷ xs) =
    let rest = insert_engagement le e xs in
    if str_eq e x then x ∷ xs else if le e x then e ∷ x ∷ xs else x ∷ rest

unfoldable pub active_engagement_ids : (String → String → Bool) → List StoredAdapter → List String
active_engagement_ids le [] = []
active_engagement_ids le (a ∷ as') =
    let rest = active_engagement_ids le as' in
    if a.is_active then insert_engagement le a.engagement_id rest else rest

-- `scan_all_engagements`
unfoldable pub scan_all_engagements :
    Services
    → SorSettings
    → List StoredAdapter
    → List DriftSignal
    → List DriftScanResult × List DriftSignal
unfolding scan_engagements active_engagement_ids
scan_all_engagements v settings adapters signals =
    scan_engagements v settings (active_engagement_ids v.text_le adapters) signals
