-- ===== src/Sor/Detectors/Escalated.antt =====
-- detectors.py: which signals a scan escalates, and which engagements it scans.
use fde_agent_platform.Prelude.{◌≤◌, ℕ, String, none, List, [], ◌∷◌, ◌++◌, ◌≡◌, refl, ap, ◌⊎◌}
use fde_agent_platform.Sor.State.{SorSettings}
use fde_agent_platform.Sor.Detectors.{
  DriftSignal, Services, with_result, drift_scan_once, scan_engagements,
}

-- The signal is one of the list.
abbrev pub Among : DriftSignal → List DriftSignal → Type 0
Among s [] = ⊥
Among s (x ∷ xs) = (s ≡ x) ⊎ Among s xs

-- A critical control bypass of the engagement, open, and seen since then.
pub record IsCriticalBypass (engagement : String) (since : ℕ) (s : DriftSignal) : Type 0 where
  pub of_engagement : s.engagement_id ≡ engagement
  pub bypass : s.drift_kind ≡ "control_bypass"
  pub critical : s.severity ≡ "critical"
  pub open_state : s.state ≡ "open"
  pub seen : since ≤ s.last_seen_at

module _ (v : Services) (settings : SorSettings) (e : String) where
  -- An engagement whose detectors raise leaves the scan of all as it would be without it: the others before
  -- and after it are scanned with the same results, and the signals are the same.
  pub scan_engagements-failed :
      (before others : List String) (signals : List DriftSignal)
      → ((now : ℕ) (ss : List DriftSignal) → v.run_all_detectors e now ss ≡ none)
      → scan_engagements v settings (before ++ e ∷ others) signals
        ≡ scan_engagements v settings (before ++ others) signals
  unfolding scan_engagements drift_scan_once
  scan_engagements-failed [] others signals fails = simp (fails (v.now e) signals) refl
  scan_engagements-failed (x ∷ before) others signals fails =
      ap (with_result (drift_scan_once v settings x signals).0)
        (scan_engagements-failed before others (drift_scan_once v settings x signals).1 fails)
