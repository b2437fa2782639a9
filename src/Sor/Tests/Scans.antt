-- ===== src/Sor/Tests/Scans.antt =====
-- A concrete scan, and the theorems on the detectors at it.
use fde_agent_platform.Prelude.{ℕ, true, none, some, [], ◌∷◌, str_eq, ◌≡◌, refl, if◌then◌else◌}
use fde_agent_platform.Python.Value.{end}
use fde_agent_platform.Sor.Detectors.{DriftSignal, Services, critical_bypasses_of}

abbrev bypass : ℕ → DriftSignal
bypass seen = record {
  signal_id = seen;
  engagement_id = "e";
  drift_kind = "control_bypass";
  severity = "critical";
  state = "open";
  last_seen_at = seen;
  detail = end;
}

newest_first :
    critical_bypasses_of "e" 5 (bypass 4 ∷ bypass 6 ∷ bypass 9 ∷ []) ≡ bypass 9 ∷ bypass 6 ∷ []
unfolding critical_bypasses_of
newest_first = refl

-- The detectors raise for the engagement `bad`.
abbrev services : Services
services = record {
  run_all_detectors =
      λ e. λ now. λ ss. if str_eq e "bad" then none else some (end, bypass now ∷ ss);
  publish = λ topic. λ e. λ ss. true;
  now = λ e. 7;
  text_le = λ x. λ y. true;
}
