-- ===== src/Update/Tests.antt =====
-- src/update/manifest.rs: checks of a concrete manifest.
use softnix_log_agent.Prelude.{ℕ, ◌≡◌, refl, false, none, some, done, ltb, if◌then◌else◌}
use text.Mathlib.Text.{◌==◌ as str_eq}
use softnix_log_agent.Update.{
  Clock, Manifest, parse_version, parse_parts, parse_part, parse_u64, parse_u64_digits, split_dot,
  trim_start, trim_end, is_whitespace, version_lt, check_min_from, check_versions, check_freshness,
  available, evaluate_check,
}
use softnix_log_agent.Update.Freshness.{
  Fresh, check_freshness-Fresh, Offered, evaluate_check-Offered,
}

-- A time is a number, and one text stands for the time 50.
abbrev clock : Clock ℕ
clock = record { parse_time = λ s. if str_eq s "soon" then some 50 else none; time_lt = ltb }

abbrev manifest : Manifest
manifest = record {
  version = "1.10.0";
  manifest_serial = 8;
  expires_at = "soon";
  min_upgrade_from = some "1.0";
}

passes : check_freshness clock manifest 7 "1.9.3" false 20 ≡ done tt
unfolding check_freshness check_versions check_min_from parse_version parse_parts parse_part
    parse_u64 parse_u64_digits split_dot trim_start trim_end is_whitespace version_lt
passes = refl

offers : evaluate_check clock manifest 7 "1.9.3" 20 ≡ done (available "1.10.0")
unfolding evaluate_check check_freshness check_versions check_min_from parse_version parse_parts
    parse_part parse_u64 parse_u64_digits split_dot trim_start trim_end is_whitespace version_lt
offers = refl

check_freshness-Fresh_example : Fresh clock manifest 7 "1.9.3" false 20
check_freshness-Fresh_example = check_freshness-Fresh clock manifest 7 "1.9.3" false 20 passes

evaluate_check-Offered_example : Offered clock manifest 7 "1.9.3" "1.10.0" 20
evaluate_check-Offered_example = evaluate_check-Offered clock manifest 7 "1.9.3" "1.10.0" 20 offers
