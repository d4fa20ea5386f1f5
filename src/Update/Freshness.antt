-- ===== src/Update/Freshness.antt =====
-- src/update/manifest.rs: what a manifest that is accepted or offered has passed.
use softnix_log_agent.Prelude.{
  ℕ, ◌<◌, ◌≡◌, ◌⊎◌, inl, inr, Bool, true, false, Option, none, some, done, arith, Option-cases,
}
use Prim.Native.String.{String}
use softnix_log_agent.Update.{
  Clock, Manifest, Version, parse_version, version_lt, check_min_from, check_versions,
  check_freshness, available, evaluate_check,
}

-- The running version is not older than the oldest one to upgrade from, where there is one.
abbrev pub Reachable : Option String → Version → Type 0
Reachable none running = Unit
Reachable (some min_from) running =
    (v : Version) × (parse_version min_from ≡ some v) × (version_lt running v ≡ false)

module _ {Time : Type 0} (clock : Clock Time) where
  check_min_from-Reachable :
      (min_from : Option String) (running : Version)
      → check_min_from clock min_from running ≡ done tt
      → Reachable min_from running
  unfolding check_min_from
  check_min_from-Reachable none running h = tt
  check_min_from-Reachable (some min_from) running h =
      elim (Option-cases (parse_version min_from)) [
        | inl n ↦ ground (arith, h, n)
        | inr (v, e) ↦ (v, e, ground (arith, h, e))
      ]

  -- What a manifest that is fresh has passed, for the two versions that were compared.
  pub record Fresh (manifest : Manifest) (highest : ℕ) (running_version : String)
      (allow_downgrade : Bool) (now : Time) : Type 0 where
    pub not_replayed : highest < manifest.manifest_serial
    pub expires : Time
    pub expiry : clock.parse_time manifest.expires_at ≡ some expires
    pub not_expired : clock.time_lt expires now ≡ false
    pub target : Version
    pub running : Version
    pub target_version : parse_version manifest.version ≡ some target
    pub running_version_read : parse_version running_version ≡ some running
    pub no_downgrade : (allow_downgrade ≡ true) ⊎ (version_lt target running ≡ false)
    pub reachable : Reachable manifest.min_upgrade_from running

  versions-Fresh :
      (manifest : Manifest) (highest : ℕ) (running_version : String) (allow_downgrade : Bool)
      (now e : Time) (target running : Version)
      → parse_version manifest.version ≡ some target
      → parse_version running_version ≡ some running
      → clock.parse_time manifest.expires_at ≡ some e
      → check_freshness clock manifest highest running_version allow_downgrade now ≡ done tt
      → Fresh manifest highest running_version allow_downgrade now
  unfolding check_freshness check_versions
  versions-Fresh manifest highest running_version allow_downgrade now e target running t r x h =
      record {
        not_replayed = ground arith;
        expires = e;
        expiry = x;
        not_expired = ground arith;
        target = target;
        running = running;
        target_version = t;
        running_version_read = r;
        no_downgrade = ground arith;
        reachable = check_min_from-Reachable manifest.min_upgrade_from running (ground arith);
      }

  -- A manifest that passes the check is newer than the last accepted serial, not expired, no
  -- downgrade unless one is allowed, and, where it names an oldest version to upgrade from, the
  -- running version is not older than that one.
  pub check_freshness-Fresh :
      (manifest : Manifest) (highest : ℕ) (running_version : String) (allow_downgrade : Bool)
      (now : Time)
      → check_freshness clock manifest highest running_version allow_downgrade now ≡ done tt
      → Fresh manifest highest running_version allow_downgrade now
  unfolding check_freshness check_versions
  check_freshness-Fresh manifest highest running_version allow_downgrade now h =
      elim (Option-cases (parse_version manifest.version)) [
        | inl n ↦ ground arith
        | inr (t, e) ↦ elim (Option-cases (parse_version running_version)) [
          | inl n ↦ ground arith
          | inr (r, f) ↦ elim (Option-cases (clock.parse_time manifest.expires_at)) [
            | inl n ↦ ground arith
            | inr (x, g) ↦
                versions-Fresh manifest highest running_version allow_downgrade now x t r e f g h
          ]
        ]
      ]

  -- What a manifest that is offered has passed.
  pub record Offered (manifest : Manifest) (highest : ℕ) (running_version v : String) (now : Time)
      : Type 0 where
    pub version : v ≡ manifest.version
    pub target : Version
    pub running : Version
    pub target_version : parse_version manifest.version ≡ some target
    pub running_version_read : parse_version running_version ≡ some running
    pub newer : version_lt running target ≡ true
    pub fresh : check_freshness clock manifest highest running_version false now ≡ done tt

  versions-Offered :
      (manifest : Manifest) (highest : ℕ) (running_version v : String) (now : Time)
      (target running : Version)
      → parse_version manifest.version ≡ some target
      → parse_version running_version ≡ some running
      → evaluate_check clock manifest highest running_version now ≡ done (available v)
      → Offered manifest highest running_version v now
  unfolding evaluate_check
  versions-Offered manifest highest running_version v now target running t r h = record {
    version = ground arith;
    target = target;
    running = running;
    target_version = t;
    running_version_read = r;
    newer = ground arith;
    fresh = ground arith;
  }

  -- A check offers a version only if it is the manifest's, is newer than the running one, and the
  -- manifest would be accepted without allowing a downgrade.
  pub evaluate_check-Offered :
      (manifest : Manifest) (highest : ℕ) (running_version v : String) (now : Time)
      → evaluate_check clock manifest highest running_version now ≡ done (available v)
      → Offered manifest highest running_version v now
  unfolding evaluate_check
  evaluate_check-Offered manifest highest running_version v now h =
      elim (Option-cases (parse_version manifest.version)) [
        | inl n ↦ ground arith
        | inr (t, e) ↦ elim (Option-cases (parse_version running_version)) [
          | inl n ↦ ground arith
          | inr (r, f) ↦ versions-Offered manifest highest running_version v now t r e f h
        ]
      ]
