-- ===== src/Tests/Versions.antt =====
-- The properties of versions at concrete versions.
use sub2api5hlimit.Base.{◌≡◌, refl, none, some, [], ◌∷◌, codes, not, ◌↔◌, trim_space, trim_left}
use sub2api5hlimit.Version.Identifiers.{split, cut, is_numeric_identifier}
use sub2api5hlimit.Version.Updater.{SemVersion, same, parse_sem_version, compare_sem_version}
use sub2api5hlimit.Version.Portal.{
  Version, parse_version, validate_identifiers, validate_parts, at_least, is_less,
}
use sub2api5hlimit.Version.Updater.{
  less, compare_uint, compare_pre, compare_identifiers, compare_identifier,
  compare_numeric_identifier,
}
use sub2api5hlimit.Version.Transitive.{compare_sem_version_trans}
use sub2api5hlimit.Version.Order.{flip, compare_sem_version-flip, compare_sem_version-same}
use sub2api5hlimit.Version.Agree.{sem_version, at_least-agrees}

abbrev v1_2_0 : SemVersion
v1_2_0 = record { major = 1; minor = 2; patch = 0; pre = [] }

abbrev v1_2_0_rc : SemVersion
v1_2_0_rc = record v1_2_0 { pre = codes "rc" ∷ codes "10" ∷ [] }

parses : parse_sem_version (codes "1.2.0-rc.10+build.5") ≡ some v1_2_0_rc
unfolding parse_sem_version split cut is_numeric_identifier
parses = refl

refuses_leading_zero : parse_sem_version (codes "1.02.0") ≡ none
unfolding parse_sem_version split cut is_numeric_identifier
refuses_leading_zero = refl

compare_sem_version-flip_example :
    compare_sem_version v1_2_0_rc v1_2_0 ≡ flip (compare_sem_version v1_2_0 v1_2_0_rc)
compare_sem_version-flip_example = compare_sem_version-flip v1_2_0 v1_2_0_rc

compare_sem_version-same_example :
    (compare_sem_version v1_2_0 v1_2_0_rc ≡ same) ↔ (v1_2_0 ≡ v1_2_0_rc)
compare_sem_version-same_example = compare_sem_version-same v1_2_0 v1_2_0_rc

abbrev portal : Version
portal = record {
  raw = codes "v1.2.0-rc.10";
  major = 1;
  minor = 2;
  patch = 0;
  pre_release = codes "rc.10";
}

portal_parses : parse_version (codes " v1.2.0-rc.10\n") ≡ some portal
unfolding parse_version validate_identifiers validate_parts split cut is_numeric_identifier
    trim_space trim_left
portal_parses = refl

abbrev minimum : Version
minimum = record portal { pre_release = codes "rc.9" }

at_least-agrees_example :
    at_least portal minimum
    ≡ not (is_less (compare_sem_version (sem_version portal) (sem_version minimum)))
at_least-agrees_example = at_least-agrees portal minimum

abbrev rc_9 : SemVersion
rc_9 = record v1_2_0 { pre = codes "rc" ∷ codes "9" ∷ [] }

below : compare_sem_version rc_9 v1_2_0_rc ≡ less
unfolding compare_sem_version compare_uint compare_pre compare_identifiers compare_identifier
    compare_numeric_identifier is_numeric_identifier
below = refl

below_release : compare_sem_version v1_2_0_rc v1_2_0 ≡ less
unfolding compare_sem_version compare_uint compare_pre
below_release = refl

compare_sem_version_trans_example : compare_sem_version rc_9 v1_2_0 ≡ less
compare_sem_version_trans_example =
    compare_sem_version_trans rc_9 v1_2_0_rc v1_2_0 below below_release
