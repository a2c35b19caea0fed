-- ===== src/Tests/Sites.antt =====
-- The properties of the setup and the settings at a concrete site, with the identity as cipher.
use sub2api5hlimit.Base.{
  ℕ, ◌≡◌, ◌≢◌, refl, true, false, Option, none, some, [], ◌∷◌, codes, arith, trim_space,
}
use sub2api5hlimit.Store.Model.{Text}
use sub2api5hlimit.Store.Tx.{ok, err, setup_complete}
use sub2api5hlimit.Store.Users.{insert_user}
use sub2api5hlimit.Store.Setup.{
  Settings, SettingsRow, Site, set_setup_token, validate_setup_token, completed, checked_setup,
  complete_setup, get_settings, update_settings,
}
use sub2api5hlimit.Store.Setup.Token.{
  IsCurrent, complete_setup_once, IsChange, RotatesFree, update_settings_lem,
}
use sub2api5hlimit.Tests.{fresh}

abbrev keep : Text → Option Text
keep s = some s

keeps : (key cipher : Text) → keep key ≡ some cipher → keep cipher ≡ some key
keeps key cipher h = ground (arith, h)

abbrev chosen : Settings
chosen = record {
  connection_uuid = codes "c1";
  base_url = codes "http://up";
  admin_api_key = codes "k1";
  owner_user_id = 1;
  owner_label = [];
  allow_private_http = false;
}

abbrev new_site : Site
new_site = record {
  db = record fresh { key_bindings = [] };
  app_meta = record {
    setup_complete = false;
    setup_token_hash = some (codes "t");
    setup_token_expires_at = some 50;
  };
  settings = none;
  published = false ∷ [];
}

abbrev site : Site
site =
    (complete_setup keep keep (codes "t") (codes "root") (codes "Root") (codes "h") chosen 20
      new_site).0

completes :
    complete_setup keep keep
      (codes "t")
      (codes "root")
      (codes "Root")
      (codes "h")
      chosen
      20
      new_site
    ≡ (site, ok tt)
unfolding complete_setup checked_setup validate_setup_token insert_user trim_space
completes = refl

complete_setup_once_example :
    (false ≡ false)
    × IsCurrent (codes "t") 20 (some (codes "t")) (some 50)
    × (site.app_meta ≡ completed)
    × ((next : Text) (at : ℕ) → set_setup_token next at site ≡ (site, err setup_complete))
    × ((next u' d' p' : Text) (c' : Settings) (later : ℕ)
        → (complete_setup keep keep next u' d' p' c' later site).1 ≢ ok tt)
complete_setup_once_example =
    complete_setup_once keep keep (codes "t") (codes "root") (codes "Root") (codes "h") chosen 20
      new_site site completes

abbrev moved : Settings
moved = record chosen { connection_uuid = codes "c2"; admin_api_key = [] }

abbrev moved_site : Site
moved_site = (update_settings keep keep moved false true 30 site).0

updates : update_settings keep keep moved false true 30 site ≡ (moved_site, ok tt)
unfolding update_settings get_settings complete_setup checked_setup validate_setup_token insert_user
    trim_space
updates = refl

update_settings_lem_example :
    (old : SettingsRow) × (row : SettingsRow) × (get_settings keep keep site ≡ ok old)
    × (get_settings keep keep moved_site ≡ ok row)
    × IsChange keep keep moved false true 30 old.content row
    × RotatesFree keep keep true site moved_site
update_settings_lem_example =
    update_settings_lem keep keep keeps moved false true 30 site moved_site updates
