-- ===== src/Builtin/Tests.antt =====
-- The built-in profile on concrete tables.
use android_streamdeck.Base.{ℕ, ◌≡◌, refl, none, some}
use android_streamdeck.Base.Text.{codes}
use android_streamdeck.Base.Dict.{lookup, insert}
use android_streamdeck.Profile.{
  Profile, valid_key_name, valid_color, distinct_places, valid_action, valid_button,
  valid_button_layout, valid_page, valid_page_relationships, valid_profile,
}
use android_streamdeck.Profile.Sample.{any_url, deck}
use android_streamdeck.Repository.Store.{
  ok, transaction, revision_at, has_active, other_active, insert_revision, insert_profile,
}
use android_streamdeck.Repository.Methods.Runs.{new_db, create, perform}
use android_streamdeck.Repository.Methods.{create_profile, create_body}
use android_streamdeck.Builtin.{
  Installation, load_profile, current_profile_or_none, install_new, install_body,
  install_builtin_profiles,
}
use android_streamdeck.Builtin.Guards.{users_profile_stays, installed_once}

abbrev fixture : ℕ → Profile
fixture v = record deck { name = codes "built-in" }

-- The user's own profile has the id, and no start has left a marker.
abbrev taken : Installation
taken = record { marker = none; db = perform any_url (create deck 100) new_db }

users_profile_stays_example : (install_builtin_profiles any_url 7 fixture 101 taken).1.db ≡ taken.db
unfolding transaction insert_revision revision_at has_active other_active insert lookup perform
    create_profile create_body insert_profile valid_profile valid_page valid_button
    valid_button_layout valid_page_relationships valid_action valid_key_name valid_color
    distinct_places
users_profile_stays_example = users_profile_stays any_url 7 fixture 101 taken refl

abbrev empty : Installation
empty = record { marker = none; db = new_db }

abbrev installed : Installation
installed = (install_builtin_profiles any_url 7 fixture 100 empty).1

install_runs :
    install_builtin_profiles any_url 7 fixture 100 empty ≡ (ok (some (fixture 3)), installed)
unfolding install_builtin_profiles load_profile current_profile_or_none install_new install_body
    transaction insert_revision revision_at has_active other_active insert lookup insert_profile
    valid_profile valid_page valid_button valid_button_layout valid_page_relationships valid_action
    valid_key_name valid_color distinct_places
install_runs = refl

installed_once_example : (install_builtin_profiles any_url 7 fixture 101 installed).1 ≡ installed
installed_once_example =
    installed_once any_url 7 fixture 100 101 empty installed (some (fixture 3)) install_runs
