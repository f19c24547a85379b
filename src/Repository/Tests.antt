-- ===== src/Repository/Tests.antt =====
-- A profile seeded twice.
use android_streamdeck.Base.{◌≡◌, refl, true, false, [], ◌∷◌}
use android_streamdeck.Base.Dict.{lookup, insert}
use android_streamdeck.Profile.{
  valid_key_name, valid_color, distinct_places, valid_action, valid_button, valid_button_layout,
  valid_page, valid_page_relationships, valid_profile,
}
use android_streamdeck.Profile.Sample.{any_url, deck}
use android_streamdeck.Repository.Store.{
  Db, ok, transaction, revision_at, has_active, other_active, insert_revision, insert_profile,
}
use android_streamdeck.Repository.Methods.Runs.{new_db}
use android_streamdeck.Repository.Seed.{seed_profile, seed_row}

abbrev seeded : Db
seeded = (seed_profile any_url deck 100 new_db).1

seed_runs : seed_profile any_url deck 100 new_db ≡ (ok deck, seeded)
unfolding seed_profile seed_row transaction insert_revision revision_at has_active other_active
    insert lookup insert_profile valid_profile valid_page valid_button valid_button_layout
    valid_page_relationships valid_action valid_key_name valid_color distinct_places
seed_runs = refl

final_newline_is_accepted :
    (valid_key_name (97 ∷ 10 ∷ []) ≡ true) × (valid_key_name (97 ∷ 10 ∷ 10 ∷ []) ≡ false)
unfolding valid_key_name
final_newline_is_accepted = (refl, refl)
