-- ===== src/Repository/Methods/Tests.antt =====
-- The repository on a concrete profile with two pages.
use android_streamdeck.Base.{◌≡◌, refl, true, none, some, List, [], ◌∷◌, arith}
use android_streamdeck.Base.Text.{codes}
use android_streamdeck.Base.Dict.{lookup, insert}
use android_streamdeck.Profile.{
  Profile, valid_key_name, valid_color, distinct_places, valid_action, valid_button,
  valid_button_layout, valid_page, valid_page_relationships, valid_profile,
}
use android_streamdeck.Profile.Sample.{any_url, page, deck}
use android_streamdeck.Repository.Store.{
  Error, updated, Db, Result, ok, err, revision_at, transaction, has_active, other_active,
  check_expected_revision, current_profile_row, replace_profile, insert_profile, insert_revision,
}
use android_streamdeck.Repository.Pages.{
  sort_pages, insert_sorted, number_from, insert_at, remove_page, reorder_in,
}
use android_streamdeck.Repository.Pages.Order.{IsMoved, reorder_in-IsMoved}
use android_streamdeck.Repository.Methods.{create_profile, create_body, mutate_profile}
use android_streamdeck.Repository.Methods.Invariant.{KeepsId}
use android_streamdeck.Repository.Methods.Invariant.Writes.{IsValid}
use android_streamdeck.Repository.Methods.Runs.{
  Write, create, rename, delete, move_page, new_db, perform, perform_all, repository-IsValid,
  perform-IsValid, new_db-IsValid,
}
use android_streamdeck.Repository.Methods.Archive.{archive_stays}
use android_streamdeck.Repository.Methods.Locking.{IsNext, mutation-IsNext}
use android_streamdeck.Repository.Methods.Updates.{stale_mutation_refused}

abbrev writes : List Write
writes =
    create deck 100
    ∷ rename 7 (codes "desk") 1 101
    ∷ move_page 7 21 0 2 102
    ∷ delete 7 3 none 103
    ∷ []

repository-IsValid_example : IsValid (perform_all any_url writes new_db)
repository-IsValid_example = repository-IsValid any_url writes

abbrev moved : Profile
moved = record deck { pages = page 21 0 ∷ page 20 1 ∷ [] }

moved_runs : reorder_in 21 0 deck ≡ ok moved
unfolding reorder_in sort_pages insert_sorted number_from insert_at remove_page
moved_runs = refl

reorder_in-IsMoved_example :
    IsMoved 21 0 deck.pages moved.pages × (moved ≡ record deck { pages = moved.pages })
reorder_in-IsMoved_example = reorder_in-IsMoved 21 0 deck moved moved_runs

abbrev stored : Db
stored = perform any_url (create deck 100) new_db

abbrev renaming : Profile → Result Profile
renaming w = ok (record w { name = codes "desk" })

abbrev renamed : Profile
renamed = record deck { name = codes "desk"; revision = 2 }

abbrev after : Db
after = (mutate_profile any_url 7 1 updated renaming 101 stored).1

renamed_runs : mutate_profile any_url 7 1 updated renaming 101 stored ≡ (ok renamed, after)
unfolding mutate_profile transaction current_profile_row check_expected_revision replace_profile
    insert_revision revision_at has_active other_active insert lookup perform create_profile
    create_body insert_profile valid_profile valid_page valid_button valid_button_layout
    valid_page_relationships valid_action valid_key_name valid_color distinct_places
renamed_runs = refl

renaming-KeepsId : KeepsId renaming
renaming-KeepsId w w' h = ground arith

mutation-IsNext_example :
    (valid_profile any_url renamed ≡ true) × IsNext any_url 7 1 renaming stored renamed after
mutation-IsNext_example =
    mutation-IsNext any_url 7 1 updated renaming 101 stored after renamed renaming-KeepsId
      (perform-IsValid any_url (create deck 100) new_db new_db-IsValid) renamed_runs

deck_snapshot : revision_at 7 1 stored.revisions ≡ some deck
unfolding transaction insert_revision revision_at has_active other_active insert lookup perform
    create_profile create_body insert_profile valid_profile valid_page valid_button
    valid_button_layout valid_page_relationships valid_action valid_key_name valid_color
    distinct_places
deck_snapshot = refl

stale_mutation_refused_example :
    (let db2 = perform_all any_url (move_page 7 21 0 2 102 ∷ []) after in
      (e : Error) × (mutate_profile any_url 7 1 updated renaming 103 db2 ≡ (err e, db2)))
stale_mutation_refused_example =
    stale_mutation_refused any_url 7 1 updated updated renaming renaming 101 103 stored after
      renamed (move_page 7 21 0 2 102 ∷ []) renaming-KeepsId renaming-KeepsId
      (perform-IsValid any_url (create deck 100) new_db new_db-IsValid) renamed_runs (refl, tt)

archive_stays_example :
    revision_at 7 1
      (perform_all any_url
        (rename 7 (codes "desk") 1 101 ∷ move_page 7 21 0 2 102 ∷ [])
        stored).revisions
    ≡ some deck
archive_stays_example =
    archive_stays any_url 7 1 deck (rename 7 (codes "desk") 1 101 ∷ move_page 7 21 0 2 102 ∷ [])
      stored (refl, (refl, tt)) deck_snapshot
