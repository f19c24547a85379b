-- ===== src/Repository/Methods/Runs.antt =====
-- Any sequence of writes on a new database, failing ones included.
use android_streamdeck.Base.{
  ℕ, ◌≡◌, refl, Bool, Option, none, some, List, [], ◌∷◌, arith, ap, Bool-cases, inl, inr,
}
use android_streamdeck.Base.Text.{Text}
use android_streamdeck.Base.Dict.{lookup}
use android_streamdeck.Profile.{Page, Profile, valid_page}
use android_streamdeck.Repository.Store.{Reason, updated, Db, Result, ok, err, revision_at}
use android_streamdeck.Repository.Store.Rows.{active_count}
use android_streamdeck.Repository.Pages.{
  insert_page, rename_in, reorder_in, delete_in, replace_active, without_page,
}
use android_streamdeck.Repository.Pages.Order.{reorder_in-IsMoved}
use android_streamdeck.Repository.Methods.{
  create_profile, duplicate_profile, rename_profile, create_page, rename_page, reorder_page,
  delete_page, activate_profile, delete_profile, save_profile, set_active_profile,
}
use android_streamdeck.Repository.Methods.Invariant.{
  KeepsId, create_profile-IsValid, duplicate_profile-IsValid, mutate_profile-IsValid,
  activate_profile-IsValid,
}
use android_streamdeck.Repository.Methods.Invariant.Writes.{IsValid}
use android_streamdeck.Repository.Methods.Deletion.{
  delete_profile-IsValid, save_profile-IsValid, set_active_profile-IsValid,
}

-- The methods that write, with their arguments; the last number is the time.
pub data Write : Type 0 where
  create : Profile → ℕ → Write
  duplicate : ℕ → ℕ → Option ℕ → Option Text → ℕ → Write
  rename : ℕ → Text → ℕ → ℕ → Write
  activate : ℕ → ℕ → ℕ → Write
  delete : ℕ → ℕ → Option ℕ → ℕ → Write
  add_page : ℕ → Page → ℕ → ℕ → Write
  retitle_page : ℕ → ℕ → Text → ℕ → ℕ → Write
  move_page : ℕ → ℕ → ℕ → ℕ → ℕ → Write
  remove_page : ℕ → ℕ → ℕ → Option ℕ → ℕ → Write
  save : Profile → Option ℕ → Reason → ℕ → Write
  select : ℕ → Write

insert_page-KeepsId : (valid_url : Text → Bool) (page : Page) → KeepsId (insert_page valid_url page)
unfolding insert_page
insert_page-KeepsId valid_url page w w' h = ground arith

rename_in-KeepsId : (page_id : ℕ) (title : Text) → KeepsId (rename_in page_id title)
unfolding rename_in
rename_in-KeepsId page_id title w w' h = ground arith

reorder_in-KeepsId : (page_id order : ℕ) → KeepsId (reorder_in page_id order)
reorder_in-KeepsId page_id order w w' h =
    let same = (reorder_in-IsMoved page_id order w w' h).1 in ap (λ (p : Profile). p.id) same

without_page-KeepsId :
    (page_id : ℕ) (r : Result Profile) (w w' : Profile)
    → ((v : Profile) → r ≡ ok v → v.id ≡ w.id)
    → without_page page_id r ≡ ok w'
    → w'.id ≡ w.id
without_page-KeepsId page_id (err e) w w' keeps h = cc
without_page-KeepsId page_id (ok v) w w' keeps h = ground (arith, keeps v refl)

replace_active-KeepsId : (page_id : ℕ) (o : Option ℕ) → KeepsId (replace_active page_id o)
unfolding replace_active
replace_active-KeepsId page_id none w w' h = ground arith
replace_active-KeepsId page_id (some r) w w' h = ground arith

delete_in-KeepsId : (page_id : ℕ) (o : Option ℕ) → KeepsId (delete_in page_id o)
unfolding delete_in
delete_in-KeepsId page_id o w w' h = ground (
  arith,
  without_page-KeepsId page_id (replace_active page_id o w) w w'
      (replace_active-KeepsId page_id o w),
)

create_page-IsValid :
    (valid_url : Text → Bool) (i : ℕ) (page : Page) (expected now : ℕ) (db : Db)
    → IsValid db
    → IsValid (create_page valid_url i page expected now db).1
unfolding create_page
create_page-IsValid valid_url i page expected now db v =
    elim (Bool-cases (valid_page valid_url page)) [
      | inl e ↦ rw e (
          mutate_profile-IsValid valid_url i expected updated (insert_page valid_url page) now db
            (insert_page-KeepsId valid_url page) v)
      | inr e ↦ rw e v
    ]

module _ (valid_url : Text → Bool) where
  -- The tables after the method, whether it returned or raised.
  unfoldable pub perform : Write → Db → Db
  perform (create p now) db = (create_profile valid_url p now db).1
  perform (duplicate i j expected name now) db =
      (duplicate_profile valid_url i j expected name now db).1
  perform (rename i name expected now) db = (rename_profile valid_url i name expected now db).1
  perform (activate i expected now) db = (activate_profile valid_url i expected now db).1
  perform (delete i expected other now) db = (delete_profile valid_url i expected other now db).1
  perform (add_page i page expected now) db = (create_page valid_url i page expected now db).1
  perform (retitle_page i j title expected now) db =
      (rename_page valid_url i j title expected now db).1
  perform (move_page i j order expected now) db =
      (reorder_page valid_url i j order expected now db).1
  perform (remove_page i j expected other now) db =
      (delete_page valid_url i j expected other now db).1
  perform (save p expected reason now) db = (save_profile valid_url p expected reason now db).1
  perform (select i) db = (set_active_profile i db).1

  pub perform-IsValid : (w : Write) (db : Db) → IsValid db → IsValid (perform w db)
  unfolding perform rename_profile rename_page reorder_page delete_page
  perform-IsValid (create p now) db v = create_profile-IsValid valid_url p now db v
  perform-IsValid (duplicate i j expected name now) db v =
      duplicate_profile-IsValid valid_url i j expected name now db v
  perform-IsValid (rename i name expected now) db v =
      mutate_profile-IsValid valid_url i expected updated (λ wire. ok (record wire { name = name }))
        now db (λ w w' h. ground arith) v
  perform-IsValid (activate i expected now) db v =
      activate_profile-IsValid valid_url i expected now db v
  perform-IsValid (delete i expected other now) db v =
      delete_profile-IsValid valid_url i expected other now db v
  perform-IsValid (add_page i page expected now) db v =
      create_page-IsValid valid_url i page expected now db v
  perform-IsValid (retitle_page i j title expected now) db v =
      mutate_profile-IsValid valid_url i expected updated (rename_in j title) now db
        (rename_in-KeepsId j title) v
  perform-IsValid (move_page i j order expected now) db v =
      mutate_profile-IsValid valid_url i expected updated (reorder_in j order) now db
        (reorder_in-KeepsId j order) v
  perform-IsValid (remove_page i j expected other now) db v =
      mutate_profile-IsValid valid_url i expected updated (delete_in j other) now db
        (delete_in-KeepsId j other) v
  perform-IsValid (save p expected reason now) db v =
      save_profile-IsValid valid_url p expected reason now db v
  perform-IsValid (select i) db v = set_active_profile-IsValid i db v

  unfoldable pub perform_all : List Write → Db → Db
  perform_all [] db = db
  perform_all (w ∷ ws) db = perform_all ws (perform w db)

  pub perform_all-IsValid : (ws : List Write) (db : Db) → IsValid db → IsValid (perform_all ws db)
  unfolding perform_all
  perform_all-IsValid [] db v = v
  perform_all-IsValid (w ∷ ws) db v = perform_all-IsValid ws (perform w db) (perform-IsValid w db v)

abbrev pub new_db : Db
new_db = record { profiles = []; revisions = [] }

pub new_db-IsValid : IsValid new_db
unfolding lookup revision_at active_count
new_db-IsValid = record {
  filed = record { keys = tt; recorded = λ id rev. refl; owned = λ id rev p h. absurd (cc) };
  one_active = refl;
}

-- After any writes on an empty database, failing ones included: exactly one profile is active if
-- there is any and none otherwise, no id has two rows, the revisions on record of a profile are 1 up
-- to its current one, those of an absent profile none, and each snapshot has the id and the revision
-- that it is stored under.
pub repository-IsValid :
    (valid_url : Text → Bool) (ws : List Write) → IsValid (perform_all valid_url ws new_db)
repository-IsValid valid_url ws = perform_all-IsValid valid_url ws new_db new_db-IsValid
