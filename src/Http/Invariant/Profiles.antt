-- ===== src/Http/Invariant/Profiles.antt =====
-- The invariants across the profile routes of server/app/api.py.
use android_streamdeck.Base.{
  ℕ, ◌≡◌, refl, Bool, true, false, Option, none, some, List, Bool-cases, inl, inr,
}
use android_streamdeck.Profile.{Profile}
use android_streamdeck.Repository.Store.{Db, updated}
use android_streamdeck.Repository.Store as Store
use android_streamdeck.Repository.Methods as Methods
use android_streamdeck.Repository.Methods.Runs.{
  Write, create, duplicate, rename, activate, delete, add_page, retitle_page, move_page,
  remove_page, save, perform, perform-IsValid,
}
use android_streamdeck.WebSocket.{
  new_world, ChangeReason, sessions_of_client, invalidate_client_sessions,
}
use android_streamdeck.WebSocket as WebSocket
use android_streamdeck.Http.{Config, Moment, Handler, internal, profile_missing}
use android_streamdeck.Http.Frame.{require-Keeps}
use android_streamdeck.Http.Profiles.{
  write_and_broadcast, list_profiles_route, create_profile_route, imported_profile,
  validate_profile_data, get_profile_route, get_profile_snapshot_route, export_profile_route,
  rename_profile_route, duplicate_profile_route, activate_profile_route, delete_profile_route,
  create_page_route, rename_page_route, reorder_page_route, delete_page_route,
  get_active_profile_route, import_profile_route, put_profile_route, get_profile_audit_route,
}
use android_streamdeck.Http.Routes.{
  Body, ProfileRoute, list_profiles, get_active_profile, get_action_catalog, create_profile,
  get_profile, get_profile_snapshot, export_profile, rename_profile, duplicate_profile,
  activate_profile, delete_profile, create_page, rename_page, reorder_page, delete_page,
  import_profile, put_profile, get_profile_audit, answer, serve_profile,
}
use android_streamdeck.Http.Invariant.{
  IsSound, KeepsSound, sound_then, found-Keeps, target_revision-Keeps, read-Keeps, write-Keeps,
  broadcast_event-Keeps, write_and_broadcast-Keeps,
}

module _ (n : ℕ) (c : Config) (m : Moment) where
  by_write :
      (about_page : Bool) (w : Write) (f : Db → Store.Result Profile × Db) (reason : ChangeReason)
      → ((db : Db) → (f db).1 ≡ perform c.valid_url w db)
      → KeepsSound n (write_and_broadcast c m about_page f reason)
  by_write about_page w f reason same =
      write_and_broadcast-Keeps n c m about_page f reason
        λ db v. rw (same db) (perform-IsValid c.valid_url w db v)

  delete_profile_route-Keeps :
      (id expected : ℕ) (other : Option ℕ)
      → KeepsSound n (delete_profile_route c m id expected other)
  unfolding delete_profile_route perform
  delete_profile_route-Keeps id expected other =
      sound_then n _ _ (read-Keeps n (Methods.get_profile c.valid_url id none)) λ (gone : Profile).
        sound_then n _ _
          (write-Keeps n false (Methods.delete_profile c.valid_url id expected other m.timestamp)
            (perform-IsValid c.valid_url (delete id expected other m.timestamp)))
          λ (deleted : ℕ).
            sound_then n _ _ (broadcast_event-Keeps n c m gone.id gone.revision WebSocket.deleted)
              λ u.
                sound_then n _ _ (read-Keeps n (Methods.get_active_profile c.valid_url))
                  λ (o : Option Profile).
                    sound_then n _ _ (found-Keeps n internal o) λ (active : Profile).
                      sound_then n _ _
                        (broadcast_event-Keeps n c m active.id active.revision WebSocket.updated)
                        λ u s v. v

  save_route-Keeps :
      (p : Profile) (expected : Option ℕ)
      → KeepsSound n (
          write_and_broadcast c m false
            (Methods.save_profile c.valid_url p expected updated m.timestamp)
            WebSocket.updated)
  unfolding perform
  save_route-Keeps p expected =
      by_write false (save p expected updated m.timestamp) _ WebSocket.updated λ db. refl

  imported_profile-Keeps : (o : Option Profile) → KeepsSound n (imported_profile c m o)
  imported_profile-Keeps none s v = v
  imported_profile-Keeps (some p) s v = elim (Bool-cases (validate_profile_data c m p)) [
    | inl e ↦ rw e v
    | inr e ↦ rw e v
  ]

  import_profile_route-Keeps :
      (size : ℕ) (payload : Option Profile) (expected : Option ℕ)
      → KeepsSound n (import_profile_route c m size payload expected)
  unfolding import_profile_route
  import_profile_route-Keeps size payload expected =
      sound_then n _ _ (require-Keeps (IsSound n) _ _) λ u.
        sound_then n _ _ (imported_profile-Keeps payload) λ (imported : Profile).
          sound_then n _ _ (read-Keeps n _) λ (current : Option Profile).
            sound_then n _ _ (target_revision-Keeps n current expected) λ (revision : ℕ).
              sound_then n _ _ (read-Keeps n _) λ (p : Profile). save_route-Keeps p expected

  put_profile_route-Keeps :
      (id : ℕ) (p : Profile) (expected : ℕ) → KeepsSound n (put_profile_route c m id p expected)
  unfolding put_profile_route
  put_profile_route-Keeps id p expected =
      sound_then n _ _ (require-Keeps (IsSound n) _ _) λ u. save_route-Keeps p (some expected)

  answer-Keeps :
      {A : Type 0} (f : A → Body) (h : Handler A) → KeepsSound n h → KeepsSound n (answer f h)
  answer-Keeps f h k = sound_then n h _ k λ a s v. v

  pub serve_profile-Keeps : (r : ProfileRoute) → KeepsSound n (serve_profile c m r)
  unfolding serve_profile perform list_profiles_route create_profile_route get_profile_route
      get_profile_snapshot_route export_profile_route rename_profile_route duplicate_profile_route
      activate_profile_route create_page_route rename_page_route reorder_page_route
      delete_page_route get_active_profile_route get_profile_audit_route
  serve_profile-Keeps list_profiles = answer-Keeps _ _ (
      sound_then n _ _ (read-Keeps n _)
        λ (ps : List Profile). sound_then n _ _ (read-Keeps n _) λ o s v. v)
  serve_profile-Keeps get_active_profile =
      answer-Keeps _ _ (sound_then n _ _ (read-Keeps n _) (found-Keeps n profile_missing))
  serve_profile-Keeps get_action_catalog = λ s v. v
  serve_profile-Keeps (create_profile p) =
      answer-Keeps _ _ (by_write false (create p m.timestamp) _ _ λ db. refl)
  serve_profile-Keeps (get_profile i) = answer-Keeps _ _ (read-Keeps n _)
  serve_profile-Keeps (get_profile_snapshot i revision) = answer-Keeps _ _ (read-Keeps n _)
  serve_profile-Keeps (export_profile i) = answer-Keeps _ _ (
      sound_then n _ _ (read-Keeps n _)
        λ (p : Profile). sound_then n _ _ (require-Keeps (IsSound n) _ _) λ u s v. v)
  serve_profile-Keeps (rename_profile i name expected) =
      answer-Keeps _ _ (by_write false (rename i name expected m.timestamp) _ _ λ db. refl)
  serve_profile-Keeps (duplicate_profile i j name expected) =
      answer-Keeps _ _
        (by_write false (duplicate i j (some expected) name m.timestamp) _ _ λ db. refl)
  serve_profile-Keeps (activate_profile i expected) =
      answer-Keeps _ _ (by_write false (activate i expected m.timestamp) _ _ λ db. refl)
  serve_profile-Keeps (delete_profile i expected other) =
      answer-Keeps _ _ (delete_profile_route-Keeps i expected other)
  serve_profile-Keeps (create_page i page expected) =
      answer-Keeps _ _ (by_write true (add_page i page expected m.timestamp) _ _ λ db. refl)
  serve_profile-Keeps (rename_page i j title expected) =
      answer-Keeps _ _ (by_write true (retitle_page i j title expected m.timestamp) _ _ λ db. refl)
  serve_profile-Keeps (reorder_page i j order expected) =
      answer-Keeps _ _ (by_write true (move_page i j order expected m.timestamp) _ _ λ db. refl)
  serve_profile-Keeps (delete_page i j other expected) =
      answer-Keeps _ _ (by_write true (remove_page i j expected other m.timestamp) _ _ λ db. refl)
  serve_profile-Keeps (import_profile size payload expected) =
      answer-Keeps _ _ (import_profile_route-Keeps size payload expected)
  serve_profile-Keeps (put_profile i p expected) =
      answer-Keeps _ _ (put_profile_route-Keeps i p expected)
  serve_profile-Keeps (get_profile_audit i limit) =
      answer-Keeps _ _ (sound_then n _ _ (read-Keeps n _) λ es s v. v)
