-- ===== src/Http/Refusal/Profiles.antt =====
-- Errors of the profile routes of server/app/api.py.
use android_streamdeck.Base.{
  ℕ, refl, Bool, true, false, Option, none, some, List, Bool-cases, inl, inr,
}
use android_streamdeck.Base.Text.{Text}
use android_streamdeck.Profile.{Page, Profile, valid_page}
use android_streamdeck.Repository.Store.{Tx, updated, transaction}
use android_streamdeck.Repository.Methods as Methods
use android_streamdeck.WebSocket.{
  new_world, ChangeReason, sessions_of_client, invalidate_client_sessions,
}
use android_streamdeck.WebSocket as WebSocket
use android_streamdeck.Http.{Config, Moment, Handler, profile_missing}
use android_streamdeck.Http.Frame.{
  IsSame-refl, Reads, IsClean, Reads-IsClean, require-Reads, Reads-then, IsClean-then, bind-IsSafe,
}
use android_streamdeck.Http.Profiles.{
  target_revision, write_and_broadcast, list_profiles_route, create_profile_route, imported_profile,
  validate_profile_data, get_profile_route, get_profile_snapshot_route, export_profile_route,
  rename_profile_route, duplicate_profile_route, activate_profile_route, delete_profile_route,
  create_page_route, rename_page_route, reorder_page_route, delete_page_route,
  get_active_profile_route, import_profile_route, put_profile_route, get_profile_audit_route,
}
use android_streamdeck.Http.Routes.{
  Body, ProfileRoute, list_profiles, get_active_profile, get_action_catalog, create_profile,
  get_profile, get_profile_snapshot, export_profile, rename_profile, duplicate_profile,
  activate_profile, delete_profile, create_page, rename_page, reorder_page, delete_page,
  import_profile, put_profile, get_profile_audit, answer, serve_profile,
}
use android_streamdeck.Http.Refusal.{
  RollsBack, transaction-RollsBack, write-IsClean, read-Reads, found-Reads, found-IsSafe,
  broadcast_event-IsSafe, write_and_broadcast-IsClean, read_active-IsSafe,
}

target_revision-Reads : (o : Option Profile) (e : Option ℕ) → Reads (target_revision o e)
target_revision-Reads none e s = IsSame-refl s
target_revision-Reads (some p) none s = IsSame-refl s
target_revision-Reads (some p) (some r) s = IsSame-refl s

create_page-RollsBack :
    (valid_url : Text → Bool) (i : ℕ) (page : Page) (expected now : ℕ)
    → RollsBack (Methods.create_page valid_url i page expected now)
unfolding Methods.create_page Methods.mutate_profile
create_page-RollsBack valid_url i page expected now db =
    elim (Bool-cases (valid_page valid_url page)) [
      | inl e ↦ rw e (transaction-RollsBack _ db)
      | inr e ↦ rw e refl
    ]

module _ (c : Config) (m : Moment) where
  by_transaction :
      (about_page : Bool) (t : Tx Profile) (reason : ChangeReason)
      → IsClean (write_and_broadcast c m about_page (transaction t) reason)
  by_transaction about_page t reason =
      write_and_broadcast-IsClean c m about_page (transaction t) reason (transaction-RollsBack t)

  save_route-IsClean :
      (p : Profile) (expected : Option ℕ)
      → IsClean (
          write_and_broadcast c m false
            (Methods.save_profile c.valid_url p expected updated m.timestamp)
            WebSocket.updated)
  unfolding Methods.save_profile
  save_route-IsClean p expected = by_transaction false _ WebSocket.updated

  delete_profile_route-IsClean :
      (id expected : ℕ) (other : Option ℕ) → IsClean (delete_profile_route c m id expected other)
  unfolding delete_profile_route Methods.delete_profile
  delete_profile_route-IsClean id expected other = Reads-then _ _ (read-Reads _) λ (gone : Profile).
      IsClean-then _ _ (write-IsClean false _ (transaction-RollsBack _)) λ (deleted : ℕ).
        bind-IsSafe _ _ (broadcast_event-IsSafe c m gone.id gone.revision WebSocket.deleted) λ u.
          bind-IsSafe _ _ (read_active-IsSafe c) λ (o : Option Profile).
            bind-IsSafe _ _ (found-IsSafe o) λ (active : Profile).
              bind-IsSafe _ _
                (broadcast_event-IsSafe c m active.id active.revision WebSocket.updated) λ u s. tt

  imported_profile-Reads : (o : Option Profile) → Reads (imported_profile c m o)
  imported_profile-Reads none s = IsSame-refl s
  imported_profile-Reads (some p) s = elim (Bool-cases (validate_profile_data c m p)) [
    | inl e ↦ rw e (IsSame-refl s)
    | inr e ↦ rw e (IsSame-refl s)
  ]

  import_profile_route-IsClean :
      (size : ℕ) (payload : Option Profile) (expected : Option ℕ)
      → IsClean (import_profile_route c m size payload expected)
  unfolding import_profile_route
  import_profile_route-IsClean size payload expected = Reads-then _ _ (require-Reads _ _) λ u.
      Reads-then _ _ (imported_profile-Reads payload) λ (imported : Profile).
        Reads-then _ _ (read-Reads _) λ (current : Option Profile).
          Reads-then _ _ (target_revision-Reads current expected) λ (revision : ℕ).
            Reads-then _ _ (read-Reads _) λ (p : Profile). save_route-IsClean p expected

  put_profile_route-IsClean :
      (id : ℕ) (p : Profile) (expected : ℕ) → IsClean (put_profile_route c m id p expected)
  unfolding put_profile_route
  put_profile_route-IsClean id p expected =
      Reads-then _ _ (require-Reads _ _) λ u. save_route-IsClean p (some expected)

  answer-IsClean : {A : Type 0} (f : A → Body) (h : Handler A) → IsClean h → IsClean (answer f h)
  answer-IsClean f h k = IsClean-then h _ k λ a s. tt

  pub serve_profile-IsClean : (r : ProfileRoute) → IsClean (serve_profile c m r)
  unfolding serve_profile list_profiles_route create_profile_route get_profile_route
      get_profile_snapshot_route export_profile_route rename_profile_route duplicate_profile_route
      activate_profile_route create_page_route rename_page_route reorder_page_route
      delete_page_route get_active_profile_route get_profile_audit_route Methods.create_profile
      Methods.duplicate_profile Methods.rename_profile Methods.activate_profile Methods.rename_page
      Methods.reorder_page Methods.delete_page Methods.mutate_profile
  serve_profile-IsClean list_profiles = answer-IsClean _ _ (
      Reads-then _ _ (read-Reads _)
        λ (ps : List Profile). Reads-then _ _ (read-Reads _) λ (o : Option Profile) s. tt)
  serve_profile-IsClean get_active_profile = answer-IsClean _ _ (
      Reads-then _ _ (read-Reads _)
        λ (o : Option Profile). Reads-IsClean _ (found-Reads profile_missing o))
  serve_profile-IsClean get_action_catalog = λ s. tt
  serve_profile-IsClean (create_profile p) = answer-IsClean _ _ (by_transaction false _ _)
  serve_profile-IsClean (get_profile i) = answer-IsClean _ _ (Reads-IsClean _ (read-Reads _))
  serve_profile-IsClean (get_profile_snapshot i revision) =
      answer-IsClean _ _ (Reads-IsClean _ (read-Reads _))
  serve_profile-IsClean (export_profile i) =
      answer-IsClean _ _ (
        Reads-then _ _ (read-Reads _) λ (p : Profile). Reads-then _ _ (require-Reads _ _) λ u s. tt)
  serve_profile-IsClean (rename_profile i name expected) =
      answer-IsClean _ _ (by_transaction false _ _)
  serve_profile-IsClean (duplicate_profile i j name expected) =
      answer-IsClean _ _ (by_transaction false _ _)
  serve_profile-IsClean (activate_profile i expected) =
      answer-IsClean _ _ (by_transaction false _ _)
  serve_profile-IsClean (delete_profile i expected other) =
      answer-IsClean _ _ (delete_profile_route-IsClean i expected other)
  serve_profile-IsClean (create_page i page expected) = answer-IsClean _ _ (
      write_and_broadcast-IsClean c m true _ _
        (create_page-RollsBack c.valid_url i page expected m.timestamp))
  serve_profile-IsClean (rename_page i j title expected) =
      answer-IsClean _ _ (by_transaction true _ _)
  serve_profile-IsClean (reorder_page i j order expected) =
      answer-IsClean _ _ (by_transaction true _ _)
  serve_profile-IsClean (delete_page i j other expected) =
      answer-IsClean _ _ (by_transaction true _ _)
  serve_profile-IsClean (import_profile size payload expected) =
      answer-IsClean _ _ (import_profile_route-IsClean size payload expected)
  serve_profile-IsClean (put_profile i p expected) =
      answer-IsClean _ _ (put_profile_route-IsClean i p expected)
  serve_profile-IsClean (get_profile_audit i limit) =
      answer-IsClean _ _ (Reads-then _ _ (read-Reads _) λ es s. tt)
