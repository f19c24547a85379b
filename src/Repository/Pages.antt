-- ===== src/Repository/Pages.antt =====
-- The page mutations of server/app/repositories/profiles.py: the functions `mutate` of
-- `create_page`, `rename_page`, `reorder_page` and `delete_page`, on the profile's wire form.
pub mod Order
use android_streamdeck.Base.{
  ℕ, suc, zero, ◌+◌, ◌≤◌, Bool, true, false, not, ◌&&◌, ◌||◌, Option, none, some, List, [], ◌∷◌,
  ◌++◌, map, length, any, find_first, ltb, leb, ◌==◌, is_none, is_value, if◌then◌else◌,
}
use android_streamdeck.Base.Text.{Text}
use android_streamdeck.Profile.{Page, Profile, valid_page, valid_profile}
use android_streamdeck.Repository.Store.{
  Result, ok, err, Error, bad_order, not_found, protected, invalid,
}

-- `item["order"] += 1` where the order is not below `order`
abbrev pub shift_from : ℕ → Page → Page
shift_from order p = if leb order p.order then record p { order = p.order + 1 } else p

-- `mutate` of `create_page`, with the validated page
unfoldable pub insert_page : (Text → Bool) → Page → Profile → Result Profile
insert_page valid_url page wire =
    if not (leb page.order (length wire.pages))
    then err bad_order
    else if any (λ p. p.id == page.id) wire.pages
        && not (valid_profile valid_url (record wire { pages = wire.pages ++ page ∷ [] }))
    then err invalid
    else ok (record wire { pages = map (shift_from page.order) wire.pages ++ page ∷ [] })

-- The loop of `rename_page`: the first page with the id.
unfoldable pub retitle : ℕ → Text → List Page → List Page
retitle page_id title [] = []
retitle page_id title (p ∷ ps) =
    if p.id == page_id then record p { title = title } ∷ ps else p ∷ retitle page_id title ps

-- `mutate` of `rename_page`
unfoldable pub rename_in : ℕ → Text → Profile → Result Profile
rename_in page_id title wire =
    if any (λ p. p.id == page_id) wire.pages
    then ok (record wire { pages = retitle page_id title wire.pages })
    else err not_found

-- `sorted(pages, key=lambda item: item["order"])`, by insertion, which is stable
unfoldable pub insert_sorted : Page → List Page → List Page
insert_sorted p [] = p ∷ []
insert_sorted p (q ∷ qs) = if leb p.order q.order then p ∷ q ∷ qs else q ∷ insert_sorted p qs

unfoldable pub sort_pages : List Page → List Page
sort_pages [] = []
sort_pages (p ∷ ps) = insert_sorted p (sort_pages ps)

-- `pages.remove(selected)`, where `selected` is the first page with the id
unfoldable pub remove_page : ℕ → List Page → List Page
remove_page page_id [] = []
remove_page page_id (p ∷ ps) = if p.id == page_id then ps else p ∷ remove_page page_id ps

-- `pages.insert(index, page)`
unfoldable pub insert_at : ℕ → Page → List Page → List Page
insert_at zero page ps = page ∷ ps
insert_at (suc i) page [] = page ∷ []
insert_at (suc i) page (p ∷ ps) = p ∷ insert_at i page ps

-- `for index, item in enumerate(pages, start): item["order"] = index`
unfoldable pub number_from : ℕ → List Page → List Page
number_from i [] = []
number_from i (p ∷ ps) = record p { order = i } ∷ number_from (suc i) ps

-- `next((item for item in pages if item["id"] == page_id), None)`
abbrev pub page_with : ℕ → List Page → Option Page
page_with page_id = find_first (λ p. p.id == page_id)

abbrev pub move_selected : ℕ → ℕ → List Page → Profile → Option Page → Result Profile
move_selected page_id order pages wire none = err not_found
move_selected page_id order pages wire (some selected) =
    ok
      (record wire { pages = number_from 0 (insert_at order selected (remove_page page_id pages)) })

-- `mutate` of `reorder_page`
unfoldable pub reorder_in : ℕ → ℕ → Profile → Result Profile
reorder_in page_id order wire =
    let pages = sort_pages wire.pages in
    if ltb order (length pages)
    then move_selected page_id order pages wire (page_with page_id pages)
    else err bad_order

-- The place of a page among the sorted ones, by its id.
abbrev pub position_of : ℕ → List Page → ℕ
position_of page_id [] = 0
position_of page_id (p ∷ ps) = if p.id == page_id then 0 else suc (position_of page_id ps)

abbrev pub place_in : List Page → Page → Page
place_in sorted p = record p { order = position_of p.id sorted }

-- `for index, item in enumerate(sorted(pages, …)): item["order"] = index`, which writes to the
-- pages where they stand
unfoldable pub renumber_in_place : List Page → List Page
renumber_in_place pages = map (place_in (sort_pages pages)) pages

-- The choice of the active page in `delete_page`.
unfoldable pub replace_active : ℕ → Option ℕ → Profile → Result Profile
replace_active page_id none wire = if page_id == wire.active_page_id then err protected else ok wire
replace_active page_id (some replacement) wire =
    if not (page_id == wire.active_page_id)
    then ok wire
    else if replacement == page_id
    then err protected
    else if any (λ p. p.id == replacement) wire.pages
    then ok (record wire { active_page_id = replacement })
    else err not_found

abbrev pub without_page : ℕ → Result Profile → Result Profile
without_page page_id (err e) = err e
without_page page_id (ok wire) =
    ok (record wire { pages = renumber_in_place (remove_page page_id wire.pages) })

-- `mutate` of `delete_page`
unfoldable pub delete_in : ℕ → Option ℕ → Profile → Result Profile
delete_in page_id replacement wire =
    if is_none (page_with page_id wire.pages)
    then err not_found
    else if leb (length wire.pages) 1
    then err protected
    else without_page page_id (replace_active page_id replacement wire)
