-- ===== src/Repository/Pages/Order.antt =====
-- Permutation, place and numbering of the pages in the mutation of `reorder_page`
-- (server/app/repositories/profiles.py).
use mathlib.Core.List.{Perm}
use mathlib.Core.List.Perm
use android_streamdeck.Base.{
  ℕ, suc, zero, ◌≤◌, ◌<◌, ◌≡◌, refl, ap, ◌∙◌, Option, none, some, List, [], ◌∷◌, arith, map, length,
  leb, ltb, ◌==◌, ltb→lt, Bool-cases, inl, inr,
}
use android_streamdeck.Profile.{Page, Profile, page_ids, page_orders}
use android_streamdeck.Repository.Store.{ok}
use android_streamdeck.Repository.Pages.{
  insert_sorted, sort_pages, remove_page, insert_at, number_from, page_with, move_selected,
  reorder_in,
}

-- `start`, `start + 1` and so on, `n` numbers
abbrev pub count_up : ℕ → ℕ → List ℕ
count_up start zero = []
count_up start (suc n) = start ∷ count_up (suc start) n

abbrev pub get_elem? : List ℕ → ℕ → Option ℕ
get_elem? [] i = none
get_elem? (x ∷ xs) zero = some x
get_elem? (x ∷ xs) (suc i) = get_elem? xs i

page_orders-number_from :
    (i : ℕ) (ps : List Page) → page_orders (number_from i ps) ≡ count_up i (length ps)
unfolding number_from
page_orders-number_from i [] = refl
page_orders-number_from i (p ∷ ps) = ap (λ (l : List ℕ). i ∷ l) (page_orders-number_from (suc i) ps)

page_ids-number_from : (i : ℕ) (ps : List Page) → page_ids (number_from i ps) ≡ page_ids ps
unfolding number_from
page_ids-number_from i [] = refl
page_ids-number_from i (p ∷ ps) = ap (λ (l : List ℕ). p.id ∷ l) (page_ids-number_from (suc i) ps)

page_with-id : (id : ℕ) (ps : List Page) (p : Page) → page_with id ps ≡ some p → p.id ≡ id
page_with-id id [] p e = cc
page_with-id id (q ∷ qs) p e = ground (arith, page_with-id id qs p)

get_elem?-insert_at :
    (i : ℕ) (p : Page) (ps : List Page)
    → i ≤ length ps
    → get_elem? (page_ids (insert_at i p ps)) i ≡ some p.id
unfolding insert_at
get_elem?-insert_at zero p ps h = refl
get_elem?-insert_at (suc i) p [] h = absurd (omega arith)
get_elem?-insert_at (suc i) p (q ∷ qs) h = get_elem?-insert_at i p qs (omega arith)

length-insert_sorted : (p : Page) (ps : List Page) → length (insert_sorted p ps) ≡ suc (length ps)
unfolding insert_sorted
length-insert_sorted p [] = refl
length-insert_sorted p (q ∷ qs) = ground (arith, length-insert_sorted p qs)

length-sort_pages : (ps : List Page) → length (sort_pages ps) ≡ length ps
unfolding sort_pages
length-sort_pages [] = refl
length-sort_pages (p ∷ ps) =
    omega (arith, length-insert_sorted p (sort_pages ps), length-sort_pages ps)

length-remove_page :
    (id : ℕ) (ps : List Page) (p : Page)
    → page_with id ps ≡ some p
    → suc (length (remove_page id ps)) ≡ length ps
unfolding remove_page
length-remove_page id [] p e = cc
length-remove_page id (q ∷ qs) p e = ground (arith, length-remove_page id qs p)

length-insert_at : (i : ℕ) (p : Page) (ps : List Page) → length (insert_at i p ps) ≡ suc (length ps)
unfolding insert_at
length-insert_at zero p ps = refl
length-insert_at (suc i) p [] = refl
length-insert_at (suc i) p (q ∷ qs) = ap suc (length-insert_at i p qs)

-- A page without its place.
abbrev pub content : Page → Page
content p = record p { order = 0 }

content-number_from : (i : ℕ) (ps : List Page) → map content (number_from i ps) ≡ map content ps
unfolding number_from
content-number_from i [] = refl
content-number_from i (p ∷ ps) =
    ap (λ (l : List Page). content p ∷ l) (content-number_from (suc i) ps)

content-insert_sorted :
    (p : Page) (ps : List Page)
    → Perm (map content (insert_sorted p ps)) (content p ∷ map content ps)
unfolding insert_sorted
content-insert_sorted p [] = Perm.refl _
content-insert_sorted p (q ∷ qs) = elim (Bool-cases (leb p.order q.order)) [
  | inl e ↦ rw e (Perm.refl _)
  | inr e ↦ rw e (
      Perm.trans (Perm.cons (content q) (content-insert_sorted p qs))
        (Perm.swap (content p) (content q) _))
]

content-sort_pages : (ps : List Page) → Perm (map content (sort_pages ps)) (map content ps)
unfolding sort_pages
content-sort_pages [] = Perm.refl _
content-sort_pages (p ∷ ps) =
    Perm.trans (content-insert_sorted p (sort_pages ps))
      (Perm.cons (content p) (content-sort_pages ps))

content-remove_page :
    (id : ℕ) (ps : List Page) (p : Page)
    → page_with id ps ≡ some p
    → Perm (content p ∷ map content (remove_page id ps)) (map content ps)
unfolding remove_page
content-remove_page id [] p e = cc
content-remove_page id (q ∷ qs) p e = elim (Bool-cases (q.id == id)) [
  | inl found ↦ let same : q ≡ p = ground (arith, found) in rw found (rw (← same) (Perm.refl _))
  | inr other ↦ rw other (
      Perm.trans (Perm.swap (content q) (content p) _)
        (Perm.cons (content q) (content-remove_page id qs p (rw other at e))))
]

content-insert_at :
    (i : ℕ) (p : Page) (ps : List Page)
    → Perm (map content (insert_at i p ps)) (content p ∷ map content ps)
unfolding insert_at
content-insert_at zero p ps = Perm.refl _
content-insert_at (suc i) p [] = Perm.refl _
content-insert_at (suc i) p (q ∷ qs) =
    Perm.trans (Perm.cons (content q) (content-insert_at i p qs))
      (Perm.swap (content p) (content q) _)

-- The pages after a move, from those before it.
pub record IsMoved (page_id order : ℕ) (before after : List Page) : Type 0 where
  -- No page is lost, added or doubled, and each keeps all but its place.
  pub same_pages : Perm (map content after) (map content before)
  -- The page stands where it was asked for.
  pub in_place : get_elem? (page_ids after) order ≡ some page_id
  -- The orders are 0, 1 and so on, as the pages stand.
  pub numbered : page_orders after ≡ count_up 0 (length before)

IsMoved-selected :
    (page_id order : ℕ) (ps : List Page) (p : Page)
    → page_with page_id ps ≡ some p
    → order < length ps
    → IsMoved page_id order ps (number_from 0 (insert_at order p (remove_page page_id ps)))
IsMoved-selected page_id order ps p found h =
    let rest = remove_page page_id ps in
    let new = insert_at order p rest in
    let len = length-remove_page page_id ps p found in
    let same = page_with-id page_id ps p found in
    record {
      same_pages =
          rw (content-number_from 0 new)
            (Perm.trans (content-insert_at order p rest) (content-remove_page page_id ps p found));
      in_place =
          rw page_ids-number_from
            (get_elem?-insert_at order p rest (omega (arith, len)) ∙ ap some same);
      numbered =
          page_orders-number_from 0 new
          ∙ ap (count_up 0) (omega (arith, len, length-insert_at order p rest));
    }

reorder_sorted :
    (page_id order : ℕ) (w w' : Profile) (o : Option Page)
    → page_with page_id (sort_pages w.pages) ≡ o
    → order < length (sort_pages w.pages)
    → move_selected page_id order (sort_pages w.pages) w o ≡ ok w'
    → IsMoved page_id order (sort_pages w.pages) w'.pages × (w' ≡ record w { pages = w'.pages })
reorder_sorted page_id order w w' none found h e = absurd (cc)
reorder_sorted page_id order w w' (some p) found h e =
    let moved = IsMoved-selected page_id order (sort_pages w.pages) p found h in
    let same : record w {
      pages = number_from 0 (insert_at order p (remove_page page_id (sort_pages w.pages)));
    }
        ≡ w' =
      ground arith in
    (rw (← same) moved, rw (← same) refl)

-- When `reorder_page`'s mutation succeeds, the pages are a permutation of those before it, with titles,
-- sizes and buttons as they were and only their orders changed, the page stands at the index that was asked for, the orders are 0, 1 and so on in the pages' sequence, and
-- nothing but the pages has changed.
pub reorder_in-IsMoved :
    (page_id order : ℕ) (w w' : Profile)
    → reorder_in page_id order w ≡ ok w'
    → IsMoved page_id order w.pages w'.pages × (w' ≡ record w { pages = w'.pages })
unfolding reorder_in
reorder_in-IsMoved page_id order w w' e =
    let sorted = sort_pages w.pages in
    elim (Bool-cases (ltb order (length sorted))) [
      | inl small ↦
          let r =
            reorder_sorted page_id order w w' (page_with page_id sorted) refl
              (ltb→lt order (length sorted) small) (rw small at e) in
          (
            record {
              same_pages = Perm.trans r.0.same_pages (content-sort_pages w.pages);
              in_place = r.0.in_place;
              numbered = r.0.numbered ∙ ap (count_up 0) (length-sort_pages w.pages);
            },
            r.1,
          )
      | inr large ↦ absurd (ground arith)
    ]
