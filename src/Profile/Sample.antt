-- ===== src/Profile/Sample.antt =====
-- A profile with two pages, for the tests of the modules that keep profiles.
use android_streamdeck.Base.{ℕ, ◌≡◌, refl, Bool, true, none, [], ◌∷◌}
use android_streamdeck.Base.Text.{Text, codes}
use android_streamdeck.Profile.{
  key, Button, Page, Profile, valid_key_name, valid_color, distinct_places, valid_action,
  valid_button, valid_button_layout, valid_page, valid_page_relationships, valid_profile,
}

abbrev pub any_url : Text → Bool
any_url t = true

abbrev pub button : ℕ → Button
button i = record {
  id = i;
  row = 0;
  column = 0;
  title = codes "b";
  icon = none;
  color = none;
  action = key (codes "a");
}

abbrev pub page : ℕ → ℕ → Page
page i order = record {
  id = i;
  title = codes "p";
  order = order;
  rows = 1;
  columns = 2;
  buttons = button i ∷ [];
}

abbrev pub deck : Profile
deck = record {
  protocol_version = 1;
  id = 7;
  name = codes "deck";
  revision = 1;
  active_page_id = 20;
  pages = page 20 0 ∷ page 21 1 ∷ [];
}

pub deck_valid : valid_profile any_url deck ≡ true
unfolding valid_profile valid_page valid_button valid_button_layout valid_page_relationships
    valid_action valid_key_name valid_color distinct_places
deck_valid = refl
