-- ===== src/Tags/Tests.antt =====
-- The tags at concrete sessions.
use wa_rs.Common.{◌≡◌, refl, String, List, [], ◌∷◌, ◌==◌, ◌&&◌, ◌||◌, not, map, if◌then◌else◌}
use wa_rs.Jid.{trim}
use wa_rs.Tags.{Tags, tags_of, put_tags, is_in, is_blank, set_tags, add_tag, remove_tag, store_tags}
use wa_rs.Tags.Members.{has, tags-has}

abbrev stored : Tags
stored = ("a", "red" ∷ "blue" ∷ []) ∷ ("b", "red" ∷ []) ∷ []

tags-has_example :
    (has "a" "red" (set_tags "a" (" red " ∷ "" ∷ []) stored) ≡ (
      if "a" == "a"
      then not (is_blank "red") && is_in "red" (map trim (" red " ∷ "" ∷ []))
      else has "a" "red" stored))
    × (has "a" "red" (add_tag "a" " green" stored).1
        ≡ has "a" "red" stored
          || (not (is_blank (trim " green")) && ("a" == "a") && (trim " green" == "red")))
    × (has "a" "red" (remove_tag "a" " green" stored).1
        ≡ has "a" "red" stored && not (("a" == "a") && (" green" == "red")))
tags-has_example = tags-has "a" "red" "a" " green" (" red " ∷ "" ∷ []) stored

run_remove : String → List String
unfolding remove_tag store_tags tags_of put_tags
run_remove tag = tags_of "a" (remove_tag "a" tag stored).1

red_removed : run_remove "red" ≡ "blue" ∷ []
unfolding run_remove
red_removed = refl
