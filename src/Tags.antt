-- ===== src/Tags.antt =====
-- The tags of the sessions: state.rs. The map of sets is a list of lists without repetition; the
-- file that each change writes is left out.
pub mod Members
mod Tests
use wa_rs.Common.{
  Bool, true, false, not, ◌&&◌, String, List, [], ◌∷◌, ◌++◌, ◌==◌, any, keep, map, if◌then◌else◌,
}
use wa_rs.Jid.{trim}

abbrev pub Tags : Type 0
Tags = List (String × List String)

unfoldable pub tags_of : String → Tags → List String
tags_of session [] = []
tags_of session ((s, tags) ∷ rest) = if s == session then tags else tags_of session rest

unfoldable pub put_tags : String → List String → Tags → Tags
put_tags session tags [] = (session, tags) ∷ []
put_tags session tags ((s, old) ∷ rest) =
    let rest' = put_tags session tags rest in
    if s == session then (s, tags) ∷ rest else (s, old) ∷ rest'

unfoldable pub drop_session : String → Tags → Tags
drop_session session m = keep (λ (s, _). not (s == session)) m

abbrev pub is_in : String → List String → Bool
is_in tag tags = any (λ t. t == tag) tags

-- `HashSet::insert`.
unfoldable pub insert_tag : String → List String → List String
insert_tag tag tags = if is_in tag tags then tags else tags ++ tag ∷ []

unfoldable pub collect_tags : List String → List String
collect_tags [] = []
collect_tags (t ∷ ts) = insert_tag t (collect_tags ts)

abbrev pub is_blank : String → Bool
is_blank t = t == ""

abbrev pub cleaned : List String → List String
cleaned tags = keep (λ t. not (is_blank t)) (map trim tags)

-- An entry without a tag is removed.
unfoldable pub store_tags : String → List String → Tags → Tags
store_tags session [] m = drop_session session m
store_tags session (t ∷ ts) m = put_tags session (t ∷ ts) m

unfoldable pub set_tags : String → List String → Tags → Tags
set_tags session tags m = store_tags session (collect_tags (cleaned tags)) m

unfoldable pub add_tag : String → String → Tags → Bool × Tags
add_tag session tag m = if is_blank (trim tag) then (false, m) else (
  not (is_in (trim tag) (tags_of session m)),
  put_tags session (insert_tag (trim tag) (tags_of session m)) m,
)

unfoldable pub remove_tag : String → String → Tags → Bool × Tags
remove_tag session tag m = (
  is_in tag (tags_of session m),
  store_tags session (keep (λ t. not (t == tag)) (tags_of session m)) m,
)

unfoldable pub sessions_with_tag : String → Tags → List String
sessions_with_tag tag m = map (λ (s, _). s) (keep (λ (_, tags). is_in tag tags) m)
