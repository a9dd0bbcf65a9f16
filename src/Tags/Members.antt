-- ===== src/Tags/Members.antt =====
-- The tags as a relation between sessions and texts.
use wa_rs.Common.{
  ◌≡◌, refl, ap, ◌∙◌, Bool, true, not, ◌&&◌, ◌||◌, String, List, [], ◌∷◌, ◌++◌, ◌==◌, eq_iff, keep,
  map, arith, Bool-cases, inl, inr, if◌then◌else◌,
}
use wa_rs.Jid.{trim}
use wa_rs.Tags.{
  Tags, tags_of, put_tags, drop_session, is_in, insert_tag, collect_tags, is_blank, cleaned,
  store_tags, set_tags, add_tag, remove_tag,
}

-- The session has the tag.
abbrev pub has : String → String → Tags → Bool
has session tag m = is_in tag (tags_of session m)

tags_of-put_tags :
    (s session : String) (tags : List String) (m : Tags)
    → tags_of s (put_tags session tags m) ≡ (if session == s then tags else tags_of s m)
unfolding tags_of put_tags
tags_of-put_tags s session tags [] = refl
tags_of-put_tags s session tags ((k, old) ∷ rest) =
    ground
      (arith, tags_of-put_tags s session tags rest, eq_iff k session, eq_iff session s, eq_iff k s)

tags_of-drop_session :
    (s session : String) (m : Tags)
    → tags_of s (drop_session session m) ≡ (if session == s then [] else tags_of s m)
unfolding tags_of drop_session
tags_of-drop_session s session [] = ground arith
tags_of-drop_session s session ((k, old) ∷ rest) =
    ground
      (arith, tags_of-drop_session s session rest, eq_iff k session, eq_iff session s, eq_iff k s)

tags_of-store_tags :
    (s session : String) (tags : List String) (m : Tags)
    → tags_of s (store_tags session tags m) ≡ (if session == s then tags else tags_of s m)
unfolding store_tags
tags_of-store_tags s session [] m = tags_of-drop_session s session m
tags_of-store_tags s session (t ∷ ts) m = tags_of-put_tags s session (t ∷ ts) m

is_in-append : (t : String) (xs ys : List String) → is_in t (xs ++ ys) ≡ is_in t xs || is_in t ys
is_in-append t [] ys = refl
is_in-append t (x ∷ xs) ys = ground (arith, is_in-append t xs ys)

already :
    (t tag : String) (tags : List String)
    → is_in tag tags ≡ true
    → is_in t tags ≡ is_in t tags || (tag == t)
already t tag tags old = elim (Bool-cases (tag == t)) [
  | inl same ↦ ground (arith, ap (λ u. is_in u tags) ((eq_iff tag t).0 same), old)
  | inr other ↦ ground (arith, other)
]

is_in-insert_tag :
    (t tag : String) (tags : List String)
    → is_in t (insert_tag tag tags) ≡ is_in t tags || (tag == t)
unfolding insert_tag
is_in-insert_tag t tag tags = elim (Bool-cases (is_in tag tags)) [
  | inl old ↦ rw old (already t tag tags old)
  | inr new ↦ rw new (ground (arith, is_in-append t tags (tag ∷ [])))
]

is_in-remove :
    (t tag : String) (tags : List String)
    → is_in t (keep (λ u. not (u == tag)) tags) ≡ is_in t tags && not (tag == t)
is_in-remove t tag [] = refl
is_in-remove t tag (u ∷ tags) =
    ground (arith, is_in-remove t tag tags, eq_iff u tag, eq_iff u t, eq_iff tag t)

is_in-collect_tags : (t : String) (tags : List String) → is_in t (collect_tags tags) ≡ is_in t tags
unfolding collect_tags
is_in-collect_tags t [] = refl
is_in-collect_tags t (u ∷ tags) =
    ground (arith, is_in-collect_tags t tags, is_in-insert_tag t u (collect_tags tags))

is_in-cleaned :
    (t : String) (tags : List String)
    → is_in t (cleaned tags) ≡ not (is_blank t) && is_in t (map trim tags)
is_in-cleaned t [] = ground arith
is_in-cleaned t (u ∷ tags) =
    ground (arith, is_in-cleaned t tags, eq_iff (trim u) t, eq_iff (trim u) "", eq_iff t "")

is_in-stored :
    (s session t : String) (tags : List String) (m : Tags)
    → is_in t (if session == s then tags else tags_of s m)
      ≡ (if session == s then is_in t tags else has s t m)
is_in-stored s session t tags m = elim (Bool-cases (session == s)) [
  | inl hit ↦ rw hit refl
  | inr miss ↦ rw miss refl
]

tags_of-same :
    (s session t : String) (m : Tags)
    → (session == s) ≡ true
    → is_in t (tags_of session m) ≡ has s t m
tags_of-same s session t m hit = ap (λ k. is_in t (tags_of k m)) ((eq_iff session s).0 hit)

-- What the three changes do to every session and text: setting gives the session the trimmed texts
-- that are not blank, and no others; adding gives it the trimmed text, unless that is blank;
-- removing takes exactly that text from it. No other session's tags change.
pub tags-has :
    (s t session tag : String) (tags : List String) (m : Tags)
    → (has s t (set_tags session tags m)
        ≡ (if session == s then not (is_blank t) && is_in t (map trim tags) else has s t m))
      × (has s t (add_tag session tag m).1
          ≡ has s t m || (not (is_blank (trim tag)) && (session == s) && (trim tag == t)))
      × (has s t (remove_tag session tag m).1 ≡ has s t m && not ((session == s) && (tag == t)))
unfolding set_tags add_tag remove_tag
tags-has s t session tag tags m = (sets, adds, removes)
  where
    sets :
        is_in t (tags_of s (store_tags session (collect_tags (cleaned tags)) m))
        ≡ (if session == s then not (is_blank t) && is_in t (map trim tags) else has s t m)
    sets =
        ap (is_in t) (tags_of-store_tags s session (collect_tags (cleaned tags)) m)
        ∙ is_in-stored s session t (collect_tags (cleaned tags)) m
        ∙ ap (λ b. if session == s then b else has s t m)
            (is_in-collect_tags t (cleaned tags) ∙ is_in-cleaned t tags)

    put :
        is_in t (tags_of s (put_tags session (insert_tag (trim tag) (tags_of session m)) m))
        ≡ has s t m || ((session == s) && (trim tag == t))
    put =
        ap (is_in t) (tags_of-put_tags s session (insert_tag (trim tag) (tags_of session m)) m)
        ∙ is_in-stored s session t (insert_tag (trim tag) (tags_of session m)) m
        ∙ ground
            (arith, is_in-insert_tag t (trim tag) (tags_of session m), tags_of-same s session t m)

    adds :
        has s t (add_tag session tag m).1
        ≡ has s t m || (not (is_blank (trim tag)) && (session == s) && (trim tag == t))
    adds = elim (Bool-cases (is_blank (trim tag))) [
      | inl blank ↦ rw blank (ground arith)
      | inr text ↦ rw text put
    ]

    removes : has s t (remove_tag session tag m).1 ≡ has s t m && not ((session == s) && (tag == t))
    removes =
        ap (is_in t)
          (tags_of-store_tags s session (keep (λ u. not (u == tag)) (tags_of session m)) m)
        ∙ is_in-stored s session t (keep (λ u. not (u == tag)) (tags_of session m)) m
        ∙ ground (arith, is_in-remove t tag (tags_of session m), tags_of-same s session t m)
