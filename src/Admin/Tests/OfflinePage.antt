-- ===== src/Admin/Tests/OfflinePage.antt =====
-- The page for a screen with no server at concrete inputs.
use mullet.Base.{
  Text, codes, strip, Bool, true, false, ◌||◌, Option, none, some, [], ◌∷◌, ◌++◌, ◌==◌, ◌≡◌,
  if◌then◌else◌, refl, arith,
}
use mullet.Base.Patterns.{is_line_end, lazy}
use mullet.Admin.Clients.Offline.{
  escape_html, replace_all, IsPlain, after_title, offline_match, quoted, build_offline,
  parse_offline, parse-build_offline,
}

-- A writer and a reader of strings in JSON that know the escapes of a quote and of a backslash.
abbrev escaped : Text → Text
escaped [] = []
escaped (c ∷ s) = let rest = escaped s in if c == 34 || c == 92 then 92 ∷ c ∷ rest else c ∷ rest

abbrev stringify : Text → Text
stringify s = quoted (escaped s)

abbrev cons : Text → Option Text → Option Text
cons c none = none
cons c (some s) = some (c ++ s)

abbrev read : Bool → Text → Option Text
read after [] = none
read true (c ∷ s) = cons (c ∷ []) (read false s)
read false (c ∷ s) =
    let rest = read false s in
    let escape = read true s in
    if c == 92 then escape else if c == 34 then some [] else cons (c ∷ []) rest

abbrev parse_json : Text → Option Text
parse_json [] = none
parse_json (_ ∷ s) = read false s

read-escaped : (s : Text) → read false (escaped s ++ (34 ∷ [])) ≡ some s
read-escaped [] = refl
read-escaped (c ∷ s) = ground (arith, read-escaped s)

escapes : escape_html (codes "a<b&c>") ≡ codes "a&lt;b&amp;c&gt;"
unfolding escape_html replace_all
escapes = refl

hi-IsPlain : IsPlain (codes "Hi")
unfolding is_line_end
hi-IsPlain = ((ground arith, refl), ((ground arith, refl), tt))

parse-build_offline_example :
    parse_offline parse_json (build_offline stringify (codes "Hi") (codes "Hi"))
    ≡ some (codes "Hi", codes "Hi")
parse-build_offline_example =
    parse-build_offline stringify parse_json (codes "Hi") (codes "Hi") (codes "Hi") (codes "Hi")
      read-escaped refl refl hi-IsPlain hi-IsPlain

-- A title that ends in a quote and ` message=` is not read back: the first group stops inside it.
loses_title :
    parse_offline parse_json (build_offline stringify (codes "\" message=") (codes "m")) ≡ none
unfolding parse_offline offline_match build_offline after_title lazy strip is_line_end
loses_title = refl
