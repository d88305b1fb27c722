-- ===== src/Admin/Clients/Offline.antt =====
-- admin/pages/ClientsPage.tsx: the page that a screen shows while it has no server. Its first line
-- is a comment that carries the title and the message in JSON, which the editor reads back.
-- `JSON.stringify` and `JSON.parse` of a string are parameters.
use mathlib.Core.List.{append_assoc}
use mullet.Base.Patterns.{is_line_end, lazy, FailsWithin, lazy-append}
use mullet.Base.{
  ℕ, Text, codes, strip, String, false, Option, none, some, List, [], ◌∷◌, ◌++◌, ◌==◌, ◌≡◌, ◌≢◌,
  if◌then◌else◌, refl, ap, ◌∙◌, sym, arith, All,
}

-- `s.replace(/c/g, t)`
unfoldable pub replace_all : ℕ → Text → Text → Text
replace_all c t [] = []
replace_all c t (d ∷ s) = (if d == c then t else d ∷ []) ++ replace_all c t s

unfoldable pub escape_html : Text → Text
escape_html s =
    replace_all 62 (codes "&gt;") (replace_all 60 (codes "&lt;") (replace_all 38 (codes "&amp;") s))

abbrev pub opening : Text
opening = codes "<!-- mullet-offline-screen title=\""

abbrev pub middle : Text
middle = codes "\" message=\""

abbrev pub closing : Text
closing = codes "\" -->"

abbrev pub then_message : Option Text → Option (Text × Text)
then_message none = none
then_message (some s) = lazy (strip closing) s

unfoldable pub after_title : Text → Option (Text × Text)
after_title s = then_message (strip middle s)

abbrev pub quoted : Text → Text
quoted s = 34 ∷ s ++ (34 ∷ [])

-- What stands between the quotes of the two groups of the regular expression.
abbrev pub match_title : Option Text → Option (Text × (Text × Text))
match_title none = none
match_title (some s) = lazy after_title s

unfoldable pub offline_match : Text → Option (Text × (Text × Text))
offline_match html = match_title (strip opening html)

-- Each line with the line feed that ends it.
abbrev pub lines : List String → Text
lines [] = []
lines (s ∷ ss) = codes s ++ (10 ∷ lines ss)

abbrev pub offline_head : List String
offline_head =
    "" ∷ "<!doctype html>" ∷ "<html><head><meta charset=\"utf-8\"><style>"
    ∷ "html,body{margin:0;height:100%;background:#0b0f14;color:#e6e9ee;font-family:system-ui,sans-serif;"
    ∷ "  display:flex;align-items:center;justify-content:center;flex-direction:column;gap:8px}"
    ∷ ".offline-time{font-size:4em;font-weight:700}" ∷ ".offline-date{opacity:0.7}"
    ∷ ".offline-name{font-size:1.4em;font-weight:600;margin-top:16px}"
    ∷ ".offline-badge{position:fixed;top:16px;right:20px;font-size:0.9em;opacity:0.6}"
    ∷ ".offline-note{opacity:0.5;font-size:0.9em;margin-top:24px}" ∷ "</style></head>" ∷ "<body>"
    ∷ "<div class=\"offline-badge\">&#9679; offline</div>"
    ∷ "<div class=\"offline-time\" id=\"t\"></div>" ∷ "<div class=\"offline-date\" id=\"d\"></div>"
    ∷ []

abbrev pub offline_script : List String
offline_script =
    "<script>" ∷ "function tick(){" ∷ "  var n=new Date();"
    ∷ "  document.getElementById('t').textContent=n.toLocaleTimeString([], {hour:'numeric',minute:'2-digit'});"
    ∷ "  document.getElementById('d').textContent=n.toLocaleDateString([], {weekday:'long',month:'long',day:'numeric'});"
    ∷ "}" ∷ "tick(); setInterval(tick, 1000);" ∷ "</script>" ∷ []

unfoldable pub offline_tail : Text → Text → Text
offline_tail title message =
    lines offline_head
    ++ codes "<div class=\"offline-name\">"
    ++ escape_html title
    ++ codes "</div>\n<div class=\"offline-note\">"
    ++ escape_html message
    ++ codes "</div>\n"
    ++ lines offline_script
    ++ codes "</body></html>"

-- `buildOfflineScreenHTML`
unfoldable pub build_offline : (Text → Text) → Text → Text → Text
build_offline stringify title message =
    codes "<!-- mullet-offline-screen title="
    ++ (stringify title
        ++ (codes " message="
            ++ (stringify message ++ (codes " -->" ++ offline_tail title message))))

abbrev pub both : Option Text → Option Text → Option (Text × Text)
both (some title) (some message) = some (title, message)
both (some _) none = none
both none _ = none

abbrev pub read_groups : (Text → Option Text) → Option (Text × (Text × Text)) → Option (Text × Text)
read_groups parse_json none = none
read_groups parse_json (some (title, (message, _))) =
    both (parse_json (quoted title)) (parse_json (quoted message))

-- `parseOfflineScreenHTML`
unfoldable pub parse_offline : (Text → Option Text) → Text → Option (Text × Text)
parse_offline parse_json html = read_groups parse_json (offline_match html)

-- What JSON writes between the quotes where it needs no escape.
abbrev pub IsPlain : Text → Type 0
IsPlain = All (λ c. (c ≢ 34) × (is_line_end c ≡ false))

IsPlain-FailsWithin :
    {A : Type 0} (rest : Text → Option A)
    → ((c : ℕ) (s : Text) → c ≢ 34 → rest (c ∷ s) ≡ none)
    → (e tail : Text) → IsPlain e
    → FailsWithin rest e tail
IsPlain-FailsWithin rest fails [] tail _ = tt
IsPlain-FailsWithin rest fails (c ∷ e) tail ((no_quote, no_end), hs) =
    (fails c (e ++ tail) no_quote, no_end, IsPlain-FailsWithin rest fails e tail hs)

strip-fails : (p : Text) (c : ℕ) (s : Text) → c ≢ 34 → strip (34 ∷ p) (c ∷ s) ≡ none
unfolding strip
strip-fails p c s h = ground arith

after_title-fails : (c : ℕ) (s : Text) → c ≢ 34 → after_title (c ∷ s) ≡ none
unfolding after_title
after_title-fails c s h = ap then_message (strip-fails (codes " message=\"") c s h)

closing-fails : (c : ℕ) (s : Text) → c ≢ 34 → strip closing (c ∷ s) ≡ none
closing-fails = strip-fails (codes " -->")

after_title-found :
    (f rest : Text) → IsPlain f → after_title (middle ++ (f ++ (closing ++ rest))) ≡ some (f, rest)
unfolding after_title strip
after_title-found f rest h =
    lazy-append (strip closing) f (closing ++ rest) rest
      (IsPlain-FailsWithin (strip closing) closing-fails f (closing ++ rest) h) refl

offline_match-found :
    (e f rest : Text)
    → IsPlain e
    → IsPlain f
    → offline_match (opening ++ (e ++ (middle ++ (f ++ (closing ++ rest))))) ≡ some (e, (f, rest))
unfolding offline_match strip
offline_match-found e f rest he hf =
    lazy-append after_title e (middle ++ (f ++ (closing ++ rest))) (f, rest)
      (IsPlain-FailsWithin after_title after_title-fails e (middle ++ (f ++ (closing ++ rest))) he)
      (after_title-found f rest hf)

module _ (stringify : Text → Text) (parse_json : Text → Option Text) where
  build_offline-plain :
      (title message e f : Text)
      → stringify title ≡ quoted e
      → stringify message ≡ quoted f
      → build_offline stringify title message
        ≡ opening ++ (e ++ (middle ++ (f ++ (closing ++ offline_tail title message))))
  unfolding build_offline
  build_offline-plain title message e f te tf =
      rw (te, tf)
        (ap (λ r. codes "<!-- mullet-offline-screen title=" ++ (34 ∷ r))
          (append_assoc e (34 ∷ []) (codes " message=" ++ (quoted f ++ (codes " -->" ++ tail)))
            ∙ ap (λ r. e ++ (middle ++ r)) (append_assoc f (34 ∷ []) (codes " -->" ++ tail))))
    where
      tail : Text
      tail = offline_tail title message

  -- JSON reads back what it writes, and it writes the title and the message with no escape of a
  -- quote and no line end: the editor reads them back from the page that it builds of them.
  pub parse-build_offline :
      (title message e f : Text)
      → ((s : Text) → parse_json (stringify s) ≡ some s)
      → stringify title ≡ quoted e
      → stringify message ≡ quoted f
      → IsPlain e
      → IsPlain f
      → parse_offline parse_json (build_offline stringify title message) ≡ some (title, message)
  unfolding parse_offline
  parse-build_offline title message e f inverse te tf he hf =
      rw
        (
          build_offline-plain title message e f te tf,
          offline_match-found e f (offline_tail title message) he hf,
          sym te,
          sym tf,
          inverse title,
          inverse message,
        )
        refl
