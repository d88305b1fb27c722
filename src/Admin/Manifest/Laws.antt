-- ===== src/Admin/Manifest/Laws.antt =====
-- ManifestForm.tsx: the discovery of options, whatever the order of its answers.
use mullet.Base.{
  String, str_eq, Bool, true, false, not, ◌||◌, ◌&&◌, Option, none, some, List, [], ◌∷◌, any,
  or_else, ◌≡◌, ◌≢◌, ◌↔◌, refl, ap, sym, ◌∙◌, if◌then◌else◌, Bool-cases, inl, inr,
}
use mullet.Admin.Manifest.{
  SetupField, Discovery, DiscoverReply, FieldOption, FieldView, no_discovery, ask, ask_all,
  dynamic_keys, discover, settle, settle_all, options_of, field_view, loading, discovered_input,
  note_text,
}

abbrev pub has_key : String → List String → Bool
has_key key keys = any (λ k. str_eq key k) keys

abbrev pub replied : String → List (String × DiscoverReply) → Bool
replied key replies = any (λ r. str_eq key r.0) replies

-- The reply for a key that came last, or what was there before.
abbrev pub latest :
    String → Option (List FieldOption) → List (String × DiscoverReply) → Option (List FieldOption)
latest key before [] = before
latest key before ((k, reply) ∷ replies) =
    latest key (if str_eq key k then some (options_of reply) else before) replies

or_if : (a b c : Bool) → (b || (if a then true else c)) ≡ ((a || b) || c)
or_if true true c = refl
or_if true false c = refl
or_if false b c = refl

and_if : (a b c : Bool) → (not b && (if a then false else c)) ≡ (not (a || b) && c)
and_if true true c = refl
and_if true false c = refl
and_if false b c = refl

ask_all-discovering :
    (key : String) (keys : List String) (d : Discovery)
    → (ask_all keys d).discovering key ≡ (has_key key keys || d.discovering key)
unfolding ask
ask_all-discovering key [] d = refl
ask_all-discovering key (k ∷ keys) d =
    ask_all-discovering key keys (ask k d)
    ∙ or_if (str_eq key k) (has_key key keys) (d.discovering key)

ask_all-discovered :
    (key : String) (keys : List String) (d : Discovery)
    → (ask_all keys d).discovered key ≡ d.discovered key
unfolding ask
ask_all-discovered key [] d = refl
ask_all-discovered key (k ∷ keys) d = ask_all-discovered key keys (ask k d)

waiting : (b c : Bool) → (not b && c) ≡ true → b ≡ false
waiting true c e = cc
waiting false c e = refl

settle_all-discovering :
    (key : String) (replies : List (String × DiscoverReply)) (d : Discovery)
    → (settle_all replies d).discovering key ≡ (not (replied key replies) && d.discovering key)
unfolding settle_all settle
settle_all-discovering key [] d = refl
settle_all-discovering key ((k, reply) ∷ replies) d =
    settle_all-discovering key replies (settle k reply d)
    ∙ and_if (str_eq key k) (replied key replies) (d.discovering key)

settle_all-discovered :
    (key : String) (replies : List (String × DiscoverReply)) (d : Discovery)
    → (settle_all replies d).discovered key ≡ latest key (d.discovered key) replies
unfolding settle_all settle
settle_all-discovered key [] d = refl
settle_all-discovered key ((k, reply) ∷ replies) d =
    settle_all-discovered key replies (settle k reply d)

discovered_input-loads : (options : List FieldOption) → discovered_input options ≢ loading
unfolding discovered_input
discovered_input-loads [] = λ e. cc
discovered_input-loads (o ∷ options) = λ e. cc

view_loading :
    (can : Bool) (d : Discovery) (f : SetupField)
    → (field_view can d f ≡ loading) ↔ ((f.dynamic ≡ true) × (d.discovering f.key ≡ true))
unfolding field_view
view_loading can d f = elim (Bool-cases f.dynamic) [
  | inl h ↦ elim (Bool-cases (d.discovering f.key)) [
    | inl k ↦ rw (h, k) (λ e. (refl, refl), λ e. refl)
    | inr k ↦ rw (h, k) (λ e. absurd (asked can e), λ (_, e). cc)
  ]
  | inr h ↦ rw h (λ e. cc, λ (e, _). cc)
]
  where
    asked :
        (can : Bool)
        → (if not can
            then FieldView.note (note_text f.help_text)
            else discovered_input (or_else (d.discovered f.key) []))
          ≢ loading
    asked true = discovered_input-loads (or_else (d.discovered f.key) [])
    asked false = λ e. cc

-- Once the options of the dynamic fields of a manifest are asked for, a field says that it is loading
-- exactly if it is dynamic and no answer for its key has come, in whatever order the answers come; and
-- what is discovered for a key is what its latest answer lists, a failure being an empty list.
pub discovery_loads :
    (fields : List SetupField) (replies : List (String × DiscoverReply)) (f : SetupField)
    → has_key f.key (dynamic_keys fields) ≡ f.dynamic
    → ((field_view true (settle_all replies (discover true fields no_discovery)) f ≡ loading)
        ↔ ((f.dynamic ≡ true) × (replied f.key replies ≡ false)))
      × ((settle_all replies (discover true fields no_discovery)).discovered f.key
          ≡ latest f.key none replies)
unfolding discover no_discovery
discovery_loads fields replies f h =
    let asked = ask_all (dynamic_keys fields) no_discovery in
    let view = view_loading true (settle_all replies asked) f in
    let waits : (settle_all replies asked).discovering f.key
        ≡ (not (replied f.key replies) && (f.dynamic || false)) =
      settle_all-discovering f.key replies asked
      ∙ ap (λ b. not (replied f.key replies) && b)
          (ask_all-discovering f.key (dynamic_keys fields) no_discovery ∙ ap (λ b. b || false) h) in
    (
      (
        λ e.
            let (t, u) = view.0 e in
            (t, waiting (replied f.key replies) (f.dynamic || false) (sym waits ∙ u)),
        λ (t, u). view.1 (t, waits ∙ rw (u, t) refl),
      ),
      settle_all-discovered f.key replies asked
          ∙ ap (λ o. latest f.key o replies)
              (ask_all-discovered f.key (dynamic_keys fields) no_discovery),
    )
