-- ===== src/Designer/Discovery.antt =====
-- DesignerPage.tsx: the options of the dynamic fields in the settings of a card, which are asked for
-- anew whenever another data source is chosen. The requests of an earlier choice are cancelled: each
-- has the number of the run of the effect that sent it.
use mullet.Base.{
  ℕ, ◌+◌, ◌<◌, ◌≤◌, String, str_eq, Bool, true, false, ◌||◌, Option, none, some, List, [], ◌∷◌,
  or_else, All, All-map, if◌then◌else◌, ◌==◌, ◌≡◌, refl, ap, ◌∙◌, arith,
}
use mullet.Admin.Manifest.{FieldOption, set_at}
use mullet.Admin.Manifest.Laws.{has_key}

pub record DynamicOptions : Type 0 where
  pub options : String → Option (List FieldOption)
  pub loading : String → Bool
  -- The run of the effect whose requests count.
  pub run : ℕ

abbrev pub no_options : DynamicOptions
no_options = record { options = λ key. none; loading = λ key. false; run = 0 }

abbrev pub ask_all : List String → DynamicOptions → DynamicOptions
ask_all [] d = d
ask_all (key ∷ keys) d = ask_all keys (record d { loading = set_at key true d.loading })

abbrev ask_if : Option ℕ → List String → DynamicOptions → DynamicOptions
ask_if none keys d = d
ask_if (some id) keys d = ask_all keys d

-- The effect, once a data source or none is chosen; `keys` are those of the dynamic fields.
unfoldable pub choose : List String → Option ℕ → DynamicOptions → DynamicOptions
choose keys instance_id d = ask_if instance_id keys (record d { run = d.run + 1 })

-- An answer to a request: its run, its key, and the options that it lists, none if it failed.
pub record Answer : Type 0 where
  pub run : ℕ
  pub key : String
  pub options : Option (List FieldOption)

unfoldable pub receive : DynamicOptions → Answer → DynamicOptions
receive d a =
    if a.run == d.run
    then record d {
      options = set_at a.key (some (or_else a.options [])) d.options;
      loading = set_at a.key false d.loading;
    }
    else d

unfoldable pub receive_all : DynamicOptions → List Answer → DynamicOptions
receive_all d [] = d
receive_all d (a ∷ answers) = receive_all (receive d a) answers

ask_all-run : (keys : List String) (d : DynamicOptions) → (ask_all keys d).run ≡ d.run
ask_all-run [] d = refl
ask_all-run (key ∷ keys) d = ask_all-run keys (record d { loading = set_at key true d.loading })

loading_if : (a b c : Bool) → (b || (if a then true else c)) ≡ ((a || b) || c)
loading_if true true c = refl
loading_if true false c = refl
loading_if false b c = refl

ask_all-loading :
    (key : String) (keys : List String) (d : DynamicOptions)
    → (ask_all keys d).loading key ≡ (has_key key keys || d.loading key)
ask_all-loading key [] d = refl
ask_all-loading key (k ∷ keys) d =
    ask_all-loading key keys (record d { loading = set_at k true d.loading })
    ∙ loading_if (str_eq key k) (has_key key keys) (d.loading key)

-- Answers of runs before the present one change nothing.
receive_all-earlier :
    (d : DynamicOptions) (answers : List Answer)
    → All (λ a. a.run < d.run) answers
    → receive_all d answers ≡ d
unfolding receive_all receive
receive_all-earlier d [] _ = refl
receive_all-earlier d (a ∷ answers) (h, hs) =
    let other : (a.run == d.run) ≡ false = ground arith in
    rw other (receive_all-earlier d answers hs)

-- When no data source is chosen before the options of the last one have come, a dynamic field stays
-- loading, whatever answers still come to the requests that were sent.
pub choose-none_loads :
    (keys : List String) (key : String) (id : ℕ) (d : DynamicOptions) (answers : List Answer)
    → has_key key keys ≡ true
    → All (λ a. a.run ≤ (choose keys (some id) d).run) answers
    → (receive_all (choose keys none (choose keys (some id) d)) answers).loading key ≡ true
unfolding choose
choose-none_loads keys key id d answers k h =
    let last = choose keys none (choose keys (some id) d) in
    let asked : DynamicOptions = record d { run = d.run + 1 } in
    let earlier : All (λ a. a.run < last.run) answers = All-map (λ a l. omega arith) answers h in
    ap (λ x. x.loading key) (receive_all-earlier last answers earlier)
    ∙ ask_all-loading key keys asked
    ∙ rw k refl
