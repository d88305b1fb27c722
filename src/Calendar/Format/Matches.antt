-- ===== src/Calendar/Format/Matches.antt =====
-- ClockWidget.tsx: which alternative of CUSTOM_DATE_TOKENS a text begins with is the longest token there.
use mullet.Base.{
  ℕ, ◌≤◌, Text, codes, strip, All, Bool, true, false, ◌||◌, none, some, List, [], ◌∷◌, ◌++◌, length,
  leb, ◌==◌, if◌then◌else◌, ◌≡◌, ◌≢◌, refl, ap, subst, sym, ◌∙◌, arith, Option-cases, Bool-cases,
  inl, inr,
}
use mullet.Calendar.Format.{
  Token, full_year, short_year, long_month, short_month, padded_month, month, long_weekday,
  short_weekday, padded_day, day, tokens, match_token,
}

pub spelling : Token → Text
spelling full_year = codes "YYYY"
spelling short_year = codes "YY"
spelling long_month = codes "MMMM"
spelling short_month = codes "MMM"
spelling padded_month = codes "MM"
spelling month = codes "M"
spelling long_weekday = codes "dddd"
spelling short_weekday = codes "ddd"
spelling padded_day = codes "DD"
spelling day = codes "D"

abbrev pub Begins : Text → Text → Type 0
Begins s p = (rest : Text) × (s ≡ p ++ rest)

strip-append : (p s : Text) → strip p (p ++ s) ≡ some s
unfolding strip
strip-append [] s = refl
strip-append (c ∷ p) s = ground (arith, strip-append p s)

strip-rest : (p s r : Text) → strip p s ≡ some r → s ≡ p ++ r
unfolding strip
strip-rest [] s r h = cc
strip-rest (c ∷ p) [] r h = absurd (cc)
strip-rest (c ∷ p) (d ∷ s) r h = ground (arith, strip-rest p s r)

strip-Begins : (p s : Text) → strip p s ≡ none → ¬ Begins s p
strip-Begins p s h (rest, e) = absurd (cc (strip-append p rest, ap (strip p) e))

-- Two texts differ at a place that both have.
abbrev pub clash : Text → Text → Bool
clash (c ∷ p) (d ∷ q) = let rest = clash p q in if c == d then rest else true
clash _ _ = false

clash-apart : (p q a b : Text) → clash p q ≡ true → p ++ a ≢ q ++ b
clash-apart [] q a b h = absurd (cc)
clash-apart (c ∷ p) [] a b h = absurd (cc)
clash-apart (c ∷ p) (d ∷ q) a b h = elim (Bool-cases (c == d)) [
  | inl e ↦ λ same. clash-apart p q a b (rw e at h) (cc)
  | inr e ↦ λ same. absurd (ground arith)
]

-- A later name is no longer than an earlier one or differs from it.
abbrev pub yields : Text → Text × Token → Bool
yields p (q, u) = leb (length q) (length p) || clash p q

abbrev pub IsOrdered : List (Text × Token) → Type 0
IsOrdered [] = Unit
IsOrdered ((p, t) ∷ names) = All (λ b. yields p b ≡ true) names × IsOrdered names

-- No name that the text begins with is longer than this.
abbrev pub Covers : ℕ → Text → List (Text × Token) → Type 0
Covers n s names = All (λ b. Begins s b.0 → length b.0 ≤ n) names

yields-Covers :
    (p s rest : Text) (names : List (Text × Token))
    → s ≡ p ++ rest
    → All (λ b. yields p b ≡ true) names
    → Covers (length p) s names
yields-Covers p s rest [] e _ = tt
yields-Covers p s rest ((q, u) ∷ names) e (h, hs) = (
  λ (r, f). elim (Bool-cases (leb (length q) (length p))) [
    | inl short ↦ ground arith
    | inr long ↦ absurd (clash-apart p q rest r (rw long at h) (sym e ∙ f))
  ],
  yields-Covers p s rest names e hs,
)

pub match_token-longest :
    (names : List (Text × Token)) (s : Text) (t : Token) (rest : Text)
    → All (λ b. b.0 ≡ spelling b.1) names
    → IsOrdered names
    → match_token names s ≡ some (t, rest)
    → (s ≡ spelling t ++ rest) × Covers (length (spelling t)) s names
unfolding match_token
match_token-longest [] s t rest _ _ h = absurd (cc)
match_token-longest ((p, u) ∷ names) s t rest (e, es) (o, os) h = elim (Option-cases (strip p s)) [
  | inl n ↦
      let (begins, covers) = match_token-longest names s t rest es os (rw n at h) in
      (begins, ((λ b. absurd (strip-Begins p s n b)), covers))
  | inr (r, m) ↦
      let k = rw m at h in
      let at : p ≡ spelling t = cc in
      let begins : s ≡ p ++ rest = cc (strip-rest p s r m) in
      let covers = yields-Covers p s r names (strip-rest p s r m) o in
      (
        subst (λ q. s ≡ q ++ rest) at begins,
        subst (λ q. Covers (length q) s ((p, u) ∷ names)) at ((λ _. omega arith), covers),
      )
]

pub match_token-none :
    (names : List (Text × Token)) (s : Text)
    → match_token names s ≡ none
    → All (λ b. ¬ Begins s b.0) names
unfolding match_token
match_token-none [] s h = tt
match_token-none ((p, u) ∷ names) s h = elim (Option-cases (strip p s)) [
  | inl n ↦ (strip-Begins p s n, match_token-none names s (rw n at h))
  | inr (r, m) ↦ absurd (cc (rw m at h))
]

pub tokens-IsOrdered : IsOrdered tokens
tokens-IsOrdered = ground arith

pub tokens_spelled : All (λ b. b.0 ≡ spelling b.1) tokens
unfolding spelling
tokens_spelled = ground arith

-- What holds of each entry of the table holds of each token.
pub each :
    (P : Text → Type 0) → All (λ (b : Text × Token). P b.0) tokens → (u : Token) → P (spelling u)
unfolding spelling
each P (x, _) full_year = x
each P (_, (x, _)) short_year = x
each P (_, (_, (x, _))) long_month = x
each P (_, (_, (_, (x, _)))) short_month = x
each P (_, (_, (_, (_, (x, _))))) padded_month = x
each P (_, (_, (_, (_, (_, (x, _)))))) month = x
each P (_, (_, (_, (_, (_, (_, (x, _))))))) long_weekday = x
each P (_, (_, (_, (_, (_, (_, (_, (x, _)))))))) short_weekday = x
each P (_, (_, (_, (_, (_, (_, (_, (_, (x, _))))))))) padded_day = x
each P (_, (_, (_, (_, (_, (_, (_, (_, (_, (x, _)))))))))) day = x
