-- ===== src/Sanitize/Homes.antt =====
-- The names of home directories in the texts of `redact` in cc_mqtt_monitor/sanitize.py.
use mathlib.Core.Path.{subst}
use cc_rms_mqtt_monitor.Base.{
  ℕ, zero, suc, ◌-◌, ◌≡◌, ◌≢◌, ◌⊎◌, inl, inr, refl, sym, ap, ◌∙◌, Bool, true, false, not, ◌&&◌,
  ◌||◌, Option, none, some, List, [], ◌∷◌, ◌++◌, ◌==◌, if◌then◌else◌, codes, mem, length, arith,
  Bool-cases,
}
use cc_rms_mqtt_monitor.Sanitize.Matching.{
  Place, ends, take_one, each, repeat, literal, at_least_one,
}
use cc_rms_mqtt_monitor.Sanitize.{
  Unicode, name_char, home_rule, match_at, in_leads, in_kept, in_tails, replacement, first_n, sub,
  sub_all, patterns, redact,
}

-- what follows the first text where the second starts with it
unfoldable pub after : List ℕ → List ℕ → Option (List ℕ)
after [] s = some s
after (c ∷ p) [] = none
after (c ∷ p) (d ∷ s) = let rest = after p s in if d == c then rest else none

-- Whether what follows the directory of the homes is the name of a user, and not "~".
unfoldable pub names_user : Unicode → Option (List ℕ) → Bool
names_user u none = false
names_user u (some []) = false
names_user u (some (c ∷ s)) = name_char u c && not (c == b'~')

unfoldable pub starts_home : Unicode → List ℕ → Bool
starts_home u s =
    names_user u (after (codes "/home/") s) || names_user u (after (codes "/Users/") s)

-- whether the name of a user can be read at some place of the text
unfoldable pub shows_home : Unicode → List ℕ → Bool
shows_home u [] = false
shows_home u (c ∷ s) = starts_home u (c ∷ s) || shows_home u s

unfoldable pub shows_any : Unicode → Option (List ℕ) → Bool
shows_any u none = false
shows_any u (some text) = shows_home u text

after-cons :
    (c d : ℕ) (p s t : List ℕ) → after (c ∷ p) (d ∷ s) ≡ some t → (d ≡ c) × (after p s ≡ some t)
unfolding after
after-cons c d p s t e = ground arith

after-found :
    (c d : ℕ) (p s t : List ℕ) → d ≡ c → after p s ≡ some t → after (c ∷ p) (d ∷ s) ≡ some t
unfolding after
after-found c d p s t same e = ground arith

mem-rest : (n c : ℕ) (p : List ℕ) → mem n (c ∷ p) ≡ false → (c ≢ n) × (mem n p ≡ false)
unfolding mem
mem-rest n c p h = ground arith

after-append : (p s t : List ℕ) → after p s ≡ some t → s ≡ p ++ t
unfolding after
after-append [] s t e = cc e
after-append (c ∷ p) [] t e = cc e
after-append (c ∷ p) (d ∷ s) t e =
    let (same, rest) = after-cons c d p s t e in cc (same, after-append p s t rest)

is_nonempty : List Place → Bool
is_nonempty [] = false
is_nonempty (p ∷ ps) = true

nonempty-append : (ps qs : List Place) → is_nonempty (ps ++ qs) ≡ (is_nonempty ps || is_nonempty qs)
unfolding is_nonempty
nonempty-append [] qs = refl
nonempty-append (p ∷ ps) qs = refl

nonempty-repeat : (f : Place → List Place) (n : ℕ) (p : Place) → is_nonempty (repeat f n p) ≡ true
unfolding repeat is_nonempty
nonempty-repeat f zero p = refl
nonempty-repeat f (suc n) p = ground (arith, nonempty-append (each (repeat f n) (f p)) (p ∷ []))

minus_self : (n : ℕ) → n - n ≡ 0
minus_self n = omega arith

-- the places where a match of the pattern can end
abbrev home_ends : Unicode → Place → List Place
home_ends u p = ends (home_rule u).lead p

in_leads-home :
    (u : Unicode) (n : ℕ) (b : Place) (bs : List Place)
    → in_leads (home_rule u) n (b ∷ bs) ≡ some (b'~' ∷ [], n - length b.rest)
unfolding in_leads in_kept in_tails replacement first_n home_rule ends codes
in_leads-home u n b bs = rw (minus_self (length b.rest)) refl

match_at-none : (u : Unicode) (p : Place) → home_ends u p ≡ [] → match_at (home_rule u) p ≡ none
unfolding match_at in_leads
match_at-none u p e = ap (in_leads (home_rule u) (length p.rest)) e

match_at-some :
    (u : Unicode) (p b : Place) (bs : List Place)
    → home_ends u p ≡ b ∷ bs
    → match_at (home_rule u) p ≡ some (b'~' ∷ [], length p.rest - length b.rest)
unfolding match_at
match_at-some u p b bs e =
    ap (in_leads (home_rule u) (length p.rest)) e ∙ in_leads-home u (length p.rest) b bs

module _ (u : Unicode) where
  abbrev replaced : ℕ → Option ℕ → List ℕ → List ℕ
  replaced n before s = sub (home_rule u) n before s

  -- A place that no match starts at is copied, and a match becomes "~".
  abbrev Scanned : Option ℕ → ℕ → List ℕ → Type 0
  Scanned before c s =
      (home_ends u (record { before = before; rest = c ∷ s }) ≡ [])
        × (replaced 0 before (c ∷ s) ≡ c ∷ replaced 0 (some c) s)
      ⊎ (n : ℕ) × (replaced 0 before (c ∷ s) ≡ b'~' ∷ replaced n (some c) s)

  Scanned-by :
      (before : Option ℕ) (c : ℕ) (s : List ℕ) (ps : List Place)
      → home_ends u (record { before = before; rest = c ∷ s }) ≡ ps
      → Scanned before c s
  unfolding sub
  Scanned-by before c s [] e =
      inl (e, rw (match_at-none u (record { before = before; rest = c ∷ s }) e, sub) refl)
  Scanned-by before c s (b ∷ bs) e = inr (
    length (c ∷ s) - length b.rest - 1,
    rw (match_at-some u (record { before = before; rest = c ∷ s }) b bs e, sub) refl,
  )

  sub_cases : (before : Option ℕ) (c : ℕ) (s : List ℕ) → Scanned before c s
  sub_cases before c s =
      Scanned-by before c s (home_ends u (record { before = before; rest = c ∷ s })) refl

  -- A text without "~" that the result starts with is copied from the start.
  after-sub :
      (p : List ℕ) (before : Option ℕ) (s t : List ℕ)
      → mem b'~' p ≡ false
      → after p (replaced 0 before s) ≡ some t
      → (b : Option ℕ) × (s' : List ℕ) × (after p s ≡ some s') × (replaced 0 b s' ≡ t)
  unfolding after mem sub
  after-sub [] before s t plain e = (before, s, refl, cc e)
  after-sub (c ∷ p) before [] t plain e = cc e
  after-sub (c ∷ p) before (d ∷ s) t plain e = elim (sub_cases before d s) [
    | inl (none_here, copied) ↦
        let (same, rest) = after-cons c d p (replaced 0 (some d) s) t (rw copied at e) in
        let (b, s', found, later) = after-sub p (some d) s t (mem-rest b'~' c p plain).1 rest in
        (b, s', after-found c d p s s' same found, later)
    | inr (n, hidden) ↦
        let (same, rest) = after-cons c b'~' p (replaced n (some d) s) t (rw hidden at e) in
        absurd ((mem-rest b'~' c p plain).0 (sym same))
  ]

  -- The pattern matches where a name follows the directory of the homes.
  home_ends-home :
      (before : Option ℕ) (c : ℕ) (s : List ℕ)
      → name_char u c ≡ true
      → is_nonempty (home_ends u (record { before = before; rest = codes "/home/" ++ c ∷ s }))
        ≡ true
  unfolding home_rule ends literal at_least_one each take_one codes
  home_ends-home before c s named = simp (named, nonempty-append, nonempty-repeat) refl

  home_ends-users :
      (before : Option ℕ) (c : ℕ) (s : List ℕ)
      → name_char u c ≡ true
      → is_nonempty (home_ends u (record { before = before; rest = codes "/Users/" ++ c ∷ s }))
        ≡ true
  unfolding home_rule ends literal at_least_one each take_one codes
  home_ends-users before c s named = simp (named, nonempty-append, nonempty-repeat) refl

  -- The two directories: without a "~", from a "/" on, and matched where a name follows.
  abbrev IsHomes : List ℕ → Type 0
  IsHomes p =
      (mem b'~' p ≡ false)
      × ((t : List ℕ) → after p (b'~' ∷ t) ≡ none)
      × ((before : Option ℕ) (c : ℕ) (s : List ℕ)
          → name_char u c ≡ true
          → is_nonempty (home_ends u (record { before = before; rest = p ++ c ∷ s })) ≡ true)

  names_user-some :
      (o : Option (List ℕ))
      → names_user u o ≡ true
      → (c : ℕ) × (t : List ℕ) × (o ≡ some (c ∷ t)) × (name_char u c ≡ true) × (c ≢ b'~')
  unfolding names_user
  names_user-some none h = cc h
  names_user-some (some []) h = cc h
  names_user-some (some (c ∷ t)) h = (c, t, refl, ground arith, ground arith)

  starts_copied :
      (b : Option ℕ) (s : List ℕ) (c : ℕ) (t : List ℕ)
      → replaced 0 b s ≡ c ∷ t
      → c ≢ b'~'
      → (s' : List ℕ) × (s ≡ c ∷ s')
  unfolding sub
  starts_copied b [] c t e differs = cc e
  starts_copied b (d ∷ s) c t e differs = elim (sub_cases b d s) [
    | inl (none_here, copied) ↦ let same : d ≡ c = cc (sym copied ∙ e) in (s, ap (λ x. x ∷ s) same)
    | inr (n, hidden) ↦ absurd (differs (cc (sym e ∙ hidden)))
  ]

  -- A text that the pattern matches starts with "~" in the result.
  starts_hidden :
      (before : Option ℕ) (s : List ℕ)
      → is_nonempty (home_ends u (record { before = before; rest = s })) ≡ true
      → (t : List ℕ) × (replaced 0 before s ≡ b'~' ∷ t)
  unfolding is_nonempty home_rule ends literal each take_one codes
  starts_hidden before [] h = cc h
  starts_hidden before (c ∷ s) h = elim (sub_cases before c s) [
    | inl (none_here, copied) ↦ cc (ap is_nonempty (sym none_here) ∙ h)
    | inr (n, hidden) ↦ (replaced n (some c) s, hidden)
  ]

  -- What stands after such a directory in the result was copied, so that the pattern did not match.
  nothing_after :
      (p : List ℕ) (before : Option ℕ) (s : List ℕ)
      → IsHomes p
      → names_user u (after p (replaced 0 before s)) ≡ false
  nothing_after p before s (plain, apart, matched) =
      elim (Bool-cases (names_user u (after p (replaced 0 before s)))) [
        | inr hidden ↦ hidden
        | inl named ↦
            let (c, t, at, legible, differs) =
              names_user-some (after p (replaced 0 before s)) named in
            let (b, s', found, later) = after-sub p before s (c ∷ t) plain at in
            let (s'', rest) = starts_copied b s' c t later differs in
            let whole = after-append p s (c ∷ s'') (found ∙ ap some rest) in
            let (t', hidden) = starts_hidden before s (
              subst (λ x. is_nonempty (home_ends u (record { before = before; rest = x })) ≡ true)
                (sym whole) (matched before c s'' legible)) in
            cc (sym at ∙ (ap (after p) hidden ∙ apart t'))
      ]

  home_directories-IsHomes : IsHomes (codes "/home/") × IsHomes (codes "/Users/")
  unfolding after mem codes
  home_directories-IsHomes =
      ((refl, (λ t. refl), home_ends-home), (refl, (λ t. refl), home_ends-users))

  starts_home-sub : (before : Option ℕ) (s : List ℕ) → starts_home u (replaced 0 before s) ≡ false
  unfolding starts_home
  starts_home-sub before s =
      simp
        (
          nothing_after (codes "/home/") before s home_directories-IsHomes.0,
          nothing_after (codes "/Users/") before s home_directories-IsHomes.1,
        )
        refl

  starts_home-tilde : (s : List ℕ) → starts_home u (b'~' ∷ s) ≡ false
  unfolding starts_home after codes names_user
  starts_home-tilde s = refl

  shows_home-sub :
      (n : ℕ) (before : Option ℕ) (s : List ℕ) → shows_home u (replaced n before s) ≡ false
  unfolding sub shows_home
  shows_home-sub n before [] = refl
  shows_home-sub (suc n) before (c ∷ s) = shows_home-sub n (some c) s
  shows_home-sub zero before (c ∷ s) = elim (sub_cases before c s) [
    | inl (none_here, copied) ↦
        let here : starts_home u (c ∷ replaced 0 (some c) s) ≡ false =
          ap (starts_home u) (sym copied) ∙ starts_home-sub before (c ∷ s) in
        ap (shows_home u) copied ∙ simp (here, shows_home-sub zero (some c) s) refl
    | inr (n, hidden) ↦
        rw hidden
          (simp (starts_home-tilde (replaced n (some c) s), shows_home-sub n (some c) s) refl)
  ]

-- No text that is redacted shows the name of a user after "/home/" or "/Users/": there stands the end,
-- a slash, white space or "~".
pub redact-home : (u : Unicode) (text : Option (List ℕ)) → shows_any u (redact u text) ≡ false
unfolding redact sub_all patterns shows_any shows_home
redact-home u none = refl
redact-home u (some []) = refl
redact-home u (some (c ∷ s)) = shows_home-sub u 0 none _
