-- ===== src/Monitor/Slug/Words.antt =====
-- The handles that `_slug` of cc_mqtt_monitor/monitor.py gives, by the words of a name.
use cc_rms_mqtt_monitor.Base.{
  ℕ, ◌≡◌, ◌⊎◌, inl, inr, Bool-cases, refl, ap, sym, ◌∙◌, Bool, true, false, ◌||◌, Option, none,
  some, List, [], ◌∷◌, ◌==◌, if◌then◌else◌, arith,
}
use cc_rms_mqtt_monitor.Monitor.Slug.{
  is_alnum, collapse, lstrip_dash, is_nil, rstrip_dash, or_none, slug, starts_word, glue, words,
  joined, words_of,
}

-- The first word then starts with the character.
glue_shape :
    (c : ℕ) (on : Bool) (ws : List (List ℕ))
    → (w : List ℕ) × (vs : List (List ℕ)) × (glue c on ws ≡ (c ∷ w) ∷ vs)
unfolding glue
glue_shape c true [] = ([], [], refl)
glue_shape c true (w ∷ ws) = (w, ws, refl)
glue_shape c false ws = ([], ws, refl)

-- A text has no word, or a first one that starts with a letter or a digit.
words_shape :
    (s : List ℕ)
    → (words s ≡ [])
      ⊎ (c : ℕ) × (w : List ℕ) × (ws : List (List ℕ)) × (words s ≡ (c ∷ w) ∷ ws)
        × (is_alnum c ≡ true)
unfolding words
words_shape [] = inl refl
words_shape (c ∷ s) = elim (Bool-cases (is_alnum c)) [
  | inl word ↦
      let (w, ws, e) = glue_shape c (starts_word s) (words s) in inr (c, w, ws, rw word e, word)
  | inr gap ↦ rw gap (words_shape s)
]

starts_word-words :
    (s : List ℕ) → starts_word s ≡ true → (w : List ℕ) × (ws : List (List ℕ)) × (words s ≡ w ∷ ws)
unfolding words starts_word
starts_word-words [] h = cc h
starts_word-words (c ∷ s) h =
    let (w, ws, e) = glue_shape c (starts_word s) (words s) in (c ∷ w, ws, rw h e)

-- the words joined, after a dash where the text does not start with one
unfoldable lead : Bool → List (List ℕ) → List ℕ
lead true ws = joined ws
lead false [] = []
lead false (w ∷ ws) = b'-' ∷ joined (w ∷ ws)

joined-first :
    (c : ℕ) (w : List ℕ) (ws : List (List ℕ)) → joined ((c ∷ w) ∷ ws) ≡ c ∷ joined (w ∷ ws)
unfolding joined
joined-first c w [] = refl
joined-first c w (v ∷ ws) = refl

joined-glue :
    (c : ℕ) (s : List ℕ)
    → joined (glue c (starts_word s) (words s)) ≡ c ∷ lead (starts_word s) (words s)
unfolding lead joined glue
joined-glue c s = elim (Bool-cases (starts_word s)) [
  | inl on ↦ let (w, ws, e) = starts_word-words s on in simp (on, e, joined-first) refl
  | inr off ↦ elim (words_shape s) [
    | inl e ↦ simp (off, e) refl
    | inr (d, w, ws, e, word) ↦ simp (off, e) refl
  ]
]

dash_differs : (c : ℕ) → is_alnum c ≡ true → (c == b'-') ≡ false
unfolding is_alnum
dash_differs c h = ground arith

joined-nil :
    (s : List ℕ)
    → (words s ≡ [])
      ⊎ (w : List ℕ) × (ws : List (List ℕ)) × (words s ≡ w ∷ ws)
        × (is_nil (joined (w ∷ ws)) ≡ false)
unfolding is_nil
joined-nil s = elim (words_shape s) [
  | inl e ↦ inl e
  | inr (c, w, ws, e, word) ↦ inr (c ∷ w, ws, e, rw (joined-first c w ws) refl)
]

rstrip_dash-word :
    (c : ℕ) (s : List ℕ) → is_alnum c ≡ true → rstrip_dash (c ∷ s) ≡ c ∷ rstrip_dash s
unfolding rstrip_dash
rstrip_dash-word c s word = rw (dash_differs c word) refl

rstrip_dash-gap :
    (s : List ℕ)
    → rstrip_dash (b'-' ∷ s) ≡ (if is_nil (rstrip_dash s) then [] else b'-' ∷ rstrip_dash s)
unfolding rstrip_dash
rstrip_dash-gap s = refl

lead-or : (run : Bool) (ws : List (List ℕ)) → lead (run || true) ws ≡ joined ws
unfolding lead
lead-or true ws = refl
lead-or false ws = refl

-- a dash before what is left of a run
lead-dash :
    (s : List ℕ)
    → (if is_nil (joined (words s)) then [] else b'-' ∷ joined (words s)) ≡ lead false (words s)
unfolding lead
lead-dash s = elim (joined-nil s) [
  | inl e ↦ simp e (unfold joined is_nil in refl)
  | inr (w, ws, e, full) ↦ simp (e, full) refl
]

-- one more character of a run
in_gap :
    (run : Bool) (s : List ℕ)
    → rstrip_dash (collapse true s) ≡ lead true (words s)
    → rstrip_dash (if run then collapse true s else b'-' ∷ collapse true s)
      ≡ lead (run || false) (words s)
unfolding lead
in_gap true s ih = ih
in_gap false s ih = rstrip_dash-gap (collapse true s) ∙ simp ih (lead-dash s)

-- what is left of the collapsed text, where it goes on a run of other characters or not
rstrip-collapse :
    (run : Bool) (s : List ℕ) → rstrip_dash (collapse run s) ≡ lead (run || starts_word s) (words s)
unfolding collapse starts_word words
rstrip-collapse true [] = unfold rstrip_dash lead joined in refl
rstrip-collapse false [] = unfold rstrip_dash lead in refl
rstrip-collapse run (c ∷ s) = elim (Bool-cases (is_alnum c)) [
  | inl word ↦ rw word (
      rstrip_dash-word c (collapse false s) word
      ∙ ap (λ x. c ∷ x) (rstrip-collapse false s)
      ∙ sym (lead-or run (glue c (starts_word s) (words s)) ∙ joined-glue c s))
  | inr gap ↦ rw gap (in_gap run s (rstrip-collapse true s))
]

-- The first character of a text's joined words is no dash.
lstrip-joined : (s : List ℕ) → lstrip_dash (joined (words s)) ≡ joined (words s)
unfolding lstrip_dash
lstrip-joined s = elim (words_shape s) [
  | inl e ↦ simp e (unfold joined in refl)
  | inr (c, w, ws, e, word) ↦ simp (e, joined-first, dash_differs c word) refl
]

lstrip-lead : (on : Bool) (s : List ℕ) → lstrip_dash (lead on (words s)) ≡ joined (words s)
unfolding lead lstrip_dash
lstrip-lead true s = lstrip-joined s
lstrip-lead false s = elim (words_shape s) [
  | inl e ↦ simp e (unfold joined lstrip_dash in refl)
  | inr (c, w, ws, e, word) ↦ simp (e, joined-first, dash_differs c word) refl
]

slug-joined : (name : Option (List ℕ)) → slug name ≡ or_none (joined (words_of name))
unfolding slug words_of
slug-joined none = unfold joined or_none in refl
slug-joined (some []) = unfold joined or_none words in refl
slug-joined (some (c ∷ s)) =
    ap or_none
      (ap lstrip_dash (rstrip-collapse false (c ∷ s)) ∙ lstrip-lead (starts_word (c ∷ s)) (c ∷ s))

dash_gap : is_alnum b'-' ≡ false
unfolding is_alnum
dash_gap = refl

gap_of : (c : ℕ) → (c == b'-') ≡ true → is_alnum c ≡ false
unfolding is_alnum
gap_of c h = ground arith

nil_of : (s : List ℕ) → is_nil s ≡ true → s ≡ []
unfolding is_nil
nil_of [] h = refl
nil_of (c ∷ s) h = cc h

-- The three steps keep the words.
words-collapse :
    (s : List ℕ)
    → (words (collapse true s) ≡ words s)
      × (words (collapse false s) ≡ words s)
      × (starts_word (collapse false s) ≡ starts_word s)
unfolding collapse words starts_word
words-collapse [] = (refl, refl, refl)
words-collapse (c ∷ s) =
    let (run, fresh, starts) = words-collapse s in
    elim (Bool-cases (is_alnum c)) [
      | inl word ↦ simp (word, fresh, starts) (refl, refl, refl)
      | inr gap ↦ simp (gap, run, dash_gap) (refl, refl, refl)
    ]

words-rstrip :
    (s : List ℕ) → (words (rstrip_dash s) ≡ words s) × (starts_word (rstrip_dash s) ≡ starts_word s)
unfolding rstrip_dash words starts_word
words-rstrip [] = (refl, refl)
words-rstrip (c ∷ s) =
    let (same, starts) = words-rstrip s in
    elim (Bool-cases (c == b'-')) [
      | inr other ↦ simp (other, same, starts) (refl, refl)
      | inl dash ↦ elim (Bool-cases (is_nil (rstrip_dash s))) [
        | inr more ↦ simp (dash, more, gap_of c dash, same) (refl, refl)
        | inl none_left ↦
            simp (dash, none_left, gap_of c dash)
              (ap words (sym (nil_of (rstrip_dash s) none_left)) ∙ same, refl)
      ]
    ]

words-lstrip : (s : List ℕ) → words (lstrip_dash s) ≡ words s
unfolding lstrip_dash words
words-lstrip [] = refl
words-lstrip (c ∷ s) = elim (Bool-cases (c == b'-')) [
  | inl dash ↦ simp (dash, gap_of c dash) (words-lstrip s)
  | inr other ↦ simp other refl
]

words-or_none : (s : List ℕ) → words_of (or_none s) ≡ words s
unfolding words_of or_none
words-or_none [] = unfold words in refl
words-or_none (c ∷ s) = refl

words-slug : (name : Option (List ℕ)) → words_of (slug name) ≡ words_of name
unfolding slug
words-slug none = refl
words-slug (some []) = unfold words_of words in refl
words-slug (some (c ∷ s)) =
    let t = c ∷ s in
    words-or_none (lstrip_dash (rstrip_dash (collapse false t)))
    ∙ words-lstrip (rstrip_dash (collapse false t))
    ∙ (words-rstrip (collapse false t)).0
    ∙ (words-collapse t).1
    ∙ unfold words_of in refl

-- The handle of a group is the words of its name, its longest runs of letters and digits, with a dash
-- between each two, and none where there is no word. Its own words are those of the name, and it
-- is its own handle.
pub slug-words :
    (name : Option (List ℕ))
    → (slug name ≡ or_none (joined (words_of name)))
      × (words_of (slug name) ≡ words_of name)
      × (slug (slug name) ≡ slug name)
slug-words name = (
  slug-joined name,
  words-slug name,
  slug-joined (slug name)
      ∙ ap (λ ws. or_none (joined ws)) (words-slug name)
      ∙ sym (slug-joined name),
)
