-- ===== src/Collect/Segments.antt =====
-- `newest_segment` and `collect_stream_bandwidth` of cc_mqtt_monitor/collect.py.
use mathlib.Core.Path.{subst}
use mathlib.Core.Option.{some-injective}
use cc_rms_mqtt_monitor.Base.{
  ℕ, ◌+◌, ◌-◌, ◌*◌, ◌/◌, ◌≡◌, ◌⊎◌, inl, inr, refl, String, Bool, true, false, not, ◌||◌, Option,
  none, some, List, [], ◌∷◌, map, leb, ◌==◌, if◌then◌else◌, filter, join_path, has_suffix, or_else,
  ℤ, Bool-cases, All, All-map, All-both, sym, ap, ◌∙◌,
}
use cc_rms_mqtt_monitor.Collect.Files.{
  FileSystem, name_lt, name_lt_trans, name_lt_asym, name_lt_irrefl, safe_mtime, age_of,
}
use cc_rms_mqtt_monitor.Collect.Outputs.{descend}

-- what is read of a station; the duration is in milliseconds, 0 where it is not set
pub record Video : Type 0 where
  pub raw_video_save : Bool
  pub video_path : String
  pub raw_video_duration : ℕ

-- `station.raw_video_duration or 30.0`
unfoldable pub duration : Video → ℕ
duration v = if v.raw_video_duration == 0 then 30000 else v.raw_video_duration

-- `segs.sort(reverse=True)` as an insertion sort
unfoldable pub insert_later : String → List String → List String
insert_later s [] = s ∷ []
insert_later s (x ∷ xs) =
    let rest = insert_later s xs in if name_lt s x then x ∷ rest else s ∷ x ∷ xs

unfoldable pub sort_later : List String → List String
sort_later [] = []
sort_later (s ∷ ss) = insert_later s (sort_later ss)

-- `now - _safe_mtime(s) >= dur`, of a duration that is positive
unfoldable pub is_finalized : FileSystem → ℕ → ℕ → String → Bool
is_finalized fs now dur s = leb dur (now - safe_mtime fs s)

unfoldable pub first_finalized : FileSystem → ℕ → ℕ → List String → Option String
first_finalized fs now dur [] = none
first_finalized fs now dur (s ∷ ss) =
    let rest = first_finalized fs now dur ss in if is_finalized fs now dur s then some s else rest

-- the first finalized one, or else the first of all
unfoldable pub choose : FileSystem → ℕ → ℕ → List String → Option String
choose fs now dur [] = none
choose fs now dur (s ∷ ss) = some (or_else (first_finalized fs now dur (s ∷ ss)) s)

unfoldable pub segments_in : FileSystem → (String → String) → String → List String
segments_in fs lower_name dir = elim (fs.listdir dir) [
  | none ↦ []
  | some names ↦
      map (join_path dir)
        (filter (λ n. has_suffix ".mkv" (lower_name n) || has_suffix ".mp4" (lower_name n)) names)
]

-- `lower_name` is `name.lower()`
unfoldable pub newest_segment : FileSystem → (String → String) → ℕ → Video → Option String
newest_segment fs lower_name now v =
    if not v.raw_video_save then none else elim (descend fs 3 v.video_path) [
      | none ↦ none
      | some dir ↦ choose fs now (duration v) (sort_later (segments_in fs lower_name dir))
    ]

-- `round(size * 8 / dur / 1e6, 1)`, in thousandths of a megabit
unfoldable pub mbps : ℕ → ℕ → ℕ
mbps size dur = (16 * size + 100 * dur) / (200 * dur) * 100

unfoldable pub collect_stream_bandwidth :
    FileSystem → (String → String) → ℕ → Video → Option ℕ × Option ℤ
collect_stream_bandwidth fs lower_name now v = elim (newest_segment fs lower_name now v) [
  | none ↦ (none, none)
  | some seg ↦ elim (fs.size seg) [
    | none ↦ (none, none)
    | some size ↦ (some (mbps size (duration v)), some (age_of fs now seg))
  ]
]

-- No later name follows, at any place.
abbrev Descending : List String → Type 0
Descending [] = Unit
Descending (s ∷ ss) = All (λ r. name_lt s r ≡ false) ss × Descending ss

All-insert_later :
    (P : String → Type 0) (s : String) (xs : List String)
    → P s
    → All P xs
    → All P (insert_later s xs)
unfolding insert_later
All-insert_later P s [] p h = (p, tt)
All-insert_later P s (x ∷ xs) p (q, h) = elim (Bool-cases (name_lt s x)) [
  | inl lt ↦ rw lt (q, All-insert_later P s xs p h)
  | inr ge ↦ rw ge (p, (q, h))
]

insert_later-Descending :
    (s : String) (xs : List String) → Descending xs → Descending (insert_later s xs)
unfolding insert_later
insert_later-Descending s [] h = (tt, tt)
insert_later-Descending s (x ∷ xs) (top, h) = elim (Bool-cases (name_lt s x)) [
  | inl lt ↦ rw lt (
    All-insert_later (λ r. name_lt x r ≡ false) s xs (name_lt_asym s x lt) top,
    insert_later-Descending s xs h,
  )
  | inr ge ↦ rw ge ((ge, All-map (λ r. name_lt_trans s x r ge) xs top), (top, h))
]

sort_later-Descending : (xs : List String) → Descending (sort_later xs)
unfolding sort_later
sort_later-Descending [] = tt
sort_later-Descending (x ∷ xs) =
    insert_later-Descending x (sort_later xs) (sort_later-Descending xs)

insert_later-All :
    (P : String → Type 0) (s : String) (xs : List String)
    → All P (insert_later s xs)
    → P s × All P xs
unfolding insert_later
insert_later-All P s [] h = h
insert_later-All P s (x ∷ xs) h = elim (Bool-cases (name_lt s x)) [
  | inl lt ↦
      let (q, rest) : P x × All P (insert_later s xs) = rw lt at h in
      let (p, old) = insert_later-All P s xs rest in (p, (q, old))
  | inr ge ↦ let g : P s × All P (x ∷ xs) = rw ge at h in g
]

All-sort_later : (P : String → Type 0) (xs : List String) → All P (sort_later xs) → All P xs
unfolding sort_later
All-sort_later P [] h = tt
All-sort_later P (x ∷ xs) h =
    let (p, rest) = insert_later-All P x (sort_later xs) h in (p, All-sort_later P xs rest)

module _ (fs : FileSystem) (now dur : ℕ) where
  -- The segment is finalized and no finalized one has a later name, or none is finalized and no
  -- segment has a later name.
  abbrev pub IsNewest : String → List String → Type 0
  IsNewest s segs =
      (is_finalized fs now dur s ≡ true)
        × All (λ r. is_finalized fs now dur r ≡ true → name_lt s r ≡ false) segs
      ⊎ All (λ r. (is_finalized fs now dur r ≡ false) × (name_lt s r ≡ false)) segs

  first_finalized_lem :
      (ss : List String)
      → Descending ss
      → ((s : String) × (first_finalized fs now dur ss ≡ some s)
          × (is_finalized fs now dur s ≡ true)
          × All (λ r. is_finalized fs now dur r ≡ true → name_lt s r ≡ false) ss)
        ⊎ (first_finalized fs now dur ss ≡ none) × All (λ r. is_finalized fs now dur r ≡ false) ss
  unfolding first_finalized
  first_finalized_lem [] h = inr (refl, tt)
  first_finalized_lem (x ∷ xs) (top, h) = elim (Bool-cases (is_finalized fs now dur x)) [
    | inl done ↦ inl (x, rw done refl, done, (λ _. name_lt_irrefl x, All-map (λ r le _. le) xs top))
    | inr growing ↦ elim (first_finalized_lem xs h) [
      | inl (s, e, done, best) ↦ inl (s, rw growing e, done, (λ p. cc (p, growing), best))
      | inr (e, none_done) ↦ inr (rw growing e, (growing, none_done))
    ]
  ]

  choose_lem :
      (ss : List String) (s : String)
      → Descending ss
      → choose fs now dur ss ≡ some s
      → IsNewest s ss
  unfolding choose
  choose_lem [] s h e = cc e
  choose_lem (x ∷ xs) s (top, h) e = elim (first_finalized_lem (x ∷ xs) (top, h)) [
    | inl (r, found, done, best) ↦
        subst (λ y. IsNewest y (x ∷ xs)) (ap (λ o. or_else o x) (sym found) ∙ some-injective _ _ e)
          (inl (done, best))
    | inr (missing, none_done) ↦
        subst (λ y. IsNewest y (x ∷ xs))
          (ap (λ o. or_else o x) (sym missing) ∙ some-injective _ _ e)
          (inr (All-both _ _ (x ∷ xs) none_done (name_lt_irrefl x, top)))
  ]

-- The segment that is returned is finalized, and no finalized segment of its directory has a later
-- name; or none is finalized, and no segment has a later name.
newest_segment-IsNewest :
    (fs : FileSystem) (lower_name : String → String) (now : ℕ) (v : Video) (dir s : String)
    → descend fs 3 v.video_path ≡ some dir
    → newest_segment fs lower_name now v ≡ some s
    → IsNewest fs now (duration v) s (segments_in fs lower_name dir)
unfolding newest_segment
newest_segment-IsNewest fs lower_name now v dir s at_dir e =
    let segs = segments_in fs lower_name dir in
    elim (Bool-cases v.raw_video_save) [
      | inr unsaved ↦ absurd (cc (rw unsaved at e))
      | inl saved ↦
          elim (choose_lem fs now (duration v) (sort_later segs) s (sort_later-Descending segs)
            (rw (saved, at_dir) at e)) [
              | inl (done, best) ↦ inl (done, All-sort_later _ segs best)
              | inr none_done ↦ inr (All-sort_later _ segs none_done)
            ]
    ]
