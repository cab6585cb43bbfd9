-- ===== src/StateFiles.antt =====
-- The candidate files of a piece of monitor state, best first: how cc_mqtt_monitor reads the first
-- that holds a usable value (bootmarker `_read`, `clear_renamed_host`, `_instance_suffix`) and
-- writes to the first that can be written.
use cc_rms_mqtt_monitor.Base.{
  ◌≡◌, Bool, true, false, Option, none, some, List, [], ◌∷◌, if◌then◌else◌, some_and, Bool-cases,
  inl, inr,
}

-- A file that is missing, cannot be read or does not parse has no content.
pub record Cell {ℓ} (A : Type ℓ) : Type ℓ where
  pub content : Option A
  pub writable : Bool

module _ {ℓ} {A : Type ℓ} where
  -- the first content that is accepted
  unfoldable pub read_first : (A → Bool) → List (Cell A) → Option A
  read_first accept [] = none
  read_first accept (c ∷ cs) = if some_and c.content accept then c.content else read_first accept cs

  -- writes to the first file that can be written, and says whether there was one
  unfoldable pub write_first : A → List (Cell A) → List (Cell A) × Bool
  write_first a [] = ([], false)
  write_first a (c ∷ cs) =
      let (rest, done) = write_first a cs in
      if c.writable then (record c { content = some a } ∷ cs, true) else (c ∷ rest, done)

  -- One file can be written, and no file before the first such holds a usable value.
  abbrev pub Clear : (A → Bool) → List (Cell A) → Type 0
  Clear accept [] = ⊥
  Clear accept (c ∷ cs) =
      if c.writable then Unit {0} else ((some_and c.content accept ≡ false) × Clear accept cs)

  Clear-unwritable :
      (accept : A → Bool) (c : Cell A) (cs : List (Cell A))
      → c.writable ≡ false
      → Clear accept (c ∷ cs)
      → (some_and c.content accept ≡ false) × Clear accept cs
  Clear-unwritable accept c cs w h = simp w at h

  -- What was written is read back.
  pub read-write :
      (accept : A → Bool) (a : A) (cs : List (Cell A))
      → Clear accept cs
      → accept a ≡ true
      → read_first accept (write_first a cs).0 ≡ some a
  unfolding read_first write_first
  read-write accept a [] h ok = absurd h
  read-write accept a (c ∷ cs) h ok = elim (Bool-cases c.writable) [
    | inl w ↦ simp (w, ok)
    | inr w ↦
        let (skipped, clear) = Clear-unwritable accept c cs w h in
        simp (w, skipped) (read-write accept a cs clear ok)
  ]

  pub write-Clear :
      (accept : A → Bool) (a : A) (cs : List (Cell A))
      → Clear accept cs
      → Clear accept (write_first a cs).0
  unfolding write_first
  write-Clear accept a [] h = h
  write-Clear accept a (c ∷ cs) h = elim (Bool-cases c.writable) [
    | inl w ↦ simp w tt
    | inr w ↦
        let (skipped, clear) = Clear-unwritable accept c cs w h in
        simp w (skipped, write-Clear accept a cs clear)
  ]

  pub write-done :
      (accept : A → Bool) (a : A) (cs : List (Cell A))
      → Clear accept cs
      → (write_first a cs).1 ≡ true
  unfolding write_first
  write-done accept a [] h = absurd h
  write-done accept a (c ∷ cs) h = elim (Bool-cases c.writable) [
    | inl w ↦ simp w
    | inr w ↦ simp w (write-done accept a cs (Clear-unwritable accept c cs w h).1)
  ]
