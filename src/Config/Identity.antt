-- ===== src/Config/Identity.antt =====
-- `state_paths`, `_machine_suffix` and `_instance_suffix` of cc_mqtt_monitor/config.py.
-- The node id, the digest of a node id, a random suffix and the joining of paths are inputs.
use cc_rms_mqtt_monitor.Base.{
  ℕ, ◌/◌, ◌%◌, ◌≡◌, ◌⊎◌, refl, inl, inr, String, Bool, true, not, ◌==◌, Option, none, some, List,
  [], ◌∷◌, if◌then◌else◌, or_else, some_and, str_eq, arith,
}
use cc_rms_mqtt_monitor.StateFiles.{Cell, Clear, read_first, write_first, read-write}
use Prim.Native.String

-- `override` is the value of the environment's variable, and `user_dir` the user's directory of
-- state, expanded.
unfoldable pub state_paths :
    (String → String → String) → Option String → String → String → List String
state_paths join override user_dir name =
    let usual = String.◌++◌ "/var/lib/cc-rms-monitor/" name ∷ join user_dir name ∷ [] in
    if some_and override (λ path. not (str_eq path "")) then or_else override "" ∷ [] else usual

-- none where the node id cannot be read or is a random one, told by the multicast bit
unfoldable pub machine_suffix : (ℕ → String) → Option ℕ → Option String
machine_suffix digest none = none
machine_suffix digest (some node) =
    if node / 1099511627776 % 2 == 1 then none else some (digest node)

abbrev pub is_suffix : String → Bool
is_suffix s = not (str_eq s "")

-- what is persisted, else a new suffix that is written where it can be
suffix_from : Option String → String → List (Cell String) → String × List (Cell String)
suffix_from (some got) new files = (got, files)
suffix_from none new files = (new, (write_first new files).0)

-- The files are those of `state_paths`.
unfoldable pub instance_suffix :
    Option String → String → List (Cell String) → String × List (Cell String)
unfolding suffix_from
instance_suffix machine random files =
    suffix_from (read_first is_suffix files) (or_else machine random) files

-- A write to files that hold nothing usable is read back or lost.
read-write_any :
    (s : String) (files : List (Cell String))
    → is_suffix s ≡ true
    → read_first is_suffix files ≡ none
    → (read_first is_suffix (write_first s files).0 ≡ some s)
      ⊎ (read_first is_suffix (write_first s files).0 ≡ none)
unfolding read_first write_first
read-write_any s [] ok h = inr refl
read-write_any s (c ∷ cs) ok h = ground (arith, read-write_any s cs ok)

suffix_again :
    (o : Option String) (s : String) (files : List (Cell String))
    → (o ≡ some s) ⊎ (o ≡ none)
    → (suffix_from o s files).0 ≡ s
unfolding suffix_from
suffix_again o s files (inl e) = rw e refl
suffix_again o s files (inr e) = rw e refl

-- The suffix is the same at the next start of a machine whose node id is trusted, whichever files
-- can be read and written and whatever random suffixes are drawn.
instance_suffix_stable :
    (s r t : String) (files : List (Cell String))
    → is_suffix s ≡ true
    → let (first, files') = instance_suffix (some s) r files in
      (instance_suffix (some s) t files').0 ≡ first
unfolding instance_suffix suffix_from
instance_suffix_stable s r t files ok = go (read_first is_suffix files) refl
  where
    go :
        (o : Option String)
        → read_first is_suffix files ≡ o
        → let (first, files') = suffix_from o s files in
          (suffix_from (read_first is_suffix files') s files').0 ≡ first
    go (some got) e = rw e refl
    go none e = suffix_again _ s _ (read-write_any s files ok e)

-- Without a trusted node id, the suffix of a start stays at the next one, whatever its node
-- id is, if one file can be written and no file before it holds a usable value.
instance_suffix_pinned :
    (machine : Option String) (r t : String) (files : List (Cell String))
    → Clear is_suffix files
    → is_suffix r ≡ true
    → let (first, files') = instance_suffix none r files in
      (instance_suffix machine t files').0 ≡ first
unfolding instance_suffix suffix_from
instance_suffix_pinned machine r t files clear ok = go (read_first is_suffix files) refl
  where
    go :
        (o : Option String)
        → read_first is_suffix files ≡ o
        → let (first, files') = suffix_from o r files in
          (suffix_from (read_first is_suffix files') (or_else machine t) files').0 ≡ first
    go (some got) e = rw e refl
    go none e = rw (read-write is_suffix r files clear ok) refl
