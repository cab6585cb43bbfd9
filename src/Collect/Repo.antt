-- ===== src/Collect/Repo.antt =====
-- `rms_repo_status` of cc_mqtt_monitor/collect.py and the git queries under it: how current the
-- checkout of RMS is, and the clock of how long it has been behind.
-- git is an input; clocks are in milliseconds.
pub mod Tick
pub mod Clock
pub mod Cache
use cc_rms_mqtt_monitor.Base.{
  ℕ, ◌-◌, ◌+◌, ◌*◌, ◌/◌, String, Bool, true, false, not, ◌&&◌, ◌||◌, Option, none, some, List, [],
  ◌∷◌, ltb, ◌==◌, if◌then◌else◌, str_eq, is_some, some_and, Dict, lookup, insert,
}

-- The answers of git in the checkout, none where a command fails or prints nothing.
pub record Git : Type 0 where
  pub branch : Option String
  pub head : Option String
  -- `rev-parse --abbrev-ref` of a branch's upstream, split at its first "/"
  pub upstream : String → Option (String × String)
  -- `config branch.<b>.remote`, `remote`, and `remote get-url`
  pub branch_remote : String → Option String
  pub remotes : List String
  pub url : String → Option String
  -- `ls-remote --exit-code --heads <remote> refs/heads/<b>` succeeds, and `ls-remote`'s first word
  pub has_head : String → String → Bool
  pub tip : String → String → Option String

-- the loop over the remotes in `_resolve_upstream`
unfoldable pub remote_with : Git → String → List String → Option (String × String)
remote_with g b [] = none
remote_with g b (r ∷ rs) = if g.has_head r b then some (r, b) else remote_with g b rs

-- `remote and up`
unfoldable pub both_there : Option (String × String) → Bool
both_there none = false
both_there (some (r, b)) = not (str_eq r "") && not (str_eq b "")

unfoldable pub resolve_upstream : Git → String → Option (String × String)
resolve_upstream g b = if both_there (g.upstream b) then g.upstream b else remote_with g b g.remotes

unfoldable pub equals_tip : Git → String → Option (String × String) → Option Bool
equals_tip g head none = none
equals_tip g head (some (r, b)) = elim (g.tip r b) [
  | none ↦ none
  | some tip ↦ some (str_eq head tip)
]

unfoldable pub compare_tip : Git → Option String → Option String → Option Bool
compare_tip g none head = none
compare_tip g (some b) none = none
compare_tip g (some b) (some head) =
    let up = resolve_upstream g b in
    if str_eq b "HEAD" || not (both_there up) then none else equals_tip g head up

unfoldable pub check_up_to_date : Git → Option Bool
check_up_to_date g = compare_tip g g.branch g.head

-- the loop over the candidates in `rms_remote`, an absent one left out
unfoldable pub first_url : Git → List (Option String) → Option String
first_url g [] = none
first_url g (none ∷ rs) = first_url g rs
first_url g (some r ∷ rs) =
    let rest = first_url g rs in if is_some (g.url r) && not (str_eq r "") then g.url r else rest

unfoldable pub tracked_remote : Git → Option String → Option String
tracked_remote g none = none
tracked_remote g (some b) = if str_eq b "HEAD" then none else g.branch_remote b

unfoldable pub names : List String → List (Option String)
names [] = []
names (r ∷ rs) = some r ∷ names rs

-- the URL before its credentials are stripped
unfoldable pub rms_remote : Git → Option String
rms_remote g = first_url g (tracked_remote g g.branch ∷ some "origin" ∷ names g.remotes)

-- an entry of `_UPTODATE_CACHE`; `signal` is the time of the reflog
pub record Cached : Type 0 where
  pub mono : ℕ
  pub up : Option Bool
  pub signal : Option ℕ

-- an entry of `_REPO_STATE`
pub record Behind : Type 0 where
  pub head : String
  pub since : Option ℕ

abbrev pub uptodate_ttl : ℕ
uptodate_ttl = 1800000

unfoldable pub same_signal : Option ℕ → Option ℕ → Bool
same_signal none none = true
same_signal none (some t) = false
same_signal (some s) none = false
same_signal (some s) (some t) = s == t

-- whether a cached answer is still good
unfoldable pub is_fresh : ℕ → Option ℕ → Cached → Bool
is_fresh mono signal c = ltb (mono - c.mono) uptodate_ttl && same_signal signal c.signal

-- the entry of this HEAD: a new one where HEAD has moved
unfoldable pub entry_for : String → Option Behind → Behind
entry_for head none = record { head = head; since = none }
entry_for head (some e) = if str_eq e.head head then e else record { head = head; since = none }

-- the clock, by whether the checkout is up to date
unfoldable pub tick_clock : ℕ → Option Bool → Behind → Behind
tick_clock now none e = e
tick_clock now (some true) e = record e { since = none }
tick_clock now (some false) e = elim e.since [ none ↦ record e { since = some now } | some t ↦ e ]

-- `rms_out_of_date_days`, in thousandths of a day
unfoldable pub days_behind : ℕ → Option ℕ → ℕ
days_behind now none = 0
days_behind now (some t) = ((now - t) + 4320000) / 8640000 * 100

pub record RepoStatus : Type 0 where
  pub rms_up_to_date : Option Bool
  pub rms_out_of_date_days : Option ℕ

-- the state that the module keeps for a checkout
pub record Repo : Type 0 where
  pub cached : Option Cached
  pub behind : Option Behind

-- what is asked at a call
pub record Look : Type 0 where
  pub git : Git
  pub mono : ℕ
  pub now : ℕ
  pub signal : Option ℕ

unfoldable pub ask : Look → Cached
ask l = record { mono = l.mono; up = check_up_to_date l.git; signal = l.signal }

-- the cache entry after the call
unfoldable pub answer : Look → Option Cached → Cached
answer l none = ask l
answer l (some c) = if is_fresh l.mono l.signal c then c else ask l

unfoldable pub status_of : ℕ → Option Bool → Option ℕ → RepoStatus
status_of now none since = record { rms_up_to_date = none; rms_out_of_date_days = none }
status_of now (some up) since = record {
  rms_up_to_date = some up;
  rms_out_of_date_days = some (days_behind now since);
}

-- the rest of `rms_repo_status`, by HEAD
unfoldable pub look_at : Look → Option String → Repo → RepoStatus × Repo
look_at l none r = (record { rms_up_to_date = none; rms_out_of_date_days = none }, r)
look_at l (some head) r =
    let c = answer l r.cached in
    let e = tick_clock l.now c.up (entry_for head r.behind) in
    (status_of l.now c.up e.since, record { cached = some c; behind = some e })

-- `rms_repo_status` of a git checkout
unfoldable pub rms_repo_status : Look → Repo → RepoStatus × Repo
rms_repo_status l = look_at l l.git.head
