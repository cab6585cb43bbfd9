-- ===== src/Discovery/Addresses.antt =====
-- The addresses that `_camera_host` of cc_mqtt_monitor/discovery.py reads, put together from their parts.
use Prim.Native.Char.{Char, code}
use cc_rms_mqtt_monitor.Base.{
  ℕ, append, ◌≡◌, refl, ◌∙◌, String, true, false, ◌||◌, Option, none, some, ◌==◌, str_eq, arith,
  has_char, strip, before, after_last, after_scheme,
}
use cc_rms_mqtt_monitor.Discovery.{camera_host, host_of, host_part, non_empty}

has_char-append : (d : ℕ) (s t : String) → has_char d (append s t) ≡ (has_char d s || has_char d t)
unfolding has_char append
has_char-append d String.[] t = refl
has_char-append d (String.◌∷◌ c s) t = ground (arith, has_char-append d s t)

-- a cut before the first of a character
before-free : (d : ℕ) (s : String) → has_char d s ≡ false → before d s ≡ s
unfolding has_char before
before-free d String.[] free = refl
before-free d (String.◌∷◌ c s) free = ground (arith, before-free d s)

before-append :
    (d : ℕ) (s : String) (c : Char) (t : String)
    → has_char d s ≡ false
    → (code c == d) ≡ true
    → before d (append s (String.◌∷◌ c t)) ≡ s
unfolding has_char before append
before-append d String.[] c t free here = rw here refl
before-append d (String.◌∷◌ e s) c t free here = ground (arith, before-append d s c t)

-- a cut after the last of a character
after_last-free : (d : ℕ) (s : String) → has_char d s ≡ false → after_last d s ≡ s
unfolding has_char after_last
after_last-free d String.[] free = refl
after_last-free d (String.◌∷◌ c s) free = ground (arith, after_last-free d s)

after_last-append :
    (d : ℕ) (s : String) (c : Char) (t : String)
    → has_char d t ≡ false
    → (code c == d) ≡ true
    → after_last d (append s (String.◌∷◌ c t)) ≡ t
unfolding has_char after_last append
after_last-append d String.[] c t free here = rw (free, here) refl
after_last-append d (String.◌∷◌ e s) c t free here =
    ground (arith, here, after_last-append d s c t, has_char-append d s (String.◌∷◌ c t))

-- A first character other than ":" is passed over.
after_scheme-skip :
    (c : Char) (s : String)
    → (code c == b':') ≡ false
    → after_scheme (String.◌∷◌ c s) ≡ after_scheme s
unfolding after_scheme
after_scheme-skip c String.[] other = refl
after_scheme-skip c (String.◌∷◌ d String.[]) other = refl
after_scheme-skip c (String.◌∷◌ d (String.◌∷◌ e s)) other = rw other refl

after_scheme-append :
    (s t : String) → has_char b':' s ≡ false → after_scheme (append s (append "://" t)) ≡ some t
unfolding has_char append
after_scheme-append String.[] t free = unfold after_scheme in refl
after_scheme-append (String.◌∷◌ c s) t free =
    after_scheme-skip c (append s (append "://" t)) (ground (arith, free))
    ∙ after_scheme-append s t (ground (arith, free))

-- an address: scheme://login@host:port/path, where the login, the port and the path may be missing
pub record Address : Type 0 where
  pub scheme : String
  pub login : Option String
  pub host : String
  pub port : Option String
  pub path : Option String

-- `login@` before a text, and a character with a text after it
abbrev with_login : Option String → String → String
with_login none t = t
with_login (some u) t = append u (append "@" t)

abbrev with_tail : String → Option String → String → String
with_tail c none s = s
with_tail c (some t) s = append s (append c t)

abbrev server : Address → String
server a = with_tail ":" a.port a.host

abbrev pub url_of : Address → String
url_of a = append a.scheme (append "://" (with_tail "/" a.path (with_login a.login (server a))))

-- the character is not in the text, where there is one
abbrev Lacks : ℕ → Option String → Type 0
Lacks d none = Unit
Lacks d (some s) = has_char d s ≡ false

-- The parts are told apart by what is between them; a login may hold an "@" or a ":".
pub record IsPlain (a : Address) : Type 0 where
  pub scheme_colon : has_char b':' a.scheme ≡ false
  pub login_slash : Lacks b'/' a.login
  pub host_slash : has_char b'/' a.host ≡ false
  pub host_at : has_char b'@' a.host ≡ false
  pub host_colon : has_char b':' a.host ≡ false
  pub port_slash : Lacks b'/' a.port
  pub port_at : Lacks b'@' a.port
  -- no white space around it
  pub stripped : strip a.host ≡ a.host
  pub host_there : str_eq a.host "" ≡ false

Lacks-server :
    (d : ℕ) (host : String) (port : Option String)
    → has_char d host ≡ false
    → Lacks d port
    → (b':' == d) ≡ false
    → has_char d (with_tail ":" port host) ≡ false
unfolding append
Lacks-server d host none free rest other = free
Lacks-server d host (some port) free rest other =
    has_char-append d host (append ":" port) ∙ unfold has_char in rw (free, rest, other) refl

Lacks-login :
    (login : Option String) (s : String)
    → Lacks b'/' login
    → has_char b'/' s ≡ false
    → has_char b'/' (with_login login s) ≡ false
unfolding append
Lacks-login none s rest free = free
Lacks-login (some u) s rest free =
    has_char-append b'/' u (append "@" s) ∙ unfold has_char in rw (free, rest) refl

path_cut :
    (path : Option String) (s : String)
    → has_char b'/' s ≡ false
    → before b'/' (with_tail "/" path s) ≡ s
unfolding append
path_cut none s free = before-free b'/' s free
path_cut (some path) s free = before-append b'/' s _ path free refl

port_cut :
    (port : Option String) (s : String)
    → has_char b':' s ≡ false
    → before b':' (with_tail ":" port s) ≡ s
unfolding append
port_cut none s free = before-free b':' s free
port_cut (some port) s free = before-append b':' s _ port free refl

login_cut :
    (login : Option String) (s : String)
    → has_char b'@' s ≡ false
    → after_last b'@' (with_login login s) ≡ s
unfolding append
login_cut none s free = after_last-free b'@' s free
login_cut (some u) s free = after_last-append b'@' u _ s free refl

-- The host of an address is read back exactly, whatever its login, port and path, where none of the parts holds a
-- character that ends it and the host is not empty and has no white space around it. A login may hold ":" and "@".
pub camera_host-url_of : (a : Address) → IsPlain a → camera_host (some (url_of a)) ≡ some a.host
unfolding camera_host host_of host_part non_empty
camera_host-url_of a h =
    let host = server a in
    let rest = with_tail "/" a.path (with_login a.login host) in
    let slash =
      Lacks-login a.login host h.login_slash
        (Lacks-server b'/' a.host a.port h.host_slash h.port_slash refl) in
    let at = Lacks-server b'@' a.host a.port h.host_at h.port_at refl in
    rw
      (
        after_scheme-append a.scheme rest h.scheme_colon,
        path_cut a.path (with_login a.login host) slash,
        login_cut a.login host at,
        port_cut a.port a.host h.host_colon,
        h.stripped,
        h.host_there,
      )
      refl
