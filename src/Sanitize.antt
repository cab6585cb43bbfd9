-- ===== src/Sanitize.antt =====
-- cc_mqtt_monitor/sanitize.py: `redact`, over the code points of a text.
pub mod Matching
pub mod Homes
use cc_rms_mqtt_monitor.Base.{
  ℕ, zero, suc, ◌-◌, String, Bool, true, false, not, ◌&&◌, ◌||◌, Option, none, some, List, [], ◌∷◌,
  ◌++◌, ◌==◌, leb, if◌then◌else◌, codes, lower, length, mem,
}
use cc_rms_mqtt_monitor.Sanitize.Matching.{
  Place, Regex, one, empty, seq, alt, many, boundary, ends, literal, at_least_one, optional,
  up_to_3,
}

-- What Python's Unicode tables say of the code points from 128 on.
pub record Unicode : Type 0 where
  pub is_word : ℕ → Bool
  pub is_digit : ℕ → Bool
  pub is_space : ℕ → Bool

unfoldable pub code_between : ℕ → ℕ → ℕ → Bool
code_between a b c = leb a c && leb c b

-- `\d`
unfoldable pub digit : Unicode → ℕ → Bool
digit u c = if leb 128 c then u.is_digit c else code_between b'0' b'9' c

-- `\s`
unfoldable pub space : Unicode → ℕ → Bool
space u c = if leb 128 c then u.is_space c else (code_between 9 13 c || code_between 28 32 c)

-- `\w`
unfoldable pub word : Unicode → ℕ → Bool
word u c =
    if leb 128 c
    then u.is_word c
    else (code_between b'0' b'9' c || (code_between b'a' b'z' (lower c) || c == b'_'))

-- `[0-9A-Fa-f]`
unfoldable pub hex : ℕ → Bool
hex c = code_between b'0' b'9' c || code_between b'a' b'f' (lower c)

-- a letter under `(?i)`, with the letters beyond ASCII that fold to it
unfoldable pub folds : ℕ → ℕ → Bool
folds letter c =
    lower c == letter
    || ((letter == b's' && c == 383)
        || ((letter == b'k' && c == 8490) || (letter == b'i' && mem c (304 ∷ 305 ∷ []))))

unfoldable pub any_case : List ℕ → Regex
any_case [] = empty
any_case (c ∷ cs) = seq (one (folds c)) (any_case cs)

-- `[^\s&;,'\"<>)]`
unfoldable pub val_char : Unicode → ℕ → Bool
val_char u c =
    not (space u c) && not (mem c (b'&' ∷ b';' ∷ b',' ∷ b'\'' ∷ b'"' ∷ b'<' ∷ b'>' ∷ b')' ∷ []))

-- `_VAL`
unfoldable pub val : Unicode → Regex
val u = at_least_one (one (val_char u))

-- `\s*[=:]\s*`
unfoldable pub separator : Unicode → Regex
separator u =
    seq (many (one (space u))) (seq (one (λ c. mem c (b'=' ∷ b':' ∷ []))) (many (one (space u))))

-- A pattern in three parts with its replacement: what the middle part matches is kept, between two
-- texts.
pub record Rule : Type 0 where
  pub lead : Regex
  pub kept : Regex
  pub tail : Regex
  pub opening : List ℕ
  pub closing : List ℕ

unfoldable pub keyword : Regex
keyword =
    alt
      (seq (any_case (codes "pass"))
        (optional (alt (any_case (codes "word")) (any_case (codes "wd")))))
      (alt (any_case (codes "pwd")) (
        alt (any_case (codes "token")) (
          alt (any_case (codes "secret")) (
            alt (any_case (codes "auth")) (
              seq
                (alt (any_case (codes "api")) (
                  alt (any_case (codes "access"))
                    (alt (any_case (codes "secret")) (any_case (codes "private")))))
                (seq (optional (one (λ c. mem c (b'_' ∷ b'-' ∷ [])))) (any_case (codes "key"))))))))

unfoldable pub secret_rule : Unicode → Rule
secret_rule u = record {
  lead = empty;
  kept = seq (many (one (word u))) (seq keyword (separator u));
  tail = val u;
  opening = [];
  closing = codes "***";
}

-- the characters of a user name, and of what follows its ":"
unfoldable pub login_char : Unicode → ℕ → Bool
login_char u c = not (space u c) && not (mem c (b'/' ∷ b':' ∷ b'@' ∷ []))

unfoldable pub password_char : Unicode → ℕ → Bool
password_char u c = not (space u c) && not (mem c (b'/' ∷ b'@' ∷ []))

unfoldable pub userinfo_rule : Unicode → Rule
userinfo_rule u = record {
  lead = seq (literal (codes "://")) (
      seq (at_least_one (one (login_char u))) (
        seq (optional (seq (literal (codes ":")) (many (one (password_char u)))))
          (literal (codes "@"))));
  kept = empty;
  tail = empty;
  opening = codes "://***@";
  closing = [];
}

unfoldable pub user_rule : Unicode → Rule
user_rule u = record {
  lead = seq (boundary (word u)) (any_case (codes "user"));
  kept = separator u;
  tail = val u;
  opening = codes "user";
  closing = codes "***";
}

unfoldable pub ipv4_rule : Unicode → Rule
ipv4_rule u =
    let digits = up_to_3 (one (digit u)) in
    let next = seq (literal (codes ".")) digits in
    record {
      lead =
          seq (boundary (word u)) (seq digits (seq next (seq next (seq next (boundary (word u))))));
      kept = empty;
      tail = empty;
      opening = codes "<ip>";
      closing = [];
    }

unfoldable pub ipv6_rule : Unicode → Rule
ipv6_rule u =
    let hextet = seq (one hex) (optional (up_to_3 (one hex))) in
    let group = seq hextet (literal (codes ":")) in
    record {
      lead =
          seq (boundary (word u))
            (seq group (seq group (seq group (seq (many group) (seq hextet (boundary (word u)))))));
      kept = empty;
      tail = empty;
      opening = codes "<ip6>";
      closing = [];
    }

-- `[^/\s]`
unfoldable pub name_char : Unicode → ℕ → Bool
name_char u c = not (c == b'/') && not (space u c)

unfoldable pub home_rule : Unicode → Rule
home_rule u = record {
  lead = seq (literal (codes "/")) (
      seq (alt (literal (codes "home")) (literal (codes "Users")))
        (seq (literal (codes "/")) (at_least_one (one (name_char u)))));
  kept = empty;
  tail = empty;
  opening = codes "~";
  closing = [];
}

-- `_PATTERNS`
unfoldable pub patterns : Unicode → List Rule
patterns u =
    secret_rule u ∷ userinfo_rule u ∷ user_rule u ∷ ipv4_rule u ∷ ipv6_rule u ∷ home_rule u ∷ []

-- the first n
unfoldable pub first_n : ℕ → List ℕ → List ℕ
first_n zero s = []
first_n (suc n) [] = []
first_n (suc n) (c ∷ s) = c ∷ first_n n s

-- the replacement, and how many characters it stands for
unfoldable pub replacement : Rule → ℕ → Place → Place → Place → List ℕ × ℕ
replacement r before b c d = (
  r.opening ++ (first_n (length b.rest - length c.rest) b.rest ++ r.closing),
  before - length d.rest,
)

unfoldable pub first_of : List Place → Option Place
first_of [] = none
first_of (p ∷ ps) = some p

-- The first way in which the three parts match, each later part under each way of the earlier ones.
unfoldable pub in_tails : Rule → ℕ → Place → Place → List Place → Option (List ℕ × ℕ)
in_tails r before b c [] = none
in_tails r before b c (d ∷ ds) = some (replacement r before b c d)

unfoldable pub in_kept : Rule → ℕ → Place → List Place → Option (List ℕ × ℕ)
in_kept r before b [] = none
in_kept r before b (c ∷ cs) =
    let later = in_kept r before b cs in
    elim (in_tails r before b c (ends r.tail c)) [ none ↦ later | some m ↦ some m ]

unfoldable pub in_leads : Rule → ℕ → List Place → Option (List ℕ × ℕ)
in_leads r before [] = none
in_leads r before (b ∷ bs) =
    let later = in_leads r before bs in
    elim (in_kept r before b (ends r.kept b)) [ none ↦ later | some m ↦ some m ]

unfoldable pub match_at : Rule → Place → Option (List ℕ × ℕ)
match_at r p = in_leads r (length p.rest) (ends r.lead p)

-- `pattern.sub(repl, text)`: the first number counts the characters of a match that are still to pass;
-- no pattern matches the empty text
unfoldable pub sub : Rule → ℕ → Option ℕ → List ℕ → List ℕ
sub r n before [] = []
sub r (suc n) before (c ∷ s) = sub r n (some c) s
sub r zero before (c ∷ s) = elim (match_at r (record { before = before; rest = c ∷ s })) [
  | none ↦ c ∷ sub r zero (some c) s
  | some (text, n) ↦ text ++ sub r (n - 1) (some c) s
]

unfoldable pub sub_all : List Rule → List ℕ → List ℕ
sub_all [] text = text
sub_all (r ∷ rs) text = sub_all rs (sub r 0 none text)

unfoldable pub redact : Unicode → Option (List ℕ) → Option (List ℕ)
redact u none = none
redact u (some []) = some []
redact u (some (c ∷ s)) = some (sub_all (patterns u) (c ∷ s))
