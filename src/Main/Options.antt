-- ===== src/Main/Options.antt =====
-- What the daemon makes of its options.
use cm108_driver_rust.Base.{◌≡◌, refl, sym, ap, ◌∙◌, List, [], ◌∷◌, ◌++◌, Option, append-nil}
use cm108_driver_rust.Types.{Text}
use cm108_driver_rust.Main.{
  codes, text_eq, starts_with, Kind, help, socket_is, socket_next, log_is, log_next, unknown, kind,
  Parsed, runs, shows_help, rejects, nothing, a_socket, a_level, var_or, parse_loop, parse_args,
}

-- An option as it is written, with `=` or with the value as an argument of its own.
pub data Choice : Type 0 where
  socket_with : Text → Choice
  socket_then : Text → Choice
  level_with : Text → Choice
  level_then : Text → Choice

abbrev pub written : List Choice → List Text
written [] = []
written (socket_with t ∷ cs) = (codes "--socket=" ++ t) ∷ written cs
written (socket_then t ∷ cs) = codes "--socket" ∷ t ∷ written cs
written (level_with t ∷ cs) = (codes "--log=" ++ t) ∷ written cs
written (level_then t ∷ cs) = codes "--log" ∷ t ∷ written cs

abbrev pub last_socket : Text → List Choice → Text
last_socket d [] = d
last_socket d (socket_with t ∷ cs) = last_socket t cs
last_socket d (socket_then t ∷ cs) = last_socket t cs
last_socket d (level_with t ∷ cs) = last_socket d cs
last_socket d (level_then t ∷ cs) = last_socket d cs

abbrev pub last_level : Text → List Choice → Text
last_level d [] = d
last_level d (socket_with t ∷ cs) = last_level d cs
last_level d (socket_then t ∷ cs) = last_level d cs
last_level d (level_with t ∷ cs) = last_level t cs
last_level d (level_then t ∷ cs) = last_level t cs

kind_socket_is : (t : Text) → kind (codes "--socket=" ++ t) ≡ socket_is t
unfolding kind text_eq starts_with
kind_socket_is t = refl

kind_log_is : (t : Text) → kind (codes "--log=" ++ t) ≡ log_is t
unfolding kind text_eq starts_with
kind_log_is t = refl

kind_socket_next : kind (codes "--socket") ≡ socket_next
unfolding kind text_eq starts_with
kind_socket_next = refl

kind_log_next : kind (codes "--log") ≡ log_next
unfolding kind text_eq starts_with
kind_log_next = refl

-- The loop at an argument of a known kind.
abbrev by_kind : Kind → Text → List Text → Text → Text → Parsed
by_kind k arg rest socket level = elim k [
  | help ↦ shows_help
  | socket_is path ↦ parse_loop rest nothing path level
  | socket_next ↦ parse_loop rest a_socket socket level
  | log_is name ↦ parse_loop rest nothing socket name
  | log_next ↦ parse_loop rest a_level socket level
  | unknown ↦ rejects arg
]

loop_kind :
    (k : Kind) (arg : Text) (rest : List Text) (s l : Text)
    → kind arg ≡ k
    → parse_loop (arg ∷ rest) nothing s l ≡ by_kind k arg rest s l
unfolding parse_loop
loop_kind k arg rest s l e = ap (λ k. by_kind k arg rest s l) e

loop-written :
    (cs : List Choice) (rest : List Text) (s l : Text)
    → parse_loop (written cs ++ rest) nothing s l
      ≡ parse_loop rest nothing (last_socket s cs) (last_level l cs)
unfolding parse_loop
loop-written [] rest s l = refl
loop-written (socket_with t ∷ cs) rest s l =
    loop_kind (socket_is t) _ (written cs ++ rest) s l (kind_socket_is t) ∙ loop-written cs rest t l
loop-written (socket_then t ∷ cs) rest s l =
    loop_kind socket_next _ (t ∷ written cs ++ rest) s l kind_socket_next ∙ loop-written cs rest t l
loop-written (level_with t ∷ cs) rest s l =
    loop_kind (log_is t) _ (written cs ++ rest) s l (kind_log_is t) ∙ loop-written cs rest s t
loop-written (level_then t ∷ cs) rest s l =
    loop_kind log_next _ (t ∷ written cs ++ rest) s l kind_log_next ∙ loop-written cs rest s t

-- The daemon runs with the last socket and the last level that its options give, in either form and
-- any order, and else with the environment's or the built-in ones. An argument behind them that is no
-- option ends it with an error that names the argument, whatever follows.
pub parse_args-written :
    (env_socket env_level : Option Text) (cs : List Choice) (bad : Text) (rest : List Text)
    → kind bad ≡ unknown
    → let socket = last_socket (var_or env_socket (codes "/run/cm108d/cm108d.sock")) cs in
      let level = last_level (var_or env_level (codes "info")) cs in
      (parse_args env_socket env_level (written cs) ≡ runs socket level)
      × (parse_args env_socket env_level (written cs ++ bad ∷ rest) ≡ rejects bad)
unfolding parse_args parse_loop
parse_args-written env_socket env_level cs bad rest e =
    let socket : Text = var_or env_socket (codes "/run/cm108d/cm108d.sock") in
    let level : Text = var_or env_level (codes "info") in
    (
      ap (λ l. parse_loop l nothing socket level) (sym (append-nil (written cs)))
          ∙ loop-written cs [] socket level,
      loop-written cs (bad ∷ rest) socket level ∙ loop_kind unknown bad rest _ _ e,
    )

-- A last argument `--socket` without its path leaves the daemon with the empty path for its socket,
-- whatever the environment says.
pub parse_args-dangling :
    (env_socket env_level : Option Text) (cs : List Choice)
    → parse_args env_socket env_level (written cs ++ codes "--socket" ∷ [])
      ≡ runs [] (last_level (var_or env_level (codes "info")) cs)
unfolding parse_args parse_loop
parse_args-dangling env_socket env_level cs =
    loop-written cs (codes "--socket" ∷ []) _ _ ∙ loop_kind socket_next _ [] _ _ kind_socket_next
