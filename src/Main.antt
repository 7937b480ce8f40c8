-- ===== src/Main.antt =====
-- The command line of the daemon, crates/cm108-server/src/main.rs. An argument is its bytes.
pub mod Options
use Prim.Native.Char.{code}
use Prim.Native.String.{String}
use cm108_driver_rust.Base.{
  ℕ, zero, suc, Bool, true, false, ◌&&◌, ◌||◌, List, [], ◌∷◌, Option, none, some, ◌==◌, leb,
  if◌then◌else◌, length, drop,
}
use cm108_driver_rust.Types.{Text}

-- A literal, which is ASCII.
abbrev pub codes : String → Text
codes String.[] = []
codes (String.◌∷◌ c s) = code c ∷ codes s

unfoldable pub text_eq : Text → Text → Bool
text_eq [] [] = true
text_eq [] (b ∷ t) = false
text_eq (a ∷ s) [] = false
text_eq (a ∷ s) (b ∷ t) = a == b && text_eq s t

unfoldable pub starts_with : Text → Text → Bool
starts_with s [] = true
starts_with [] (b ∷ t) = false
starts_with (a ∷ s) (b ∷ t) = a == b && starts_with s t

-- What the `match` in `parse_args` takes an argument for.
pub data Kind : Type 0 where
  help : Kind
  socket_is : Text → Kind
  socket_next : Kind
  log_is : Text → Kind
  log_next : Kind
  unknown : Kind

unfoldable pub kind : Text → Kind
kind arg =
    if text_eq arg (codes "--help") || text_eq arg (codes "-h")
    then help
    else if starts_with arg (codes "--socket=")
    then socket_is (drop 9 arg)
    else if text_eq arg (codes "--socket")
    then socket_next
    else if starts_with arg (codes "--log=")
    then log_is (drop 6 arg)
    else if text_eq arg (codes "--log")
    then log_next
    else unknown

-- The socket and the log level; or an exit with 0 or with 1, which names the argument.
pub data Parsed : Type 0 where
  runs : Text → Text → Parsed
  shows_help : Parsed
  rejects : Text → Parsed

-- Whether the argument that comes next is a value.
pub data Awaiting : Type 0 where
  nothing : Awaiting
  a_socket : Awaiting
  a_level : Awaiting

-- The loop over the arguments. A value that is missing is empty, or the level `info`.
unfoldable pub parse_loop : List Text → Awaiting → Text → Text → Parsed
parse_loop [] nothing socket level = runs socket level
parse_loop [] a_socket socket level = runs [] level
parse_loop [] a_level socket level = runs socket (codes "info")
parse_loop (arg ∷ rest) a_socket socket level = parse_loop rest nothing arg level
parse_loop (arg ∷ rest) a_level socket level = parse_loop rest nothing socket arg
parse_loop (arg ∷ rest) nothing socket level = elim (kind arg) [
  | help ↦ shows_help
  | socket_is path ↦ parse_loop rest nothing path level
  | socket_next ↦ parse_loop rest a_socket socket level
  | log_is name ↦ parse_loop rest nothing socket name
  | log_next ↦ parse_loop rest a_level socket level
  | unknown ↦ rejects arg
]

abbrev pub var_or : Option Text → Text → Text
var_or none d = d
var_or (some t) d = t

-- The two environment variables, and the arguments behind the program's name.
unfoldable pub parse_args : Option Text → Option Text → List Text → Parsed
parse_args cm108_socket cm108_log raw =
    parse_loop raw nothing (var_or cm108_socket (codes "/run/cm108d/cm108d.sock"))
      (var_or cm108_log (codes "info"))

unfoldable pub level_from_str : Text → ℕ
level_from_str s =
    if text_eq s (codes "trace")
    then 0
    else if text_eq s (codes "debug")
    then 1
    else if text_eq s (codes "info")
    then 2
    else if text_eq s (codes "warn")
    then 3
    else if text_eq s (codes "error")
    then 4
    else 2

-- The tests of `log_debug`, `log_info` and `log_warn`.
unfoldable pub logs_debug : ℕ → Bool
logs_debug level = leb level 1

unfoldable pub logs_info : ℕ → Bool
logs_info level = leb level 2

unfoldable pub logs_warn : ℕ → Bool
logs_warn level = leb level 3
