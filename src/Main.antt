-- ===== src/Main.antt =====
-- server/server.c: `main`. The options are what getopt_long answers, one by one; `atoi`, the rest of
-- the arguments and whether http_server_start succeeds are parameters. `verbose` is not used.
pub mod Options
mod Tests
use tiny_https_server.Prelude.{
  ℕ, zero, suc, ◌+◌, ◌-◌, Bool, true, false, ◌||◌, Option, none, some, List, [], ◌∷◌, ◌++◌, ltb,
  ◌==◌, if◌then◌else◌, drop, length, Bytes, is_null,
}

-- `int`
pub data ℤ : Type 0 where
  pos : ℕ → ℤ
  negsuc : ℕ → ℤ

-- What the options set.
pub record Settings : Type 0 where
  pub ip : Option Bytes
  pub fullchain : Option Bytes
  pub privatekey : Option Bytes
  pub port : ℤ
  pub tasks : ℤ
  pub connections : ℤ

abbrev pub defaults : Settings
defaults = record {
  ip = none;
  fullchain = none;
  privatekey = none;
  port = negsuc 0;
  tasks = pos 0;
  connections = pos 20;
}

-- The `switch` over an option; `none` is one that ends the program.
unfoldable pub set_option : (Bytes → ℤ) → ℕ → Bytes → Settings → Option Settings
set_option atoi opt optarg o =
    if opt == b'p'
    then some (record o { port = atoi optarg })
    else if opt == b'i'
    then some (record o { ip = some optarg })
    else if opt == b'c'
    then some (record o { connections = atoi optarg })
    else if opt == b't'
    then some (record o { tasks = atoi optarg })
    else if opt == b'k'
    then some (record o { privatekey = some optarg })
    else if opt == 3
    then some (record o { fullchain = some optarg })
    else if opt == 1
    then some o
    else none

-- The loop over the options: the settings, or what `main` returns.
pub data Parsed : Type 0 where
  settings : Settings → Parsed
  exits : ℤ → Parsed

unfoldable pub parse_options : (Bytes → ℤ) → List (ℕ × Bytes) → Settings → Parsed
parse_options atoi [] o = settings o
parse_options atoi ((opt, optarg) ∷ opts) o = elim (set_option atoi opt optarg o) [
  | none ↦ exits (if opt == 2 then pos 0 else negsuc 0)
  | some o' ↦ parse_options atoi opts o'
]

-- `port == -1 || port == 0`
abbrev pub no_port : ℤ → Bool
no_port (pos n) = n == 0
no_port (negsuc n) = n == 0

-- `connections < 1`
abbrev pub below_one : ℤ → Bool
below_one (pos n) = n == 0
below_one (negsuc n) = true

-- The calls that `main` makes, in order.
pub data Call : Type 0 where
  http_server_init : Option Bytes → ℤ → ℤ → Bytes → Bytes → Call
  app_start : List Bytes → Call
  http_server_start : ℤ → Call
  sigwait : Call
  http_server_stop : Call
  app_stop : Call
  http_server_clean : Call

-- The arguments of the application, from the one in front of `optind` on.
abbrev pub app_args : List Bytes → ℕ → List Bytes
app_args argv optind = if ltb optind (length argv) then drop (optind - 1) argv else []

-- What runs once the settings are accepted.
abbrev pub serves : Settings → Bytes → Bytes → List Bytes → Bool → List Call
serves o fullchain privatekey args started =
    http_server_init o.ip o.port o.tasks fullchain privatekey
    ∷ app_start args
    ∷ http_server_start o.connections
    ∷ (if started then sigwait ∷ http_server_stop ∷ app_stop ∷ http_server_clean ∷ [] else [])

-- The test of the settings, and the rest of `main`.
unfoldable pub serve_with : List Bytes → ℕ → Bool → Settings → ℤ × List Call
serve_with argv optind started o = elim o.fullchain [
  | none ↦ (negsuc 0, [])
  | some fullchain ↦ elim o.privatekey [
    | none ↦ (negsuc 0, [])
    | some privatekey ↦
        if no_port o.port || below_one o.connections
        then (negsuc 0, [])
        else (pos 0, serves o fullchain privatekey (app_args argv optind) started)
  ]
]

-- `main`: what it returns, and what it calls.
unfoldable pub main : (Bytes → ℤ) → List (ℕ × Bytes) → List Bytes → ℕ → Bool → ℤ × List Call
main atoi opts argv optind started = elim (parse_options atoi opts defaults) [
  | exits code ↦ (code, [])
  | settings o ↦ serve_with argv optind started o
]
