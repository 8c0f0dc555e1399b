-- ===== src/Main/Options.antt =====
-- server/server.c: with which options the server starts.
use mathlib.Core.Path.{subst}
use tiny_https_server.Prelude.{
  ℕ, ◌≡◌, refl, sym, ap, ◌∙◌, ◌⊎◌, inl, inr, Bool, false, Option, none, some, List, [], ◌∷◌, arith,
  ◌==◌, if◌then◌else◌, Bytes, Bool-cases, Option-cases,
}
use tiny_https_server.Main.{
  ℤ, pos, negsuc, Settings, defaults, set_option, Parsed, settings, exits, parse_options, no_port,
  below_one, Call, http_server_init, app_start, http_server_start, sigwait, http_server_stop,
  app_stop, http_server_clean, app_args, serves, serve_with, main,
}

-- The last argument of an option.
abbrev pub last_arg : ℕ → List (ℕ × Bytes) → Option Bytes → Option Bytes
last_arg c [] d = d
last_arg c ((opt, optarg) ∷ opts) d = last_arg c opts (if opt == c then some optarg else d)

-- The number of the last argument of an option.
abbrev pub last_number : (Bytes → ℤ) → ℕ → List (ℕ × Bytes) → ℤ → ℤ
last_number atoi c [] d = d
last_number atoi c ((opt, optarg) ∷ opts) d =
    last_number atoi c opts (if opt == c then atoi optarg else d)

-- What one option does to the settings.
pub record Sets (atoi : Bytes → ℤ) (opt : ℕ) (optarg : Bytes) (o o' : Settings) : Type 0 where
  pub key : o'.privatekey ≡ (if opt == b'k' then some optarg else o.privatekey)
  pub chain : o'.fullchain ≡ (if opt == 3 then some optarg else o.fullchain)
  pub port : o'.port ≡ (if opt == b'p' then atoi optarg else o.port)
  pub connections : o'.connections ≡ (if opt == b'c' then atoi optarg else o.connections)

set_option-Sets :
    (atoi : Bytes → ℤ) (opt : ℕ) (optarg : Bytes) (o o' : Settings)
    → set_option atoi opt optarg o ≡ some o'
    → Sets atoi opt optarg o o'
unfolding set_option
set_option-Sets atoi opt optarg o o' h = record {
  key = ground arith;
  chain = ground arith;
  port = ground arith;
  connections = ground arith;
}

abbrev or_defaults : Parsed → Settings
or_defaults (settings o) = o
or_defaults (exits code) = defaults

-- The settings after all options.
pub record Last (atoi : Bytes → ℤ) (opts : List (ℕ × Bytes)) (o o' : Settings) : Type 0 where
  pub key : o'.privatekey ≡ last_arg b'k' opts o.privatekey
  pub chain : o'.fullchain ≡ last_arg 3 opts o.fullchain
  pub port : o'.port ≡ last_number atoi b'p' opts o.port
  pub connections : o'.connections ≡ last_number atoi b'c' opts o.connections

parse_step :
    (atoi : Bytes → ℤ) (opt : ℕ) (optarg : Bytes) (opts : List (ℕ × Bytes)) (o o1 : Settings)
    → set_option atoi opt optarg o ≡ some o1
    → parse_options atoi ((opt, optarg) ∷ opts) o ≡ parse_options atoi opts o1
unfolding parse_options
parse_step atoi opt optarg opts o o1 h = simp (parse_options, h)

parse_ends :
    (atoi : Bytes → ℤ) (opt : ℕ) (optarg : Bytes) (opts : List (ℕ × Bytes)) (o : Settings)
    → set_option atoi opt optarg o ≡ none
    → parse_options atoi ((opt, optarg) ∷ opts) o ≡ exits (if opt == 2 then pos 0 else negsuc 0)
unfolding parse_options
parse_ends atoi opt optarg opts o h = simp (parse_options, h)

parse_options-Last :
    (atoi : Bytes → ℤ) (opts : List (ℕ × Bytes)) (o o' : Settings)
    → parse_options atoi opts o ≡ settings o'
    → Last atoi opts o o'
unfolding parse_options
parse_options-Last atoi [] o o' h =
    let e : o' ≡ o = ap or_defaults (sym h) in
    record {
      key = ap (λ (q : Settings). q.privatekey) e;
      chain = ap (λ (q : Settings). q.fullchain) e;
      port = ap (λ (q : Settings). q.port) e;
      connections = ap (λ (q : Settings). q.connections) e;
    }
parse_options-Last atoi ((opt, optarg) ∷ opts) o o' h =
    elim (Option-cases (set_option atoi opt optarg o)) [
      | inl none' ↦ cc (parse_ends atoi opt optarg opts o none', h)
      | inr (o1, one) ↦
          let s = set_option-Sets atoi opt optarg o o1 one in
          let l =
            parse_options-Last atoi opts o1 o'
              (sym (parse_step atoi opt optarg opts o o1 one) ∙ h) in
          record {
            key = l.key ∙ ap (last_arg b'k' opts) s.key;
            chain = l.chain ∙ ap (last_arg 3 opts) s.chain;
            port = l.port ∙ ap (last_number atoi b'p' opts) s.port;
            connections = l.connections ∙ ap (last_number atoi b'c' opts) s.connections;
          }
    ]

-- The server was started with the settings of the options: a certificate chain and a key, a port,
-- and room for a connection.
pub record Started (atoi : Bytes → ℤ) (opts : List (ℕ × Bytes)) (args : List Bytes) (started : Bool)
    (r : ℤ × List Call) : Type 0 where
  pub given : Settings
  pub fullchain : Bytes
  pub privatekey : Bytes
  pub last : Last atoi opts defaults given
  pub chain : given.fullchain ≡ some fullchain
  pub key : given.privatekey ≡ some privatekey
  pub port : no_port given.port ≡ false
  pub connections : below_one given.connections ≡ false
  pub answer : r.0 ≡ pos 0
  pub calls :
      r.1
      ≡ http_server_init given.ip given.port given.tasks fullchain privatekey
        ∷ app_start args
        ∷ http_server_start given.connections
        ∷ (if started then sigwait ∷ http_server_stop ∷ app_stop ∷ http_server_clean ∷ [] else [])

-- The options are known and ask for no help, and what they set is enough to start.
pub record IsUsable (atoi : Bytes → ℤ) (opts : List (ℕ × Bytes)) : Type 0 where
  pub parsed : Settings
  pub parses : parse_options atoi opts defaults ≡ settings parsed
  pub fullchain : Bytes
  pub privatekey : Bytes
  pub chain : last_arg 3 opts none ≡ some fullchain
  pub key : last_arg b'k' opts none ≡ some privatekey
  pub port : no_port (last_number atoi b'p' opts (negsuc 0)) ≡ false
  pub connections : below_one (last_number atoi b'c' opts (pos 20)) ≡ false

module _ (atoi : Bytes → ℤ) (opts : List (ℕ × Bytes)) (argv : List Bytes) (optind : ℕ)
    (started : Bool) where
  abbrev StartedBy : ℤ × List Call → Type 0
  StartedBy = Started atoi opts (app_args argv optind) started

  serve_runs :
      (o : Settings) (fullchain privatekey : Bytes)
      → Last atoi opts defaults o
      → o.fullchain ≡ some fullchain
      → o.privatekey ≡ some privatekey
      → no_port o.port ≡ false
      → below_one o.connections ≡ false
      → StartedBy (serve_with argv optind started o)
  unfolding serve_with
  serve_runs o fullchain privatekey l chain key port connections =
      let runs : serve_with argv optind started o
          ≡ (pos 0, serves o fullchain privatekey (app_args argv optind) started) =
        simp (serve_with, chain, key, port, connections) in
      record {
        given = o;
        fullchain = fullchain;
        privatekey = privatekey;
        last = l;
        chain = chain;
        key = key;
        port = port;
        connections = connections;
        answer = ap (λ (r : ℤ × List Call). r.0) runs;
        calls = ap (λ (r : ℤ × List Call). r.1) runs;
      }

  started_with :
      (o : Settings)
      → Last atoi opts defaults o
      → ((serve_with argv optind started o).1 ≡ []) ⊎ StartedBy (serve_with argv optind started o)
  unfolding serve_with
  started_with o l = elim (Option-cases o.fullchain) [
    | inl none' ↦ inl (simp (serve_with, none'))
    | inr (fullchain, chain) ↦ elim (Option-cases o.privatekey) [
      | inl none' ↦ inl (simp (serve_with, chain, none'))
      | inr (privatekey, key) ↦ elim (Bool-cases (no_port o.port)) [
        | inl bad ↦ inl (simp (serve_with, chain, key, bad))
        | inr port ↦ elim (Bool-cases (below_one o.connections)) [
          | inl bad ↦ inl (simp (serve_with, chain, key, port, bad))
          | inr connections ↦ inr (serve_runs o fullchain privatekey l chain key port connections)
        ]
      ]
    ]
  ]

  main_settings :
      (o : Settings)
      → parse_options atoi opts defaults ≡ settings o
      → main atoi opts argv optind started ≡ serve_with argv optind started o
  unfolding main
  main_settings o h = simp (main, h)

  parsed_cases :
      (p : Parsed)
      → parse_options atoi opts defaults ≡ p
      → ((main atoi opts argv optind started).1 ≡ [])
        ⊎ StartedBy (main atoi opts argv optind started)
  unfolding main
  parsed_cases (exits code) h = inl (simp (main, h))
  parsed_cases (settings o) h =
      subst (λ r. (r.1 ≡ []) ⊎ StartedBy r) (sym (main_settings o h))
        (started_with o (parse_options-Last atoi opts defaults o h))

  -- `main` calls nothing, or it starts the server: with the last certificate chain and the last key
  -- that the options give, on the last port, which is neither 0 nor -1, for the last number of
  -- connections, which is one at least.
  pub main_lem :
      ((main atoi opts argv optind started).1 ≡ [])
      ⊎ Started atoi opts (app_args argv optind) started (main atoi opts argv optind started)
  main_lem = parsed_cases (parse_options atoi opts defaults) refl

  -- Where the options are known, ask for no help, and give a certificate chain, a key, and a last port
  -- and a last number of connections that will do: `main` starts the server with the last of each,
  -- and the application in front of it; when the server runs it waits for the signal, stops the
  -- server and the application in this order, and cleans up; it answers 0.
  pub main_starts :
      IsUsable atoi opts
      → Started atoi opts (app_args argv optind) started (main atoi opts argv optind started)
  main_starts u =
      let l = parse_options-Last atoi opts defaults u.parsed u.parses in
      subst StartedBy (sym (main_settings u.parsed u.parses)) (
        serve_runs u.parsed u.fullchain u.privatekey l (l.chain ∙ u.chain) (l.key ∙ u.key)
          (ap no_port l.port ∙ u.port) (ap below_one l.connections ∙ u.connections))
