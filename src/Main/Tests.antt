-- ===== src/Main/Tests.antt =====
-- The theorem on server/server.c at the options of a server, and runs of the code.
use tiny_https_server.Prelude.{ℕ, ◌≡◌, refl, true, none, some, List, [], ◌∷◌, Bytes, codes, length}
use tiny_https_server.Main.{ℤ, pos, negsuc, set_option, parse_options, app_args, main}
use tiny_https_server.Main.Options.{Started, IsUsable, main_starts}

-- The length of the text, as a number that options may give.
abbrev measured : Bytes → ℤ
measured s = pos (length s)

abbrev options : List (ℕ × Bytes)
options = (b'p', codes "443") ∷ (3, codes "chain.pem") ∷ (b'k', codes "key.pem") ∷ []

abbrev argv : List Bytes
argv = codes "server" ∷ codes "--root" ∷ codes "/srv" ∷ []

usable : IsUsable measured options
unfolding parse_options set_option
usable = record {
  parsed = record {
    ip = none;
    fullchain = some (codes "chain.pem");
    privatekey = some (codes "key.pem");
    port = pos 3;
    tasks = pos 0;
    connections = pos 20;
  };
  parses = refl;
  fullchain = codes "chain.pem";
  privatekey = codes "key.pem";
  chain = refl;
  key = refl;
  port = refl;
  connections = refl;
}

main_starts_example :
    Started measured options (app_args argv 1) true (main measured options argv 1 true)
main_starts_example = main_starts measured options argv 1 true usable

-- `-h` is among the letters of the short options, and no case of the switch.
short_help : main measured ((b'h', []) ∷ []) argv 1 true ≡ (negsuc 0, [])
unfolding main parse_options set_option
short_help = refl
