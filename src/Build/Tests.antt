-- ===== src/Build/Tests.antt =====
-- The theorems on cb.h at small inputs, and runs of the code.
use tiny_https_server.Prelude.{
  ℕ, ◌≡◌, refl, ap, ◌∙◌, get_or-replicate, true, false, Option, none, some, [], ◌∷◌, arith,
  replicate, inl, Bytes, str_eq, starts_with, codes, map, List, if◌then◌else◌,
}
use tiny_https_server.Build.{
  no_arena, reserve, arena_get_memory, align_to_word_size, ContextStack, ArenaContext, no_context,
  arena_flush, temp_default_size,
}
use tiny_https_server.Build.Pieces.{IsArena, Apart, requests, requests-Apart}
use tiny_https_server.Build.Contexts.{
  Body, ends, gets, inside, run, IsStack, Restored, inside-Restored,
}
use tiny_https_server.Build.Strings.{no_string, string_append_many}
use tiny_https_server.Build.Text.{Ready, Holds}
use tiny_https_server.Build.Paths.{Appended, needs, AllTexts, joined, string_append_many_lem}
use tiny_https_server.Build.Fetch.{fetch_loop, checked, is_file_older, find_file}
use tiny_https_server.Build.Fetch.Copies.{both_paths, IsTidy, wanted, fetch_loop_lem}

no_arena-IsArena : IsArena no_arena
no_arena-IsArena = record { below = omega arith; bounded = omega arith; aligned = refl }

-- The last one does not fit.
abbrev sizes : List ℕ
sizes = 5 ∷ 16 ∷ 40000000 ∷ []

requests-Apart_example :
    IsArena (requests no_arena sizes).1
    × Apart
        (reserve no_arena).free_offset
        (requests no_arena sizes).1.size
        (requests no_arena sizes).0
requests-Apart_example =
    requests-Apart no_arena sizes no_arena-IsArena (omega arith, (omega arith, (omega arith, tt)))

pieces_of_sizes : (requests no_arena sizes).0 ≡ (5, some 0) ∷ (16, some 8) ∷ (40000000, none) ∷ []
unfolding arena_get_memory reserve align_to_word_size
pieces_of_sizes = refl

abbrev ten : ContextStack
ten = record { mapped = 0; size = 10; last = 0; contexts = replicate 10 no_context }

flush_none : arena_flush no_arena ≡ no_arena
unfolding arena_flush
flush_none = refl

ten-IsStack : IsStack ten
ten-IsStack = record {
  within = omega arith;
  slots = refl;
  free = λ i _. get_or-replicate 10 i no_context;
  clean = λ i.
      ap (λ (c : ArenaContext). arena_flush c.arena) (get_or-replicate 10 i no_context)
      ∙ flush_none;
  counted = refl;
}

-- A function that takes memory and calls another one that does.
abbrev body : Body
body = gets 100 (inside (codes "remove_dir") (gets 50 ends) ends)

inside-Restored_example : Restored ten (run [] ten (inside (codes "build_app") body ends))
inside-Restored_example =
    inside-Restored [] ten 1 (codes "build_app") body ten-IsStack (omega arith) (omega arith)
      (omega arith, tt, tt)

-- A context whose arena is the default one, with nothing taken.
abbrev one : ContextStack
one = record {
  mapped = 1;
  size = 1;
  last = 1;
  contexts =
      record {
        context = codes "init_repo";
        arena = record { size = temp_default_size; free_offset = 0; reserved = true };
      }
      ∷ [];
}

one-Ready : Ready one (needs 0 (codes "libs" ∷ codes "/" ∷ codes "queue.c" ∷ []))
unfolding reserve align_to_word_size
one-Ready = record {
  some_context = omega arith;
  inside = omega arith;
  arena = record { below = omega arith; bounded = omega arith; aligned = refl };
  room = omega arith;
}

no_string-Holds : Holds no_string []
no_string-Holds = record { text = tt; size_eq = refl; memory = inl (refl, refl, refl) }

all_texts : AllTexts (codes "libs" ∷ codes "/" ∷ codes "queue.c" ∷ [])
all_texts = (
  (omega arith, (omega arith, (omega arith, (omega arith, tt)))),
  (
    (omega arith, tt),
    (
      (
        omega arith,
        (
          omega arith,
          (omega arith, (omega arith, (omega arith, (omega arith, (omega arith, tt))))),
        ),
      ),
      tt,
    ),
  ),
)

path_held :
    Appended
      (string_append_many one no_string (codes "libs" ∷ codes "/" ∷ codes "queue.c" ∷ []))
      (joined [] (codes "libs" ∷ codes "/" ∷ codes "queue.c" ∷ []))
      0
path_held =
    string_append_many_lem one no_string [] (codes "libs" ∷ codes "/" ∷ codes "queue.c" ∷ [])
      no_string-Holds all_texts (omega arith) one-Ready

-- The time of a path: that of the sources is 5, but 3 of `old.c`; that of the copies is 4.
abbrev times : Bytes → Option ℕ
times path =
    if str_eq path (codes "src/old.c")
    then some 3
    else if starts_with path (codes "src")
    then some 5
    else some 4

abbrev there : List Bytes
there = codes "old.c" ∷ codes "new.c" ∷ []

tidy :
    IsTidy times
      (codes "src")
      (codes "libs")
      there
      false
      (codes "more.c" ∷ codes "new.c" ∷ codes "old.c" ∷ [])
unfolding find_file is_file_older
tidy = (refl, (refl, (refl, tt)))

fetch_loop_lem_example :
    fetch_loop times
      (codes "src")
      (codes "libs")
      there
      ([], [])
      (codes "more.c" ∷ codes "new.c" ∷ codes "old.c" ∷ [])
    ≡ map (both_paths times (codes "src") (codes "libs") there) (
        wanted times
          (codes "src")
          (codes "libs")
          there
          (codes "more.c" ∷ codes "new.c" ∷ codes "old.c" ∷ []))
fetch_loop_lem_example =
    fetch_loop_lem times (codes "src") (codes "libs") there
      (codes "more.c" ∷ codes "new.c" ∷ codes "old.c" ∷ []) tidy

-- `more.c` is missing, and `old.c` is copied in its place.
more_lost :
    fetch_loop times
      (codes "src")
      (codes "libs")
      there
      ([], [])
      (codes "old.c" ∷ codes "more.c" ∷ [])
    ≡ (codes "src/old.c", codes "libs/old.c") ∷ []
unfolding fetch_loop checked find_file is_file_older
more_lost = refl
