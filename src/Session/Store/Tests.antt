-- ===== src/Session/Store/Tests.antt =====
-- The theorems on the files of the users at a fresh directory, and runs of the code.
use tiny_https_server.Prelude.{
  ℕ, zero, suc, ◌≡◌, refl, true, false, none, some, [], ◌∷◌, arith, codes,
}
use tiny_https_server.Prelude.Run.{done}
use tiny_https_server.Session.{Managers, no_user, store_user, http_session_register_user}
use tiny_https_server.Session.Fields.{terminated, IsText}
use tiny_https_server.Session.Users.{user_at}
use tiny_https_server.Session.Store.{
  Files, Engine, new_process, load_user_db, http_session_engine_start, save_users,
  http_session_engine_stop,
}
use tiny_https_server.Session.Store.Accounts.{Synced, register-Synced, stored-Synced}
use tiny_https_server.Session.Store.Saving.{full_work_stays}
use tiny_https_server.Session.Store.Restart.{Restored, restart_keeps}

-- The engine of a new process where the directory does not exist yet.
fresh : Engine
unfolding http_session_engine_start load_user_db
fresh = (http_session_engine_start (new_process none) 2 900).1

abbrev no_files : Files
no_files = record { meta = 0; db = [] }

fresh-Synced : Synced fresh no_files
unfolding fresh
fresh-Synced = record {
  opened = refl;
  meta_eq = refl;
  count_eq = refl;
  entries_eq = refl;
  slots = refl;
  readable = record { within = omega arith; names = names_end; passwords = passwords_end };
  named = λ i lt. absurd (omega arith);
  last_eq = refl;
  work_eq = refl;
  saved = λ i lt. absurd (omega arith);
}
  where
    names_end : (i : ℕ) → terminated (user_at (no_user ∷ no_user ∷ []) i).name ≡ true
    names_end zero = refl
    names_end (suc zero) = refl
    names_end (suc (suc i)) = refl

    passwords_end : (i : ℕ) → terminated (user_at (no_user ∷ no_user ∷ []) i).password ≡ true
    passwords_end zero = refl
    passwords_end (suc zero) = refl
    passwords_end (suc (suc i)) = refl

alice-IsText : IsText (codes "alice")
alice-IsText = (omega arith, (omega arith, (omega arith, (omega arith, (omega arith, tt)))))

register-Synced_example :
    (m' : Managers) × (http_session_register_user fresh.managers [] (codes "alice") (codes "secret")
      ≡ done (true, m'))
    × Synced (record fresh { managers = m' }) no_files
unfolding fresh
register-Synced_example =
    register-Synced fresh no_files fresh-Synced (codes "alice") (codes "secret") alice-IsText
      (omega arith) (omega arith) (omega arith) (omega arith) [] refl (omega arith)
      (λ i lt e. absurd (omega arith))

-- The same engine with the user in memory, not yet in the files.
with_alice : Engine
unfolding store_user fresh
with_alice = record fresh {
  managers = store_user fresh.managers fresh.managers.user 0 (codes "alice") (codes "secret");
}

with_alice-Synced : Synced with_alice no_files
unfolding with_alice fresh
with_alice-Synced =
    stored-Synced fresh no_files fresh-Synced (codes "alice") (codes "secret") alice-IsText
      (omega arith) (omega arith) (omega arith) (omega arith)

restart_keeps_example :
    (e' : Engine) × (f' : Files) × (http_session_engine_stop false with_alice ≡ done e')
    × (e'.files ≡ some f')
    × Restored with_alice.managers.user
        (http_session_engine_start (new_process e'.files) 2 900).1
        f'
unfolding with_alice fresh
restart_keeps_example = restart_keeps with_alice no_files with_alice-Synced 2 900 (omega arith) refl

full : Engine
unfolding with_alice fresh
full = record with_alice {
  managers = record with_alice.managers {
    user = record with_alice.managers.user { work_capacity = 1 };
  };
}

full_work_stays_example : save_users full ≡ done full
unfolding full with_alice fresh
full_work_stays_example = full_work_stays full refl
