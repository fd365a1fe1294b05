-- ===== src/Sig.antt =====
-- The thread for signals of sig.cpp.
pub mod Handled
use prefix_match_server.Prelude.{
  ℕ, ◌+◌, Bool, true, false, Option, none, some, List, [], ◌∷◌, ◌==◌, if◌then◌else◌,
}

-- The numbers of the signals.
abbrev pub sighup : ℕ
sighup = 1

abbrev pub sigint : ℕ
sigint = 2

abbrev pub sigusr1 : ℕ
sigusr1 = 10

abbrev pub sigusr2 : ℕ
sigusr2 = 12

abbrev pub sigttin : ℕ
sigttin = 21

abbrev pub sigttou : ℕ
sigttou = 22

-- How often `Reload_index(NULL)` was called, and whether the process has exited, with -1.
pub record Effects : Type 0 where
  pub reloads : ℕ
  pub exited : Bool

-- The handlers of the table.
unfoldable pub sig_handler_user1 : Effects → Effects
sig_handler_user1 e = record e { reloads = e.reloads + 1 }

abbrev pub sig_handler_user2 : Effects → Effects
sig_handler_user2 e = e

abbrev pub sig_handler_ttin : Effects → Effects
sig_handler_ttin e = e

abbrev pub sig_handler_ttou : Effects → Effects
sig_handler_ttou e = e

abbrev pub sig_handler_hup : Effects → Effects
sig_handler_hup e = e

unfoldable pub sig_handler_int : Effects → Effects
sig_handler_int e = record e { exited = true }

-- `struct signal`, with its number and its handler.
pub record Signal : Type 0 where
  pub signo : ℕ
  pub handler : Effects → Effects

unfoldable pub signals : List Signal
unfolding sig_handler_user1 sig_handler_int
signals =
    record { signo = sigusr1; handler = sig_handler_user1 }
    ∷ record { signo = sigusr2; handler = sig_handler_user2 }
    ∷ record { signo = sigttin; handler = sig_handler_ttin }
    ∷ record { signo = sigttou; handler = sig_handler_ttou }
    ∷ record { signo = sighup; handler = sig_handler_hup }
    ∷ record { signo = sigint; handler = sig_handler_int }
    ∷ []

-- The loop over the table, which ends at the first entry with the number.
unfoldable pub find_handler : List Signal → ℕ → Effects → Effects
find_handler [] signo e = e
find_handler (s ∷ table) signo e =
    if s.signo == signo then s.handler e else find_handler table signo e

unfoldable pub signal_handler : ℕ → Effects → Effects
unfolding signals find_handler
signal_handler signo e = find_handler signals signo e

-- `while (1)`, for what `sigwaitinfo` answers: a signal, or -1 (`none`). A process that has exited
-- takes no more.
unfoldable pub sigmgr_thread : List (Option ℕ) → Effects → Effects
sigmgr_thread [] e = e
sigmgr_thread (none ∷ answers) e = sigmgr_thread answers e
sigmgr_thread (some signo ∷ answers) e =
    let d = signal_handler signo e in
    let later = sigmgr_thread answers d in if d.exited then d else later
