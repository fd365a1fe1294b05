-- ===== src/Sig/Handled.antt =====
-- What signals do to the process.
use mathlib.Core.Path.{ap₂}
use prefix_match_server.Prelude.{
  ℕ, sym, suc, ◌+◌, ◌≡◌, refl, ap, ◌∙◌, inl, inr, Bool, true, false, ◌||◌, Option, none, some, List,
  [], ◌∷◌, ◌==◌, if◌then◌else◌, arith, Bool-cases,
}
use prefix_match_server.Sig.{
  sigint, sigusr1, Effects, signals, find_handler, signal_handler, sigmgr_thread, sig_handler_user1,
  sig_handler_int,
}

-- The signals in front of the first SIGINT that are SIGUSR1.
unfoldable pub user1_count : List (Option ℕ) → ℕ
user1_count [] = 0
user1_count (none ∷ answers) = user1_count answers
user1_count (some signo ∷ answers) =
    let n = user1_count answers in
    if signo == sigint then 0 else if signo == sigusr1 then suc n else n

unfoldable pub has_int : List (Option ℕ) → Bool
has_int [] = false
has_int (none ∷ answers) = has_int answers
has_int (some signo ∷ answers) = signo == sigint || has_int answers

-- A signal by its number.
signal_handler_lem :
    (signo : ℕ) (e : Effects)
    → signal_handler signo e ≡ (
        if signo == sigint
        then record e { exited = true }
        else if signo == sigusr1
        then record e { reloads = e.reloads + 1 }
        else e)
unfolding signal_handler signals find_handler sig_handler_user1 sig_handler_int
signal_handler_lem signo e = ground arith

add_zero : (n : ℕ) → n + 0 ≡ n
add_zero n = omega arith

-- After any answers of `sigwaitinfo`, for a process that runs: the index was reloaded once for each
-- SIGUSR1 in front of the first SIGINT, the process has exited if there is a SIGINT, and no other
-- signal did anything.
pub sigmgr_thread-handled :
    (answers : List (Option ℕ)) (e : Effects)
    → e.exited ≡ false
    → sigmgr_thread answers e
      ≡ record { reloads = e.reloads + user1_count answers; exited = has_int answers }
unfolding sigmgr_thread user1_count has_int
sigmgr_thread-handled [] e h =
    ap₂ (λ n b. record { reloads = n; exited = b }) (sym (add_zero e.reloads)) h
sigmgr_thread-handled (none ∷ answers) e h = sigmgr_thread-handled answers e h
sigmgr_thread-handled (some signo ∷ answers) e h = elim (Bool-cases (signo == sigint)) [
  | inl y ↦
      rw (signal_handler_lem signo e, y)
        (ap (λ n. record { reloads = n; exited = true }) (sym (add_zero e.reloads)))
  | inr y ↦ elim (Bool-cases (signo == sigusr1)) [
    | inl z ↦
        rw (signal_handler_lem signo e, y, z, h)
          (sigmgr_thread-handled answers (record { reloads = e.reloads + 1; exited = false }) refl
            ∙ ap (λ n. record { reloads = n; exited = has_int answers }) (omega arith))
    | inr z ↦
        rw (signal_handler_lem signo e, y, z, h)
          (sigmgr_thread-handled answers (record { reloads = e.reloads; exited = false }) refl)
  ]
]
