-- ===== src/Ctl/Stop.antt =====
-- What the command `stop` of scripts/daemon_ctl.py terminates, and what its report is worth.
use claude_code_cli_local_ga.Prelude.{
  find?, text_append, Option-cases, ◌+◌, Bool-cases, ℕ, ◌≤◌, ◌<◌, String, Bool, true, false, Option,
  none, some, is_some, List, [], ◌∷◌, ◌≡◌, refl, ◌⊎◌, inl, inr, arith, ltb,
}
use claude_code_cli_local_ga.Ctl.{
  ended, fallback_line, stop_timeout_sec, confirmed, read_pid, fall_back, stop, Glimpse, Ended,
  Polls, await_gone, live_daemon_pid,
}

module _ (read_int : String → Option ℕ) (shown : ℕ → String) where
  -- Some poll comes at the deadline or later.
  abbrev pub IsTimed : ℕ → Polls → Type 0
  IsTimed deadline [] = ⊥
  IsTimed deadline ((now, g) ∷ polls) = (deadline ≤ now) ⊎ IsTimed deadline polls

  -- The command line of the process has the marker of a daemon.
  abbrev has_marker : Glimpse → ℕ → Bool
  has_marker g pid = is_some (find? (g.command_line pid) "claude_pool.daemon")

  -- The pid file holds the number of the process, whose command line is a daemon's.
  abbrev pub NamesDaemon : Glimpse → ℕ → Type 0
  NamesDaemon g pid =
      (text : String) × (g.file ≡ some text)
      × (read_int text ≡ some pid)
      × (has_marker g pid ≡ true)

  -- There is no pid file, it holds no number, or the process of the number is no daemon.
  abbrev pub NamesNone : Glimpse → Type 0
  NamesNone g =
      (g.file ≡ none)
      ⊎ ((text : String) × (g.file ≡ some text)
          × ((read_int text ≡ none)
              ⊎ ((pid : ℕ) × (read_int text ≡ some pid) × (has_marker g pid ≡ false))))

  live-NamesNone : (g : Glimpse) → live_daemon_pid read_int g ≡ none → NamesNone g
  unfolding live_daemon_pid read_pid confirmed
  live-NamesNone g h = elim (Option-cases g.file) [
    | inl e ↦ inl e
    | inr (text, e) ↦ elim (Option-cases (read_int text)) [
      | inl f ↦ inr (text, e, inl f)
      | inr (n, f) ↦ elim (Bool-cases (has_marker g n)) [
        | inl m ↦ absurd (cc (rw (e, f, m) at h))
        | inr m ↦ inr (text, e, inr (n, f, m))
      ]
    ]
  ]

  -- Some poll before the deadline finds no daemon by the pid file.
  abbrev pub IsGone : ℕ → Polls → Type 0
  IsGone deadline [] = ⊥
  IsGone deadline ((now, g) ∷ polls) = ((now < deadline) × NamesNone g) ⊎ IsGone deadline polls

  -- The loop ends, for the one process, with 0 only after it found no daemon by the pid file.
  abbrev pub IsAwaited : ℕ → ℕ → Polls → Option Ended → Type 0
  IsAwaited deadline pid polls none = ⊥
  IsAwaited deadline pid polls (some e) =
      (e.terminated ≡ some pid) × (((e.code ≡ 0) × IsGone deadline polls) ⊎ (e.code ≡ 1))

  IsAwaited-later :
      (deadline pid now : ℕ) (g : Glimpse) (polls : Polls) (r : Option Ended)
      → IsAwaited deadline pid polls r
      → IsAwaited deadline pid ((now, g) ∷ polls) r
  IsAwaited-later deadline pid now g polls none h = h
  IsAwaited-later deadline pid now g polls (some e) (t, inl (c, d)) = (t, inl (c, inr d))
  IsAwaited-later deadline pid now g polls (some e) (t, inr c) = (t, inr c)

  none_of : (o : Option ℕ) → is_some o ≡ false → o ≡ none
  none_of none e = refl
  none_of (some n) e = cc

  still-IsTimed :
      (deadline now : ℕ) (g : Glimpse) (polls : Polls)
      → ltb now deadline ≡ true
      → IsTimed deadline ((now, g) ∷ polls)
      → IsTimed deadline polls
  still-IsTimed deadline now g polls e (inl late) = absurd (ground arith)
  still-IsTimed deadline now g polls e (inr more) = more

  pub await_gone-IsAwaited :
      (deadline pid : ℕ) (unlinked : Bool) (said : List String) (polls : Polls)
      → IsTimed deadline polls
      → IsAwaited deadline pid polls (await_gone read_int shown deadline pid unlinked said polls)
  unfolding await_gone
  await_gone-IsAwaited deadline pid unlinked said [] h = absurd h
  await_gone-IsAwaited deadline pid unlinked said ((now, g) ∷ polls) h =
      elim (Bool-cases (ltb now deadline)) [
        | inr late ↦ rw late (refl, inr refl)
        | inl early ↦ elim (Bool-cases (is_some (live_daemon_pid read_int g))) [
          | inl alive ↦
              rw (early, alive)
                (IsAwaited-later deadline pid now g polls _ (
                  await_gone-IsAwaited deadline pid unlinked said polls
                    (still-IsTimed deadline now g polls early h)))
          | inr gone ↦
              rw (early, gone)
                (refl, inl (refl, inl (ground arith, live-NamesNone g (none_of _ gone))))
        ]
      ]

  -- What stop() may come to, by what it observed at first.
  abbrev pub IsJustified : Glimpse → Bool → List ℕ → ℕ → Polls → Option Ended → Type 0
  IsJustified g answering pids deadline polls none = ⊥
  IsJustified g answering pids deadline polls (some e) =
      ((e.terminated ≡ none) × (((e.code ≡ 0) × NamesNone g × (answering ≡ false)) ⊎ (e.code ≡ 1)))
      ⊎ ((pid : ℕ) × (NamesDaemon g pid ⊎ ((answering ≡ true) × (pids ≡ pid ∷ [])))
          × IsAwaited deadline pid polls (some e))

  -- `stop` without a usable pid file reports that it has stopped the one listed daemon at the first
  -- poll that finds no pid file, whatever processes run by then.
  stop_blind :
      (windows : Bool) (port : String) (g later : Glimpse) (pid now soon : ℕ) (polls : Polls)
      → live_daemon_pid read_int g ≡ none
      → later.file ≡ none
      → soon < now + stop_timeout_sec
      → stop read_int shown windows port g true (pid ∷ []) now ((soon, later) ∷ polls)
        ≡ some (
            ended 0
              (some pid)
              true
              (fallback_line shown pid ∷ text_append "stopped  pid=" (shown pid) ∷ []))
  unfolding stop fall_back await_gone live_daemon_pid read_pid confirmed
  stop_blind windows port g later pid now soon polls e f l = rw (e, stop) (rw (early, f) refl)
    where
      early : ltb soon (now + stop_timeout_sec) ≡ true
      early = ground arith
