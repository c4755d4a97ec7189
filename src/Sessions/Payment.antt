-- ===== src/Sessions/Payment.antt =====
-- The ends of leaders in src/services/session_manager/session_manager_service.cpp.
use jappeos_core.Services.Manager.{find_key, erase_key}
use jappeos_core.Sessions.Processes.{
  terminate_processes, signal_fd, terminate_pam, cleanup_pam, reap, close_fd,
}
use jappeos_core.Sessions.Stability.{Stable}
use jappeos_core.Sessions.Leaders.{
  erase_key-update, leads, reaped-other, reaped, is_life, opened-other, opened,
}
use jappeos_core.Prelude.{
  Option-cases, ℕ, ◌+◌, ◌<◌, String, ◌≡◌, refl, ap, ◌∙◌, inl, inr, true, false, Option, none, some,
  arith, if◌then◌else◌, Bool-cases, ◌==◌, nat_eq, string_eq,
}
use jappeos_core.Sessions.Data.{
  kills, SessionInfo, Leader, polls, signals, reaps, closes, Effect, World, SessionManager,
  log_effect,
}

-- So many reaps of the process are still to come.
abbrev pub Owes : ℕ → ℕ → SessionManager → Type 0
Owes p n s = opened p s.log ≡ reaped p s.log + n

abbrev pub one : ℕ → ℕ → ℕ
one pid p = if pid == p then 1 else 0

-- A pid of 0 stands for no process.
no_process :
    (pid p n : ℕ) (s : SessionManager)
    → 0 < p
    → (pid == 0) ≡ true
    → Owes p (one pid p + n) s
    → Owes p n s
no_process pid p n s positive e h = ground (arith, h)

module _ (p n : ℕ) where
  pub Owes-Stable : (id : String) → Stable id (Owes p n)
  Owes-Stable id = record {
    updates = λ f s g v. v;
    logs = λ e s q v. rw (opened-other p e s.log q, reaped-other p e s.log q) v;
  }

  idles :
      (e : Effect) (s : SessionManager) → is_life e ≡ false → Owes p n s → Owes p n (log_effect e s)
  idles e s q v = (Owes-Stable "").logs e s q v

module _ (w : World) (p n : ℕ) where
  reaps-Owes :
      (pid : ℕ) (s : SessionManager)
      → Owes p (one pid p + n) s
      → Owes p n (log_effect (reaps pid) s)
  reaps-Owes pid s h = omega (arith, h)

  reap-Owes : (pid : ℕ) (s : SessionManager) → Owes p (one pid p + n) s → Owes p n (reap w pid s)
  unfolding reap
  reap-Owes pid s h =
      let s1 = log_effect (polls pid) s in
      let s2 = log_effect (polls pid) s1 in
      let h1 : Owes p (one pid p + n) s1 = idles p _ (polls pid) s refl h in
      let h2 : Owes p (one pid p + n) s2 = idles p _ (polls pid) s1 refl h1 in
      elim (Bool-cases (w.has_exited s1.log pid)) [
        | inl e ↦ rw e (reaps-Owes pid s1 h1)
        | inr e ↦ elim (Bool-cases (w.has_exited s2.log pid)) [
          | inl e' ↦ rw (e, e') (reaps-Owes pid s2 h2)
          | inr e' ↦
              rw (e, e')
                (reaps-Owes pid (log_effect (kills pid) s2) (idles p _ (kills pid) s2 refl h2))
        ]
      ]

  signal_fd-Owes : (fd : Option ℕ) (s : SessionManager) → Owes p n s → Owes p n (signal_fd w fd s)
  signal_fd-Owes none s h = h
  signal_fd-Owes (some fd) s h = idles p n (signals fd) s refl h

  close_fd-Owes : (fd : Option ℕ) (s : SessionManager) → Owes p n s → Owes p n (close_fd w fd s)
  close_fd-Owes none s h = h
  close_fd-Owes (some fd) s h = idles p n (closes fd) s refl h

module _ (w : World) (p n : ℕ) (positive : 0 < p) where
  pub terminate_pam-Owes :
      (key : String) (x : SessionInfo) (s : SessionManager)
      → Owes p (leads x p + n) s
      → Owes p n (terminate_pam w key x s)
  unfolding terminate_pam
  terminate_pam-Owes key x s h = elim (Bool-cases (x.leader_pid == 0)) [
    | inl e ↦ rw e (no_process x.leader_pid p n s positive e h)
    | inr e ↦ rw e (
        close_fd-Owes w p n x.control_fd _
          (reap-Owes w p n x.leader_pid _ (signal_fd-Owes w p _ x.control_fd s h)))
  ]

  pub cleanup_pam-Owes :
      (l : Leader) (s : SessionManager) → Owes p (one l.pid p + n) s → Owes p n (cleanup_pam w l s)
  unfolding cleanup_pam
  cleanup_pam-Owes l s h =
      let s0 = log_effect (signals l.control_fd) s in
      let s1 = log_effect (closes l.control_fd) s0 in
      let h1 : Owes p (one l.pid p + n) s1 =
        idles p (one l.pid p + n) (closes l.control_fd) s0 refl
          (idles p (one l.pid p + n) (signals l.control_fd) s refl h) in
      elim (Bool-cases (l.pid == 0)) [
        | inl e ↦ rw e (no_process l.pid p n s1 positive e h1)
        | inr e ↦ rw e (reap-Owes w p n l.pid s1 h1)
      ]

module _ (w : World) where
  reap-sessions : (pid : ℕ) (s : SessionManager) → (reap w pid s).sessions ≡ s.sessions
  unfolding reap
  reap-sessions pid s = ground arith

  close_fd-sessions : (fd : Option ℕ) (s : SessionManager) → (close_fd w fd s).sessions ≡ s.sessions
  close_fd-sessions none s = refl
  close_fd-sessions (some fd) s = refl

  signal_fd-sessions :
      (fd : Option ℕ) (s : SessionManager) → (signal_fd w fd s).sessions ≡ s.sessions
  signal_fd-sessions none s = refl
  signal_fd-sessions (some fd) s = refl

  pub terminate_processes-sessions :
      (id : String) (s : SessionManager) → (terminate_processes w id s).sessions ≡ s.sessions
  unfolding terminate_processes
  terminate_processes-sessions id s = elim (Option-cases (find_key id s.sessions)) [
    | inl e ↦ rw e refl
    | inr (x, e) ↦ elim (Bool-cases x.manager) [
      | inl e' ↦ rw (e, e') refl
      | inr e' ↦ rw (e, e') refl
    ]
  ]

  pub erase-terminate_pam :
      (key : String) (x : SessionInfo) (s : SessionManager)
      → erase_key key (terminate_pam w key x s).sessions ≡ erase_key key s.sessions
  unfolding terminate_pam
  erase-terminate_pam key x s = elim (Bool-cases (x.leader_pid == 0)) [
    | inl e ↦ rw e refl
    | inr e ↦ rw e (
        erase_key-update key _ _
        ∙ ap (erase_key key) (
            close_fd-sessions x.control_fd _
            ∙ reap-sessions x.leader_pid _
            ∙ signal_fd-sessions x.control_fd s))
  ]

  pub cleanup_pam-sessions :
      (l : Leader) (s : SessionManager) → (cleanup_pam w l s).sessions ≡ s.sessions
  unfolding cleanup_pam
  cleanup_pam-sessions l s = elim (Bool-cases (l.pid == 0)) [
    | inl e ↦ rw e refl
    | inr e ↦ rw e (reap-sessions l.pid _)
  ]
