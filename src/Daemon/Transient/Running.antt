-- ===== src/Daemon/Transient/Running.antt =====
-- When RunContainerViaTransientUnit succeeds, the container runs.
use nsbox.Base.{
  Text, codes, Bool, true, false, str_eq, str_eq_iff, if◌then◌else◌, Dict, Result, Error, ok, err,
  panic, wrap_err, >>=-eq-ok, ◌≡◌, ◌⊎◌, inl, inr, refl, ◌∙◌, Bool-cases, sym, ap, List, [], ◌∷◌,
  ◌++◌, not, Option, some,
}
use nsbox.Container.Data.{Container}
use nsbox.Container.Files.{apply_environ_filter}
use nsbox.Container.Lock.{run_lock, Table, Outcome, done, waits, lock_path, Owner}
use nsbox.Container.Lock.Taken.{IsWellFormed}
use nsbox.Userdata.Username.{machine_name}
use nsbox.Kill.{Machined, Signal, sig_poweroff, sig_kill, kill_container}
use nsbox.Kill.Waited.{Waited, kill_container-Waited, SentTo, IsOver, IsTaken, IsHeldOn, EndsWell}
use nsbox.Daemon.Direct.{get_xdg_runtime_dir}
use nsbox.Daemon.Direct.Files.{User}
use nsbox.Daemon.Transient.{
  Systemd, unit_name, unit_properties, job_failed, start_nsboxd, start_if_gone, restart_signal,
  after_kill, kill_if_there, connected, run_container_via_transient_unit, Property, service_type,
  description, exec_start, temporary_file_system, environment, notify_access, requires,
}

err-neq-ok {ℓ ℓ'} : {A : Type ℓ} {B : Type ℓ'} {x : Error} {a : A} → err x ≡ ok a → B
err-neq-ok e = cc e

wrap_err-eq-ok {ℓ} :
    {A : Type ℓ} (message : Text) (r : Result A) {a : A} → wrap_err message r ≡ ok a → r ≡ ok a
wrap_err-eq-ok message (ok b) e = e
wrap_err-eq-ok message (err x) e = cc e
wrap_err-eq-ok message (panic m) e = cc e

module _ (systemd : Systemd) (machined : Machined) (ct : Container) (user : User)
    (environ : Dict Text) where
  -- What the unit of the container is asked for.
  abbrev pub asked_for : Text → Text → List Property
  asked_for nsboxd xdg_runtime_dir =
      service_type (codes "notify")
      ∷ description (codes "nsbox container " ++ (ct.name ++ (codes " for " ++ user.username)))
      ∷ exec_start
          (nsboxd ∷ (if systemd.verbose then codes "-v=true" else codes "-v=false") ∷ ct.name ∷ [])
      ∷ temporary_file_system systemd.private_bus_tmpdir
      ∷ environment
          ((codes "PKEXEC_UID=" ++ user.uid) ∷ (codes "XDG_RUNTIME_DIR=" ++ xdg_runtime_dir) ∷ [])
      ∷ notify_access (codes "all")
      ∷ (if ct.config.virtual_network then requires (codes "systemd-networkd.service") ∷ [] else [])

  asked_for-eq :
      (nsboxd xdg_runtime_dir : Text)
      → unit_properties systemd nsboxd ct user xdg_runtime_dir ≡ asked_for nsboxd xdg_runtime_dir
  unfolding unit_properties
  asked_for-eq nsboxd xdg_runtime_dir = by_verbose systemd.verbose
    where
      by_verbose :
          (v : Bool)
          → unit_properties (record systemd { verbose = v }) nsboxd ct user xdg_runtime_dir
            ≡ service_type (codes "notify")
              ∷ description
                  (codes "nsbox container " ++ (ct.name ++ (codes " for " ++ user.username)))
              ∷ exec_start
                  (nsboxd ∷ (if v then codes "-v=true" else codes "-v=false") ∷ ct.name ∷ [])
              ∷ temporary_file_system systemd.private_bus_tmpdir
              ∷ environment (
                  (codes "PKEXEC_UID=" ++ user.uid)
                  ∷ (codes "XDG_RUNTIME_DIR=" ++ xdg_runtime_dir)
                  ∷ [])
              ∷ notify_access (codes "all")
              ∷ (if ct.config.virtual_network
                  then requires (codes "systemd-networkd.service") ∷ []
                  else [])
      by_verbose true = refl
      by_verbose false = refl

  abbrev pub service : Text
  service = codes "nsbox-" ++ (machine_name user.username ct.name ++ codes ".service")

  -- The job of the unit with nsboxd was done.
  abbrev pub UnitDone : Type 0
  UnitDone =
      (nsboxd xdg_runtime_dir : Text) × (systemd.nsboxd ≡ ok nsboxd)
      × (get_xdg_runtime_dir (apply_environ_filter ct environ) ≡ ok xdg_runtime_dir)
      × (systemd.start_transient_unit service (asked_for nsboxd xdg_runtime_dir)
          ≡ ok (codes "done"))

  start_nsboxd-done :
      (nsboxd : Text)
      → start_nsboxd systemd nsboxd ct user (apply_environ_filter ct environ) ≡ ok tt
      → (xdg_runtime_dir : Text) × (get_xdg_runtime_dir (apply_environ_filter ct environ)
          ≡ ok xdg_runtime_dir)
        × (systemd.start_transient_unit service (asked_for nsboxd xdg_runtime_dir)
            ≡ ok (codes "done"))
  unfolding start_nsboxd job_failed unit_name
  start_nsboxd-done nsboxd e =
      let (j, _, e1) = >>=-eq-ok (wrap_err (codes "opening journal reader") systemd.journal) _ e in
      let (xdg, x, e2) = >>=-eq-ok (get_xdg_runtime_dir (apply_environ_filter ct environ)) _ e1 in
      let started =
        systemd.start_transient_unit (unit_name user.username ct)
          (unit_properties systemd nsboxd ct user xdg) in
      let (job, k, e3) = >>=-eq-ok (wrap_err (codes "starting transient unit") started) _ e2 in
      elim (Bool-cases (str_eq job (codes "done"))) [
        | inl h ↦ (
          xdg,
          x,
          ap (systemd.start_transient_unit service) (sym (asked_for-eq nsboxd xdg))
              ∙ wrap_err-eq-ok (codes "starting transient unit") started k
              ∙ ap ok ((str_eq_iff job (codes "done")).0 h),
        )
        | inr h ↦
            err-neq-ok
              (sym (ap (λ c. if c then ok tt else job_failed (unit_name user.username ct)) h) ∙ e3)
      ]

  start_if_gone-done :
      (there : Result (Unit {0}))
      → start_if_gone systemd ct user (apply_environ_filter ct environ) there ≡ ok tt
      → (there ≡ ok tt) ⊎ UnitDone
  start_if_gone-done (ok a) e = inl refl
  start_if_gone-done (err gone) e =
      let (nsboxd, n, e1) =
        >>=-eq-ok (wrap_err (codes "cannot locate nsboxd") systemd.nsboxd) _ e in
      let (xdg, x, done_) = start_nsboxd-done nsboxd (
        wrap_err-eq-ok (codes "cannot start nsboxd")
          (start_nsboxd systemd nsboxd ct user (apply_environ_filter ct environ)) e1) in
      inr (nsboxd, xdg, wrap_err-eq-ok (codes "cannot locate nsboxd") systemd.nsboxd n, x, done_)
  start_if_gone-done (panic m) e = cc e

  abbrev Starting : Result (Unit {0}) → Type 0
  Starting start = start ≡ ok tt → (systemd.machine_after ≡ ok tt) ⊎ UnitDone

  abbrev run_path : Text
  run_path = lock_path ct.path run_lock

  -- The machine that was there was sent what its kind needs, and its run was over.
  abbrev pub IsEnded : Table → Table → Type 0
  IsEnded b t =
      SentTo machined (machine_name user.username ct.name)
        (if ct.config.boot then sig_poweroff else sig_kill) (not ct.config.boot)
      × IsOver machined run_path b t

  -- Who holds what lock is as before, or as it was when the run of the machine ended.
  abbrev pub LocksKept : Table → Table → Type 0
  LocksKept b t =
      ((p : Text) → t.holder p ≡ b.holder p)
      ⊎ ((holder : Text → Option Owner) × (machined.run_ends ≡ some holder)
          × ((p : Text) → t.holder p ≡ holder p))

  -- With success the machine was there at the end, or the unit was started; and a machine that was to be
  -- restarted was ended first. Only a restart waits, for the lock of a run that is held.
  abbrev pub Ran : Bool → Table → Outcome (Unit {0}) × Table → Type 0
  Ran restart b (done r, t) =
      (r ≡ ok tt
        → ((systemd.machine_after ≡ ok tt) ⊎ UnitDone)
          × (restart ≡ true → systemd.machine_before ≡ ok tt → IsEnded b t))
      × LocksKept b t
  Ran restart b (waits, t) =
      (restart ≡ true)
      × (systemd.machine_before ≡ ok tt)
      × IsTaken (b.holder run_path)
      × IsHeldOn machined.run_ends run_path

  over-kept : (b t : Table) → IsOver machined run_path b t → LocksKept b t
  over-kept b t (inl (free, same)) = inl same
  over-kept b t (inr (holder, e, free, same)) = inr (holder, e, same)

  abbrev KilledAs : Bool → Table → Outcome (Unit {0}) × Table → Type 0
  KilledAs boot b o =
      Waited machined user.username ct (if boot then sig_poweroff else sig_kill) (not boot) b o

  as_kind :
      (b : Table) (boot : Bool) (o : Signal × Bool → Outcome (Unit {0}) × Table)
      → ((signal : Signal) (all : Bool)
          → Waited machined user.username ct signal all b (o (signal, all)))
      → KilledAs boot b (o (if boot then (sig_poweroff, false) else (sig_kill, true)))
  as_kind b true o h = h sig_poweroff false
  as_kind b false o h = h sig_kill true

  after_kill-Ran :
      (start : Result (Unit {0})) (b : Table) (o : Outcome (Unit {0}) × Table)
      → Starting start
      → systemd.machine_before ≡ ok tt
      → KilledAs ct.config.boot b o
      → Ran true b (after_kill start o)
  after_kill-Ran start b (done (ok a), t) s there (sent, over) =
      (λ e. (s e, λ _ _. (sent, over)), over-kept b t over)
  after_kill-Ran start b (done (err x), t) s there w = (λ e. cc e, inl w)
  after_kill-Ran start b (done (panic m), t) s there w = (λ e. cc e, inl w)
  after_kill-Ran start b (waits, t) s there (sent, held, on) = (refl, there, held, on)

  kill_if_there-Ran :
      (start there : Result (Unit {0})) (b : Table)
      → IsWellFormed b
      → EndsWell machined.run_ends b
      → Starting start
      → systemd.machine_before ≡ there
      → Ran true b (kill_if_there machined user.username ct start there b)
  unfolding restart_signal
  kill_if_there-Ran start (ok a) b wf ends s e = after_kill-Ran start b _ s e (
      as_kind b ct.config.boot
        (λ (way : Signal × Bool). kill_container machined user.username ct way.0 way.1 b)
        (λ signal all. kill_container-Waited machined user.username ct signal all b wf ends))
  kill_if_there-Ran start (err x) b wf ends s e =
      (λ o. (s o, λ _ there. err-neq-ok (sym e ∙ there)), inl (λ p. refl))
  kill_if_there-Ran start (panic m) b wf ends s e = (λ o. cc o, inl (λ p. refl))

  -- Whatever systemd and machined answer, if RunContainerViaTransientUnit succeeds, the machine was
  -- there when it was looked for last, or systemd was asked for the container's service and its job was
  -- done: a notify service that runs nsboxd for the container by its name, with the caller's uid as
  -- PKEXEC_UID and the caller's runtime directory, a temporary file system for the private bus, and
  -- systemd-networkd if the container has a network of its own. If a machine that was there was to be
  -- restarted, then it was sent the poweroff signal, to its leader, if it is booted, or SIGKILL to all its processes if
  -- not, and the lock of its run was free or was let go. Who holds what lock is as before or as it was
  -- when that run ended, and only a restart of a machine that is there waits, for a lock that is held
  -- and not let go. No lock is held by a descriptor to come, beforehand or when the run ends.
  pub run_container_via_transient_unit-Ran :
      (restart : Bool) (b : Table)
      → IsWellFormed b
      → EndsWell machined.run_ends b
      → Ran restart b (run_container_via_transient_unit systemd machined ct restart user environ b)
  unfolding run_container_via_transient_unit
  run_container_via_transient_unit-Ran restart b wf ends =
      connecting systemd.system_connection (connected systemd.machined_connection run)
        (connecting systemd.machined_connection run (by_restart restart))
    where
      start : Result (Unit {0})
      start = start_if_gone systemd ct user (apply_environ_filter ct environ) systemd.machine_after

      run : Table → Outcome (Unit {0}) × Table
      run t =
          if restart
          then kill_if_there machined user.username ct start systemd.machine_before t
          else (done start, t)

      connecting :
          (c : Result (Unit {0})) (next : Table → Outcome (Unit {0}) × Table)
          → Ran restart b (next b)
          → Ran restart b (connected c next b)
      connecting (ok a) next h = h
      connecting (err x) next h = (λ e. cc e, inl (λ p. refl))
      connecting (panic m) next h = (λ e. cc e, inl (λ p. refl))

      by_restart :
          (c : Bool)
          → Ran c b (
              if c
              then kill_if_there machined user.username ct start systemd.machine_before b
              else (done start, b))
      by_restart true =
          kill_if_there-Ran start systemd.machine_before b wf ends
            (start_if_gone-done systemd.machine_after) refl
      by_restart false =
          (λ e. (start_if_gone-done systemd.machine_after e, λ f _. cc f), inl (λ p. refl))
