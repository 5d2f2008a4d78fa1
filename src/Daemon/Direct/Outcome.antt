-- ===== src/Daemon/Direct/Outcome.antt =====
-- What is run in the end is the container: the command line is that of its configuration.
use nsbox.Base.{
  Text, [], ◌∷◌, ◌++◌, codes, Bool, true, false, not, join, if◌then◌else◌, Option, none, some, Dict,
  Result, ok, err, panic, >>=-eq-ok, ◌≡◌, refl, sym, subst, arith,
}
use nsbox.FilePath.{join_path}
use nsbox.Nspawn.{Builder, new_builder, build}
use nsbox.Container.Data.{Container}
use nsbox.Container.Files.{storage}
use nsbox.Userdata.Username.{machine_name}
use nsbox.Daemon.Direct.{setenv, get_xdg_runtime_dir}
use nsbox.Daemon.Direct.Network.{choose_zone}
use nsbox.Daemon.Direct.Begin.{link_name, Host, Launch, Start, begin, configured}
use nsbox.Daemon.Direct.Files.{User}
use nsbox.Daemon.Direct.Run.{assemble, launch_env, container_command}
use nsbox.Os.Yields.{Got, Yields}
use nsbox.Daemon.Direct.Launched.{Same, same}
use nsbox.Daemon.Direct.Carried.{IsLaunchOf, Yields-assemble}

-- The command line is that of a builder with these fields, some bind mounts and this command, and these
-- are the variables.
abbrev pub IsLaunch : Host → Container → User → Text → Text → Launch → Type 0
IsLaunch host ct user tool zone l =
    ((b : Builder) × (build b ≡ ok l.args)
      × (b.nspawn ≡ tool)
      × (b.quiet ≡ true)
      × (b.keep_unit ≡ true)
      × (b.boot ≡ ct.config.boot)
      × (b.as_pid2 ≡ not ct.config.boot)
      × (b.pipe_console ≡ not ct.config.boot)
      × (b.network_veth ≡ ct.config.virtual_network)
      × (b.network_zone ≡ zone)
      × (b.machine_directory ≡ join_path (ct.path ∷ codes "storage" ∷ []))
      × (b.link_journal ≡ codes "host")
      × (b.machine_name ≡ machine_name user.username ct.name)
      × (b.hostname ≡ ct.name)
      × (b.capabilities ≡ ct.config.extra_capabilities)
      × (b.system_call_filter ≡ join (codes " ") ct.config.syscall_filters)
      × (b.command ≡ (
          if ct.config.boot
          then codes "--" ∷ codes "--unit=nsbox-container.target" ∷ []
          else codes "/run/host/nsbox/scripts/nsbox-init.sh" ∷ [])))
    × (l.env
        ≡ host.environ
          ++ (codes "NOTIFY_SOCKET="
              ∷ codes "SYSTEMD_NSPAWN_SHARE_NS_IPC=1"
              ∷ (if ct.config.share_cgroupfs then codes "SYSTEMD_NSPAWN_USE_CGNS=0" ∷ [] else [])))

-- By the kind of the container.
by_kind {ℓ} :
    {A : Type ℓ} (boot : Bool) (f : Bool → A) {a b : A}
    → f true ≡ a
    → f false ≡ b
    → f boot ≡ (if boot then a else b)
by_kind true f e k = e
by_kind false f e k = k

IsLaunchOf-IsLaunch :
    (host : Host) (ct : Container) (user : User) (zone tool : Text) (fresh : Builder) (l : Launch)
    → new_builder (some tool) ≡ ok fresh
    → IsLaunchOf host ct (configured ct user.username zone fresh) l
    → IsLaunch host ct user tool zone l
unfolding configured storage launch_env new_builder
IsLaunchOf-IsLaunch host ct user zone tool fresh l found ((binds, e), k) =
    let nspawn : fresh.nspawn ≡ tool = ground (arith, found) in
    let boot : fresh.boot ≡ false = ground (arith, found) in
    let pid2 : fresh.as_pid2 ≡ false = ground (arith, found) in
    let pipe : fresh.pipe_console ≡ false = ground (arith, found) in
    (
      (
        _,
        e,
        nspawn,
        refl,
        refl,
        ground (arith, boot),
        ground (arith, pid2),
        ground (arith, pipe),
        refl,
        refl,
        refl,
        refl,
        refl,
        refl,
        refl,
        refl,
        by_kind ct.config.boot container_command refl refl,
      ),
      k,
    )

-- What the first part has found: the tool, and a zone for the network.
abbrev Begun : Host → Container → User → Start → Type 0
Begun host ct user start =
    (fresh : Builder) × (new_builder host.nspawn ≡ ok fresh)
    × (start.draft.builder ≡ configured ct user.username start.zone.name fresh)

begin-Begun :
    (host : Host) (ct : Container) (user : User) (environ : Dict Text) (start : Start)
    → begin host ct user environ ≡ ok start
    → Begun host ct user start
unfolding begin setenv
begin-Begun host ct user environ start e =
    let (_, _, locked) = >>=-eq-ok host.run_locked _ e in
    let (xdg, _, named) = >>=-eq-ok (get_xdg_runtime_dir environ) _ locked in
    let (fresh, found, built) = >>=-eq-ok (new_builder host.nspawn) _ named in
    let (zone, _, all_done) =
      >>=-eq-ok (choose_zone ct.config.virtual_network ct.name (link_name host ct) host.firewall) _
        built in
    subst (Got (Begun host ct user)) all_done (fresh, found, refl)

Got-map {ℓ κ} :
    {A : Type ℓ} (P Q : A → Type κ) → ((a : A) → P a → Q a) → (r : Result A) → Got P r → Got Q r
Got-map P Q f (ok a) h = f a h
Got-map P Q f (err e) h = h
Got-map P Q f (panic m) h = h

found_tool :
    (o : Option Text) (fresh : Builder)
    → new_builder o ≡ ok fresh
    → (tool : Text) × (o ≡ some tool) × (new_builder (some tool) ≡ ok fresh)
unfolding new_builder
found_tool none fresh e = cc e
found_tool (some tool) fresh e = (tool, refl, e)

-- Once the start of a container has begun, systemd-nspawn is there, and whatever the host answers and
-- whatever fails, a command that the start comes to run is a command line of that tool, built from:
-- the container's storage as its directory, the machine's name for the user and the container, the
-- container's name as its host name, the configured capabilities, system call filter and network with
-- the chosen zone, the switches for a booted container or for another one, the command for its kind,
-- and some bind mounts. Its variables are those of this process, an empty NOTIFY_SOCKET, the shared
-- IPC namespace, and the shared cgroups if they are configured.
pub assemble-IsLaunchOf :
    (host : Host) (ct : Container) (user : User) (environ : Dict Text) (start : Start)
    → begin host ct user environ ≡ ok start
    → (tool : Text) × (host.nspawn ≡ some tool)
      × Yields (IsLaunch host ct user tool start.zone.name) (assemble host ct user start)
assemble-IsLaunchOf host ct user environ start e =
    let (fresh, found, same_builder) = begin-Begun host ct user environ start e in
    let (tool, there, made) = found_tool host.nspawn fresh found in
    let b = configured ct user.username start.zone.name fresh in
    (
      tool,
      there,
      λ w.
          Got-map (IsLaunchOf host ct b) (IsLaunch host ct user tool start.zone.name)
            (λ l. IsLaunchOf-IsLaunch host ct user start.zone.name tool fresh l made) _
            (Yields-assemble b host ct user start (subst (Same b) (sym same_builder) (same b.binds))
              w),
    )
