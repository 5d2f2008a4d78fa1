-- ===== src/Lib.antt =====
-- nsbox: development containers under systemd-nspawn. Paths are from the root of the repository.
--
-- The program. cmd/nsbox is what the user calls. If a command needs root it starts itself again
-- through pkexec or sudo, with cmd/nsbox-invoker in between, which passes the environment and the
-- flags on. internal/container keeps the containers and their configuration, internal/image the
-- images they are made from. cmd/nsboxd runs in the container's own unit: internal/daemon puts a
-- command line of systemd-nspawn together (internal/nspawn) and writes into the container who the
-- user is (internal/userdata). internal/session enters a running container, by nsenter or by
-- systemd-run, and ends with the status of what ran inside.
--
-- The files. Base holds what the others share: Go strings as lists of code points (Strings, Split,
-- Digits), lists and association lists over the native numbers, errors and panics as values
-- (Errors). Regexp, with Lang and Search, is the package regexp, as a matcher by derivatives and as a
-- relation of matches; FilePath is path/filepath, with Rel and
-- Glob (filepath.Match).
--   Args/ArrayTransform   internal/args/array.go: flags that change a list
--   Container/Auth, Data, Name, Validate   internal/container/container.go: Auth, Config,
--                         validateName and the checks of UpdateConfig
--   Container/Files       internal/container/container.go: paths in a container's directory, staging,
--                         the configuration's file
--   Container/Lock        internal/container/container.go: Lock, Release, LockAndDelete
--   Paths                 internal/paths/paths.go
--   Inventory             internal/inventory/inventory.go: List and SetDefaultContainer
--   Selinux               internal/selinux/selinux.go: GetExecLabel
--   Icons                 internal/gtkicons/gtkicons.go: FindIcon
--   Desktop               internal/integration/xdgdesktop.go: Entry one desktop file, Gather which files,
--                         ExportIcons, Update UpdateDesktopFiles. Placed, Frame, IconFrame, Parts and
--                         Built are about what building the exports leaves alone, Names about the
--                         paths beside one another, Turned, Switched and Exchanged about the exchange,
--                         Stuck about a link that was left behind, Lines and Held about what a
--                         file says
--   Userdata/Environ, Username   internal/userdata/userdata.go: the whitelist, the environment as a
--                         map, EscapedUsername, with MachineName of internal/container/container.go
--   Userdata/Account      internal/userdata/userdata.go: the shell, the password entry, the caller
--   Kill                  internal/kill/kill.go
--   Create                internal/create/create.go: CreateContainer, saveImageToContainer (Source)
--   Userdata/Sudo         internal/userdata/check_privs.go: who may use sudo
--   Invoker               cmd/nsbox/main.go (privilegedReexec), cmd/nsbox-invoker/main.go
--   Network               internal/network/network.go: GenerateUniqueLinkName
--   Nspawn                internal/nspawn/builder.go: the Builder and its command line
--   Os                    the calls of package os on a file system with failures
--   Daemon/Mkdir, Private internal/daemon/direct.go: MkdirAllOwnedByUser and bindPrivate
--   Daemon/Direct         internal/daemon/direct.go: RunContainerDirectNspawn (Begin, Binds, Files,
--                         Network, Run); Untouched, Spared and Whole are about what it leaves alone,
--                         Launched, Ran (Ran/Shared), Carried and Outcome about what it runs, SudoFile about setupSudo
--   Image                 internal/image/image.go: tags, Open and ResolveChain
--   Session/Pty, Exit     internal/session/enter.go, enter_nsenter.go, enter_systemd.go: terminals
--                         and exit statuses
--   Session/Command       internal/session/enter.go (buildNsboxHostCommand) and the reader of what it
--                         writes, cmd/nsbox-host/enter.go
--   Session/Doors         internal/session/enter_nsenter.go, enter_systemd.go: Enter of both doors
--   Session/Setup         internal/session/setup.go and Execute of cmd/nsbox-host/enter.go; Entered
--                         is about the way from the host to the command in the container
--   Daemon/Transient      internal/daemon/transient.go: a container in a unit of its own (Running)
--   Tests                 runs of the theorems at values of their own
--
-- How they interact. RunContainerDirectNspawn calls most of the others: it threads a Draft, the builder of
-- Nspawn and the variables, through calls on the file system, and what the images, the paths of the
-- installation, the firewall and the lock answer is a record, Begin.Host. Locks are on a table of
-- descriptors of their own, as no other call depends on them. RunContainerViaTransientUnit kills a
-- container through Kill, which waits for the lock of its run; a session's command line is written
-- on the host by Session/Command, passed by a door, and read inside of the container by the same
-- module.
--
-- State and errors. A method that changes its receiver returns the new one; the calls of the file
-- system take and return a World, so that what was done before an error stays done. Each call takes
-- the next entry of a list of faults, which stands for everything that may fail for a reason of
-- its own, and a write takes one for each character, as it may stop after a part of the text. A path
-- is looked up as it stands; where the program writes through an open to files that the
-- container's user can replace by links, the path that the kernel ends at is an argument. A flock that waits for a held lock
-- goes on when machined's record says that the run has ended. A panic is a third kind of result beside a
-- value and an error.
--
-- Bounds and fuel. Numbers are natural numbers; where Go's would be negative the definitions say
-- what the code does. The digits of a number are written on fuel, one more than the number, which
-- is enough as each digit divides it. ResolveChain is on fuel, as it need not return: its fuel counts
-- the calls, and more than a rank that falls from an image to its parent is enough. All else is by
-- recursion on its argument.
--
-- Not modelled: the calls of D-Bus, varlink, netlink, GTK, SELinux and sudo's tools, the JSON
-- encodings, goroutines, signals and the forwarding in C, the libraries of images, the commands of
-- cmd/nsbox, args.go, DefaultContainer (a link on the way of a path is not followed), the list of
-- images, the pty service and the transport of descriptors. What the modelled code asks of them is
-- an argument. Characters outside ASCII are folded as strings.ToLower does only as far as the result
-- can be ASCII.
pub mod Base
pub mod Regexp
pub mod Args
pub mod FilePath
pub mod Paths
pub mod Container
pub mod Userdata
pub mod Session
pub mod Os
pub mod Daemon
pub mod Network
pub mod Invoker
pub mod Nspawn
pub mod Image
pub mod Inventory
pub mod Icons
pub mod Desktop
pub mod Selinux
pub mod Kill
pub mod Create
pub mod Tests
