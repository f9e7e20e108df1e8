-- ===== src/Lib.antt =====
-- iotit prepares images for small boards: it finds the image of a device in mapping.json, downloads it
-- and unpacks it in a virtual machine, configures it there over ssh, and writes it to a card.
--
-- The parts, the files that model them, and the code:
--   * Mapping, Mapping/Defs, Mapping/Lookup: repo/mapping.go. `find_in_devices` is findDevice with
--     the changes it makes to the shared collection, `fill_empty_images` is fillEmptyImages,
--     `init_device_collection` and `get_device_repo` pass the package variable `dm` on explicitly.
--     Mapping/Updates: the download of mapping.json.
--   * Repository, Repository/Release: repo/repository.go, versions, release channels and new versions.
--   * Config/Storage, Config/Interfaces, Config/Dialogs, Config/Save, Config/Configurator:
--     device/config. A callback takes the shared storage and gives it back with an error.
--   * Vbox/Defs, Vbox/Settings, Vbox/Json: vbox/vbox.go. Vbox/Machines, Vbox/Check, Vbox/Update,
--     Vbox/Upgrade: vbox/machine.go, with NewRepositoryVM of repo/repository.go in
--     Vbox/Check; `update` of Vbox/Upgrade is Update.
--   * Device/Flasher, Device/Images, Device/Prepare: device/flasher.go. Device/Mount, Device/Sd:
--     device/sd_flasher.go. Device/Raspi: device/rasppi.go. Device/Select: device/device.go.
--     Device/Done: Done of device/flasher.go. Device/Beagle: device/beagle.go. Device/Colibri/Defs,
--     Device/Colibri/Board: device/colibri.go. Device/Edison, Device/Edison/Callbacks:
--     device/edison.go and device/edison_posix.go; Device/Edison/Windows:
--     device/edison_windows.go. Device/Esp: device/serial_flasher.go.
--   * Workstation/Defs, Workstation/Linux, Workstation/Darwin, Workstation/Windows:
--     workstation/workstation.go, and workstation/w_linux.go, w_darwin.go and w_windows.go there.
--   * Cli/TailLog, Cli/Commands: iotit.go, tailLog and the actions of the commands. `flash_kind`,
--     `configure_kind` and `write_kind` call the methods of a flasher by its type.
--   * GoStrings: what is used of Go's package strings. Base: Boolean tests and lists over native numbers.
--   * Effects: how code acts. An action is a function on the history of what has been done, newest
--     first; it ends with a value, a panic, an exit or, where a loop's fuel is used up, unfinished.
--     What the code calls outside the repository answers through `Env`, `VirtualBox`, `Sources`,
--     `Files`, `Serial`, `Web` and their like, whose answers may depend on the whole history.
--     Effects/Trace, Effects/Rules and Effects/Choice reason about what an action adds to the history,
--     Effects/Invariant about what it keeps, Effects/Panics about panics.
--   * The other files hold theorems; Tests holds concrete settings and runs.
--
-- A flasher of device/device.go takes a device from Mapping, prepares its image with Vbox and
-- Device/Images, has Config ask and write settings into the mounted image, and gives it to Workstation.
--
-- Bounds and fuel: `ask_interface_params` takes fuel for the times that the user asks to try again,
-- `wait_for_ssh` the number of ticks that are waited for; both end unfinished without any left, as
-- the code goes on without bound. `prepare_image` takes what is left of the two retries, `write_loop`
-- and `select_loop` the three or five tries of the source: these need no fuel. `Patience` holds the fuel of the
-- loops of the Colibri, which a board that answers and a user who answers make enough; the tries of the
-- Edison take fuel, as long as the user connects it anew, and so does the question of the Windows
-- job for a disk that is connected again. `tail_log` gives its loop the length of the file and two, one
-- round for each byte, which is always enough. The int64 product of a disk's size
-- wraps; strconv.Atoi fails from 2 ^ 63 on.
--
-- Goroutines: one that is waited for at once runs in line. That of CleanDisk, and bootInRecovery, go on
-- after they have reported an error; how far they get before the program ends is an argument. The
-- one of the BeagleBone's Configure is through before the dialogs begin or begins after them; the
-- schedules between are not modelled.
--
-- Not modelled: printing, logging, pauses and progress bars; known_hosts; how VirtualBox is looked for
-- on Windows; the table of commands and flags and the help texts; decoding mapping.json and the versions of the virtual machine
-- into their records, and downloads themselves, which are parameters.
pub mod Base
pub mod GoStrings
pub mod Effects
pub mod Config
pub mod Mapping
pub mod Repository
pub mod Vbox
pub mod Device
pub mod Workstation
pub mod Cli
pub mod Tests
