-- ===== src/Program/Cli/Boot.antt =====
-- The commands `status`, `history`, `slots`, `boot` and `bootloader` (src/cli_main.cpp). A command
-- gives its exit code and, in place of what it prints, the state that it shows.
use embedded_linux_ota.Prelude.{
  ℕ, Bool, not, ◌||◌, List, [], ◌∷◌, ◌++◌, Option, none, some, if◌then◌else◌,
}
use embedded_linux_ota.Text.{Text, codes, text_eq, is_empty}
use embedded_linux_ota.Fs.{Files, Env}
use embedded_linux_ota.Transaction.Manager as Transactions
use embedded_linux_ota.Transaction.Manager.{
  TransactionManagerConfig, TransactionRecord, TransactionHistoryEntry,
}
use embedded_linux_ota.Transaction.Manager.History.{Directory, load_history}
use embedded_linux_ota.Slot.State.{SlotId, slot_a, slot_b}
use embedded_linux_ota.Slot.Manager as Slots
use embedded_linux_ota.Slot.Manager.{SlotConfig, SlotManager}
use embedded_linux_ota.Slot.Manager.Operations.{initialize_slots}
use embedded_linux_ota.Boot.Bootloader as Loader
use embedded_linux_ota.Boot.Bootloader.{SimulatedBootloader, BootloaderState}
use embedded_linux_ota.Boot.Bootloader.Operations as LoaderOps
use embedded_linux_ota.Boot.Interface.{simulated}
use embedded_linux_ota.Boot.Control as Control
use embedded_linux_ota.Boot.Control.{BootState}
use embedded_linux_ota.Boot.Control.Operations as ControlOps
use embedded_linux_ota.Program.Cli.{CliOptions}
use embedded_linux_ota.Program.Cli.Release.{exit_of}

abbrev pub cli_transaction_config : CliOptions → TransactionManagerConfig
cli_transaction_config o = record {
  state_dir = o.state_dir ++ codes "/state";
  history_dir = o.state_dir ++ codes "/state/history";
  lock_file = o.state_dir ++ codes "/ota.lock";
  max_history_entries = 10;
}

-- A new manager on the disk; `history_files` are the `.json` files of its history directory.
abbrev pub cli_transactions : CliOptions → Files → List (Text × Text) → Transactions.Session
cli_transactions o fs history_files = record {
  tm = Transactions.set_config Transactions.new_manager (cli_transaction_config o);
  files = fs;
  history_files = history_files;
}

-- The transaction that is shown, if there is one.
unfoldable pub status_command : CliOptions → Files → Option TransactionRecord
unfolding Transactions.load_transaction
status_command o fs =
    let (s, loaded) = Transactions.load_transaction (cli_transactions o fs []) in
    if loaded then some s.tm.current_transaction else none

-- The entries that are listed, in their order.
unfoldable pub history_command :
    Directory → CliOptions → Files → List (Text × Text) → List TransactionHistoryEntry
unfolding load_history
history_command dir o fs history_files =
    (load_history dir (cli_transactions o fs history_files)).tm.history

abbrev pub cli_slot_config : CliOptions → SlotConfig
cli_slot_config o = record {
  slots_dir = o.state_dir ++ codes "/slots";
  state_file = o.state_dir ++ codes "/slots/global.json";
  default_active_slot = slot_a;
  default_version = codes "1.0.0";
  default_hardware_version = codes "hw-v1";
}

abbrev pub cli_slots : CliOptions → Files → Slots.Session
cli_slots o fs = record { sm = Slots.set_config Slots.new_manager (cli_slot_config o); files = fs }

-- The words behind the command: the first is the subcommand.
abbrev pub subcommand_of : List Text → Text
subcommand_of [] = codes "status"
subcommand_of (word ∷ words) = word

-- Its argument, for the subcommand that takes one.
abbrev pub slot_argument : Text → List Text → Text
slot_argument subcommand (word ∷ slot ∷ words) = if text_eq word subcommand then slot else []
slot_argument subcommand _ = []

unfoldable pub slots_command : Env → CliOptions → List Text → Files → Files × SlotManager
unfolding initialize_slots Slots.load_slot_state text_eq
slots_command env o words fs =
    let (initialized, ok) = initialize_slots env (cli_slots o fs) in
    let (loaded, found) = Slots.load_slot_state (cli_slots o fs) in
    if text_eq (subcommand_of words) (codes "init")
    then (initialized.files, initialized.sm)
    else (loaded.files, loaded.sm)

unfoldable pub target_slot : Text → Option SlotId
unfolding text_eq
target_slot arg =
    if text_eq arg (codes "A") || text_eq arg (codes "a")
    then some slot_a
    else if text_eq arg (codes "B") || text_eq arg (codes "b")
    then some slot_b
    else none

module _ (env : Env) (has_dir : Text → Bool) where
  abbrev pub BootSession : Type 0
  BootSession = Control.Session SimulatedBootloader

  abbrev pub boot_result : BootSession × Bool → Files × ℕ
  boot_result (s, ok) = (s.files, exit_of ok)

  -- The boot control of the tool: it has no bootloader, and that it could not be initialised is not
  -- asked.
  unfoldable pub cli_boot : CliOptions → Files → BootSession
  unfolding ControlOps.initialize
  cli_boot o fs =
      (ControlOps.initialize env (simulated env has_dir) has_dir (record {
        bc =
            Control.set_config (o.state_dir ++ codes "/boot")
              (o.state_dir ++ codes "/boot/boot_state.json") Control.new_control;
        files = fs;
      })).0

  unfoldable pub boot_set : SlotManager → Text → BootSession → Files × ℕ
  unfolding target_slot Control.validate_boot_target ControlOps.set_next_boot_slot
  boot_set sm slot_arg s = if is_empty slot_arg then (s.files, 1) else elim (target_slot slot_arg) [
    | none ↦ (s.files, 1)
    | some slot ↦
        if not (Control.validate_boot_target slot sm s.bc)
        then (s.files, 1)
        else boot_result (ControlOps.set_next_boot_slot env (simulated env has_dir) slot s)
  ]

  unfoldable pub boot_command : CliOptions → List Text → Files → Files × ℕ
  unfolding cli_boot boot_set ControlOps.clear_next_boot_slot ControlOps.simulate_boot
      Slots.load_slot_state text_eq
  boot_command o words fs =
      let slots = (Slots.load_slot_state (cli_slots o fs)).0 in
      let s = cli_boot o slots.files in
      let subcommand = subcommand_of words in
      if text_eq subcommand (codes "status")
      then (s.files, 0)
      else if text_eq subcommand (codes "set")
      then boot_set slots.sm (slot_argument (codes "set") words) s
      else if text_eq subcommand (codes "clear")
      then boot_result (ControlOps.clear_next_boot_slot env (simulated env has_dir) s)
      else if text_eq subcommand (codes "simulate")
      then boot_result (ControlOps.simulate_boot env (simulated env has_dir) s)
      else (s.files, 1)

  abbrev pub loader_result : Loader.Session × Bool → Files × ℕ
  loader_result (s, ok) = (s.files, exit_of ok)

  -- A new bootloader on the disk, and whether it could be initialised.
  unfoldable pub cli_loader : CliOptions → Files → Loader.Session × Bool
  unfolding Loader.initialize
  cli_loader o fs = Loader.initialize env has_dir (
      Loader.set_state_dir (o.state_dir ++ codes "/bootloader")
        (o.state_dir ++ codes "/bootloader/bootloader_state.json")
        (record { bl = Loader.new_bootloader; files = fs }))

  unfoldable pub loader_set_next : Text → Loader.Session → Files × ℕ
  unfolding target_slot LoaderOps.set_next_boot_slot
  loader_set_next slot_arg s =
      if is_empty slot_arg then (s.files, 1) else elim (target_slot slot_arg) [
        | none ↦ (s.files, 1)
        | some slot ↦ loader_result (LoaderOps.set_next_boot_slot env slot s)
      ]

  unfoldable pub loader_simulate : Loader.Session → Files × ℕ
  unfolding LoaderOps.mark_boot_started
  loader_simulate s =
      if not s.bl.next_boot_slot_set
      then (s.files, 1)
      else loader_result (LoaderOps.mark_boot_started env (Loader.get_next_boot_slot s.bl) s)

  -- The subcommand, once the bootloader could or could not be initialised.
  unfoldable pub with_loader : List Text → Loader.Session × Bool → Files × ℕ
  unfolding loader_set_next LoaderOps.clear_next_boot_slot loader_simulate text_eq
  with_loader words (s, ok) =
      let subcommand = subcommand_of words in
      if not ok
      then (s.files, 1)
      else if text_eq subcommand (codes "status")
      then (s.files, 0)
      else if text_eq subcommand (codes "set-next")
      then loader_set_next (slot_argument (codes "set-next") words) s
      else if text_eq subcommand (codes "clear-next")
      then loader_result (LoaderOps.clear_next_boot_slot env s)
      else if text_eq subcommand (codes "simulate")
      then loader_simulate s
      else if text_eq subcommand (codes "attempts")
      then (s.files, 0)
      else (s.files, 1)

  unfoldable pub bootloader_command : CliOptions → List Text → Files → Files × ℕ
  unfolding cli_loader with_loader
  bootloader_command o words fs = with_loader words (cli_loader o fs)
