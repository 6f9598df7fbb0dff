-- ===== src/Lib.antt =====
-- A verification library of the OTA client for embedded Linux.
--
-- The client updates a device with two slots, A and B. The update client (src/client) asks the server,
-- by the HTTP client (src/network), and decides whether its answer is an update for the device; the
-- download manager (src/download) fetches it; the installer (src/installation) copies the image to a
-- staging directory, asks the integrity validator (src/validation) about it, and places it. A
-- transaction (src/transaction) leads one update through its phases and survives a restart by its file;
-- the slot manager (src/slot) knows what each slot holds and which is active; the boot control
-- (src/boot) asks the bootloader to boot the other slot and counts the attempts. The last three keep
-- their state in memory and write it, as JSON that they print and read by hand, to a temporary file that
-- is renamed over the old one. The device has a configuration and a state (src/device), files of lines
-- with a key and a value; the signature verifier (src/security) checks signed metadata; the logger
-- (src/logging) appends to a file. Three programs put the parts together: the client (src/main.cpp), the
-- information tool (src/device_info_main.cpp) and the command line tool (src/cli_main.cpp).
--
-- The files:
--   Text           std::string as a list of bytes, its searches, numbers as text (Text/Decimal) and the
--                  lines of a text (Text/Lines).
--   Json           escape_json_string, unescape_json_string and extract_json_value, in the two variants
--                  of the four copies; Json/Document is the shape of the files written, and Json/Lookup,
--                  Json/Strings and Json/Number say what a search for a key finds in them.
--   Fs             the files, by path, and the steps of writing and renaming. What the operating system
--                  answers is the parameter Env; IsHonest says that a stream which is good after a flush
--                  has stored what was written, IsHealthy that nothing is refused. A stream that is asked
--                  before a flush (write_unflushed) may be good and the file still lose its content.
--                  Calls has the system calls one by one, for a process that stops between two of them.
--   Transaction    TransactionStateMachine (State, Phases) and TransactionManager (Manager,
--                  Manager/Operations, Manager/History); Persist, Recovery, Interruption, Lifecycle,
--                  Along and Pruning prove.
--   Slot           SlotManager (State, Manager, Manager/Operations, Manager/Queries); Switch, Persist
--                  and Unwritten prove.
--   Boot           SimulatedBootloader (Bootloader, Bootloader/Operations), the abstract class
--                  Bootloader as a record of operations and what is relied on (Interface), and
--                  SimulatedBootControl over it (Control, Control/Operations); Bootloader/Document,
--                  Bootloader/Laws, Control/Document and Control/Agreement prove.
--   Validation     IntegrityValidator over the digest functions of OpenSSL, which are the parameter
--                  Evp; IsEvp says that data may be fed to them in pieces. Digest and Verdict prove.
--   Installation   InstallManager: the path checks (Installation, Paths, Safe), the steps and install,
--                  cut in five consecutive parts (Install), and the loading of its state (Loading);
--                  Apart, Outcome, Success and Recorded prove.
--   Http           HttpClient over libcurl, which is the parameter Curl: what it does at each attempt.
--                  Retry is about requests, Delivery about downloads.
--   Client         ResponseParser (Client) and UpdateManager over the answer of the HTTP client
--                  (Updates) and with the HTTP client and the download manager (Manager); Order and
--                  Delivery prove.
--   Download       DownloadManager over the HTTP client's transfer; Outcome proves.
--   Device         the names of the states (Device), the configuration (Device/Config) and the state of
--                  the device (Device/State); Device/State/Persist proves.
--   Security       SignatureVerifier over the keys of OpenSSL, which are the parameter Keys; Verdict and
--                  Canonical prove.
--   Logging        Logger; Calls proves, about sequences of calls.
--   Program        the client up to its loop (Program, Startup) and the information tool (Info).
--                  Program/Cli has the command line tool: its arguments, its commands on releases
--                  (Release) and on the states on disk (Boot), and the choice between them (Dispatch);
--                  Accepted, Installed, Signed, Cycle and BootCycle prove.
-- Tests in each of these runs the definitions at concrete inputs.
--
-- Operations have the names that they have in the C++ code (src/transaction/transaction_manager.cpp,
-- src/transaction/transaction_state_machine.cpp, src/slot/slot_manager.cpp,
-- src/boot/simulated_boot_control.cpp, src/boot/bootloader/simulated_bootloader.cpp,
-- src/validation/integrity_validator.cpp, src/installation/installer.cpp,
-- src/client/response_parser.cpp, src/client/update_manager.cpp, src/download/download_manager.cpp,
-- src/network/http_client.cpp, src/device/device_config.cpp, src/device/device_state.cpp,
-- src/security/signature_verifier.cpp, src/logging/logger.cpp); a command `verify` of the command line
-- tool is verify_command. An operation takes the object's state and the files, as a Session in the
-- first three parts, and returns them as it leaves them, with its result. The clock, the process id, a
-- new transaction id, the listing of a directory, what stat and realpath say of a path, whether a file
-- can be read, and whether a directory can be made are arguments; so are the encoding of a signature
-- and the Python function that the tool asks for the canonical form of metadata. A program gives its
-- exit code and, in the place of what it prints, the state that it shows.
--
-- Numbers: an int is its 32-bit pattern, a number below 2 ^ 32, and an int64_t its 64-bit pattern; a
-- counter wraps. (The overflow of an int is undefined in C++; the model wraps it.) std::stoi returns
-- none where the code throws. The loop that prunes the history runs on fuel, the length of the history,
-- which the theorem on the loop shows to be enough. The loop that reads a file in buffers runs on fuel,
-- the size of the file, which is at least the number of its buffers. The loops that retry a request
-- recur on their rounds, one more than the retry count, and none where the count is negative. All other
-- loops are structural.
--
-- Not modelled: the log lines of the parts and of the command line tool (those of the client are
-- modelled); what is printed; the signal handler and the loop of the client, which only sleeps;
-- get_openssl_error; the delay between two attempts; the text of a random transaction id and of the
-- time; the update server, which is a Python program of its own, and the C++ test programs. A loss of
-- power is not modelled either: no state file is synchronised before it is renamed or reported as
-- written, so that one may come back empty or torn.
mod Prelude
pub mod Text
pub mod Json
pub mod Fs
pub mod Transaction
pub mod Slot
pub mod Boot
pub mod Validation
pub mod Installation
pub mod Client
pub mod Download
pub mod Device
pub mod Logging
pub mod Program
pub mod Security
pub mod Http
