-- ===== src/Lib.antt =====
-- The softphone's core: from a dialed text or an event of the SIP backend to the calls that the user sees
-- and the history that they leave; the accounts, with what is stored of them; the configuration at start;
-- watched lines; and the offer of an update.
--
-- The parts and the files that model them, with the sources as paths from the root of the repository:
--
--   Account     src/core/Account.h, Account.cpp: accounts and the stored strings of their enums.
--               AccountsView is what the call side asks of AccountsManager.
--   Backend     src/core/sipbackend/Types.h, ISipBackend.h: the vocabulary of the backend. SipBackend B is
--               ISipBackend over a backend's own state B, a record of operations; Event has one
--               constructor for each method of ISipBackendListener. Backend.Dispatch is
--               sipbackend/EventDispatch.cpp, Backend.Fake is sipbackend/fake/FakeSipBackend.cpp and .h but
--               for the setters of the CA trust and the log sink, and fake_backend fills SipBackend with it.
--   Calls       src/core/CallManager.h, CallManager.cpp over any SipBackend: Active has the active call,
--               hold, unhold, merge and the end of a call; Commands the commands and the reads; Events
--               what backend events and single shots do; Transfers is src/core/TransferTracker.h. Run has
--               the histories. Invariant, Upkeep, Soundness, Policy, Retries, Endings and Referrals prove.
--   Accounts    src/core/AccountsManager.h, AccountsManager.cpp: Registration has what concerns the
--               backend, Table the rows of the accounts table, Editing what adds, changes and removes
--               accounts. Tied, Kept, Edits, Rows, Changes, Switches, Defaults, Restart, Choosing and
--               Outcomes prove.
--   Boot        src/core/BootConfig.h and BootConfig_*.cpp: Options, Server and Settings have the command
--               line's account, Secrets its password, Object and File the provisioning files, Merge and
--               CommandLine the layers. Layers, Complete, Startable, Configured and Ports prove.
--   AccountsController  src/core/AccountsController.cpp: Params and Actions have the user's operations on
--               the accounts, Settings what the backend is told, Status registration and the active
--               account. RoundTrip, Servers, Active, Defaults and History prove.
--   Updates     src/core/UpdateChecker.cpp: Versions and Feed; Ordering and Offers prove.
--   Lines       src/core/WatchedLine.h, LinesManager.cpp and the add of LinesController.cpp. Watches and
--               History prove.
--   RemoteInfo  src/core/sipbackend/pjsip/RemoteInfo.cpp; Headers proves.
--   Sessions    src/core/CallSessionTracker.h, CallSessionTracker.cpp.
--   SipUri      src/core/SipUri.cpp.
--   Controller  src/core/CallsController.cpp: Incoming has its slots on the manager's signals and the
--               policy for an incoming call, Actions the commands, Loop the single shots and the
--               histories. Dialing, Ringing, Slots and Screening prove.
--
-- The controller owns the sessions and drives the manager, and the manager drives the backend. The
-- other way goes by events: the backend queues them, the manager handles them and emits signals, and the
-- slots of the controller run on those. An object with state is a record, a method a function from the
-- state to its result and the next state. Signals and notices are logs in the state, a QTimer::singleShot
-- is an entry in a list of armed timers, and a queued call an entry in a queue; histories (run) let them
-- fire in any order. Clock, settings and accounts are arguments, which may differ at each step.
--
-- Ids, status codes and delays are integers without a bound; the program counts its ids in 32 bits and
-- would need 2 ^ 31 calls to wrap. The epoch of the event queue is kept modulo 2 ^ 64. Times are natural
-- numbers of milliseconds. Texts are lists of character codes. Maps are association lists; where the
-- program walks an unordered map (the call that is promoted, the snapshot), the order of the list
-- stands for an order that the program leaves open. Retries count down in the timers. Only the
-- comparison of version suffixes runs on fuel, the sum of their lengths: a turn takes one from the fuel and
-- at least one character from each text.
--
-- Qt's functions on texts, its JSON and its command line parser, files and environment, and the names of
-- recordings are parameters. So are the keychain and the database: Table has the statements that the
-- program runs, and IsTable what SQLite does with them, at each id, as the program's connection sees the
-- rows; a COMMIT may fail. SQLite's rollback of a transaction that was left open, after an error of the
-- disk in a later statement, is not in these laws.
--
-- Not modelled: stream statistics, the engine's configuration, logging, the refresh of list models, and
-- EventDispatch::postDelayed; messages, contacts, settings, the provisioning by a provider, persistence and
-- the UI; the rest of the PJSIP adapter, for which SipBackend stands.
pub mod Base
pub mod Account
pub mod Backend
pub mod Accounts
pub mod Boot
pub mod AccountsController
pub mod Updates
pub mod Lines
pub mod RemoteInfo
pub mod Calls
pub mod Sessions
pub mod SipUri
pub mod Controller
pub mod Tests
