-- ===== src/Lib.antt =====
-- JappeOS core: the main loop of the daemon (src/application.cpp), its sessions, drivers, network,
-- power and installer (src/services/), what holds its services together (src/services/service.h,
-- src/event.h) and its wrapper of D-Bus (src/dbus/).
--
-- The main loop starts the services and hands each message of the bus to the connection, which
-- finds the object, the interface and the method or property for a method call, or the handlers of
-- a signal; what is not handled goes to the service with the name of the interface.
-- The session manager starts the greeter and, for a client that the greeter's user or root runs,
-- the sessions of users: a PAM transaction, a registration with logind and a session host process
-- for each. The power, network and other services ask it who may call them. The driver manager
-- installs the packages of drivers on a thread of its own, when the network is there. The network
-- manager service shows the devices, connections and access points of NetworkManager as objects on
-- the bus, and answers a client's request for a Wi-Fi connection with a number, whose result is a
-- signal later. A client of the installer creates an install plan, which is validated and stored
-- under a random number, and may cancel it or begin it; beginning hands the stored data to the
-- install controller, whose worker thread runs the installation steps one after the other and
-- reports to the main loop.
--
--   Sessions/Data, Processes, Lifecycle
--                         src/services/session_manager/session_manager_service.cpp: the state, the
--                         World of PAM, logind and processes, and what starts and ends a session
--   Sessions/Requests, Signals
--                         its methods, SharedPolicy, and the signals of systemd and of children
--   Sessions/Triple, Leaders, Stability, Balance, Payment, Ends, Creation, Account
--                         what each operation does to the account of open and closed resources
--   Sessions/Depth, Descent
--                         how often StopSession calls itself
--   Sessions/History, Access, Greeter
--                         histories of calls, who may call, and the end of the greeter
--   Drivers/Data, Install src/services/driver_manager/driver_manager_service.cpp: the list of
--                         drivers, the search for devices, and a run of the installation
--   Drivers/Worker        the thread and the connections that wake it, as single moves
--   Drivers/Fingerprint   the fingerprint of the hardware, with its file
--   Drivers/Orderly, Success, Remembered
--                         what a run does, what it reports, and what the file remembers
--   Network/Data, Texts, AccessPoints, Pending, Devices, Wifi
--                         src/services/network_manager/network_manager_service.cpp: the state, the
--                         access points, the pending requests, the devices with their connections,
--                         and WifiConnect
--   Network/History       its callbacks and methods, in any order
--   Network/Results, Numbers, Answers, Handlers, Callbacks, Once
--                         the numbers of requests
--   Network/Mirror, Shown, Kept, Followed, Stale
--                         what its signals tell, and a connection that stays
--   Power/Devices, Removed
--                         src/services/power_manager/power_manager_service.cpp: the batteries, and
--                         the calls that turn the machine off
--   Application/Lifecycle Run, CleanUp and FailFastFatalError of src/application.cpp
--   Application/Messages  Update, with what it hands to the connection and the services; Order is
--                         about the order of the messages
--   Bus/Subscriptions, Rules
--                         SignalSubscription and HandleSignal (src/dbus/dbus_wrapper.cpp), and the
--                         match rules on the bus
--   Bus/Variant           what a variant in a message may hold (src/dbus/dbus_wrapper.h)
--   Bus/Objects, Dispatch Interface, Object and HandleMessage (src/dbus/dbus_wrapper.cpp), each
--                         with a child for the replies
--   Bus/Prop              Prop of a text, and the client's side of it (src/dbus/dbus_wrapper.h)
--   Bus/ObjectPath, Pieces, Encoding
--                         ObjectPath and InterfaceName (src/dbus/dbus_wrapper.cpp), and
--                         EncodeForObjectPath of the network manager service
--   Installer/Data        src/services/installer/install_data.h, installer_def.h: the records
--   Installer/Exception   the exceptions that installer_service.cpp throws
--   Installer/Storage     ValidateInstallStorageData*, with a child for the loop that merges free
--                         space (Merge), the iterator of find_if (Cursor), the five operations
--                         (Operations), the three modes (Validate), and the laws (Conservation,
--                         Mounts, Safety, Accepts)
--   Installer/Names       IsValidHostname and IsValidUsername, over a matcher for their patterns
--   Installer/Plan        ValidateInstallData, OnCreateInstallPlan, OnCancelInstallPlan,
--                         OnBeginInstallation, as functions on the state of the service
--   Installer/Request     the decoding of the message in OnCreateInstallPlan, with a child for what
--                         a client has to send (Wire), and one for a plan from its message to
--                         its start (Begun)
--   Installer/Controller  install_controller.cpp as a relation of moves with one access of shared
--                         state each, with children for what always holds (Invariant) and for a
--                         cancel request (Cancelling)
--   Installer/Steps       the steps that format, mount and clean up (src/services/installer/steps/),
--                         on what CommandRunner::Run ends with (src/utils/command_runner.cpp)
--   Installer/Partitioning  PartitionStep (steps/partition_step.cpp): the view of the partition
--                         table, the custom mode (Custom) with what it leaves for the next steps
--                         (Targets), and the manual mode (Manual)
--   Services/Manager      ServiceManager: registration and the destructor (Lifetime)
--   Services/Event        Event: handlers under numbers
--   Prelude               shared names, fallible code, lists, text, uint64_t arithmetic
--   Tests of a part       the theorems at concrete inputs, and runs of the model
--
-- Exceptions are values: a D-Bus error name with a reason, one constructor for each throw, in place
-- of the text; the dereference of a null pointer is an error of the model. Sizes are natural
-- numbers with the wrap-around of uint64_t written out; an int64_t is kept as its bit pattern. A
-- std::map is an association list of its values. An unordered_map is the list of its entries with
-- the newest first, since the order in which it is gone through is not specified. Most loops are
-- recursions on the list they walk. StopSession, which ends the session of a child by calling
-- itself, is given two levels, and Sessions/Descent is about what more would do; the retries of the
-- driver manager are bounded by its constant.
--
-- Update is given as many turns of its loop as there are messages, in the queue of libdbus and on
-- the socket; those that come meanwhile are for the next call.
--
-- Parameters: what libdbus reads at a time (with the order it keeps, Reads of
-- Application/Messages/Order), the outcome of poll and the callbacks of GLib, the methods and
-- callbacks of the services as seen by the main loop (Daemon), PAM, logind, systemd and the
-- processes (World of Sessions), pacman, sysfs, std::regex and the value of _stopping at each look
-- (Machine of Drivers), libnm (the arguments of the events of Network, and the answers to its
-- calls), UPower, the account database (getpwnam), the random plan number, the machine that runs
-- commands and answers for the file system, the types that derive from LoggerService, the names and messages of the steps, and libparted
-- (the records Parted, on an abstract disk, and Disks).
--
-- Not modelled: the connection to the bus, the proxies and the types of arguments but texts and
-- variants, GLib's main loop (calls queued there are a list), the stack trace of a failure,
-- udev and the scan of the disks, logging, the addresses and the signal strength
-- of connections and the Ethernet methods, the properties of a battery, the session host, and the
-- account, audio and locale services and the watchdog of the daemon.
pub mod Prelude
pub mod Application
pub mod Installer
pub mod Services
pub mod Sessions
pub mod Drivers
pub mod Bus
pub mod Network
pub mod Power
