-- ===== src/Lib.antt =====
-- The daemon of cirrina, a manager of bhyve virtual machines: `cirrinad`, the part of the
-- repository that keeps state. It has a queue of requests in a database, which its RPC server
-- fills and its loop empties by starting handlers; lists of VMs, disks, ISOs and network
-- interfaces, kept in memory and in the same kind of database; and the code that turns a VM's
-- configuration into a command line for bhyve. The clients (cirrinactl, cirrinaweb) only call the
-- RPC server.
--
-- Which file models what:
--   Util/Name     cirrinad/util/util.go: ValidVMName, ValidDiskName, ValidIsoName, ValidNicName;
--                 names are walked by code points, and the regular expressions are recursive tests
--   Util/Size     cirrinad/util/util.go: parseDiskSizeSuffix, multiplyWillOverflow, ParseDiskSize,
--                 with the wrap-around of uint64 written out
--   Util/Port     cirrinad/util/util.go: parseNetstatSocket, parseNetstatJSONOutput, GetFreeTCPPort,
--                 over decoded JSON (Util/Json)
--   Util/Mac      cirrinad/util/util.go: MacIsBroadcast, MacIsMulticast, with what they use of net
--   Vmnic         cirrinad/vmnic/vm_nics.go: VMNic, ParseMac, Validate, GetMAC; Vmnic/Table the
--                 operations on the table of network interfaces, and BeforeCreate of vmnic/db.go
--   Requests      cirrinad/requests/requests.go and db.go: the rows; Requests/Queue every operation on
--                 them; Requests/Handlers cirrinad/vmops.go, diskWipe of cirrinad/diskops.go and
--                 processRequests of cirrinad/reqproc.go; Requests/Clone nicClone of
--                 cirrinad/nicops.go; Requests/Dispatch the loop together with everything that
--                 changes the queue, as a step relation
--   Vm            cirrinad/vm/vm.go: Config and VM; Vm/Args cirrinad/vm/args.go: the arguments without a
--                 PCI slot, Vm/Args/Slots and Vm/Args/Net those with one, Vm/Args/CommandLine their
--                 order; with getUsedVncPorts, getUsedDebugPorts and getUsedNetPorts of
--                 cirrinad/vm/util.go and GetPath, VerifyExists of cirrinad/disk/disk.go
--   Vm/Lifecycle  cirrinad/vm/vm.go: Start, Stop, Done and the events of monitor; the Set functions of
--                 cirrinad/vm/db.go and the disks' locks of cirrinad/vm/disk.go; Vm/Lifecycle/Cycle the
--                 events as a step relation. A lock is held or not: a second holder waits for ever
--   Vm/Table      cirrinad/vm/vm.go: Exists, Create; GetByID, GetByName and GetRunningVMs of
--                 cirrinad/vm/util.go; BeforeCreate of cirrinad/vm/db.go
--   Vm/Attach     cirrinad/vm/disk.go: AttachDisks, validateDisks, diskAttached; AttachIsos of
--                 cirrinad/vm/iso.go; Vm/Attach/Nics SetNics of cirrinad/vm/nic.go with what it calls
--   Vm/Delete     cirrinad/vm/vm.go: Save, as far as the tables vm_isos and vm_disks go, and Delete
--   Vm/Networking cirrinad/vm/nic.go: netStart and NetStop, over Epair and Switch/Connect
--   Vm/Attachments cirrinad/vm/vm.go: CheckAll, with GetVMIDs of disks, ISOs and NICs
--   Disk          cirrinad/disk/disk.go: validation and the list in memory; Disk/Table the operations
--                 on the table, the list and the backings, and BeforeCreate of cirrinad/disk/db.go;
--                 Disk/Mirror runs of them against an abstract catalogue, a function from IDs
--   Switch        cirrinad/switch/switch.go: names and types; Switch/Table the table with the hooks of
--                 cirrinad/switch/db.go, uplinks, creation and deletion; Switch/Bridges
--                 cirrinad/switch/bridge_if.go and Switch/Netgraph cirrinad/switch/bridge_ng.go, with
--                 the parsers of what ifconfig and ngctl print; Switch/Connect ConnectNic and
--                 DisconnectNic with the rate limits of bridge_if.go
--   Epair         cirrinad/epair/epair.go, and Build and Demolish of cirrinad/vmnic/vm_nics.go
--   Iso           cirrinad/iso/iso.go with BeforeCreate of cirrinad/iso/db.go
--   Strconv       what the daemon uses of Go's strconv and strings; Strconv/Fields Split and Fields
--   Store         what it uses of the database: a table as an interface with laws
--   Prelude       shared types and lemmas
--
-- How they interact: a handler takes a `Store` of requests and an interface for VMs or disks
-- (Requests/Handlers); the command line takes a `Store` of network interfaces, whose rows it
-- updates, the VMs in memory and a `Host`, which holds the answers of the system and of what is
-- not modelled: paths that exist, interfaces, the run of netstat, filepath.Join, disk.GetByID,
-- GetNgDev. The operations on disks take a `Store` of disks and `Backings`, the services for
-- files and volumes; those on switches take `Commands`, the host's ifconfig and ngctl, and a
-- `Store` of switches; those on pairs take `Devices`, more of the same commands, over the same
-- world. What is assumed of ifconfig is a record of laws: BridgeLaws in Switch/Unshared,
-- HostLaws and DestroysWork in Switch/Connect/Removed. AttachDisks and SetNics read the VMs in
-- memory, the list of disks and the table of network interfaces. A Go function that returns an
-- error returns an `Option` or a `Result` here; a state that changes is an argument and a
-- result.
--
-- Bounds and fuel: GetFreeTCPPort tries 2 ^ 16 ports, since a uint16 has no more; getTapDev and
-- getVmnetDev try one number more than there are devices in use; a search that runs out of this
-- fuel goes round for ever in the source. The search for a free netgraph link gets one number
-- more than the bridge has peers, and those for a dummy bridge and a dummy pair go down from
-- 32767, as in the source. Numbers are printed by recursion on the order of the numbers. The
-- other loops go over lists.
--
-- Not modelled: the locks of the lists and of a VM, goroutines (a handler is one step), logging
-- and the log file of a VM, metrics, the commands that build backings, the process supervisor,
-- the rows that Save of a VM updates (whether it succeeds is an argument), the RPC layer,
-- start-up, the clients and generated code. The columns CreatedAt, UpdatedAt and DeletedAt are
-- left out: `rows` are those not deleted.
pub mod Prelude
pub mod Strconv
pub mod Store
pub mod Util
pub mod Vmnic
pub mod Disk
pub mod Iso
pub mod Requests
pub mod Vm
pub mod Switch
pub mod Epair
pub mod Tests
