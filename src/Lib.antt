-- ===== src/Lib.antt =====
-- Verification library of spind, which builds VM images, runs VMs and gives the host access to
-- what runs in them. The parts of the program that are modelled, and where:
--
-- Relay: internal/shared/streamrelay/framed.go, the relay of a byte stream over a transport that
-- cannot shut one direction. Relay.Frame has `readFrame` and the bytes of a frame, Relay.Writer
-- `writeFull` and `writeFrame` over any `io.Writer`, Relay.Pump the loops `copyLocalToFramed` and
-- `copyFramedToLocal`. A writer is a record of its `Write` and what it has taken, so a write may
-- take any part of a buffer and may fail.
-- Disk: internal/spind/diskimage and internal/spind/filecopy/copy_file_sparse_unix.go. Disk.Sparse
-- has the sparse copy with `lseek`'s holes, over files that are lists of bytes; Disk.Mbr the image
-- with its partition table, written by `CreateMBRDisk` and read by `FirstPartition`.
-- Kubeconfig: internal/spind/kubeconfig/mergefile.go. The module Kubeconfig has the documents and
-- the entries of a name; Kubeconfig.Files the file operations behind the lock file, as steps on
-- the files in which every call may fail; Kubeconfig.Paths the paths to choose from. YAML is a
-- pair of functions that are parameters.
-- Memory: internal/spind/vm/create/memory.go and `managerCreateOptions` of run.go beside it.
-- Shell: `posixQuote` and `fishQuote` of internal/spind/up/run.go, against the quoting rules of
-- the shells, which are written out as readers.
-- Project: the same file's `loadProject`, and its VMs of the store: which it owns, marks and deletes.
-- Docker: internal/spind/docker. The published ports of the containers, the reconciliation of the
-- port relay's listeners with them, and the line that asks the guest for a port, which
-- internal/agent/tcpforward parses. Which ports can be opened is a parameter.
-- Snapshot: internal/spind/snapshot/store.go. Snapshot has `Inspect`, over what a directory holds,
-- and Snapshot.Prune `DeleteWithSize` and `Prune`, over the names in the store.
-- Kind: internal/spind/kind/ready_snapshot.go. The published ports of the Kubernetes API, the check
-- of a kubeconfig against them and the kubeconfig generated for a VM, on the documents of Kubeconfig.
-- Vm: internal/spind/vm/start/manager.go and the files beside it, internal/spind/vmstore, the
-- deletion of internal/spind/image/store.go and internal/spind/cli/output/vm_json.go. Vm.Store has
-- the directories of VMs and images, each a list of entries under their names; Vm.Create the
-- creation from an image as a chain of steps on the new directory, each of which may fail; Vm.Config
-- the configurations that are made of an image; Vm.Process the signals and the wait for an exit over
-- a record of system calls; Vm.Cleanup and Vm.Stop the stop on both hypervisors; Vm.Delete the
-- deletions; Vm.Status what is reported, Vm.Listing the list of it and Vm.Json how it is printed.
-- Vm.Invariant has the calls as steps of the two stores, and Vm.Merged `KubeconfigMerge`, which goes
-- from the status to Kubeconfig's merge. Creation and deletion share the stores with the status, and
-- a deletion calls the stop.
-- Name: internal/spind/store/name.go.
-- Text: the parts of Go's `strings` and `strconv` that these use, on the bytes of UTF-8.
-- Prelude: the shared names, numbers, lists and results; Tests: the theorems at concrete inputs.
--
-- Numbers are the natural numbers; where Go has a `uint32` or an `int64` the wrap-around is written
-- out. Strings and files are lists of bytes.
--
-- Bounds and fuel: `writeFull` has the length of its buffer as fuel, since each round takes a byte;
-- `copyFramedToLocal` has the length of the stream, since each frame takes five; a sparse copy has
-- one round for each byte of the range, and one more. The wait for an exit has the milliseconds of
-- its timeout, and one more, since a turn sleeps for 100 of them. Running out of fuel is ruled out
-- where it matters: the results on these loops give the outcome without error, or the equation of the loop.
--
-- Not modelled: the processes, sockets and services that are only called (cloud-hypervisor, vz, ssh,
-- docker, kind), the command line and its tables, the start of a VM and its creation from a snapshot,
-- the build of images, the making of snapshots, the search for a project's file, its snapshots and
-- its provisioning, and the agent's connections in the guest. The content of the files of a VM but
-- its JSON files is not modelled in Vm. `RelayFramed` itself, which runs the two loops in goroutines,
-- is not modelled beyond the loops.
mod Prelude
pub mod Project
pub mod Relay
pub mod Disk
pub mod Text
pub mod Name
pub mod Shell
pub mod Memory
pub mod Kubeconfig
pub mod Docker
pub mod Snapshot
pub mod Vm
pub mod Kind
mod Tests
