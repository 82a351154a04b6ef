-- ===== src/Lib.antt =====
-- A verification of vmdockerv2, the runtime that runs agents as virtual machines in Docker
-- containers or Docker sandboxes.
--
-- A spawn message names a module by its tags. RuntimeSpecs and ContainerEnv (vmdocker/utils) read
-- the runtime's image, backend and environment from the tags. A runtime manager
-- (vmdocker/runtimemanager) creates, starts, stops and removes one runtime for each process id:
-- Docker is the manager of docker.go, which checks the node (NodeCheck, nodecheck.go), takes a
-- port (Ports, portallocator.go), makes the workspace (Workspace and Env, env.go) and asks the
-- Docker daemon for a container with the configuration of Container. Shell has the quoting of
-- sandbox.go and vmdocker.go and the parser of the replies that curl writes in a sandbox. Sandbox
-- (sandbox.go) is the other manager: it runs the commands of SandboxCli, and keeps a launch spec
-- beside each instance. Tables is what the two managers have in common, instances and ports, with
-- the steps that a caller may rely on. Schema has the records of runtimemanager/schema, Paths what the program uses of path/filepath, and Base
-- the shared types and lemmas.
--
-- Manager is runtimemanager/runtime.go, the interface of the managers and the choice of one;
-- the Interface modules of Docker and Sandbox fill it. Vm is the virtual machine of vmdocker/vmdocker.go over that
-- interface: it creates a runtime, waits for it, calls its endpoints, and launches it again round
-- a checkpoint. Vm's Restore module replaces a running runtime by that of a checkpoint, and brings
-- it back when that fails. LaunchConfig decides what a launch starts; Snapshot and Promotion
-- (env.go) are the text of a workspace's checkpoint, and the swap of a restored workspace into its
-- place. Public (vmdocker/capability/publicmatch.go) compiles the public entries of a profile to
-- regular expressions; Globs is what its entries mean. Collect (vmdocker/capability/collect.go)
-- gathers the files that they select. PublicZip (vmdocker/capability/zip.go) unpacks a module's
-- public files into a fresh workspace, and Archive (vmdocker/utils/zip.go) turns a workspace
-- into the text of a checkpoint and back; both unpack to a Disk. ModuleImages
-- (vmdocker/module_image.go) makes the image of a module available under its name.
--
-- Correspondence. A function or method keeps its name, in snake case. A method that changes a
-- manager is an operation on a `System`, the manager with the world that it runs in; the managers'
-- locks make each call one step, and calls follow one another. What the program calls outside the
-- repository (the operating system, the Docker client) are the fields of `Host`, each with any
-- result and any change of the world; hymx's reader of tags is a section's parameter. Texts are
-- lists of code points. An error keeps its message's identity and its cause, but not the arguments
-- of its format, and logging is left out. Instances are values in the manager's table: the pointer
-- that a caller keeps is read as a copy. The machine of Vm calls HTTP, JSON, files and the clock
-- through the fields of `Wire`; what its readiness loop wakes up on is a list of events that ends
-- at the deadline. Module images and the seeding of a workspace (vmdocker/module_image.go) are an
-- interface there, and the two functions of Archive are parameters of Snapshot and Promotion.
-- Numbers are natural numbers; ports and limits are far from the bounds of Go's integers. A time
-- is a number.
--
-- Loops are recursions on lists, and the search for a port recurs on the number of ports left;
-- none needs fuel.
--
-- Not modelled: requests to a running agent, the packing and the export of public files, the
-- payloads of modules and the seeding of a workspace from them, and module builds. The modes of
-- files are left out. Command lines, configuration files and the signing of modules are input
-- and output or library code.
pub mod Base
pub mod Sandbox
pub mod SandboxCli
pub mod Schema
pub mod Ports
pub mod NodeCheck
pub mod Paths
pub mod Env
pub mod Host
pub mod Snapshot
pub mod Tables
pub mod Vm
pub mod Workspace
pub mod Container
pub mod Docker
pub mod ContainerEnv
pub mod Promotion
pub mod Public
pub mod Collect
pub mod ModuleImages
pub mod Disk
pub mod Archive
pub mod PublicZip
pub mod RuntimeSpecs
pub mod Shell
pub mod LaunchConfig
pub mod Manager
