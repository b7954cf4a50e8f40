-- ===== src/Lib.antt =====
-- A verification library for z8s, a single-node Kubernetes-compatible orchestrator and init process.
--
-- The program keeps the applied resources in a store, dispatches every change to the component of
-- its kind, and lets components act on containers, on the pod network and on volumes. kubectl talks
-- to its API server in JSON or in the protobuf encoding.
--
-- Modules and the files of the repository that they model:
--
-- Base: helpers. Base.Text is text as UTF-8 bytes with what the program uses of `str` (split, parse,
-- starts_with, from_utf8_lossy); Base.Dict a HashMap as the list of its entries in the order in which
-- it is iterated, which is arbitrary; Base.Set a BTreeSet as an ascending list; Base.Checked the
-- fixed-width arithmetic that panics on overflow, as a build with overflow checks does.
--
-- Net.Ipv4 and Net.Pool: src/netmux/pool.rs. An address is its u32 value. `new`, `allocate`,
-- `release`, `count_free`, `expand` and `allocate_subnet` are the methods of `IpPool`; `parse`,
-- `host_count` and `contains` those of `Ipv4Cidr`. A method that can panic returns in `Checked`.
--
-- Net.Mux: src/netmux/mod.rs, the part that owns the pools: `allocate_ip`, `release_ip`,
-- `register_subnet_cidr`, `attach_pod`, `rollback_veth`, `detach_pod`. What the kernel answers to the
-- veth and route calls is an argument (`Links`). Locks, logging, configure_pod_netns and the nftables
-- calls are left out.
--
-- Net.Dns: src/netmux/dns.rs. `parse_name` is a loop of at most 51 rounds, which is the source's own
-- bound (`steps > 50`); `encode_name`, `make_response`, `a_record` and `cname_record` build packets.
-- Net.Dns.Resolve has `parse_service_name` and `resolve_service`, and Net.Dns.Query `handle_query`.
-- `str::to_lowercase`, what `forward` gets from the network and the configured domain are arguments.
--
-- Net.Policies: src/netmux/np_controller.rs and its callers. `labels_match_selector`, `update_pod` and
-- `remove_pod` on the tracked sets, with the calls that replace a set in the kernel as values, and
-- `apply_network_policy` on the controller's sets and the engine.
--
-- Api.Proto: src/api/proto.rs. `Parser` holds the bytes that are left and the position, `read_varint`
-- and `next_field` are the methods, and `while_fields` is the `while let` loop over fields, on fuel:
-- one round for each byte and one more, which always suffices, since a field takes a byte. The
-- decoders of Api.Proto.Resources build the JSON value of Api.Json. Api.Proto.Encode describes the
-- protobuf encoding independently of the program.
--
-- Resource: src/types.rs. `AnyResource` is the sum of the kinds; of each Kubernetes type, which is
-- third-party code, the record holds the fields that the modelled code uses. Resource.Store has the
-- operations of `ResourceStore` on a map from `uid` to `ResourceTracker`.
--
-- Scheduler.Process: src/scheduler/process.rs. The queries of `ProcessTracker`, and
-- `handle_exited_containers`, which works on the running containers, the restart counts and the store
-- and records the tasks that it spawns. Containers are the records of src/cri/runtime.rs.
--
-- Compute.Deployment: src/components/compute/deployment.rs. `reconcile_impl` and `on_apply`; for a
-- deployment with a spec the work is that of `reconcile`. The loop that creates pods runs once for
-- each missing pod, since a round adds one or ends the loop. The random parts of names and whether a
-- pod starts are arguments.
--
-- Storage.Claims: src/components/storage/pvc.rs. `find_matching_pv` and `on_apply`, on the quantities
-- of Resource.Quantity, whose multiplication panics beyond a u64. Storage.Claims.Deletion: `on_delete`,
-- which deletes the volume that the claim is bound to. Storage.Volumes: `on_apply` of a volume in
-- src/components/storage/pv.rs, as `offer`.
--
-- Config: src/config.rs. `alloc_cluster_ip` has the counter as an argument. Config.Args is the loop of
-- `from_args` over the arguments, which ends in a configuration or in the status of the process.
--
-- Net.Nft: src/netmux/nftables.rs. An operation takes the engine's state to the new state and says
-- whether it succeeded; the state keeps the batches of messages that were sent, in their order, and
-- the kernel is a function from these to its answer. The rules' expressions are named after the
-- methods of the rustables crate that build them. Net.Services: src/components/network/service.rs,
-- `NetworkManager`, whose state is the set of proxies and the engine. The port of a container is a
-- natural number where the source casts an i32 with `as u16`: negative ports are left out.
--
-- Net.Security: `apply_nsg` and `apply_vnet` of src/netmux/mod.rs, over the engine. Which addresses a
-- network covers is an argument of the theorems, since the kernel decides it.
--
-- Net.Ingress: src/netmux/ingress.rs from the bytes of a request to the address that is connected to,
-- and the component of src/components/network/ingress.rs with its DNS records.
--
-- Components: src/components/mod.rs. A component and a pipeline stage are records of operations on the
-- program's state, a parameter; the registry is the map by kind. `tick` and `run` are the rounds of
-- src/scheduler/reconciler.rs. Compute.Pod: src/components/compute/pod.rs as such a component, on a
-- state of the store, the running containers and the network; starting and stopping a pod are
-- arguments.
--
-- Net.Mux.Veth: the interface names of a pod in src/netmux/mod.rs and the cleaning of interfaces at
-- startup, for what the kernel lists. Resource.Yaml: `parse_manifest_yaml` of src/types.rs, for what
-- serde_yaml makes of a text. Manifest: src/manifest/watcher.rs, the reading of manifests and the
-- handling of every event; the file system's contents, its events and the paths of the walk at
-- startup are arguments.
--
-- Compute.Spec: of src/components/compute/spec_builder.rs the environment that a container takes from
-- config maps and secrets, `fetch_cms_and_secrets` and `resolve_env_from`.
--
-- Api.Merge: `json_merge_patch` of src/api/server.rs, with which the handlers patch a resource.
--
-- Net.Netlink: the requests of src/netmux/netlink.rs byte by byte, with those of src/netmux/mod.rs that
-- send them, and what is made of the kernel's answers; the kernel is a parameter. Attributes holds a
-- reader of the attributes that is independent of the code.
--
-- Compute.Spec.Volumes: `prepare_volumes`, `resolve_volume_source` and the materialising of config maps
-- and secrets of src/components/compute/spec_builder.rs, and `cleanup_emptydir` of src/cri/volumes.rs;
-- what the file system takes is an argument. Compute.Spec.Paths: `fetch_pvc_hostpaths`.
--
-- Not modelled: sockets, processes, namespaces, mounts, images and file systems, which are the
-- kernel's and third-party code's; the code under retired/, which is not built; the patched copy of
-- rustables under .cargo-patches/.
pub mod Base
pub mod Api
pub mod Components
pub mod Compute
pub mod Config
pub mod Manifest
pub mod Net
pub mod Resource
pub mod Scheduler
pub mod Storage
